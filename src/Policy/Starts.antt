-- ===== src/Policy/Starts.antt =====
-- When a tunnel is started.
use smart_socksproxy.Base.{
  ℕ, ◌+◌, ◌≤◌, ◌<◌, ◌≡◌, refl, ◌↔◌, inl, inr, true, false, not, ◌&&◌, some, ltb, Bool-cases, arith,
}
use smart_socksproxy.Tunnel.{SshTunnel}
use smart_socksproxy.Policy.Defs.{Env, is_running, looked_at, forked, check_ssh_tunnel}

-- A tunnel is started exactly when it is asked for, does not run, and was not started in the last
-- two seconds.
pub check_ssh_tunnel_iff :
    (env : Env) (ssh : SshTunnel)
    → ((check_ssh_tunnel env ssh).0 ≡ true)
      ↔ ((is_running env ssh ≡ false) × (0 < ssh.mark) × (ssh.start_time + 2 ≤ env.now))
unfolding check_ssh_tunnel
check_ssh_tunnel_iff env ssh = elim (Bool-cases (is_running env ssh)) [
  | inl runs ↦ rw runs (λ e. absurd (cc e), λ p. absurd (cc (p.0)))
  | inr stopped ↦ elim (Bool-cases (ltb 0 ssh.mark)) [
    | inl asked ↦ elim (Bool-cases (ltb env.now (ssh.start_time + 2))) [
      | inl early ↦
          rw (stopped, asked, early) (λ e. absurd (cc e), λ p. absurd (ground (arith, early, p.2)))
      | inr late ↦ rw (stopped, asked, late) (λ e. (refl, ground arith, ground arith), λ p. refl)
    ]
    | inr idle ↦ rw (stopped, idle) (λ e. absurd (cc e), λ p. absurd (ground (arith, idle, p.1)))
  ]
]

forked_at :
    (env : Env) (ssh : SshTunnel) (pid : ℕ)
    → env.fork ssh ≡ some pid
    → (forked env ssh).start_time ≡ env.now
forked_at env ssh pid f = rw (f, forked)

started_at :
    (env : Env) (ssh : SshTunnel) (pid : ℕ)
    → (check_ssh_tunnel env ssh).0 ≡ true
    → env.fork (looked_at env ssh) ≡ some pid
    → (check_ssh_tunnel env ssh).1.start_time ≡ env.now
unfolding check_ssh_tunnel
started_at env ssh pid e f =
    elim (Bool-cases
      (not (is_running env ssh) && ltb 0 ssh.mark && not (ltb env.now (ssh.start_time + 2)))) [
        | inl go ↦ rw go (forked_at env (looked_at env ssh) pid f)
        | inr stay ↦ absurd (cc (rw stay at e))
      ]

-- A tunnel whose process was just started (`fork` has given its pid) is not started again before two
-- seconds have passed, even if the child has died.
pub check_ssh_tunnel-throttled :
    (env env' : Env) (ssh : SshTunnel) (pid : ℕ)
    → (check_ssh_tunnel env ssh).0 ≡ true
    → env.fork (looked_at env ssh) ≡ some pid
    → env'.now < env.now + 2
    → (check_ssh_tunnel env' (check_ssh_tunnel env ssh).1).0 ≡ false
check_ssh_tunnel-throttled env env' ssh pid e f h =
    let again = check_ssh_tunnel env' (check_ssh_tunnel env ssh).1 in
    elim (Bool-cases again.0) [
      | inl twice ↦ absurd (
          omega (
            arith,
            ((check_ssh_tunnel_iff env' (check_ssh_tunnel env ssh).1).0 twice).2,
            started_at env ssh pid e f,
          ))
      | inr once ↦ once
    ]
