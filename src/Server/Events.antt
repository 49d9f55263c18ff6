-- ===== src/Server/Events.antt =====
-- The array for `poll` does its work: each descriptor is looked at by its own flags.
use mathlib.Core.Path.{fun_ext}
use smart_socksproxy.Base.{
  ℕ, ◌≤◌, ◌≡◌, refl, ap, ◌∙◌, Bool, true, ◌||◌, Option, none, some, List, [], ◌∷◌, ◌++◌, length, ℤ,
  pos, negsuc, eq_ℤ_iff, arith,
}
use smart_socksproxy.Service.{Service}
use smart_socksproxy.Proxy.{ProxyInstance}
use smart_socksproxy.Server.Poll.{
  Piped, Revents, watched, listening, pipes, revents_at, find_pfd, get_elem?, mem, revents_at_lem,
  set_each_fits,
}
use smart_socksproxy.Server.Accept.{
  Turn, ◌>>=◌, ◌>>◌, Around, State, services, Accepting, check_pipe, check_pipes, check_service,
  check_services, check_proxies,
}
use smart_socksproxy.Server.Loop.{after_poll, server_turn}

-- What happens on a descriptor, if it is one.
abbrev pub on_descriptor : (ℤ → Revents) → ℤ → Option Revents
on_descriptor event (pos n) = some (event (pos n))
on_descriptor event (negsuc n) = none

mem-append : (fd : ℤ) (xs ys : List ℤ) → mem fd (xs ++ ys) ≡ (mem fd xs || mem fd ys)
mem-append fd [] ys = refl
mem-append fd (x ∷ xs) ys = ground (arith, mem-append fd xs ys)

mem_self : (fd : ℤ) (xs : List ℤ) → mem fd (fd ∷ xs) ≡ true
mem_self fd xs = rw ((eq_ℤ_iff fd fd).1 refl) refl

listening-append : (xs ys : List Service) → listening (xs ++ ys) ≡ listening xs ++ listening ys
listening-append [] ys = refl
listening-append (x ∷ xs) ys = ap (λ l. x.fd ∷ l) (listening-append xs ys)

module _ (f g : ℤ → Option Revents) where
  check_pipes-eq :
      (reads : ℤ → Bool) (ps : List Piped)
      → ((fd : ℤ) → mem fd (pipes ps) ≡ true → f fd ≡ g fd)
      → check_pipes f reads ps ≡ check_pipes g reads ps
  unfolding check_pipes
  check_pipes-eq reads [] same = refl
  check_pipes-eq reads (p ∷ ps) same =
      let e1 =
        same p.parent_stdout_fd (mem_self p.parent_stdout_fd (p.parent_stderr_fd ∷ pipes ps)) in
      let e2 = same p.parent_stderr_fd (ground (arith, mem_self p.parent_stderr_fd (pipes ps))) in
      rw (e1, e2)
        (ap
          (λ k.
            check_pipe (g p.parent_stdout_fd) (reads p.parent_stdout_fd)
            >> (check_pipe (g p.parent_stderr_fd) (reads p.parent_stderr_fd) >> k))
          (check_pipes-eq reads ps (λ fd h. same fd (ground (arith, h)))))

  check_services-eq :
      (a : Around) (srvs : List Service) (acc : Accepting)
      → ((fd : ℤ) → mem fd (listening srvs) ≡ true → f fd ≡ g fd)
      → check_services a f srvs acc ≡ check_services a g srvs acc
  unfolding check_services
  check_services-eq a [] acc same = refl
  check_services-eq a (srv ∷ srvs) acc same = rw (same srv.fd (mem_self srv.fd (listening srvs))) (
      ap (λ (k : Accepting → Turn Accepting). check_service a (g srv.fd) srv acc >>= k)
        (fun_ext λ acc'. check_services-eq a srvs acc' (λ fd h. same fd (ground (arith, h)))))

  check_proxies-eq :
      (a : Around) (proxies : List ProxyInstance) (id_pool : ℕ)
      → ((fd : ℤ) → mem fd (listening (services proxies)) ≡ true → f fd ≡ g fd)
      → check_proxies a f proxies id_pool ≡ check_proxies a g proxies id_pool
  unfolding check_proxies
  check_proxies-eq a [] id_pool same = refl
  check_proxies-eq a (proxy ∷ proxies) id_pool same =
      let here =
        check_services-eq a proxy.service_list (proxy.client_connection_list, id_pool)
          (λ fd h. same fd (rw (split fd) (rw h refl))) in
      rw here (
        ap
          (λ (k : Accepting → Turn (List ProxyInstance × ℕ)).
            check_services a g proxy.service_list (proxy.client_connection_list, id_pool) >>= k)
          (fun_ext λ x.
            rw
              (check_proxies-eq a proxies x.1 (λ fd h. same fd (rw (split fd) (ground (arith, h)))))
              refl))
    where
      split :
          (fd : ℤ)
          → mem fd (listening (proxy.service_list ++ services proxies))
            ≡ (mem fd (listening proxy.service_list) || mem fd (listening (services proxies)))
      split fd =
          ap (mem fd) (listening-append proxy.service_list (services proxies))
          ∙ mem-append fd (listening proxy.service_list) (listening (services proxies))

after_poll-eq :
    (f g : ℤ → Option Revents) (a : Around) (s : State)
    → ((fd : ℤ) → mem fd (watched a.msg_fd (services s.proxies) s.tunnels) ≡ true → f fd ≡ g fd)
    → after_poll a f s ≡ after_poll a g s
unfolding after_poll
after_poll-eq f g a s same =
    let ours = listening (services s.proxies) in
    let e1 = same a.msg_fd (mem_self a.msg_fd (ours ++ pipes s.tunnels)) in
    let e2 =
      check_proxies-eq f g a s.proxies s.id_pool
        (λ fd h. same fd (ground (arith, h, mem-append fd ours (pipes s.tunnels)))) in
    let e3 =
      check_pipes-eq f g a.reads s.tunnels
        (λ fd h. same fd (ground (arith, h, mem-append fd ours (pipes s.tunnels)))) in
    rw (e1, e2, e3) refl

-- A descriptor that is watched, or none, is found by its flags.
found_event :
    (pfd : List ℤ) (revents : ℕ → Revents) (event : ℤ → Revents) (fd : ℤ)
    → ((i : ℕ) (fd : ℤ) → get_elem? pfd i ≡ some fd → revents i ≡ event fd)
    → mem fd pfd ≡ true
    → revents_at pfd revents fd ≡ on_descriptor event fd
unfolding find_pfd
found_event pfd revents event (pos n) reports h = revents_at_lem pfd revents event n reports h
found_event pfd revents event (negsuc n) reports h = refl

-- The turn by what happens on the descriptors, wherever they stand in the array.
pub server_turn-on_descriptor :
    (a : Around) (s : State) (event : ℤ → Revents)
    → length (watched a.msg_fd (services s.proxies) s.tunnels) ≤ a.ulimit
    → ((i : ℕ) (fd : ℤ)
        → get_elem? (watched a.msg_fd (services s.proxies) s.tunnels) i ≡ some fd
        → a.revents i ≡ event fd)
    → server_turn a s ≡ after_poll a (on_descriptor event) s
unfolding server_turn
server_turn-on_descriptor a s event fits reports =
    let pfd = watched a.msg_fd (services s.proxies) s.tunnels in
    rw (set_each_fits a.ulimit [] pfd (omega arith)) (
      after_poll-eq (revents_at pfd a.revents) (on_descriptor event) a s
        (λ fd h. found_event pfd a.revents event fd reports h))
