-- ===== src/Policy/Defs.antt =====
-- `check_ssh_tunnel` and `check_ssh_tunnels`. The pipes of a child are left out.
use smart_socksproxy.Base.{
  ℕ, zero, suc, ◌+◌, Bool, true, false, not, ◌&&◌, ◌||◌, Option, none, some, List, [], ◌∷◌, map,
  ltb, ◌==◌, if◌then◌else◌, ℤ, pos, negsuc,
}
use smart_socksproxy.Tunnel.{SshTunnel, ssh_tunnel_direct, ssh_tunnel_null}
use smart_socksproxy.Connection.{ClientConnection}

-- The loops over the tunnels that a pointer, an id, leads to.
unfoldable pub bump_mark : ℕ → List SshTunnel → List SshTunnel
bump_mark id [] = []
bump_mark id (ssh ∷ list) =
    (if ssh.id == id then record ssh { mark = ssh.mark + 1 } else ssh) ∷ bump_mark id list

unfoldable pub bump_use : ℕ → List SshTunnel → List SshTunnel
bump_use id [] = []
bump_use id (ssh ∷ list) =
    (if ssh.id == id
      then record ssh { mark = ssh.mark + 1; connection_count = ssh.connection_count + 1 }
      else ssh)
    ∷ bump_use id list

unfoldable pub reset : List SshTunnel → List SshTunnel
reset [] = []
reset (ssh ∷ list) = record ssh { mark = 0; connection_count = 0 } ∷ reset list

-- All the tunnels of a route.
unfoldable pub mark_each : List ℕ → List SshTunnel → List SshTunnel
mark_each [] list = list
mark_each (id ∷ ids) list = mark_each ids (bump_mark id list)

-- A connection with a route marks the tunnel that it uses, or all that it may use.
unfoldable pub mark_connection : ClientConnection → List SshTunnel → List SshTunnel
mark_connection con list = elim con.route [
  | none ↦ list
  | some route ↦ elim con.tunnel [ some id ↦ bump_use id list | none ↦ mark_each route.tunnel list ]
]

-- The connections of all proxies, one after another.
unfoldable pub mark_connections : List ClientConnection → List SshTunnel → List SshTunnel
mark_connections [] list = list
mark_connections (con ∷ cons) list = mark_connections cons (mark_connection con list)

-- What `waitpid(pid, …, WNOHANG)` says of the child.
pub data Wait : Type 0 where
  still_running : Wait
  exited : Wait
  wait_failed : Wait

-- The time, `waitpid`, and the pid that `fork` gives the parent for a tunnel (none: it fails).
pub record Env : Type 0 where
  pub now : ℕ
  pub wait : ℤ → Wait
  pub fork : SshTunnel → Option ℕ

-- `ssh->pid > 0`
abbrev pub has_pid : ℤ → Bool
has_pid (pos zero) = false
has_pid (pos (suc n)) = true
has_pid (negsuc n) = false

-- `is_running`, once `waitpid` has been asked.
abbrev pub is_running : Env → SshTunnel → Bool
is_running env ssh =
    has_pid ssh.pid
    && elim (env.wait ssh.pid) [ still_running ↦ true | exited ↦ false | wait_failed ↦ false ]

-- What is left of the record when the child was looked at: the time of the last report, at most
-- every ten seconds, or no pid.
abbrev pub looked_at : Env → SshTunnel → SshTunnel
looked_at env ssh =
    if has_pid ssh.pid
    then elim (env.wait ssh.pid) [
      | still_running ↦
          if ltb env.now (ssh.last_update_time + 10)
          then ssh
          else record ssh { last_update_time = env.now }
      | exited ↦ record ssh { pid = negsuc 0 }
      | wait_failed ↦ ssh
    ]
    else ssh

abbrev pub forked : Env → SshTunnel → SshTunnel
forked env ssh = elim (env.fork ssh) [
  | none ↦ record ssh { pid = negsuc 0 }
  | some pid ↦ record ssh { pid = pos pid; start_time = env.now }
]

-- Whether `fork` is called, and the record.
unfoldable pub check_ssh_tunnel : Env → SshTunnel → Bool × SshTunnel
check_ssh_tunnel env ssh =
    let ssh' = looked_at env ssh in
    if not (is_running env ssh) && ltb 0 ssh.mark && not (ltb env.now (ssh.start_time + 2))
    then (true, forked env ssh')
    else (false, ssh')

abbrev pub check_unless_special : Env → SshTunnel → Bool × SshTunnel
check_unless_special env ssh =
    if ssh.id == ssh_tunnel_direct || ssh.id == ssh_tunnel_null
    then (false, ssh)
    else check_ssh_tunnel env ssh

unfoldable pub check_ssh_tunnels :
    Env → List ClientConnection → List SshTunnel → List (Bool × SshTunnel)
check_ssh_tunnels env cons list =
    map (check_unless_special env) (mark_connections cons (reset list))

-- How often a number stands in a list.
abbrev pub occurrences : ℕ → List ℕ → ℕ
occurrences id [] = 0
occurrences id (n ∷ ns) = (if id == n then 1 else 0) + occurrences id ns

-- How much a connection asks for a tunnel: once where it uses it, as often as its route names it
-- where it uses none yet, and not at all before it has a route.
abbrev pub asks : ClientConnection → ℕ → ℕ
asks con id = elim con.route [
  | none ↦ 0
  | some route ↦ elim con.tunnel [
    | some t ↦ if id == t then 1 else 0
    | none ↦ occurrences id route.tunnel
  ]
]

abbrev pub uses : ClientConnection → ℕ → ℕ
uses con id = elim con.route [
  | none ↦ 0
  | some route ↦ elim con.tunnel [ some t ↦ if id == t then 1 else 0 | none ↦ 0 ]
]

-- The sums over all connections.
abbrev pub demand : List ClientConnection → ℕ → ℕ
demand [] id = 0
demand (con ∷ cons) id = asks con id + demand cons id

abbrev pub use_of : List ClientConnection → ℕ → ℕ
use_of [] id = 0
use_of (con ∷ cons) id = uses con id + use_of cons id
