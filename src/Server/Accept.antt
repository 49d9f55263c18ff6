-- ===== src/Server/Accept.antt =====
-- One turn of the main loop: what `poll` reports is looked at, connections are accepted and cleaned
-- up, tunnels are started, the state is given to those who ask for it, and logs are rotated.
use smart_socksproxy.Base.{
  ℕ, suc, Bool, true, not, ◌&&◌, ◌||◌, Option, none, some, List, [], ◌∷◌, ◌++◌, Bytes, ◌==◌,
  if◌then◌else◌, ℤ, pos,
}
use smart_socksproxy.Host.{SockaddrIn, host_id_init, host_id_set_addr_in}
use smart_socksproxy.Tunnel.{SshTunnel}
use smart_socksproxy.Connection.{ClientConnection, new_client_connection}
use smart_socksproxy.Service.{Service}
use smart_socksproxy.Proxy.{ProxyInstance}
use smart_socksproxy.Policy.{Env}
use smart_socksproxy.LogFile.{LogFile, Files}
use smart_socksproxy.Pool.{kept}
use smart_socksproxy.Json.{Build}
use smart_socksproxy.Server.Poll.{Piped, Revents}

-- `undefined` is a read outside the array for `poll`.
pub data Turn {ℓ} (A : Type ℓ) : Type ℓ where
  going : A → Turn A
  exits : Turn A
  undefined : Turn A

infixl 5 ◌>>=◌ ◌>>◌
abbrev pub ◌>>=◌ {ℓ κ} : {A : Type ℓ} {B : Type κ} → Turn A → (A → Turn B) → Turn B
going a >>= f = f a
exits >>= f = exits
undefined >>= f = undefined

abbrev pub ◌>>◌ {ℓ} : {B : Type ℓ} → Turn (Unit {0}) → Turn B → Turn B
m >> k = m >>= λ _. k

abbrev pub or_exit {ℓ} : {A : Type ℓ} → Option A → Turn A
or_exit none = exits
or_exit (some a) = going a

-- The calls that start a thread, each with what it returns.
pub record Launch : Type 0 where
  pub attr_init : ℕ
  pub attr_setdetachstate : ℕ
  pub create : ℕ

-- What a turn meets: the flags of `poll`, what `accept` and the start of a thread give for a service,
-- whether `read` from a pipe succeeds, the time, the pipes that a tunnel has after it was looked at,
-- and what the other parts take.
pub record Around : Type 0 where
  pub ulimit : ℕ
  pub msg_fd : ℤ
  pub revents : ℕ → Revents
  pub accept : Service → Option (ℕ × SockaddrIn)
  pub launch : Service → Launch
  pub reads : ℤ → Bool
  pub now : ℕ
  pub pipes : SshTunnel → ℤ × ℤ
  pub policy : Env
  pub ntop : Bytes → Bytes
  pub ntop6 : Bytes → Bytes
  pub realloc : ℕ → Bool
  pub malloc : Bool
  pub build : Build
  pub rename_allowed : Bytes → Bytes → Bool
  pub close : ℤ → Bool

pub record State : Type 0 where
  pub proxies : List ProxyInstance
  pub tunnels : List Piped
  pub id_pool : ℕ
  pub proxy_start_time : ℕ
  pub default_size : ℕ
  pub logs : List LogFile
  pub files : Files

-- The services of all proxies.
abbrev pub services : List ProxyInstance → List Service
services [] = []
services (proxy ∷ proxies) = proxy.service_list ++ services proxies

-- An error on a pipe of a tunnel ends the program; what the tunnel writes is read and logged.
unfoldable pub check_pipe : Option Revents → Bool → Turn (Unit {0})
check_pipe found reads = elim found [
  | none ↦ going tt
  | some r ↦ if r.err || r.nval || (r.rdnorm && not reads) then exits else going tt
]

unfoldable pub check_pipes : (ℤ → Option Revents) → (ℤ → Bool) → List Piped → Turn (Unit {0})
unfolding check_pipe
check_pipes revents reads [] = going tt
check_pipes revents reads (p ∷ ps) = do
  check_pipe (revents p.parent_stdout_fd) (reads p.parent_stdout_fd)
  check_pipe (revents p.parent_stderr_fd) (reads p.parent_stderr_fd)
  check_pipes revents reads ps

-- Messages of threads only wake up the loop.
unfoldable pub check_msg : Option Revents → Turn (Unit {0})
check_msg found = elim found [
  | none ↦ going tt
  | some r ↦ if r.err || r.hup || r.nval then exits else going tt
]

-- A thread that cannot be started has ended.
unfoldable pub launch_thread : Launch → ClientConnection → ClientConnection
launch_thread l con =
    if l.attr_init == 0 && l.attr_setdetachstate == 0 && l.create == 0
    then con
    else record con { thread_has_exited = true }

unfoldable pub accept_connection : Around → ℕ → Service → Option ClientConnection
accept_connection a id_pool srv = elim (a.accept srv) [
  | none ↦ none
  | some (fd, addr) ↦ some (record (new_client_connection (suc id_pool) a.now) {
    fd_in = pos fd;
    src_host = host_id_set_addr_in host_id_init addr;
  })
]

-- The connections of a proxy, and `id_pool`.
abbrev pub Accepting : Type 0
Accepting = List (Service × ClientConnection) × ℕ

unfoldable pub accept_service : Around → Service → Accepting → Accepting
unfolding accept_connection launch_thread
accept_service a srv (cons, id_pool) = elim (accept_connection a id_pool srv) [
  | none ↦ (cons, id_pool)
  | some con ↦ ((srv, launch_thread (a.launch srv) con) ∷ cons, suc id_pool)
]

unfoldable pub check_service : Around → Option Revents → Service → Accepting → Turn Accepting
unfolding accept_service
check_service a found srv acc = elim found [
  | none ↦ undefined
  | some r ↦
      if r.err || r.hup || r.nval
      then exits
      else if r.pri || r.rdband || r.rdnorm
      then going (accept_service a srv acc)
      else going acc
]

unfoldable pub check_services :
    Around → (ℤ → Option Revents) → List Service → Accepting → Turn Accepting
unfolding check_service
check_services a revents [] acc = going acc
check_services a revents (srv ∷ srvs) acc = do
  acc' ← check_service a (revents srv.fd) srv acc
  check_services a revents srvs acc'

unfoldable pub check_proxies :
    Around → (ℤ → Option Revents) → List ProxyInstance → ℕ → Turn (List ProxyInstance × ℕ)
unfolding check_services
check_proxies a revents [] id_pool = going ([], id_pool)
check_proxies a revents (proxy ∷ proxies) id_pool = do
  (cons, id_pool') ←
      check_services a revents proxy.service_list (proxy.client_connection_list, id_pool)
  (proxies', id_pool'') ← check_proxies a revents proxies id_pool'
  going (record proxy { client_connection_list = cons } ∷ proxies', id_pool'')

-- What `cleanup_connections` leaves of each list.
abbrev pub cleaned : ℕ → List ProxyInstance → List ProxyInstance
cleaned now [] = []
cleaned now (proxy ∷ proxies) =
    record proxy { client_connection_list = kept now proxy.client_connection_list }
    ∷ cleaned now proxies
