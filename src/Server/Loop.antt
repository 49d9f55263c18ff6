-- ===== src/Server/Loop.antt =====
-- The requests for the state, the rotation of logs, and the whole turn.
use smart_socksproxy.Base.{
  Bool, true, false, not, ◌&&◌, ◌||◌, Option, none, some, List, [], ◌∷◌, ◌++◌, map, Bytes,
  if◌then◌else◌, ℤ,
}
use smart_socksproxy.Tunnel.{SshTunnel}
use smart_socksproxy.Connection.{ClientConnection}
use smart_socksproxy.Service.{Service}
use smart_socksproxy.Proxy.{ProxyInstance}
use smart_socksproxy.Policy.{check_ssh_tunnels}
use smart_socksproxy.LogFile.{LogFile, Files, log_file_rotate}
use smart_socksproxy.Json.{Buf, build_json}
use smart_socksproxy.Server.Poll.{Piped, Revents, set_each, watched, revents_at}
use smart_socksproxy.Server.Accept.{
  Turn, going, ◌>>=◌, ◌>>◌, or_exit, Around, State, services, check_pipes, check_msg, check_proxies,
  cleaned,
}

abbrev pub is_pending : ClientConnection → Bool
is_pending con = con.json_status_requested && not con.json_status_ready

abbrev pub any_pending : List (Service × ClientConnection) → Bool
any_pending [] = false
any_pending ((srv, con) ∷ cons) = is_pending con || any_pending cons

unfoldable pub need_json : List ProxyInstance → Bool
need_json [] = false
need_json (proxy ∷ proxies) = any_pending proxy.client_connection_list || need_json proxies

unfoldable pub answer : Option Bytes → ClientConnection → ClientConnection
answer json con =
    if is_pending con then record con { json_status_str = json; json_status_ready = true } else con

unfoldable pub answer_each :
    Option Bytes → List (Service × ClientConnection) → List (Service × ClientConnection)
unfolding answer
answer_each json [] = []
answer_each json ((srv, con) ∷ cons) = (srv, answer json con) ∷ answer_each json cons

unfoldable pub answer_all : Option Bytes → List ProxyInstance → List ProxyInstance
unfolding answer_each
answer_all json [] = []
answer_all json (proxy ∷ proxies) =
    record proxy { client_connection_list = answer_each json proxy.client_connection_list }
    ∷ answer_all json proxies

abbrev pub tunnels_of : List Piped → List SshTunnel
tunnels_of [] = []
tunnels_of (p ∷ ps) = p.tunnel ∷ tunnels_of ps

abbrev pub text_of : Option Buf → Option Bytes
text_of none = none
text_of (some b) = some b.text

abbrev pub state_json : Around → State → Option Buf
state_json a s =
    build_json a.ntop a.ntop6 (tunnels_of s.tunnels) a.realloc a.malloc s.default_size a.build a.now
      s.proxy_start_time s.proxies

-- The state is written once, if anyone asks for it, and copied to all who do.
unfoldable pub answer_requests : Around → State → State
unfolding need_json answer_all
answer_requests a s =
    if need_json s.proxies
    then record s {
      proxies = answer_all (text_of (state_json a s)) s.proxies;
      default_size = elim (state_json a s) [ none ↦ s.default_size | some b ↦ b.size ];
    }
    else s

unfoldable pub rotate_each :
    (Bytes → Bytes → Bool) → (ℤ → Bool) → List LogFile → Files → Option (List LogFile × Files)
rotate_each allowed close [] files = some ([], files)
rotate_each allowed close (log ∷ logs) files = elim (log_file_rotate allowed close log files) [
  | none ↦ none
  | some (log', files') ↦ elim (rotate_each allowed close logs files') [
    | none ↦ none
    | some (logs', files'') ↦ some (log' ∷ logs', files'')
  ]
]

abbrev pub connections : List ProxyInstance → List ClientConnection
connections [] = []
connections (proxy ∷ proxies) =
    map (λ (p : Service × ClientConnection). p.1) proxy.client_connection_list
    ++ connections proxies

abbrev pub piped : (SshTunnel → ℤ × ℤ) → Bool × SshTunnel → Piped
piped pipes (started, ssh) = record {
  tunnel = ssh;
  parent_stdout_fd = (pipes ssh).0;
  parent_stderr_fd = (pipes ssh).1;
}

unfoldable pub check_tunnels : Around → State → State
check_tunnels a s = record s {
  tunnels =
      map (piped a.pipes)
        (check_ssh_tunnels a.policy (connections s.proxies) (tunnels_of s.tunnels));
}

unfoldable pub rotate_logs : Around → State → Turn State
unfolding rotate_each
rotate_logs a s = do
  (logs, files) ← or_exit (rotate_each a.rename_allowed a.close s.logs s.files)
  going (record s { logs = logs; files = files })

-- What follows `poll`, by the flags that are found for a descriptor.
unfoldable pub after_poll : Around → (ℤ → Option Revents) → State → Turn State
unfolding check_tunnels answer_requests rotate_logs
after_poll a revents s = do
  check_pipes revents a.reads s.tunnels
  check_msg (revents a.msg_fd)
  (proxies, id_pool) ← check_proxies a revents s.proxies s.id_pool
  let s1 = record s { proxies = cleaned a.now proxies; id_pool = id_pool }
  rotate_logs a (answer_requests a (check_tunnels a s1))

-- The body of `while (!exit_server)`; `poll` itself returns with flags.
unfoldable pub server_turn : Around → State → Turn State
unfolding after_poll
server_turn a s = do
  pfd ← or_exit (set_each a.ulimit [] (watched a.msg_fd (services s.proxies) s.tunnels))
  after_poll a (revents_at pfd a.revents) s
