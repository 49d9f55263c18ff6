-- ===== src/Tests/Server.antt =====
-- The main loop, the list of connections in memory and the state as JSON at concrete inputs.
use smart_socksproxy.Base.{
  ℕ, ◌<◌, ◌≡◌, refl, inl, true, false, Option, none, some, List, [], ◌∷◌, Bytes, codes, length,
  ◌==◌, if◌then◌else◌, ℤ, pos, negsuc, arith,
}
use smart_socksproxy.Connection.{ClientConnection, new_client_connection}
use smart_socksproxy.Policy.{
  Env, exited, check_ssh_tunnels, check_ssh_tunnel, mark_connections, mark_connection, reset,
}
use smart_socksproxy.Tunnel.{new_ssh_tunnel}
use smart_socksproxy.Service.{new_service_socks}
use smart_socksproxy.Proxy.{new_proxy_instance}
use smart_socksproxy.Pool.{
  Nodes, Store, ok, cell, Cleaned, cleanup_connections, cleanup_connections-Cleaned, Op, accepted,
  worked, cleaned, run_ops, threads_after, edit, kept, abstract_op, abstract_ops, Represents,
  run_ops-Represents,
}
use smart_socksproxy.Json.{
  Buf, Build, build_json, add_each, add_state, state_value, value_onto, build_json-state_value,
  build_json-within,
}
use smart_socksproxy.Server.{
  Revents, Around, State, server_turn, set_each, find_pfd, check_pipes, check_msg, check_proxies,
  check_tunnels, answer_requests, rotate_logs, Known, need_json, text_of, state_json,
  server_turn-answers, AllFlowing, IsSound, AllSound, services, server_turn-IsSound,
}

-- A connection whose thread has ended, and one that moves data.
abbrev old_connection : ClientConnection
old_connection = record (new_client_connection 1 0) { thread_has_exited = true; fd_in = pos 7 }

abbrev two_nodes : Nodes
two_nodes = (1, old_connection) ∷ (2, new_client_connection 2 0) ∷ []

abbrev two_cells : Store
two_cells = record {
  cells = λ q.
      if q == 1
      then some (cell old_connection none (some 2))
      else if q == 2
      then some (cell (new_client_connection 2 0) (some 1) none)
      else none;
  closed = [];
}

cleanup_connections-Cleaned_example :
    (pool : Option ℕ) × (s' : Store) × (cleanup_connections 2 10 (some 1) two_cells ≡ ok pool s')
    × Cleaned 10 [] two_nodes two_cells s' pool
cleanup_connections-Cleaned_example =
    cleanup_connections-Cleaned 2 10 two_nodes two_cells (refl, (refl, tt)) (refl, (refl, tt))
      (omega arith)

-- A connection is accepted, its thread ends, and it is cleaned up later.
abbrev three_ops : List Op
three_ops =
    accepted 1 (new_client_connection 1 0)
    ∷ worked 1 (λ con. record con { thread_has_exited = true })
    ∷ cleaned 10
    ∷ []

abbrev no_cells : Store
no_cells = record { cells = λ q. none; closed = [] }

run_ops-Represents_example :
    (head : Option ℕ) × (s' : Store) × (run_ops 3 three_ops none no_cells ≡ ok head s')
    × Represents s' head (abstract_ops three_ops [])
unfolding threads_after abstract_op edit kept
run_ops-Represents_example =
    run_ops-Represents 3 three_ops [] [] no_cells none (refl, (refl, (tt, tt))) (λ q h. cc)
      (omega arith) (record { linked = tt; distinct = tt; head_is = refl })

abbrev a_build : Build
a_build = record { version = codes "1"; build_date = codes "today"; git_hash = codes "f" }

abbrev digits : Bytes → Bytes
digits addr = codes "::"

build_json-state_value_example :
    (b : Buf) × (build_json digits digits []
        (λ size. true)
        true
        1024
        a_build
        9
        1
        (new_proxy_instance ∷ [])
      ≡ some b)
    × (b.text ≡ value_onto (state_value digits digits [] a_build 9 1 (new_proxy_instance ∷ [])) [])
build_json-state_value_example =
    build_json-state_value digits digits [] a_build 9 1 (new_proxy_instance ∷ []) (λ size. true)
      1024 (λ size. refl) (omega arith)

abbrev start_buffer : Buf
start_buffer = record { text = []; size = 1024 }

build_json-within_example :
    length (add_each (λ size. false) start_buffer (add_state digits digits [] a_build 9 1 [])).text
    < (add_each (λ size. false) start_buffer (add_state digits digits [] a_build 9 1 [])).size
unfolding build_json
build_json-within_example =
    build_json-within digits digits [] a_build 9 1 [] (λ size. false) true 1024
      (add_each (λ size. false) start_buffer (add_state digits digits [] a_build 9 1 []))
      (omega arith) refl

-- A turn with one proxy, one connection, which asks for the state, and no memory for it.
abbrev asking : ClientConnection
asking = record (new_client_connection 1 0) { json_status_requested = true }

abbrev quiet : Revents
quiet = record {
  err = false;
  hup = false;
  nval = false;
  pri = false;
  rdband = false;
  rdnorm = false;
}

abbrev an_env : Env
an_env = record { now = 9; wait = λ pid. exited; fork = λ ssh. none }

abbrev a_turn : Around
a_turn = record {
  ulimit = 10;
  msg_fd = pos 3;
  revents = λ i. quiet;
  accept = λ srv. none;
  launch = λ srv. record { attr_init = 0; attr_setdetachstate = 0; create = 0 };
  reads = λ fd. true;
  now = 9;
  pipes = λ ssh. (negsuc 0, negsuc 0);
  policy = an_env;
  ntop = digits;
  ntop6 = digits;
  realloc = λ size. true;
  malloc = false;
  build = a_build;
  rename_allowed = λ old new. true;
  close = λ fd. true;
}

abbrev one_proxy : ClientConnection → State
one_proxy con = record {
  proxies =
      record new_proxy_instance {
        service_list = record (new_service_socks 1) { fd = pos 4 } ∷ [];
        client_connection_list = (new_service_socks 1, con) ∷ [];
      }
      ∷ [];
  tunnels = [];
  id_pool = 1;
  proxy_start_time = 0;
  default_size = 1024;
  logs = [];
  files = λ name. none;
}

server_turn-answers_example :
    (t : State) × Known (new_service_socks 1, asking) t.proxies
    × Known
        (
          new_service_socks 1,
          record asking {
            json_status_str = text_of (state_json a_turn t);
            json_status_ready = true;
          },
        )
        (one_proxy (record asking { json_status_ready = true })).proxies
    × (need_json (one_proxy (record asking { json_status_ready = true })).proxies ≡ false)
unfolding server_turn set_each find_pfd check_pipes check_msg check_proxies kept check_tunnels
    answer_requests rotate_logs build_json check_ssh_tunnels mark_connections mark_connection reset
server_turn-answers_example =
    server_turn-answers a_turn (one_proxy asking)
      (one_proxy (record asking { json_status_ready = true })) (new_service_socks 1) asking refl
      (inl (inl refl)) refl refl

-- A tunnel whose two pipes have something to read, as has every other descriptor.
abbrev readable : Revents
readable = record quiet { rdnorm = true }

abbrev a_tunnel : ℤ → ℤ → State → State
a_tunnel out err s = record s {
  tunnels =
      record { tunnel = new_ssh_tunnel 5; parent_stdout_fd = out; parent_stderr_fd = err } ∷ [];
}

server_turn-IsSound_example :
    AllFlowing (λ fd. readable) (λ fd. true) (a_tunnel (pos 5) (pos 6) (one_proxy asking)).tunnels
    × IsSound (λ fd. readable) (pos 3)
    × AllSound (λ fd. readable) (services (one_proxy asking).proxies)
unfolding server_turn set_each find_pfd check_pipes check_msg check_proxies kept check_tunnels
    answer_requests rotate_logs build_json check_ssh_tunnels check_ssh_tunnel mark_connections
    mark_connection reset
server_turn-IsSound_example =
    server_turn-IsSound (record a_turn { revents = λ i. readable })
      (a_tunnel (pos 5) (pos 6) (one_proxy asking))
      (a_tunnel (negsuc 0) (negsuc 0) (one_proxy (record asking { json_status_ready = true })))
      (λ fd. readable) 3 refl (omega arith) (λ i fd h. refl) refl
