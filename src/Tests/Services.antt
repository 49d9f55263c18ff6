-- ===== src/Tests/Services.antt =====
-- The configuration, the web server, the log files, the data of connections and the tunnels at
-- concrete inputs.
use smart_socksproxy.Base.{
  ℕ, zero, suc, ◌+◌, ◌<◌, ◌≡◌, refl, ◌⊎◌, true, false, Option, none, some, List, [], ◌∷◌, ◌++◌,
  Bytes, codes, length, All, pos, negsuc, str_eq, if◌then◌else◌, arith,
}
use smart_socksproxy.Io.{Event, chunk, failed, eintr, accepts}
use smart_socksproxy.Host.{Net, host_id_init}
use smart_socksproxy.Tunnel.{SshTunnel, new_ssh_tunnel, ssh_tunnel_direct}
use smart_socksproxy.Rule.{RouteRule, new_route_rule}
use smart_socksproxy.Connection.{ClientConnection, new_client_connection}
use smart_socksproxy.Socks.{Peer, Session}
use smart_socksproxy.Config.{
  read_lines, file, both, read_lines-file, words, unwords,
  remove_extra_spaces_and_comments_from_config_line,
  remove_extra_spaces_and_comments_from_config_line-plain, Piece, written, expanded,
  replace_environment_variables_in_string, replace_environment_variables_in_string-written,
}
use smart_socksproxy.Http.{
  IsSafe, get_safe_filename_from_request, get_safe_filename_from_request-IsSafe, LineRead,
  read_one_line_safely, read_one_line_safely-LineRead, Exchange, File, chunks, concat,
  return_file_contents, return_file_contents-chunks, header, content_type,
}
use smart_socksproxy.Shuttle.{
  Ready, polled, Relays, start, state, shuttle_data_back_and_forth,
  shuttle_data_back_and_forth-Relays,
}
use smart_socksproxy.Policy.{
  Env, exited, mark_connections, reset, stamped, demand, use_of, mark_connections-demand,
  check_ssh_tunnel, check_ssh_tunnel_iff, check_ssh_tunnel-throttled,
}
use smart_socksproxy.Connecting.{
  World, Dialer, connected, refused, LastOne, socks_connect, socks_connect-LastOne, Surroundings,
}
use smart_socksproxy.LogFile.{
  LogFile, new_log_file, find_or_create_log_file, IsRegistry, find_or_create_log_file-IsRegistry,
  Files, IsRotated, log_file_rotate, log_file_rotate-IsRotated, write_all, opened, total,
  on_descriptor, write_all-in_order, same_name,
}

-- Three lines of a file with CR LF, an empty one among them, and what follows the last.
abbrev three_lines : List Bytes
three_lines = codes "main" ∷ [] ∷ codes "log=x" ∷ []

read_lines-file_example :
    read_lines (suc (length three_lines)) 100 false false (file both three_lines (codes "end"))
    ≡ (true, three_lines)
read_lines-file_example =
    read_lines-file both 100 three_lines (codes "end") (ground arith) (ground arith)

remove_extra_spaces_and_comments_from_config_line-plain_example :
    remove_extra_spaces_and_comments_from_config_line (codes "  one two    three ")
    ≡ (true, unwords (words (codes "  one two    three ")))
remove_extra_spaces_and_comments_from_config_line-plain_example =
    remove_extra_spaces_and_comments_from_config_line-plain (codes "  one two    three ")
      (ground arith)

abbrev home : Bytes → Option Bytes
home name = some (codes "/home/u")

abbrev home_piece : Piece
home_piece = record { text = codes "a="; name = codes "HOME" }

replace_environment_variables_in_string-written_example :
    replace_environment_variables_in_string home 10240 (written (home_piece ∷ []) (codes "/x"))
    ≡ some (true, expanded home (home_piece ∷ []) (codes "/x"))
replace_environment_variables_in_string-written_example =
    replace_environment_variables_in_string-written home (home_piece ∷ []) (codes "/x") 10240
      (
        record {
          text = ground arith;
          name = ground arith;
          some_name = omega arith;
          fits = omega arith;
        },
        tt,
      )
      (ground arith) (omega arith)

-- A request that tries to leave the directory.
get_safe_filename_from_request-IsSafe_example :
    All IsSafe (get_safe_filename_from_request (codes "GET /../../etc/passwd HTTP/1.1") 4095)
    × (length (get_safe_filename_from_request (codes "GET /../../etc/passwd HTTP/1.1") 4095) < 4095)
get_safe_filename_from_request-IsSafe_example =
    get_safe_filename_from_request-IsSafe (codes "GET /../../etc/passwd HTTP/1.1") 4095
      (omega arith)

abbrev request_events : List Event
request_events =
    chunk (codes "GET ") ∷ failed eintr ∷ chunk (codes "/x HTTP/1.1" ++ b'\n' ∷ codes "Host:") ∷ []

read_one_line_safely-LineRead_example :
    LineRead (read_one_line_safely 999 request_events) (codes "GET /x HTTP/1.1") (codes "Host:")
read_one_line_safely-LineRead_example =
    read_one_line_safely-LineRead 999 (codes "GET /x HTTP/1.1") request_events (codes "Host:")
      (omega arith, (refl, (omega arith, tt))) refl (ground arith) (omega arith)

abbrev connection : ClientConnection
connection = record (new_client_connection 1 0) { fd_in = pos 4; fd_out = pos 5 }

abbrev asking : Exchange
asking = record {
  errno = 0;
  con = connection;
  input = [];
  slots = accepts 2 ∷ accepts 0 ∷ [];
  sent = [];
}

abbrev one_file : Bytes → File
one_file path = chunks (codes "hello" ∷ codes " world" ∷ [])

return_file_contents-chunks_example :
    (x' : Exchange) × (return_file_contents one_file
        (codes "/web")
        (codes "GET /" ++ (b'a' ∷ codes ".txt") ++ b' ' ∷ codes "HTTP/1.1")
        asking
      ≡ some (codes "200 OK", x'))
    × (x'.sent
        ≡ asking.sent
          ++ (concat (header (codes "200 OK") (content_type (b'a' ∷ codes ".txt")))
              ++ concat (codes "hello" ∷ codes " world" ∷ [])))
return_file_contents-chunks_example =
    return_file_contents-chunks one_file (codes "/web") b'a' (codes ".txt") (codes "HTTP/1.1")
      (codes "hello" ∷ codes " world" ∷ []) asking (refl, (refl, (refl, (refl, (refl, tt)))))
      (omega arith) refl tt (omega arith)

abbrev both_readable : Ready
both_readable = record {
  in_readable = true;
  in_hung_up = false;
  in_error = false;
  out_readable = true;
  out_hung_up = false;
  out_error = false;
}

abbrev talking : Peer
talking = record { input = chunk (codes "ping") ∷ chunk (codes "!") ∷ []; slots = []; sent = [] }

abbrev answering : Peer
answering = record {
  input = chunk (codes "pong") ∷ failed 5 ∷ [];
  slots = accepts 3 ∷ [];
  sent = codes "request";
}

abbrev no_text : ℕ → Bytes
no_text n = []

shuttle_data_back_and_forth-Relays_example : Relays (start connection talking answering) (
    state (
      shuttle_data_back_and_forth no_text
        (polled both_readable ∷ polled both_readable ∷ [])
        connection
        talking
        answering))
shuttle_data_back_and_forth-Relays_example =
    shuttle_data_back_and_forth-Relays no_text (polled both_readable ∷ polled both_readable ∷ [])
      connection talking answering 5 (refl, (refl, tt)) (omega arith, (omega arith, tt)) tt refl

abbrev by_tunnel : RouteRule
by_tunnel = record (new_route_rule 1) { tunnel = 7 ∷ 8 ∷ [] }

abbrev waiting : ClientConnection
waiting = record connection { route = some by_tunnel }

abbrev through : ClientConnection
through = record connection { route = some by_tunnel; tunnel = some 8 }

abbrev tunnels : List SshTunnel
tunnels = new_ssh_tunnel 7 ∷ record (new_ssh_tunnel 8) { mark = 5 } ∷ []

mark_connections-demand_example :
    mark_connections (waiting ∷ through ∷ []) (reset tunnels)
    ≡ stamped (demand (waiting ∷ through ∷ [])) (use_of (waiting ∷ through ∷ [])) tunnels
mark_connections-demand_example = mark_connections-demand (waiting ∷ through ∷ []) tunnels

abbrev asked_for : SshTunnel
asked_for = record (new_ssh_tunnel 7) { mark = 2 }

abbrev at_ten : Env
at_ten = record { now = 10; wait = λ pid. exited; fork = λ ssh. some 99 }

abbrev at_eleven : Env
at_eleven = record { now = 11; wait = λ pid. exited; fork = λ ssh. some 99 }

check_ssh_tunnel-throttled_example :
    (check_ssh_tunnel at_eleven (check_ssh_tunnel at_ten asked_for).1).0 ≡ false
check_ssh_tunnel-throttled_example =
    check_ssh_tunnel-throttled at_ten at_eleven asked_for 99
      ((check_ssh_tunnel_iff at_ten asked_for).1 (refl, omega arith, omega arith)) refl
      (omega arith)

-- A network in which the first attempt is reset and the others connect.
abbrev network : Net
network = record {
  pton = λ s. some (10 ∷ 0 ∷ 0 ∷ 1 ∷ []);
  ntop = λ a. codes "10.0.0.1";
  ntop6 = λ a. codes "::1";
  addresses = λ name. none;
  stale = [];
}

abbrev dialers : ℕ → Dialer
dialers zero address = record {
  socket = none;
  socket_errno = 24;
  connect = refused;
  peer = answering;
}
dialers (suc i) address = record {
  socket = some 6;
  socket_errno = 0;
  connect = connected;
  peer = answering;
}

abbrev world : World
world = record {
  net = network;
  strerror = no_text;
  reset_text = [];
  tunnels = tunnels;
  dialers = dialers;
}

abbrev directly : RouteRule
directly = record (new_route_rule 2) { tunnel = ssh_tunnel_direct ∷ [] }

abbrev opening : Session
opening = record {
  con = record connection {
    dst_host = record host_id_init { name = codes "10.0.0.1"; port = pos 80 };
  };
  peer = talking;
  failure_type = none;
}

socks_connect-LastOne_example :
    LastOne world (ssh_tunnel_direct ∷ []) 0 opening (socks_connect world directly opening)
socks_connect-LastOne_example =
    socks_connect-LastOne world directly opening ssh_tunnel_direct [] refl

abbrev surroundings : Surroundings
surroundings = record {
  world = world;
  rules = directly ∷ [];
  default = directly;
  now = 50;
  polls = polled both_readable ∷ [];
  drops = 3;
  stale = 1;
}

-- A list with one log file, which is not the one that is asked for.
abbrev one_log : List LogFile
one_log = new_log_file (some (codes "main.log")) ∷ []

abbrev other_log : LogFile × List LogFile
other_log = find_or_create_log_file one_log none (codes "http.log")

find_or_create_log_file-IsRegistry_example :
    IsRegistry other_log.1
    × (other_log.0.file_name ≡ codes "http.log")
    × ((other_log.1 ≡ one_log) ⊎ (other_log.1 ≡ other_log.0 ∷ one_log))
    × (find_or_create_log_file other_log.1 none (codes "http.log") ≡ other_log)
unfolding IsRegistry new_log_file find_or_create_log_file
find_or_create_log_file-IsRegistry_example =
    find_or_create_log_file-IsRegistry one_log none none (codes "http.log") (ground arith, tt, tt)

-- A log of 20 MB with one old log.
abbrev full_log : LogFile
full_log = record (new_log_file (some (codes "a.log"))) { fd = pos 5; byte_count = 20971520 }

abbrev two_files : Files
two_files name =
    if str_eq name (codes "a.log")
    then some (codes "new")
    else if str_eq name (codes "a.log.1")
    then some (codes "old")
    else none

log_file_rotate-IsRotated_example :
    (files' : Files) × (log_file_rotate (λ old new. true) (λ fd. true) full_log two_files
      ≡ some (record full_log { fd = negsuc 0; byte_count = 0 }, files'))
    × IsRotated (codes "a.log") 3 two_files files'
unfolding new_log_file str_eq
log_file_rotate-IsRotated_example =
    log_file_rotate-IsRotated (λ old new. true) (λ fd. true) full_log two_files 3 (λ old new. refl)
      refl refl (omega arith) refl

-- Two lines for a log file that is opened at its end.
abbrev two_lines : List Bytes
two_lines = codes "one" ∷ codes "three" ∷ []

write_all-in_order_example :
    write_all
      (λ name. some (pos 5))
      (λ fd. 100)
      (some (new_log_file (some (codes "log"))))
      two_lines
    ≡ (
      some (opened (new_log_file (some (codes "log"))) 5 (100 + total two_lines)),
      on_descriptor 5 two_lines,
    )
unfolding new_log_file same_name str_eq
write_all-in_order_example =
    write_all-in_order (λ name. some (pos 5)) (λ fd. 100) (new_log_file (some (codes "log"))) 0 5
      (codes "one") (codes "three" ∷ []) refl refl refl
