-- ===== src/Lib.antt =====
-- SmartSOCKSProxy: a SOCKS 4/5 proxy that sends each connection directly, through the SOCKS5 server
-- of an SSH tunnel, or nowhere, as the rules of its configuration say, and keeps the SSH tunnels
-- running that its connections need.
--
-- How the parts interact. The main loop accepts a connection and starts a thread for it. The thread
-- of a SOCKS client reads the request (Socks, over Io), the thread of a forwarded port takes its
-- destination from the configuration; both look for a rule (Engine, over Rule, Host and Text), try
-- the rule's tunnels in turn (Connecting), answer the client, and then move bytes in both directions
-- (Shuttle). The main loop looks at all connections and starts the tunnels that they ask for
-- (Policy), frees the connections that have ended (Pool) and writes the state for those who ask
-- (Server, Json). A third kind of thread serves the status page (Http). Threads share a connection's
-- record under a mutex; the model of a thread follows the thread that owns the connection.
--
-- The modules, the code they are about, and what stands for what:
-- - Base: numbers, lists of bytes, C integers, words of 32 bits and their bit operations. A string
--   is the list of its bytes without the zero at its end; a `char*` that may be NULL is an Option.
-- - Text (string2.c), Clib (strncpy, strsep, sscanf "%i" and the decimal printing of the C library, as
--   far as the code uses them), LogLevel (log_level.c).
-- - Io (safe_blocking_readwrite.c): a descriptor is the list of what its next reads meet and of
--   what its next writes do, partial transfers and interruptions included.
-- - Host (host_id.c, host_id.h, dns_util.c): the record of a host with its name, address and port.
-- - Tunnel (ssh_tunnel.c, ssh_tunnel.h), Rule (route_rule.c, route_rule.h: `parse_route_rule_spec`),
--   Engine (route_rules_engine.c: `decide_applicable_rule` as a scan over the rules). The route of a
--   connection is a rule; a pointer to a tunnel is the tunnel's id.
-- - Connection (client_connection.c, client_connection.h), Thread (service_thread.c, safe_close.c).
-- - Socks (service_socks.c, socks5_client.c): both sides of the protocol, in a state monad whose
--   failure is the early return of the code.
-- - Connecting (socks_connection.c, socks5_client.c, and the handlers of service_socks.c and
--   service_port_forward.c), Shuttle (shuttle.c), Policy (ssh_policy.c).
-- - LogFile (log_file.c): the list of log files, writing to them, and their rotation over a file
--   system, which is a function from names to contents.
-- - Config (config_file.c): the lines of a file, their cleaning, environment variables,
--   files of rules with those they include (`route_rule_file_parse`), and sections and entries
--   (`config_file_parse`). What a file or a directory holds is a parameter.
-- - Http (service_http.c).
-- - Service (service.c, and the constructors and specifications of the kinds of services), Proxy
--   (proxy_instance.c): the records and lists of services and proxies. The functions that a service
--   holds are its kind.
-- - Pool (client_connection.c, and cleanup_connections of server.c): the list of connections in memory,
--   nodes at addresses linked in both directions; a run faults where it reads memory that holds no
--   node. Steps of threads are whole operations there, in any order with those of the main loop.
-- - Json (build_json.c): a writer is the list of the texts that it hands to add_to_buf.
-- - Server (server.c): a turn of the main loop on plain lists, which Pool relates to memory. No thread
--   acts within a turn.
-- - Tests: the theorems at concrete inputs.
--
-- Parameters: what the operating system, the C library and the resolver answer (inet_pton and
-- inet_ntop, getaddrinfo, socket, connect, poll, waitpid, fork, the file system, getenv, strerror, the
-- time). Values that the code reads without having set them are parameters too, as is `beyond`,
-- what stands in memory behind a text that `strncpy` leaves without its zero.
--
-- Bounds. The parser of a rule runs on fuel, one more than the length of the text: each step takes at
-- least one character. `socks_connect` counts down from its own bound of 100 repetitions.
-- `read_lines` takes the number of rounds; one more than the number of lines is enough. The loop
-- that moves bytes runs over the list of the answers of `poll`; the null connection drops as many
-- bytes as it is given fuel, and says when that is used up. The loop of the clean-up wants as much
-- fuel as there are connections, and the growth of the JSON buffer as many rounds as it needs bytes.
-- The readers of configuration and rule files count down the room on their stack of file names, which
-- is 199 behind the first file.
--
-- Overruns. Where the replacement of variables would write past its buffer of 10240 bytes, or a
-- directory of rules has more than 200 files, the model stops with a crash of its own (`none`,
-- `overrun`, `crashes`). The other buffers that a run can write past are named in the findings of
-- the project and are taken to be long enough: the byte behind a full read in shuttle.c, a name of a
-- variable of 8192 characters, the name of an old log. Numbers that "%i" reads are those of an `int`
-- (`FitsInt`), and sizes of the JSON buffer stay below 2^31.
--
-- Not modelled: log.c and the formatting of log lines; main.c, listen_socket.c, thread_local.c and
-- thread_msg.c, which are calls of the operating system; the start of the server; the log that the
-- lines of an SSH tunnel go to; the pipes of an SSH child; memory that runs out.
pub mod Base
pub mod Text
pub mod Io
pub mod Clib
pub mod Tunnel
pub mod Host
pub mod Rule
pub mod Connection
pub mod Engine
pub mod Socks
pub mod LogLevel
pub mod LogFile
pub mod Config
pub mod Thread
pub mod Shuttle
pub mod Policy
pub mod Connecting
pub mod Http
pub mod Pool
pub mod Service
pub mod Proxy
pub mod Json
pub mod Server
pub mod Tests
