-- ===== src/Connecting/Handlers.antt =====
-- The threads of a SOCKS client and of a forwarded port, from their start to the end of the
-- connection.
use smart_socksproxy.Base.{
  ℕ, Bool, false, Option, none, some, List, Bytes, ◌==◌, if◌then◌else◌, ℤ, pos, negsuc,
}
use smart_socksproxy.Host.{host_id_set_name, host_id_set_port}
use smart_socksproxy.Rule.{RouteRule}
use smart_socksproxy.Connection.{ClientConnection}
use smart_socksproxy.Tunnel.{ssh_tunnel_null}
use smart_socksproxy.Engine.{decide_applicable_rule}
use smart_socksproxy.Thread.{service_thread_shutdown}
use smart_socksproxy.Shuttle.{
  Poll, Outcome, running, returned, shuttle_data_back_and_forth, shuttle_null_connection,
}
use smart_socksproxy.Socks.{
  Peer, Session, M, ok, ◌>>=◌, ◌>>◌, modify, cmd_error, cmd_connect, addrtype_domain,
  socks_get_client_version, socks5_negotiate_auth, socks4_get_command, socks5_get_command,
  socks_respond,
}
use smart_socksproxy.Connecting.Attempts.{World, socks_connect}

-- What the main loop and the configuration have: the rules, the default rule, the time of the end,
-- what `poll` will say, a bound on the bytes that a null connection drops, and the number that
-- stands where `failure_type` will be.
pub record Surroundings : Type 0 where
  pub world : World
  pub rules : List RouteRule
  pub default : RouteRule
  pub now : ℕ
  pub polls : List Poll
  pub drops : ℕ
  pub stale : ℕ

-- The two sides of a connection.
pub record Ends : Type 0 where
  pub con : ClientConnection
  pub inner : Peer
  pub outer : Peer

-- The request of a SOCKS client, on `fd_in`: its version, the choice of a method, its command.
unfoldable pub socks_request : M ℕ
socks_request s =
    (modify (λ t. record t {
      con = record t.con {
        socks_version = negsuc 0;
        socks_command = cmd_error;
        socks_command_original = cmd_error;
        dst_host = host_id_set_port t.con.dst_host (pos 0);
      };
    })
        >> (socks_get_client_version >>= λ version.
            modify (λ t. record t { con = record t.con { socks_version = pos version } })
            >> (if version == 5
                then (socks5_negotiate_auth >>= λ auth. socks5_get_command)
                else socks4_get_command)))
      s

-- The destination of a forwarded port.
unfoldable pub port_forward_request : Bytes → ℤ → ClientConnection → ClientConnection
port_forward_request remote_host remote_port con =
    let dst = host_id_set_port (host_id_set_name con.dst_host remote_host) remote_port in
    record con {
      socks_version = pos 5;
      socks_command = cmd_connect;
      socks_command_original = cmd_connect;
      socks_address_type = addrtype_domain;
      socks_address_type_original = addrtype_domain;
      dst_host = dst;
      dst_host_original = dst;
    }

-- The thread has ended, with these descriptors closed, or still moves data.
pub data Handled : Type 0 where
  finished : Ends → List ℕ → Handled
  moving : Ends → Handled

abbrev pub conclude : Surroundings → Bool → Ends → Handled
conclude around ok e =
    let (con, closed) = service_thread_shutdown around.now ok e.con in
    finished (record e { con = con }) closed

abbrev pub concluded : Surroundings → Outcome → Handled
concluded around (running t) = moving (record { con = t.con; inner = t.inner; outer = t.outer })
concluded around (returned ok t) =
    conclude around ok (record { con = t.con; inner = t.inner; outer = t.outer })

abbrev pub dropped : Surroundings → Ends → Option Bool × ClientConnection → Handled
dropped around e (none, con) = moving (record e { con = con })
dropped around e (some ok, con) = conclude around ok (record e { con = con })

abbrev pub is_null : Option ℕ → Bool
is_null none = false
is_null (some id) = id == ssh_tunnel_null

-- `socks_connect_shuttle`, and the end of the thread.
unfoldable pub socks_connect_shuttle : Surroundings → Ends → Handled
socks_connect_shuttle around e =
    if is_null e.con.tunnel
    then dropped around e
        (shuttle_null_connection around.world.strerror around.drops 0 e.con e.inner.input)
    else concluded around
        (shuttle_data_back_and_forth around.world.strerror around.polls e.con e.inner e.outer)

abbrev pub failure : Surroundings → Option ℕ → ℕ
failure around none = around.stale
failure around (some n) = n

-- The answer to a SOCKS client, and what follows.
unfoldable pub respond_and_shuttle : Surroundings → Peer → Session → Handled
respond_and_shuttle around inner s =
    let (sent, t) =
      socks_respond (failure around s.failure_type)
        (record { con = s.con; peer = inner; failure_type = s.failure_type }) in
    if sent
    then socks_connect_shuttle around (record { con = t.con; inner = t.peer; outer = s.peer })
    else conclude around false (record { con = t.con; inner = t.peer; outer = s.peer })

abbrev pub route_of : Surroundings → ClientConnection → RouteRule
route_of around con = elim con.route [ none ↦ around.default | some r ↦ r ]

-- Routing and connecting. `next` is what the thread does on an open connection.
unfoldable pub connect_and :
    Surroundings → (Peer → Session → Handled) → ClientConnection → Peer → Peer → Handled
connect_and around next con inner outer =
    let (found, con') = decide_applicable_rule around.world.net around.rules around.default con in
    let (opened, s) =
      socks_connect around.world (route_of around con')
        (record { con = con'; peer = outer; failure_type = none }) in
    if found
    then (if opened
        then next inner s
        else conclude around false (record { con = s.con; inner = inner; outer = s.peer }))
    else conclude around false (record { con = con'; inner = inner; outer = outer })

-- `outer` is the state of a descriptor that is not open yet.
unfoldable pub service_socks_connection_handler :
    Surroundings → ClientConnection → Peer → Peer → Handled
service_socks_connection_handler around con inner outer =
    let (command, s) = socks_request (record { con = con; peer = inner; failure_type = none }) in
    elim command [
      | none ↦ conclude around false (record { con = s.con; inner = s.peer; outer = outer })
      | some c ↦ connect_and around (respond_and_shuttle around) s.con s.peer outer
    ]

unfoldable pub service_port_forward_connection_handler :
    Surroundings → Bytes → ℤ → ClientConnection → Peer → Peer → Handled
service_port_forward_connection_handler around remote_host remote_port con inner outer =
    connect_and around
      (λ i s. socks_connect_shuttle around (record { con = s.con; inner = i; outer = s.peer }))
      (port_forward_request remote_host remote_port con) inner outer
