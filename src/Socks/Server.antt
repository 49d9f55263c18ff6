-- ===== src/Socks/Server.antt =====
-- The requests of the clients: service_socks.c up to `socks5_get_command`.
use smart_socksproxy.Base.{
  ℕ, zero, suc, ◌+◌, ◌*◌, ◌||◌, none, [], ◌∷◌, Bytes, ◌==◌, if◌then◌else◌, ℤ, pos,
}
use smart_socksproxy.Host.{
  HostId, host_id_set_addr_in_from_byte_array, host_id_set_addr_in6_from_byte_array,
  host_id_set_name, host_id_set_port,
}
use smart_socksproxy.Connection.{ClientConnection}
use smart_socksproxy.Socks.State.{
  M, ok, fail, ◌>>=◌, ◌>>◌, guard, modify, at, receive, send, transmit,
}

abbrev pub cmd_error : ℕ
cmd_error = 0

abbrev pub cmd_connect : ℕ
cmd_connect = 1

abbrev pub cmd_bind : ℕ
cmd_bind = 2

abbrev pub cmd_udp_associate : ℕ
cmd_udp_associate = 3

abbrev pub addrtype_ipv4 : ℕ
addrtype_ipv4 = 1

abbrev pub addrtype_domain : ℕ
addrtype_domain = 3

abbrev pub addrtype_ipv6 : ℕ
addrtype_ipv6 = 4

-- The refusal is sent whether or not it gets through.
refuse_version : M ℕ
refuse_version s = let (rc, s') = send (5 ∷ 0xff ∷ []) s in (none, s')

unfoldable pub socks_get_client_version : M ℕ
unfolding refuse_version
socks_get_client_version = do
  buf ← receive 1
  if at buf 0 == 4 || at buf 0 == 5 then ok (at buf 0) else refuse_version

-- All the methods that the client offers are read, and none is looked at.
unfoldable pub socks5_negotiate_auth : M ℕ
socks5_negotiate_auth = do
  buf ← receive 1
  methods ← receive (at buf 0)
  transmit (5 ∷ 0 ∷ [])
  ok 0

-- `((unsigned int)buf[0]) << 8 | (unsigned int)buf[1]`
abbrev pub port_of : Bytes → ℤ
port_of buf = pos (at buf 0 * 256 + at buf 1)

-- What a request sets, under the lock.
abbrev pub record_request : ℤ → ℕ → ℕ → HostId → ClientConnection → ClientConnection
record_request version command address_type dst con = record con {
  socks_version = version;
  socks_command = command;
  socks_command_original = command;
  socks_address_type = address_type;
  socks_address_type_original = address_type;
  dst_host = dst;
  dst_host_original = dst;
}

-- The loop over the user id, with `max` bytes to go.
unfoldable pub skip_user_id : ℕ → M (Unit {0})
skip_user_id zero = fail
skip_user_id (suc max) = do
  buf ← receive 1
  let more = skip_user_id max
  if at buf 0 == 0 then ok tt else more

unfoldable pub socks4_get_command : M ℕ
unfolding skip_user_id host_id_set_addr_in_from_byte_array
socks4_get_command = do
  command ← receive 1
  guard (at command 0 == cmd_connect)
  port ← receive 2
  ipv4 ← receive 4
  modify λ s. record s {
    con =
        record_request (pos 4) (at command 0) addrtype_ipv4
          (host_id_set_addr_in_from_byte_array s.con.dst_host ipv4 (port_of port)) s.con;
  }
  skip_user_id 1000
  ok cmd_connect

-- The address of a request. An IPv6 address is read, and refused.
unfoldable pub receive_address : ℕ → M Bytes
receive_address address_type =
    if address_type == addrtype_ipv4
    then receive 4
    else if address_type == addrtype_ipv6
    then (receive 16 >>= λ addr. fail)
    else if address_type == addrtype_domain
    then (receive 1 >>= λ buf. receive (at buf 0))
    else fail

unfoldable pub request_host : ℕ → Bytes → ℤ → HostId → HostId
request_host address_type addr port dst =
    if address_type == addrtype_ipv4
    then host_id_set_addr_in_from_byte_array dst addr port
    else if address_type == addrtype_ipv6
    then host_id_set_addr_in6_from_byte_array dst addr port
    else if address_type == addrtype_domain
    then host_id_set_port (host_id_set_name dst addr) port
    else dst

unfoldable pub known_command : ℕ → M ℕ
known_command command =
    if command == cmd_connect
    then ok cmd_connect
    else if command == cmd_bind
    then ok cmd_bind
    else if command == cmd_udp_associate
    then ok cmd_udp_associate
    else fail

unfoldable pub socks5_get_command : M ℕ
unfolding receive_address request_host known_command
socks5_get_command = do
  buf ← receive 4
  guard (at buf 0 == 5)
  guard (at buf 2 == 0)
  addr ← receive_address (at buf 3)
  port ← receive 2
  modify λ s. record s {
    con =
        record_request (pos (at buf 0)) (at buf 1) (at buf 3)
          (request_host (at buf 3) addr (port_of port) s.con.dst_host) s.con;
  }
  known_command (at buf 1)
