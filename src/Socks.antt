-- ===== src/Socks.antt =====
-- service_socks.c and socks5_client.c: the SOCKS 4 and 5 protocol, as a server for the clients of
-- the proxy and as a client of the SSH tunnels.
mod State
mod Server
mod Respond
mod Client
mod Receive
mod Request
mod Exchange
pub use State.{
  Peer, Session, M, fail, ok, next, ◌>>=◌, ◌>>◌, guard, modify, at, with_input, is_error,
}
unfoldable pub use State.{receive, send, transmit, transmit_unless_error}
pub use Server.{
  cmd_error, cmd_connect, cmd_bind, cmd_udp_associate, addrtype_ipv4, addrtype_domain,
  addrtype_ipv6,
}
unfoldable pub use Server.{
  socks_get_client_version, socks5_negotiate_auth, socks4_get_command, socks5_get_command,
}
unfoldable pub use Respond.{socks4_respond, socks5_respond, socks_respond}
unfoldable pub use Client.{
  sock5_client_negotiate_auth, command_bytes, address_field, transmit_command, read_over,
  read_unless_error, first_read, unsupported_version, set_failure_type, skip_address,
  socks5_client_send_command, socks5_client_get_command_response,
}
pub use Receive.*
pub use Request.*
pub use Exchange.*
