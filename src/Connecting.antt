-- ===== src/Connecting.antt =====
-- socks_connection.c, the rest of socks5_client.c, and the handlers of service_socks.c and
-- service_port_forward.c: how a connection gets to its destination.
mod Direct
mod Attempts
mod Handlers
mod Tunnels
pub use Direct.{Connect, connected, refused, reset, other, Dial, Dialer}
unfoldable pub use Direct.{
  connect_null, connect_direct, connect_to_ssh_socks5_proxy, connect_via_ssh_socks5,
}
pub use Attempts.{World, Attempt, created, turned_away, failed_once}
unfoldable pub use Attempts.{connect_by, attempt, attempts, socks_connect}
pub use Handlers.{Surroundings, Ends, Handled, finished, moving}
unfoldable pub use Handlers.{
  socks_request, port_forward_request, service_socks_connection_handler,
  service_port_forward_connection_handler,
}
pub use Tunnels.*
