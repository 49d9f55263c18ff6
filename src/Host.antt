-- ===== src/Host.antt =====
-- host_id.c and dns_util.c: a destination or source host by name, by address, or by both.
mod Defs
mod Dns
mod Laws
pub use Defs.{
  SockaddrIn, Addr, unspec, inet, inet6, HostId, c_string, max_dns, byte_address, host_id_init,
  host_id_has_name, host_id_has_addr, host_id_get_name, host_id_get_port, host_id_get_addr,
}
unfoldable pub use Defs.{
  host_id_set_name, host_id_set_port, host_id_set_addr_in, host_id_set_addr_in6,
  host_id_set_addr_in_from_byte_array, host_id_set_addr_in6_from_byte_array,
  host_id_get_addr_as_byte_array, host_id_addr_str, host_id_name_or_addr_str,
}
pub use Dns.{Net}
unfoldable pub use Dns.{resolve_dns_for_host_id}
pub use Laws.*
