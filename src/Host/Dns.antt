-- ===== src/Host/Dns.antt =====
-- dns_util.c. What the C library and the resolver answer is a parameter.
use smart_socksproxy.Base.{
  Bool, true, false, not, Option, none, some, List, Bytes, if◌then◌else◌, low_16, htons,
}
use smart_socksproxy.Host.Defs.{HostId, host_id_has_name, host_id_set_addr_in}

-- `inet_pton` and `inet_ntop` of IPv4, `inet_ntop` of IPv6, the numeric addresses that
-- `getaddrinfo` and `getnameinfo` give for a name (none: the lookup failed), and the four bytes
-- that a `struct sockaddr_in` on the stack happens to hold before it is set.
pub record Net : Type 0 where
  pub pton : Bytes → Option Bytes
  pub ntop : Bytes → Bytes
  pub ntop6 : Bytes → Bytes
  pub addresses : Bytes → Option (Bytes × List Bytes)
  pub stale : Bytes

-- `inet_pton(AF_INET, hostname, &sin.sin_addr)`, whose result is not looked at.
parsed : Net → Bytes → Bytes
parsed net hostname = elim (net.pton hostname) [ none ↦ net.stale | some a ↦ a ]

-- The first address is taken. The function's result, and the host.
unfoldable pub resolve_dns_for_host_id : Net → HostId → Bool × HostId
unfolding parsed host_id_set_addr_in
resolve_dns_for_host_id net id =
    if not (host_id_has_name id) then (false, id) else elim (net.addresses id.name) [
      | none ↦ (false, id)
      | some (first, _) ↦ (
        true,
        host_id_set_addr_in id
            (record { sin_port = htons (low_16 id.port); sin_addr = parsed net first }),
      )
    ]
