-- ===== src/Engine/Defs.antt =====
-- `decide_applicable_rule`. Logging is left out; the locks are the thread's own.
use smart_socksproxy.Base.{
  ℕ, Bool, true, false, ◌&&◌, ◌||◌, Option, none, some, List, [], ◌∷◌, Bytes, codes, ◌==◌,
  if◌then◌else◌, str_eq, bit_and, bit_or, bit_xor, htons, htonl, ntohl, ℤ, pos, eq_ℤ, low_16,
}
use smart_socksproxy.Text.{string_starts_with, string_ends_with, string_contains}
use smart_socksproxy.Host.{
  HostId, unspec, inet, inet6, host_id_has_name, host_id_addr_str, host_id_set_addr_in,
  host_id_set_name, Net, resolve_dns_for_host_id, max_dns,
}
use smart_socksproxy.Tunnel.{ssh_tunnel_direct}
use smart_socksproxy.Rule.{RouteRule, new_route_rule}
use smart_socksproxy.Connection.{ClientConnection}

-- What the loop reads of the destination: `name`, `ipaddr`, `family == AF_INET`, `ipv4_addr`.
pub record View : Type 0 where
  pub name : Option Bytes
  pub ipaddr : Option Bytes
  pub is_inet : Bool
  pub ipv4_addr : ℕ

-- `rre_get_host_id_name`
abbrev rre_get_host_id_name : HostId → Option Bytes
rre_get_host_id_name dst = if host_id_has_name dst then some dst.name else none

-- The text in the buffer. It holds 259 characters, enough for each address.
abbrev buffer_text : Option Bytes → Bytes
buffer_text none = []
buffer_text (some s) = s

-- `rre_get_host_id_name` and `rre_get_host_id_addr` on the destination.
abbrev pub view : Net → HostId → View
view net dst = elim dst.addr [
  | unspec ↦ record {
    name = rre_get_host_id_name dst;
    ipaddr = none;
    is_inet = false;
    ipv4_addr = 0;
  }
  | inet a ↦ record {
    name = rre_get_host_id_name dst;
    ipaddr = some (buffer_text (host_id_addr_str net.ntop net.ntop6 dst max_dns));
    is_inet = true;
    ipv4_addr = ntohl a.sin_addr;
  }
  | inet6 a ↦ record {
    name = rre_get_host_id_name dst;
    ipaddr = some (buffer_text (host_id_addr_str net.ntop net.ntop6 dst max_dns));
    is_inet = false;
    ipv4_addr = 0;
  }
]

abbrev pub holds : (Bytes → Bool) → Option Bytes → Bool
holds test none = false
holds test (some s) = test s

-- A condition on a text, which an empty pattern switches off: name or address must pass the test.
unfoldable pub text_condition : (Bytes → Bytes → Bool) → View → Bytes → Bool
text_condition test v [] = true
text_condition test v (c ∷ pattern) =
    holds (λ s. test s (c ∷ pattern)) v.name || holds (λ s. test s (c ∷ pattern)) v.ipaddr

unfoldable pub network_condition : View → Bool → ℕ → ℕ → Bool
network_condition v false addr mask = true
network_condition v true addr mask = v.is_inet && bit_and v.ipv4_addr mask == bit_and addr mask

abbrev pub port_condition : ℤ → ℤ → Bool
port_condition port match_port = eq_ℤ match_port (pos 0) || eq_ℤ match_port port

-- All conditions of a rule: `this_route_applies` before the permutations.
unfoldable pub conditions : ℤ → View → RouteRule → Bool
unfolding text_condition network_condition
conditions port v r =
    text_condition str_eq v r.match_is
    && text_condition string_starts_with v r.match_starts_with
    && text_condition string_ends_with v r.match_ends_with
    && text_condition string_contains v r.match_contains
    && port_condition port r.match_port
    && network_condition v r.have_match_ipv4 r.match_ipv4_addr r.match_ipv4_mask
    && network_condition v r.have_map_ipv4 r.map_ipv4_addr r.map_ipv4_mask

-- `(ipv4_addr & mask_neg) | (route->to_ipv4_addr & mask)`
unfoldable pub rewritten_address : ℕ → ℕ → ℕ → ℕ
rewritten_address ipv4_addr to_addr mask =
    bit_or (bit_and ipv4_addr (bit_xor 0xffff_ffff mask)) (bit_and to_addr mask)

abbrev socks5_addrtype_ipv4 : ℕ
socks5_addrtype_ipv4 = 1

-- "to": the destination becomes the rewritten address, and loses its name.
unfoldable pub rewrite : Net → RouteRule → ClientConnection → ClientConnection
unfolding host_id_set_name host_id_set_addr_in
rewrite net r con =
    let v = view net con.dst_host in
    if r.have_to_ipv4 && v.is_inet
    then record con {
      dst_host =
          host_id_set_name
            (host_id_set_addr_in con.dst_host (record {
              sin_port = htons (low_16 con.dst_host.port);
              sin_addr = htonl (rewritten_address v.ipv4_addr r.to_ipv4_addr r.to_ipv4_mask);
            }))
            [];
      socks_address_type = socks5_addrtype_ipv4;
    }
    else con

-- "resolveDNS": a destination with a name is looked up.
unfoldable pub resolve : Net → RouteRule → ClientConnection → ClientConnection
unfolding resolve_dns_for_host_id
resolve net r con =
    if r.resolve_dns && host_id_has_name con.dst_host
    then record con { dst_host = (resolve_dns_for_host_id net con.dst_host).1 }
    else con

-- The permutations of a rule that applies.
unfoldable pub permute : Net → RouteRule → ClientConnection → ClientConnection
permute net r con = resolve net r (rewrite net r con)

-- `route->tunnel[0] != NULL`
abbrev pub is_final : RouteRule → Bool
is_final r = elim r.tunnel [ [] ↦ false | t ∷ ts ↦ true ]

-- The loop over the rules: the connection as the rules leave it, and the rule that ended the loop.
-- The port is read once, before the loop.
unfoldable pub scan :
    Net → ℤ → List RouteRule → ClientConnection → ClientConnection × Option RouteRule
scan net port [] con = (con, none)
scan net port (r ∷ rs) con = elim (conditions port (view net con.dst_host) r) [
  | false ↦ scan net port rs con
  | true ↦ elim (is_final r) [
    | true ↦ (permute net r con, some r)
    | false ↦ scan net port rs (permute net r con)
  ]
]

-- The rule that stands in where none was found; its id comes from the pool.
abbrev pub default_direct : ℕ → RouteRule
default_direct id = record (new_route_rule id) {
  file_name = codes "default_direct";
  tunnel = ssh_tunnel_direct ∷ [];
}

route_or : RouteRule → Option RouteRule → RouteRule
route_or d none = d
route_or d (some r) = r

found : Option RouteRule → Bool
found none = false
found (some r) = true

-- The function's result, 1 or 0, and the connection.
unfoldable pub decide_applicable_rule :
    Net → List RouteRule → RouteRule → ClientConnection → Bool × ClientConnection
unfolding scan route_or found
decide_applicable_rule net rules default con =
    let (con', chosen) = scan net con.dst_host.port rules con in
    (found chosen, record con' { route = some (route_or default chosen) })
