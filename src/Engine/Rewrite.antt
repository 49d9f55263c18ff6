-- ===== src/Engine/Rewrite.antt =====
-- What the permutations of the rules change, and what a netmask compares.
use smart_socksproxy.Base.{
  ℕ, ◌≤◌, ◌<◌, ◌≡◌, refl, ap, ◌∙◌, inl, inr, true, ◌&&◌, none, List, [], ◌∷◌, Bool-cases, ℤ, pos,
  bit_and, bit_xor, low_16, htons, ntohs, htonl, ntohl, ntohl-htonl, arith,
}
use smart_socksproxy.Base.Bits.{and-merge_mask, and-merge_rest, merge-le}
use smart_socksproxy.Host.{Net, host_id_init, SockaddrIn, inet, host_id_has_name}
use smart_socksproxy.Rule.{RouteRule}
use smart_socksproxy.Connection.{ClientConnection}
use smart_socksproxy.Engine.Defs.{
  view, rewritten_address, rewrite, resolve, permute, conditions, is_final, scan,
  decide_applicable_rule,
}

-- For a mask of 32 bits, a rewritten address has the rule's address under the mask and the old
-- address elsewhere, and is a word of 32 bits.
pub rewritten_address_lem :
    (ip to_addr mask : ℕ)
    → mask ≤ 0xffff_ffff
    → (bit_and (rewritten_address ip to_addr mask) mask ≡ bit_and to_addr mask)
      × (bit_and (rewritten_address ip to_addr mask) (bit_xor 0xffff_ffff mask)
          ≡ bit_and ip (bit_xor 0xffff_ffff mask))
      × (rewritten_address ip to_addr mask ≤ 0xffff_ffff)
unfolding rewritten_address
rewritten_address_lem ip to_addr mask h = (
  and-merge_mask 32 ip to_addr mask h,
  and-merge_rest 32 ip to_addr mask h,
  merge-le 32 ip to_addr mask h,
)

rewrite_inet :
    (net : Net) (r : RouteRule) (con : ClientConnection) (a : SockaddrIn)
    → r.have_to_ipv4 ≡ true
    → con.dst_host.addr ≡ inet a
    → rewrite net r con ≡ record con {
      dst_host = record {
        name = [];
        addr = inet (record {
          sin_port = htons (low_16 con.dst_host.port);
          sin_addr = htonl (rewritten_address (ntohl a.sin_addr) r.to_ipv4_addr r.to_ipv4_mask);
        });
        port = pos (ntohs (htons (low_16 con.dst_host.port)));
      };
      socks_address_type = 1;
    }
unfolding rewrite
rewrite_inet net r con a h e = rw (h, e, view)

-- The destination that "to" leaves, out of one with the address `a`.
pub record Rewritten (net : Net) (r : RouteRule) (a : SockaddrIn) (con out : ClientConnection)
    : Type 0 where
  pub name : out.dst_host.name ≡ []
  pub port : out.dst_host.port ≡ con.dst_host.port
  pub address_type : out.socks_address_type ≡ 1
  pub network :
      bit_and (view net out.dst_host).ipv4_addr r.to_ipv4_mask
      ≡ bit_and r.to_ipv4_addr r.to_ipv4_mask
  pub host :
      bit_and (view net out.dst_host).ipv4_addr (bit_xor 0xffff_ffff r.to_ipv4_mask)
      ≡ bit_and (ntohl a.sin_addr) (bit_xor 0xffff_ffff r.to_ipv4_mask)
  pub original : out.dst_host_original ≡ con.dst_host_original

-- "to" moves a destination with an IPv4 address into the rule's network: the address takes the
-- network's bits under the mask and keeps its own bits elsewhere, the port (of 16 bits) stays, the
-- name is dropped (so that it is not looked up again), the address type becomes IPv4, and the
-- destination that the client asked for is kept as it was. The mask has 32 bits.
pub rewrite-Rewritten :
    (net : Net) (r : RouteRule) (con : ClientConnection) (p : ℕ) (a : SockaddrIn)
    → con.dst_host.port ≡ pos p
    → p < 65536
    → r.to_ipv4_mask ≤ 0xffff_ffff
    → r.have_to_ipv4 ≡ true
    → con.dst_host.addr ≡ inet a
    → Rewritten net r a con (rewrite net r con)
rewrite-Rewritten net r con p a e h m t i = rw (rewrite_inet net r con a t i) (record {
  name = refl;
  port = same_port;
  address_type = refl;
  network = ap (λ n. bit_and n r.to_ipv4_mask) stored ∙ laws.0;
  host = ap (λ n. bit_and n (bit_xor 0xffff_ffff r.to_ipv4_mask)) stored ∙ laws.1;
  original = refl;
})
  where
    new : ℕ
    new = rewritten_address (ntohl a.sin_addr) r.to_ipv4_addr r.to_ipv4_mask

    laws :
        (bit_and new r.to_ipv4_mask ≡ bit_and r.to_ipv4_addr r.to_ipv4_mask)
        × (bit_and new (bit_xor 0xffff_ffff r.to_ipv4_mask)
            ≡ bit_and (ntohl a.sin_addr) (bit_xor 0xffff_ffff r.to_ipv4_mask))
        × (new ≤ 0xffff_ffff)
    laws = rewritten_address_lem (ntohl a.sin_addr) r.to_ipv4_addr r.to_ipv4_mask m

    stored : ntohl (htonl new) ≡ new
    stored = ntohl-htonl new (omega (arith, laws.2))

    same_port : pos (ntohs (htons (low_16 con.dst_host.port))) ≡ con.dst_host.port
    same_port = rw e (ap pos (omega arith))

-- A connection apart from its destination, the destination's address type and the route.
abbrev pub other_fields : ClientConnection → ClientConnection
other_fields con = record con { dst_host = host_id_init; socks_address_type = 0; route = none }

rewrite-other_fields :
    (net : Net) (r : RouteRule) (con : ClientConnection)
    → other_fields (rewrite net r con) ≡ other_fields con
unfolding rewrite
rewrite-other_fields net r con =
    elim (Bool-cases (r.have_to_ipv4 && (view net con.dst_host).is_inet)) [
      | inl e ↦ rw (e, rewrite)
      | inr e ↦ rw (e, rewrite)
    ]

resolve-other_fields :
    (net : Net) (r : RouteRule) (con : ClientConnection)
    → other_fields (resolve net r con) ≡ other_fields con
unfolding resolve
resolve-other_fields net r con =
    elim (Bool-cases (r.resolve_dns && host_id_has_name con.dst_host)) [
      | inl e ↦ rw (e, resolve)
      | inr e ↦ rw (e, resolve)
    ]

permute-other_fields :
    (net : Net) (r : RouteRule) (con : ClientConnection)
    → other_fields (permute net r con) ≡ other_fields con
unfolding permute
permute-other_fields net r con =
    resolve-other_fields net r (rewrite net r con) ∙ rewrite-other_fields net r con

scan-other_fields :
    (net : Net) (port : ℤ) (rs : List RouteRule) (con : ClientConnection)
    → other_fields (scan net port rs con).0 ≡ other_fields con
unfolding scan
scan-other_fields net port [] con = refl
scan-other_fields net port (r ∷ rs) con =
    elim (Bool-cases (conditions port (view net con.dst_host) r)) [
      | inl fits ↦ elim (Bool-cases (is_final r)) [
        | inl final ↦ rw (fits, final, scan) (permute-other_fields net r con)
        | inr open_end ↦
            rw (fits, open_end, scan)
              (scan-other_fields net port rs (permute net r con) ∙ permute-other_fields net r con)
      ]
      | inr misses ↦ rw (misses, scan) (scan-other_fields net port rs con)
    ]

-- Whatever the rules are, `decide_applicable_rule` touches nothing of the connection but the
-- destination, its address type and the route: descriptors, counters, status and the destination
-- that the client asked for stay.
pub decide_applicable_rule-other_fields :
    (net : Net) (rules : List RouteRule) (default : RouteRule) (con : ClientConnection)
    → other_fields (decide_applicable_rule net rules default con).1 ≡ other_fields con
unfolding decide_applicable_rule
decide_applicable_rule-other_fields net rules default con =
    scan-other_fields net con.dst_host.port rules con
