-- ===== src/Rule/Total.antt =====
-- The parser of rules ends, and what it returns is well formed.
use smart_socksproxy.Base.{
  ℕ, zero, suc, ◌-◌, ◌≤◌, ◌<◌, ◌≡◌, refl, ◌⊎◌, inl, inr, Bool, true, false, Option, none, some,
  List, [], ◌∷◌, ◌++◌, Bytes, length, length-take, length-append, All, ntohl, ℤ, codes, str_eq,
  if◌then◌else◌, Bool-cases, Option-cases, arith,
}
use smart_socksproxy.Clib.{strncpy, strsep, length-strsep, scan_int}
use smart_socksproxy.Tunnel.{SshTunnel, find_tunnel}
use smart_socksproxy.Rule.Defs.{RouteRule, max_tunnels}
use smart_socksproxy.Rule.Netmask.{
  Netv4, network, unreadable, undefined_shift, all_ones, prefix_mask, is_slash,
  convert_string_to_ipv4_ulong, by_prefix, with_mask, mask_part, route_rule_grab_netv4,
}
use smart_socksproxy.Rule.Parse.{
  Parsed, rule, refused, undefined, exhausted, ◌>>=◌, grab_text, grab_port, set_net, grab_net, grab,
  via_tunnel, via_name, vias, parameter, commands, is_blank, is_via_delimiter,
  parse_route_rule_spec,
}
use smart_socksproxy.Host.{max_dns}

-- The id of a tunnel in the list.
abbrev pub IsListed : List SshTunnel → ℕ → Type 0
IsListed [] t = ⊥
IsListed (s ∷ ss) t = (s.id ≡ t) ⊎ IsListed ss t

-- Texts fit their buffers, addresses and masks have 32 bits, and the tunnels are tunnels of the
-- list, with room for the NULL behind them.
pub record IsWellFormed (tunnels : List SshTunnel) (r : RouteRule) : Type 0 where
  pub is_fits : length r.match_is < max_dns
  pub starts_with_fits : length r.match_starts_with < max_dns
  pub ends_with_fits : length r.match_ends_with < max_dns
  pub contains_fits : length r.match_contains < max_dns
  pub match_addr_fits : r.match_ipv4_addr ≤ all_ones
  pub match_mask_fits : r.match_ipv4_mask ≤ all_ones
  pub map_addr_fits : r.map_ipv4_addr ≤ all_ones
  pub map_mask_fits : r.map_ipv4_mask ≤ all_ones
  pub to_addr_fits : r.to_ipv4_addr ≤ all_ones
  pub to_mask_fits : r.to_ipv4_mask ≤ all_ones
  pub room : length r.tunnel < max_tunnels
  pub listed : All (IsListed tunnels) r.tunnel

-- A rule that is returned satisfies `P`, and the fuel does not run out.
abbrev pub Ensures : (RouteRule → Type 0) → Parsed → Type 0
Ensures P (rule r) = P r
Ensures P refused = Unit
Ensures P undefined = Unit
Ensures P exhausted = ⊥

-- What `inet_pton` of IPv4 writes is an address of 32 bits.
abbrev pub WritesAddress : (Bytes → Option Bytes) → Type 0
WritesAddress pton = (s a : Bytes) → pton s ≡ some a → ntohl a ≤ all_ones

bind-Ensures :
    (P Q : RouteRule → Type 0) (m : Parsed) (f : RouteRule → Parsed)
    → Ensures P m
    → ((r : RouteRule) → P r → Ensures Q (f r))
    → Ensures Q (m >>= f)
bind-Ensures P Q (rule r) f h k = k r h
bind-Ensures P Q refused f h k = tt
bind-Ensures P Q undefined f h k = tt
bind-Ensures P Q exhausted f h k = h

find_tunnel-IsListed :
    (name : Bytes) (tunnels : List SshTunnel) {ssh : SshTunnel}
    → find_tunnel name tunnels ≡ some ssh
    → IsListed tunnels ssh.id
unfolding find_tunnel
find_tunnel-IsListed name [] e = cc
find_tunnel-IsListed name (s ∷ ss) {ssh} e = elim (Bool-cases (str_eq s.name name)) [
  | inl hit ↦ inl (ground (arith, hit))
  | inr miss ↦ inr (find_tunnel-IsListed name ss {ssh = ssh} (ground (arith, miss)))
]

if-Ensures :
    (P : RouteRule → Type 0) (b : Bool) (x y : Parsed)
    → Ensures P x
    → Ensures P y
    → Ensures P (if b then x else y)
if-Ensures P true x y h k = h
if-Ensures P false x y h k = k

All-append : (P : ℕ → Type 0) (xs : List ℕ) (y : ℕ) → All P xs → P y → All P (xs ++ y ∷ [])
All-append P [] y h k = (k, tt)
All-append P (x ∷ xs) y h k = (h.0, All-append P xs y h.1 k)

abbrev FitsWord : Netv4 → Type 0
FitsWord (network addr mask) = (addr ≤ all_ones) × (mask ≤ all_ones)
FitsWord unreadable = Unit
FitsWord undefined_shift = Unit

prefix_mask-le : (n : ℤ) (m : ℕ) → prefix_mask n ≡ some m → m ≤ all_ones
prefix_mask-le n m e = ground arith

by_prefix-FitsWord : (addr : ℕ) (mask : Bytes) → addr ≤ all_ones → FitsWord (by_prefix addr mask)
unfolding by_prefix
by_prefix-FitsWord addr mask h = read (scan_int mask)
  where
    masked :
        (o : Option ℕ)
        → ((m : ℕ) → o ≡ some m → m ≤ all_ones)
        → FitsWord (elim o [ none ↦ undefined_shift | some m ↦ network addr m ])
    masked none k = tt
    masked (some m) k = (h, k m refl)

    read :
        (o : Option ℤ)
        → FitsWord (elim o [
          | none ↦ unreadable
          | some p ↦ elim (prefix_mask p) [ none ↦ undefined_shift | some m ↦ network addr m ]
        ])
    read none = tt
    read (some p) = masked (prefix_mask p) (prefix_mask-le p)

convert-le :
    (pton : Bytes → Option Bytes) (s : Bytes) (n : ℕ)
    → WritesAddress pton
    → convert_string_to_ipv4_ulong pton s ≡ some n
    → n ≤ all_ones
unfolding convert_string_to_ipv4_ulong
convert-le pton s n a e = elim (Option-cases (pton s)) [
  | inl absent ↦ ground (arith, absent)
  | inr (b, there) ↦ ground (arith, there, a s b there)
]

with_mask-FitsWord :
    (pton : Bytes → Option Bytes) (addr : ℕ) (mask : Option Bytes)
    → WritesAddress pton
    → addr ≤ all_ones
    → FitsWord (with_mask pton addr mask)
unfolding with_mask
with_mask-FitsWord pton addr none a h = (h, omega arith)
with_mask-FitsWord pton addr (some mask) a h =
    elim (Option-cases (convert_string_to_ipv4_ulong pton mask)) [
      | inl e ↦ rw (e, with_mask) (by_prefix-FitsWord addr mask h)
      | inr (m, e) ↦ rw (e, with_mask) (h, convert-le pton mask m a e)
    ]

route_rule_grab_netv4-FitsWord :
    (pton : Bytes → Option Bytes) (param : Bytes)
    → WritesAddress pton
    → FitsWord (route_rule_grab_netv4 pton param)
unfolding route_rule_grab_netv4
route_rule_grab_netv4-FitsWord pton param a =
    elim (Option-cases (convert_string_to_ipv4_ulong pton (strsep is_slash param).0)) [
      | inl e ↦ rw (e, route_rule_grab_netv4) tt
      | inr (n, e) ↦
          rw (e, route_rule_grab_netv4)
            (with_mask-FitsWord pton n (mask_part (strsep is_slash param).1) a
              (convert-le pton (strsep is_slash param).0 n a e))
    ]

module _ (tunnels : List SshTunnel) where
  via_tunnel-IsWellFormed :
      (r : RouteRule) (t : ℕ)
      → IsWellFormed tunnels r
      → IsListed tunnels t
      → IsWellFormed tunnels (via_tunnel r t)
  unfolding via_tunnel
  via_tunnel-IsWellFormed r t w l =
      ground (
        arith,
        length-append r.tunnel (t ∷ []),
        All-append (IsListed tunnels) r.tunnel t w.listed l,
      )

  via_name-Ensures :
      (r : RouteRule) (name : Bytes)
      → IsWellFormed tunnels r
      → Ensures (IsWellFormed tunnels) (via_name tunnels r name)
  unfolding via_name
  via_name-Ensures r [] w = w
  via_name-Ensures r (c ∷ name) w = elim (Option-cases (find_tunnel (c ∷ name) tunnels)) [
    | inl e ↦ rw (e, via_name) tt
    | inr (ssh, e) ↦
        rw (e, via_name)
          (via_tunnel-IsWellFormed r ssh.id w (find_tunnel-IsListed (c ∷ name) tunnels e))
  ]

  vias-Ensures :
      (fuel : ℕ) (r : RouteRule) (s : Option Bytes)
      → IsWellFormed tunnels r
      → ((t : Bytes) → s ≡ some t → length t < fuel)
      → Ensures (IsWellFormed tunnels) (vias fuel tunnels r s)
  unfolding vias
  vias-Ensures fuel r none w h = w
  vias-Ensures zero r (some s) w h = absurd (omega (arith, h s refl))
  vias-Ensures (suc fuel) r (some s) w h =
      bind-Ensures (IsWellFormed tunnels) (IsWellFormed tunnels)
        (via_name tunnels r (strsep is_via_delimiter s).0)
        (λ r'. vias fuel tunnels r' (strsep is_via_delimiter s).1)
        (via_name-Ensures r (strsep is_via_delimiter s).0 w)
        (λ r' w'.
          vias-Ensures fuel r' (strsep is_via_delimiter s).1 w'
            (λ t e. omega (arith, length-strsep is_via_delimiter s e, h s refl)))

  text-Ensures :
      (field : Bytes → RouteRule) (param : Option Bytes)
      → ((s : Bytes) → length s < max_dns → IsWellFormed tunnels (field s))
      → Ensures (IsWellFormed tunnels) (grab_text field param)
  unfolding grab_text
  text-Ensures field none h = tt
  text-Ensures field (some param) h =
      h (strncpy param max_dns) (omega (arith, length-take (max_dns - 1) param))

  port-Ensures :
      (r : RouteRule) (param : Option Bytes)
      → IsWellFormed tunnels r
      → Ensures (IsWellFormed tunnels) (grab_port r param)
  unfolding grab_port
  port-Ensures r param w = ground arith

  net-Ensures :
      (pton : Bytes → Option Bytes) (fields : ℕ → ℕ → RouteRule) (param : Option Bytes)
      → WritesAddress pton
      → ((a m : ℕ) → a ≤ all_ones → m ≤ all_ones → IsWellFormed tunnels (fields a m))
      → Ensures (IsWellFormed tunnels) (grab_net pton fields param)
  unfolding grab_net
  net-Ensures pton fields none a h = tt
  net-Ensures pton fields (some param) a h =
      set (route_rule_grab_netv4 pton param) (route_rule_grab_netv4-FitsWord pton param a)
    where
      set : (v : Netv4) → FitsWord v → Ensures (IsWellFormed tunnels) (set_net fields v)
      set (network addr mask) (p, q) = h addr mask p q
      set unreadable f = tt
      set undefined_shift f = tt

  grab-Ensures :
      (pton : Bytes → Option Bytes) (r : RouteRule) (cmd : Bytes) (param : Option Bytes)
      → WritesAddress pton
      → IsWellFormed tunnels r
      → Ensures (IsWellFormed tunnels) (grab pton r cmd param)
  unfolding grab
  grab-Ensures pton r cmd param a w =
      choose (str_eq (codes "is") cmd) _ _
        (text-Ensures (λ s. record r { match_is = s }) param (λ s h. ground arith))
        (choose (str_eq (codes "startsWith") cmd) _ _
          (text-Ensures (λ s. record r { match_starts_with = s }) param (λ s h. ground arith))
          (choose (str_eq (codes "endsWith") cmd) _ _
            (text-Ensures (λ s. record r { match_ends_with = s }) param (λ s h. ground arith))
            (choose (str_eq (codes "contains") cmd) _ _
              (text-Ensures (λ s. record r { match_contains = s }) param (λ s h. ground arith))
              (choose (str_eq cmd (codes "port")) _ _ (port-Ensures r param w) (
                choose (str_eq cmd (codes "network")) _ _
                  (net-Ensures pton
                    (λ x m. record r {
                      have_match_ipv4 = true;
                      match_ipv4_addr = x;
                      match_ipv4_mask = m;
                    })
                    param a (λ x m h k. ground arith))
                  (choose (str_eq cmd (codes "map")) _ _
                    (net-Ensures pton
                      (λ x m. record r {
                        have_map_ipv4 = true;
                        map_ipv4_addr = x;
                        map_ipv4_mask = m;
                      })
                      param a (λ x m h k. ground arith))
                    (choose (str_eq cmd (codes "to")) _ _
                      (net-Ensures pton
                        (λ x m. record r {
                          have_to_ipv4 = true;
                          to_ipv4_addr = x;
                          to_ipv4_mask = m;
                        })
                        param a (λ x m h k. ground arith))
                      tt)))))))
    where
      choose :
          (b : Bool) (x y : Parsed)
          → Ensures (IsWellFormed tunnels) x
          → Ensures (IsWellFormed tunnels) y
          → Ensures (IsWellFormed tunnels) (if b then x else y)
      choose = if-Ensures (IsWellFormed tunnels)

  parameter-shorter :
      (rest : Option Bytes) (n : ℕ) {t : Bytes}
      → ((u : Bytes) → rest ≡ some u → length u < n)
      → (parameter rest).1 ≡ some t
      → length t < n
  unfolding parameter
  parameter-shorter none n h e = cc
  parameter-shorter (some s) n h e = omega (arith, length-strsep is_blank s e, h s refl)

  commands-Ensures :
      (pton : Bytes → Option Bytes) (fuel : ℕ) (r : RouteRule) (s : Option Bytes)
      → WritesAddress pton
      → IsWellFormed tunnels r
      → ((t : Bytes) → s ≡ some t → length t < fuel)
      → Ensures (IsWellFormed tunnels) (commands pton fuel tunnels r s)
  unfolding commands
  commands-Ensures pton fuel r none a w h = w
  commands-Ensures pton zero r (some s) a w h = absurd (omega (arith, h s refl))
  commands-Ensures pton (suc fuel) r (some s) a w h =
      if-Ensures (IsWellFormed tunnels) (str_eq cmd (codes "resolveDNS")) _ _
        (commands-Ensures pton fuel (record r { resolve_dns = true }) rest a (ground arith) shorter)
        (if-Ensures (IsWellFormed tunnels) (str_eq cmd (codes "via")) _ _
          (vias-Ensures (suc fuel) r rest w (λ t e. omega (arith, shorter t e)))
          (bind-Ensures (IsWellFormed tunnels) (IsWellFormed tunnels)
            (grab pton r cmd (parameter rest).0)
            (λ r'. commands pton fuel tunnels r' (parameter rest).1)
            (grab-Ensures pton r cmd (parameter rest).0 a w)
            (λ r' w'.
              commands-Ensures pton fuel r' (parameter rest).1 a w'
                (λ t e. parameter-shorter rest fuel shorter e))))
    where
      cmd : Bytes
      cmd = (strsep is_blank s).0

      rest : Option Bytes
      rest = (strsep is_blank s).1

      shorter : (t : Bytes) → rest ≡ some t → length t < fuel
      shorter t e = omega (arith, length-strsep is_blank s e, h s refl)

pub parse_route_rule_spec-IsWellFormed :
    (pton : Bytes → Option Bytes) (id : ℕ) (str_in filename : Bytes) (line_num : ℤ)
    (tunnels : List SshTunnel)
    → WritesAddress pton
    → Ensures
        (IsWellFormed tunnels)
        (parse_route_rule_spec pton id str_in filename line_num tunnels)
unfolding parse_route_rule_spec
parse_route_rule_spec-IsWellFormed pton id str_in filename line_num tunnels a =
    commands-Ensures tunnels pton (suc (length str_in)) _ (some str_in) a (omega arith)
      (λ t e. ground arith)
