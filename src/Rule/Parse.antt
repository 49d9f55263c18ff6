-- ===== src/Rule/Parse.antt =====
-- `parse_route_rule_spec`.
use smart_socksproxy.Base.{
  ℕ, zero, suc, ◌-◌, Bool, true, ◌||◌, Option, none, some, List, [], ◌∷◌, ◌++◌, Bytes, codes,
  length, ltb, ◌==◌, if◌then◌else◌, str_eq, ℤ,
}
use smart_socksproxy.Clib.{strncpy, strsep, scan_int}
use smart_socksproxy.Tunnel.{SshTunnel, find_tunnel}
use smart_socksproxy.Rule.Defs.{RouteRule, new_route_rule, max_tunnels}
use smart_socksproxy.Rule.Netmask.{
  Netv4, network, unreadable, undefined_shift, route_rule_grab_netv4,
}
use smart_socksproxy.Host.{max_dns}

-- A rule, `okay = 0`, or a step that C does not define (a missing parameter that is copied, a shift
-- by too much). `exhausted` is the end of the fuel.
pub data Parsed : Type 0 where
  rule : RouteRule → Parsed
  refused : Parsed
  undefined : Parsed
  exhausted : Parsed

infixl 5 ◌>>=◌
abbrev pub ◌>>=◌ : Parsed → (RouteRule → Parsed) → Parsed
rule r >>= f = f r
refused >>= f = refused
undefined >>= f = undefined
exhausted >>= f = exhausted

-- `route_rule_grab_param` for a command that fits: `strncpy` from the parameter, which may be NULL.
unfoldable pub grab_text : (Bytes → RouteRule) → Option Bytes → Parsed
grab_text field none = undefined
grab_text field (some param) = rule (field (strncpy param max_dns))

unfoldable pub grab_port : RouteRule → Option Bytes → Parsed
grab_port r none = refused
grab_port r (some param) = elim (scan_int param) [
  | none ↦ refused
  | some n ↦ rule (record r { match_port = n })
]

unfoldable pub set_net : (ℕ → ℕ → RouteRule) → Netv4 → Parsed
set_net fields (network addr mask) = rule (fields addr mask)
set_net fields unreadable = refused
set_net fields undefined_shift = undefined

unfoldable pub grab_net : (Bytes → Option Bytes) → (ℕ → ℕ → RouteRule) → Option Bytes → Parsed
unfolding set_net
grab_net pton fields none = refused
grab_net pton fields (some param) = set_net fields (route_rule_grab_netv4 pton param)

-- The chain of `if (!got_it)`: the commands are different words, so one of them can fit.
unfoldable pub grab : (Bytes → Option Bytes) → RouteRule → Bytes → Option Bytes → Parsed
unfolding grab_text grab_port grab_net
grab pton r cmd param =
    if str_eq (codes "is") cmd
    then grab_text (λ s. record r { match_is = s }) param
    else if str_eq (codes "startsWith") cmd
    then grab_text (λ s. record r { match_starts_with = s }) param
    else if str_eq (codes "endsWith") cmd
    then grab_text (λ s. record r { match_ends_with = s }) param
    else if str_eq (codes "contains") cmd
    then grab_text (λ s. record r { match_contains = s }) param
    else if str_eq cmd (codes "port")
    then grab_port r param
    else if str_eq cmd (codes "network")
    then grab_net pton
        (λ a m. record r { have_match_ipv4 = true; match_ipv4_addr = a; match_ipv4_mask = m }) param
    else if str_eq cmd (codes "map")
    then grab_net pton
        (λ a m. record r { have_map_ipv4 = true; map_ipv4_addr = a; map_ipv4_mask = m }) param
    else if str_eq cmd (codes "to")
    then grab_net pton (λ a m. record r { have_to_ipv4 = true; to_ipv4_addr = a; to_ipv4_mask = m })
        param
    else refused

-- The tunnel goes behind those that the rule has, as long as there is room for it and for the NULL.
unfoldable pub via_tunnel : RouteRule → ℕ → RouteRule
via_tunnel r ssh =
    if ltb (length r.tunnel) (max_tunnels - 1)
    then record r { tunnel = r.tunnel ++ ssh ∷ [] }
    else r

abbrev pub is_blank : ℕ → Bool
is_blank c = c == b' '

abbrev pub is_via_delimiter : ℕ → Bool
is_via_delimiter c = c == b' ' || c == b','

unfoldable pub via_name : List SshTunnel → RouteRule → Bytes → Parsed
unfolding via_tunnel find_tunnel
via_name tunnels r [] = rule r
via_name tunnels r (c ∷ name) = elim (find_tunnel (c ∷ name) tunnels) [
  | none ↦ refused
  | some ssh ↦ rule (via_tunnel r ssh.id)
]

-- The second loop, over the names behind `via`. What is left to parse is NULL behind the last.
unfoldable pub vias : ℕ → List SshTunnel → RouteRule → Option Bytes → Parsed
unfolding via_name
vias fuel tunnels r none = rule r
vias zero tunnels r (some s) = exhausted
vias (suc fuel) tunnels r (some s) =
    let (name, rest) = strsep is_via_delimiter s in
    via_name tunnels r name >>= λ r'. vias fuel tunnels r' rest

-- `if (okay && param == NULL && strPtr != NULL) param = strsep(&strPtr," ")`
unfoldable pub parameter : Option Bytes → Option Bytes × Option Bytes
parameter none = (none, none)
parameter (some s) = let (param, rest) = strsep is_blank s in (some param, rest)

-- The first loop, and the second where it breaks off.
unfoldable pub commands :
    (Bytes → Option Bytes) → ℕ → List SshTunnel → RouteRule → Option Bytes → Parsed
unfolding parameter vias grab
commands pton fuel tunnels r none = rule r
commands pton zero tunnels r (some s) = exhausted
commands pton (suc fuel) tunnels r (some s) =
    let (cmd, rest) = strsep is_blank s in
    let plain = commands pton fuel tunnels (record r { resolve_dns = true }) rest in
    let (param, rest') = parameter rest in
    let more = grab pton r cmd param >>= λ r'. commands pton fuel tunnels r' rest' in
    if str_eq cmd (codes "resolveDNS")
    then plain
    else if str_eq cmd (codes "via")
    then vias (suc fuel) tunnels r rest
    else more

-- The file name's buffer has 4096 bytes. The id comes from the pool.
unfoldable pub parse_route_rule_spec :
    (Bytes → Option Bytes) → ℕ → Bytes → Bytes → ℤ → List SshTunnel → Parsed
unfolding commands
parse_route_rule_spec pton id str_in filename line_num tunnels =
    commands pton (suc (length str_in)) tunnels
      (record (new_route_rule id) {
        file_name = strncpy filename 4096;
        file_line_number = line_num;
      })
      (some str_in)
