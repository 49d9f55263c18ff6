-- ===== src/Engine/Conditions.antt =====
-- What the conditions of a rule mean.
use smart_socksproxy.Base.{
  ℕ, ◌≡◌, refl, ◌↔◌, ◌⊎◌, inl, inr, Bool, true, false, ◌&&◌, ◌||◌, Option, none, some, [], ◌∷◌,
  ◌++◌, Bytes, map, ℤ, pos, eq_ℤ, eq_ℤ_iff, str_eq, str_eq_iff, bit_and, arith,
}
use smart_socksproxy.Text.{
  tolower, string_starts_with, string_ends_with, string_contains, string_starts_with_iff,
  string_ends_with_iff, string_contains_iff,
}
use smart_socksproxy.Rule.{RouteRule}
use smart_socksproxy.Engine.Defs.{
  View, holds, text_condition, network_condition, port_condition, conditions,
}

-- The name or the address of the destination is a text with `P`.
abbrev pub SomeText : View → (Bytes → Type 0) → Type 0
SomeText v P = (s : Bytes) × ((v.name ≡ some s) ⊎ (v.ipaddr ≡ some s)) × P s

-- A condition that is set holds of the name or of the address.
abbrev pub Meets : View → Bytes → (Bytes → Type 0) → Type 0
Meets v pattern P = (pattern ≡ []) ⊎ SomeText v P

-- The destination has an IPv4 address in the network, if one is set.
abbrev pub InNetwork : View → Bool → ℕ → ℕ → Type 0
InNetwork v have addr mask =
    (have ≡ false) ⊎ ((v.is_inet ≡ true) × (bit_and v.ipv4_addr mask ≡ bit_and addr mask))

holds_iff :
    (test : Bytes → Bool) (o : Option Bytes)
    → (holds test o ≡ true) ↔ ((s : Bytes) × (o ≡ some s) × (test s ≡ true))
holds_iff test none =
    (λ h. cc, λ (p : (s : Bytes) × (none ≡ some s) × (test s ≡ true)). absurd (none_ne p.0 p.1))
  where
    none_ne : (s : Bytes) → none ≡ some s → ⊥
    none_ne s e = cc
holds_iff test (some s) =
    (λ h. (s, refl, h), λ (p : (t : Bytes) × (some s ≡ some t) × (test t ≡ true)). back p.0 p.1 p.2)
  where
    back : (t : Bytes) → some s ≡ some t → test t ≡ true → test s ≡ true
    back t e h = ground arith

or_iff : (a b : Bool) → ((a || b) ≡ true) ↔ ((a ≡ true) ⊎ (b ≡ true))
or_iff true b = (λ h. inl refl, λ h. refl)
or_iff false b = (λ h. inr h, λ h. ground arith)

text_condition_iff :
    (test : Bytes → Bytes → Bool) (P : Bytes → Bytes → Type 0) (v : View) (pattern : Bytes)
    → ((s : Bytes) → (test s pattern ≡ true) ↔ P s pattern)
    → (text_condition test v pattern ≡ true) ↔ Meets v pattern (λ s. P s pattern)
unfolding text_condition
text_condition_iff test P v [] k = (λ h. inl refl, λ h. refl)
text_condition_iff test P v (c ∷ pattern) k = (there, back)
  where
    p : Bytes
    p = c ∷ pattern

    by_name : (s : Bytes) × (v.name ≡ some s) × (test s p ≡ true) → Meets v p (λ s. P s p)
    by_name (s, e, h) = inr (s, inl e, (k s).0 h)

    by_addr : (s : Bytes) × (v.ipaddr ≡ some s) × (test s p ≡ true) → Meets v p (λ s. P s p)
    by_addr (s, e, h) = inr (s, inr e, (k s).0 h)

    there :
        (holds (λ s. test s p) v.name || holds (λ s. test s p) v.ipaddr) ≡ true
        → Meets v p (λ s. P s p)
    there h = elim ((or_iff _ (holds (λ s. test s p) v.ipaddr)).0 h) [
      | inl a ↦ by_name ((holds_iff (λ s. test s p) v.name).0 a)
      | inr b ↦ by_addr ((holds_iff (λ s. test s p) v.ipaddr).0 b)
    ]

    back :
        Meets v p (λ s. P s p)
        → (holds (λ s. test s p) v.name || holds (λ s. test s p) v.ipaddr) ≡ true
    back (inl e) = absurd (cc)
    back (inr (s, inl e, h)) =
        (or_iff _ _).1 (inl ((holds_iff (λ s. test s p) v.name).1 (s, e, (k s).1 h)))
    back (inr (s, inr e, h)) =
        (or_iff (holds (λ s. test s p) v.name) _).1
          (inr ((holds_iff (λ s. test s p) v.ipaddr).1 (s, e, (k s).1 h)))

network_condition_iff :
    (v : View) (have : Bool) (addr mask : ℕ)
    → (network_condition v have addr mask ≡ true) ↔ InNetwork v have addr mask
unfolding network_condition
network_condition_iff v have addr mask = (λ h. there h, λ h. ground arith)
  where
    there : network_condition v have addr mask ≡ true → InNetwork v have addr mask
    there h = ground arith

port_condition_iff :
    (port match_port : ℤ)
    → (port_condition port match_port ≡ true) ↔ ((match_port ≡ pos 0) ⊎ (match_port ≡ port))
port_condition_iff port m = (there, back)
  where
    there : port_condition port m ≡ true → (m ≡ pos 0) ⊎ (m ≡ port)
    there h = elim ((or_iff (eq_ℤ m (pos 0)) (eq_ℤ m port)).0 h) [
      | inl a ↦ inl ((eq_ℤ_iff m (pos 0)).0 a)
      | inr b ↦ inr ((eq_ℤ_iff m port).0 b)
    ]

    back : (m ≡ pos 0) ⊎ (m ≡ port) → port_condition port m ≡ true
    back (inl a) = (or_iff _ (eq_ℤ m port)).1 (inl ((eq_ℤ_iff m (pos 0)).1 a))
    back (inr b) = (or_iff (eq_ℤ m (pos 0)) _).1 (inr ((eq_ℤ_iff m port).1 b))

-- All the conditions that a rule sets, in terms of the destination: "is" and "startsWith" on the
-- text as it is, "endsWith" on the text in lower case, "contains" with the case ignored.
pub record Applies (port : ℤ) (v : View) (r : RouteRule) : Type 0 where
  pub is : Meets v r.match_is (λ s. s ≡ r.match_is)
  pub starts_with :
      Meets v r.match_starts_with (λ s. (rest : Bytes) × (s ≡ r.match_starts_with ++ rest))
  pub ends_with :
      Meets v r.match_ends_with
        (λ s. (front : Bytes) × (map tolower s ≡ front ++ r.match_ends_with))
  pub contains : Meets v r.match_contains (λ s.
      (front : Bytes) × (rest : Bytes) × (map tolower s
        ≡ front ++ (map tolower r.match_contains ++ rest)))
  pub on_port : (r.match_port ≡ pos 0) ⊎ (r.match_port ≡ port)
  pub in_network : InNetwork v r.have_match_ipv4 r.match_ipv4_addr r.match_ipv4_mask
  pub in_map : InNetwork v r.have_map_ipv4 r.map_ipv4_addr r.map_ipv4_mask

and_split : (a b : Bool) → (a && b) ≡ true → (a ≡ true) × (b ≡ true)
and_split true b h = (refl, h)
and_split false b h = cc

-- The tests of the loop pass exactly when every condition that the rule sets is met.
pub conditions_iff :
    (port : ℤ) (v : View) (r : RouteRule) → (conditions port v r ≡ true) ↔ Applies port v r
unfolding conditions
conditions_iff port v r = (there, back)
  where
    on_is : (text_condition str_eq v r.match_is ≡ true) ↔ Meets v r.match_is (λ s. s ≡ r.match_is)
    on_is = text_condition_iff str_eq (λ s p. s ≡ p) v r.match_is (λ s. str_eq_iff s r.match_is)

    on_starts :
        (text_condition string_starts_with v r.match_starts_with ≡ true)
        ↔ Meets v r.match_starts_with (λ s. (rest : Bytes) × (s ≡ r.match_starts_with ++ rest))
    on_starts =
        text_condition_iff string_starts_with (λ s p. (rest : Bytes) × (s ≡ p ++ rest)) v
          r.match_starts_with (λ s. string_starts_with_iff s r.match_starts_with)

    on_ends :
        (text_condition string_ends_with v r.match_ends_with ≡ true)
        ↔ Meets v r.match_ends_with
            (λ s. (front : Bytes) × (map tolower s ≡ front ++ r.match_ends_with))
    on_ends =
        text_condition_iff string_ends_with (λ s p. (front : Bytes) × (map tolower s ≡ front ++ p))
          v r.match_ends_with (λ s. string_ends_with_iff s r.match_ends_with)

    on_contains :
        (text_condition string_contains v r.match_contains ≡ true)
        ↔ Meets v r.match_contains (λ s.
          (front : Bytes) × (rest : Bytes) × (map tolower s
            ≡ front ++ (map tolower r.match_contains ++ rest)))
    on_contains =
        text_condition_iff string_contains
          (λ s p.
            (front : Bytes) × (rest : Bytes) × (map tolower s ≡ front ++ (map tolower p ++ rest)))
          v r.match_contains (λ s. string_contains_iff s r.match_contains)

    on_ports :
        (port_condition port r.match_port ≡ true) ↔ ((r.match_port ≡ pos 0) ⊎ (r.match_port ≡ port))
    on_ports = port_condition_iff port r.match_port

    on_net :
        (network_condition v r.have_match_ipv4 r.match_ipv4_addr r.match_ipv4_mask ≡ true)
        ↔ InNetwork v r.have_match_ipv4 r.match_ipv4_addr r.match_ipv4_mask
    on_net = network_condition_iff v r.have_match_ipv4 r.match_ipv4_addr r.match_ipv4_mask

    on_map :
        (network_condition v r.have_map_ipv4 r.map_ipv4_addr r.map_ipv4_mask ≡ true)
        ↔ InNetwork v r.have_map_ipv4 r.map_ipv4_addr r.map_ipv4_mask
    on_map = network_condition_iff v r.have_map_ipv4 r.map_ipv4_addr r.map_ipv4_mask

    there : conditions port v r ≡ true → Applies port v r
    there h =
        let (h6, i7) = and_split _ _ h in
        let (h5, i6) = and_split _ _ h6 in
        let (h4, i5) = and_split _ _ h5 in
        let (h3, i4) = and_split _ _ h4 in
        let (h2, i3) = and_split _ _ h3 in
        let (i1, i2) = and_split _ _ h2 in
        record {
          is = on_is.0 i1;
          starts_with = on_starts.0 i2;
          ends_with = on_ends.0 i3;
          contains = on_contains.0 i4;
          on_port = on_ports.0 i5;
          in_network = on_net.0 i6;
          in_map = on_map.0 i7;
        }

    back : Applies port v r → conditions port v r ≡ true
    back a = rw (
      on_is.1 a.is,
      on_starts.1 a.starts_with,
      on_ends.1 a.ends_with,
      on_contains.1 a.contains,
      on_ports.1 a.on_port,
      on_net.1 a.in_network,
      on_map.1 a.in_map,
    )
