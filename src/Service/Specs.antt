-- ===== src/Service/Specs.antt =====
-- What the specifications of services say.
use smart_socksproxy.Base.{
  ℕ, suc, ◌<◌, ◌≡◌, refl, ap, ◌∙◌, false, some, [], ◌∷◌, ◌++◌, Bytes, codes, length, All, ◌==◌, ℤ,
  pos, negsuc, arith,
}
use smart_socksproxy.Text.{string_count_char_instances}
use smart_socksproxy.Clib.{scan_int, FitsInt}
use smart_socksproxy.Service.Defs.{kind_port_forward, Service}
use smart_socksproxy.Service.Parse.{
  tokens, in_front, set_parts, set_part, parse_spec, kind_part, parse_service_port_forward_spec,
}

-- A text with no colon.
abbrev pub IsPlain : Bytes → Type 0
IsPlain s = All (λ c. (c == b':') ≡ false) s

tokens_plain : (s : Bytes) → IsPlain s → tokens s ≡ s ∷ []
unfolding tokens in_front
tokens_plain [] h = refl
tokens_plain (c ∷ cs) (h, hs) = rw (h, tokens_plain cs hs) refl

tokens-append : (s rest : Bytes) → IsPlain s → tokens (s ++ b':' ∷ rest) ≡ s ∷ tokens rest
unfolding tokens in_front
tokens-append [] rest h = refl
tokens-append (c ∷ cs) rest (h, hs) = rw (h, tokens-append cs rest hs) refl

colons_plain : (s : Bytes) → IsPlain s → string_count_char_instances s b':' ≡ 0
unfolding string_count_char_instances
colons_plain [] h = refl
colons_plain (c ∷ cs) (h, hs) = ground (arith, h, colons_plain cs hs)

colons-append :
    (s rest : Bytes)
    → IsPlain s
    → string_count_char_instances (s ++ b':' ∷ rest) b':'
      ≡ suc (string_count_char_instances rest b':')
unfolding string_count_char_instances
colons-append [] rest h = ground arith
colons-append (c ∷ cs) rest (h, hs) = ground (arith, h, colons-append cs rest hs)

-- A forwarded port, bound to an address.
abbrev bound_to : ℕ → Bytes → Service
bound_to id_pool address = record {
  id = suc id_pool;
  kind = kind_port_forward [] (pos 0);
  bind_address = address;
  port = pos 0;
  fd = negsuc 0;
}

abbrev pub specified : ℕ → Bytes → ℤ → Bytes → ℤ → Service
specified id_pool address p host r = record (bound_to id_pool address) {
  port = p;
  kind = kind_port_forward host r;
}

-- "port:host:port".
abbrev pub last_three : Bytes → Bytes → Bytes → Bytes
last_three port host remote = port ++ b':' ∷ (host ++ b':' ∷ remote)

module _ (beyond : Bytes → Bytes) (id_pool : ℕ) (bind port host remote : Bytes) (p r : ℤ)
    (bind_plain : IsPlain bind) (port_plain : IsPlain port) (host_plain : IsPlain host)
    (remote_plain : IsPlain remote) (port_number : scan_int port ≡ some p)
    (remote_number : scan_int remote ≡ some r) (p_fits : FitsInt p) (r_fits : FitsInt r)
    (bind_fits : length bind < 299) (host_fits : length host < 299) where
  three_colons : string_count_char_instances (last_three port host remote) b':' ≡ 2
  three_colons =
      colons-append port _ port_plain
      ∙ ap suc (colons-append host remote host_plain ∙ ap suc (colons_plain remote remote_plain))

  three_tokens : tokens (last_three port host remote) ≡ port ∷ host ∷ remote ∷ []
  three_tokens =
      tokens-append port _ port_plain
      ∙ ap (λ l. port ∷ l)
          (tokens-append host remote host_plain
            ∙ ap (λ l. host ∷ l) (tokens_plain remote remote_plain))

  parts_from_port :
      (address : Bytes)
      → set_parts beyond 1 (bound_to id_pool address) (port ∷ host ∷ remote ∷ [])
        ≡ some (specified id_pool address p host r)
  unfolding set_parts set_part kind_part
  parts_from_port address = ground (arith, port_number, remote_number, host_fits)

  all_parts :
      set_parts beyond 0 (bound_to id_pool []) (bind ∷ port ∷ host ∷ remote ∷ [])
      ≡ some (specified id_pool bind p host r)
  unfolding set_parts set_part kind_part
  all_parts = ground (arith, port_number, remote_number, host_fits, bind_fits)

  -- A forwarded port is read back from its specification "address:port:host:port", whose texts have
  -- no colon, whose address and host have fewer than 299
  -- characters, and whose numbers "%i" reads and fit an `int`; the address may be left out, and is
  -- then 127.0.0.1.
  pub parse_service_port_forward_spec-parts :
      (parse_service_port_forward_spec beyond id_pool (bind ++ b':' ∷ last_three port host remote)
        ≡ (some (specified id_pool bind p host r), suc id_pool))
      × (parse_service_port_forward_spec beyond id_pool (last_three port host remote)
          ≡ (some (specified id_pool (codes "127.0.0.1") p host r), suc id_pool))
  unfolding parse_service_port_forward_spec parse_spec
  parse_service_port_forward_spec-parts = (
    rw (colons-append bind (last_three port host remote) bind_plain, three_colons)
        (rw (tokens-append bind (last_three port host remote) bind_plain, three_tokens)
          (rw all_parts refl)),
    rw three_colons (rw three_tokens (rw (parts_from_port (codes "127.0.0.1")) refl)),
  )
