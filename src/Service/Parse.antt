-- ===== src/Service/Parse.antt =====
-- `parse_service_socks_spec`, `parse_service_port_forward_spec` and `parse_service_http_spec`. Memory
-- does not run out.
use smart_socksproxy.Base.{
  ℕ, suc, ◌+◌, ◌||◌, Option, none, some, List, [], ◌∷◌, Bytes, codes, ltb, ◌==◌, if◌then◌else◌, ℤ,
}
use smart_socksproxy.Text.{string_count_char_instances}
use smart_socksproxy.Clib.{strncpy_unset, scan_int}
use smart_socksproxy.Service.Defs.{
  Kind, kind_none, kind_socks, kind_port_forward, kind_http, Service, new_service_socks,
  new_service_port_forward, new_service_http,
}

-- A character in front of the first token.
unfoldable pub in_front : ℕ → List Bytes → List Bytes
in_front c [] = []
in_front c (token ∷ tokens) = (c ∷ token) ∷ tokens

-- What `strsep(&s, ":")` gives, one after another, until it is NULL.
unfoldable pub tokens : Bytes → List Bytes
unfolding in_front
tokens [] = [] ∷ []
tokens (c ∷ cs) = let rest = tokens cs in if c == b':' then [] ∷ rest else in_front c rest

abbrev pub set_port : Service → Option ℤ → Option Service
set_port srv none = none
set_port srv (some port) = some (record srv { port = port })

-- Index 3 and above of the `switch` of each kind.
unfoldable pub kind_part : (Bytes → Bytes) → ℕ → Kind → Bytes → Option Kind
kind_part beyond index kind_none token = none
kind_part beyond index kind_socks token = none
kind_part beyond index (kind_port_forward host port) token =
    if index == 3
    then some (kind_port_forward (strncpy_unset beyond token 300) port)
    else if index == 4
    then elim (scan_int token) [ none ↦ none | some n ↦ some (kind_port_forward host n) ]
    else none
kind_part beyond index (kind_http base_dir) token =
    if index == 3 then some (kind_http (strncpy_unset beyond token 4096)) else none

abbrev pub set_kind : Service → Option Kind → Option Service
set_kind srv none = none
set_kind srv (some kind) = some (record srv { kind = kind })

-- The `switch (index)`.
unfoldable pub set_part : (Bytes → Bytes) → ℕ → Service → Bytes → Option Service
unfolding kind_part
set_part beyond index srv token =
    if index == 1
    then some (record srv { bind_address = strncpy_unset beyond token 300 })
    else if index == 2
    then set_port srv (scan_int token)
    else set_kind srv (kind_part beyond index srv.kind token)

-- The loop, with `index` before it is incremented.
unfoldable pub set_parts : (Bytes → Bytes) → ℕ → Service → List Bytes → Option Service
unfolding set_part
set_parts beyond index srv [] = some srv
set_parts beyond index srv (token ∷ rest) = elim (set_part beyond (suc index) srv token) [
  | none ↦ none
  | some srv' ↦ set_parts beyond (suc index) srv' rest
]

-- A specification with `most` parts, of which the first may be left out.
unfoldable pub parse_spec : (Bytes → Bytes) → ℕ → Service → Bytes → Option Service
unfolding set_parts tokens
parse_spec beyond most srv str =
    let parts = string_count_char_instances str b':' + 1 in
    if ltb (parts + 1) most || ltb most parts
    then none
    else if parts + 1 == most
    then set_parts beyond 1 (record srv { bind_address = codes "127.0.0.1" }) (tokens str)
    else set_parts beyond 0 srv (tokens str)

-- Each with `service_id_pool` before and behind the call. The first makes a service that it drops.
unfoldable pub parse_service_socks_spec : (Bytes → Bytes) → ℕ → Bytes → Option Service × ℕ
unfolding parse_spec
parse_service_socks_spec beyond id_pool str =
    let parts = string_count_char_instances str b':' + 1 in
    if ltb parts 1 || ltb 2 parts
    then (none, suc id_pool)
    else (parse_spec beyond 2 (new_service_socks (suc (suc id_pool))) str, suc (suc id_pool))

unfoldable pub parse_service_port_forward_spec : (Bytes → Bytes) → ℕ → Bytes → Option Service × ℕ
unfolding parse_spec
parse_service_port_forward_spec beyond id_pool str =
    let parts = string_count_char_instances str b':' + 1 in
    if ltb parts 3 || ltb 4 parts
    then (none, id_pool)
    else (parse_spec beyond 4 (new_service_port_forward (suc id_pool)) str, suc id_pool)

unfoldable pub parse_service_http_spec : (Bytes → Bytes) → ℕ → Bytes → Option Service × ℕ
unfolding parse_spec
parse_service_http_spec beyond id_pool str =
    let parts = string_count_char_instances str b':' + 1 in
    if ltb parts 2 || ltb 3 parts
    then (none, id_pool)
    else (parse_spec beyond 3 (new_service_http (suc id_pool)) str, suc id_pool)
