-- ===== src/Config/Environment.antt =====
-- `replace_environment_variables_in_string`, and the fields that an entry of a line sets.
use smart_socksproxy.Base.{
  ℕ, Bool, true, false, ◌&&◌, ◌||◌, Option, none, some, [], ◌∷◌, ◌++◌, Bytes, length, take, drop,
  leb, ltb, ◌==◌, if◌then◌else◌, ℤ,
}
use smart_socksproxy.Text.{string_starts_with}
use smart_socksproxy.Clib.{strncpy_unset, scan_int}

abbrev pub is_name : ℕ → Bool
is_name c =
    (leb b'a' c && leb c b'z')
    || (leb b'A' c && leb c b'Z')
    || (leb b'0' c && leb c b'9')
    || c == b'_'

abbrev pub starts_brace : Bytes → Bool
starts_brace [] = false
starts_brace (c ∷ s) = c == b'{'

-- The value of a variable, cut to its buffer; a variable that does not exist has none.
abbrev pub value_of : (Bytes → Option Bytes) → Bytes → Bytes
value_of getenv name = elim (getenv name) [ none ↦ [] | some v ↦ take 8191 v ]

-- The loop. `start` is the name so far behind "${"; `skip` is the `cur++` past the brace.
-- A name of 8192 characters, which the source lets through, ends one past its buffer.
unfoldable pub substitute :
    (Bytes → Option Bytes) → Bool → Option Bytes → Bytes → Bytes → Bool × Bytes
substitute getenv skip none [] out = (true, out)
substitute getenv skip (some name) [] out = (false, out)
substitute getenv true start (c ∷ s) out = substitute getenv false start s out
substitute getenv false start (c ∷ s) out = elim (c == b'$' && starts_brace s) [
  | true ↦ substitute getenv true (some []) s out
  | false ↦ elim start [
    | none ↦ substitute getenv false none s (out ++ c ∷ [])
    | some name ↦ elim (is_name c) [
      | true ↦ substitute getenv false (some (name ++ c ∷ [])) s out
      | false ↦ elim (c == b'}' && ltb 0 (length name) && leb (length name) 8192) [
        | true ↦ substitute getenv false none s (out ++ value_of getenv name)
        | false ↦ (false, out)
      ]
    ]
  ]
]

-- The result, if the text and its zero fit `outbuf`. The loop only adds to the text and does not look
-- at `outbuflen`: a longer text is written past the end, for which there is `none`.
unfoldable pub replace_environment_variables_in_string :
    (Bytes → Option Bytes) → ℕ → Bytes → Option (Bool × Bytes)
unfolding substitute
replace_environment_variables_in_string getenv outbuflen inbuf =
    let (okay, out) = substitute getenv false none inbuf [] in
    if ltb (length out) outbuflen then some (okay, out) else none

-- The parameter behind a field's name.
unfoldable pub match_start : Bytes → Bytes → Option Bytes
unfolding string_starts_with
match_start line match =
    if string_starts_with line match then some (drop (length match) line) else none

-- `config_set_int` and `config_set_long`: the value, if the line sets the field.
unfoldable pub config_set_int : Bytes → Bytes → Option ℤ
unfolding match_start
config_set_int line field = elim (match_start line field) [
  | none ↦ none
  | some value ↦ scan_int value
]

-- The text that is put into a buffer of `size` bytes, which is not set before. An empty text is
-- refused.
unfoldable pub config_set_string : (Bytes → Bytes) → Bytes → Bytes → ℕ → Option Bytes
unfolding match_start
config_set_string beyond line field size = elim (match_start line field) [
  | none ↦ none
  | some [] ↦ none
  | some (c ∷ value) ↦ some (strncpy_unset beyond (c ∷ value) size)
]
