-- ===== src/Text/Search.antt =====
-- The functions of string2.c, over the C library's `strncmp`, `strcmp` and `strcasestr`.
use smart_socksproxy.Base.{
  ℕ, ◌+◌, ◌-◌, Bool, true, false, ◌&&◌, ◌||◌, [], ◌∷◌, map, Bytes, length, take, drop, ltb, leb,
  ◌==◌, if◌then◌else◌, str_eq,
}

unfoldable pub tolower : ℕ → ℕ
tolower c = if leb b'A' c && leb c b'Z' then c + 32 else c

unfoldable pub isdigit : ℕ → Bool
isdigit c = leb b'0' c && leb c b'9'

-- `strncmp(str, start, strlen(start)) == 0`
abbrev pub has_prefix : Bytes → Bytes → Bool
has_prefix str start = str_eq (take (length start) str) start

unfoldable pub string_starts_with : Bytes → Bytes → Bool
string_starts_with str start =
    if leb (length start) (length str) then has_prefix str start else false

unfoldable pub string_ends_with : Bytes → Bytes → Bool
string_ends_with str end =
    let lower_str = map tolower str in
    let len_str = length lower_str in
    let len_end = length end in
    if ltb len_str len_end then false else str_eq (drop (len_str - len_end) lower_str) end

-- Whether the C library's `strcasestr` finds the second string in the first.
unfoldable pub strcasestr : Bytes → Bytes → Bool
strcasestr [] needle = has_prefix [] (map tolower needle)
strcasestr (c ∷ cs) needle =
    has_prefix (map tolower (c ∷ cs)) (map tolower needle) || strcasestr cs needle

unfoldable pub string_contains : Bytes → Bytes → Bool
unfolding strcasestr
string_contains str contained = strcasestr str contained

unfoldable pub string_count_char_instances : Bytes → ℕ → ℕ
string_count_char_instances [] delimiter = 0
string_count_char_instances (c ∷ cs) delimiter =
    (if c == delimiter then 1 else 0) + string_count_char_instances cs delimiter

all_digits : Bytes → Bool
all_digits [] = true
all_digits (c ∷ cs) = isdigit c && all_digits cs

unfoldable pub string_is_a_number : Bytes → Bool
unfolding isdigit all_digits
string_is_a_number [] = false
string_is_a_number (c ∷ cs) = all_digits (c ∷ cs)
