-- ===== src/Http/Request.antt =====
-- The request line: how it is read, and the file that it names.
use smart_socksproxy.Base.{
  ℕ, zero, suc, ◌-◌, Bool, true, false, ◌&&◌, ◌||◌, Option, none, some, List, [], ◌∷◌, ◌++◌, Bytes,
  codes, length, drop, leb, ◌==◌, if◌then◌else◌,
}
use smart_socksproxy.Io.{Event, count, error, Reply, sb_read_len}
use smart_socksproxy.Text.{string_ends_with}

-- One turn of the loop of `read_one_line_safely` after a read of one byte, with `line` in the
-- buffer. `again` is the next turn.
unfoldable pub line_turn : Bytes → Reply → (Bytes → List Event → Reply) → Reply
line_turn line r again = elim r.rc [
  | error e ↦ record { rc = error e; buf = line; rest = r.rest }
  | count zero ↦ record { rc = count 0; buf = line; rest = r.rest }
  | count (suc k) ↦ elim r.buf [
    | [] ↦ record { rc = count (length line); buf = line; rest = r.rest }
    | c ∷ more ↦ elim (c == b'\n' || c == b'\r') [
      | true ↦ record { rc = count (length line); buf = line; rest = r.rest }
      | false ↦ again (line ++ c ∷ []) r.rest
    ]
  ]
]

-- The loop, with room for `room` bytes more.
unfoldable pub read_line_on : ℕ → Bytes → List Event → Reply
unfolding line_turn
read_line_on zero line es = record { rc = count (length line); buf = line; rest = es }
read_line_on (suc room) line es =
    line_turn line (sb_read_len 1 [] es) (λ l r. read_line_on room l r)

unfoldable pub read_one_line_safely : ℕ → List Event → Reply
unfolding read_line_on
read_one_line_safely buflen es = read_line_on buflen [] es

-- The characters that a file name may have.
abbrev pub is_allowed : ℕ → Bool
is_allowed c =
    (leb b'a' c && leb c b'z')
    || (leb b'A' c && leb c b'Z')
    || (leb b'0' c && leb c b'9')
    || c == b'_'
    || c == b'-'
    || c == b'.'
    || c == b'+'
    || c == b':'

-- The loop, with room for `room` characters more.
unfoldable pub safe_from : ℕ → Bytes → Bytes
safe_from zero src = []
safe_from (suc room) [] = []
safe_from (suc room) (c ∷ src) = elim (c == b' ') [
  | true ↦ []
  | false ↦ elim (is_allowed c) [ true ↦ c ∷ safe_from room src | false ↦ safe_from (suc room) src ]
]

-- The request begins with "GET /". `len` is the size of the buffer.
unfoldable pub get_safe_filename_from_request : Bytes → ℕ → Bytes
unfolding safe_from
get_safe_filename_from_request request len = safe_from (len - 1) (drop 5 request)

abbrev pub content_type : Bytes → Option Bytes
content_type filename =
    if string_ends_with filename (codes ".html")
    then some (codes "text/html; charset=utf-8")
    else if string_ends_with filename (codes ".css")
    then some (codes "text/css; charset=utf-8")
    else if string_ends_with filename (codes ".txt")
    then some (codes "text/plain")
    else if string_ends_with filename (codes ".js")
    then some (codes "application/javascript; charset=utf-8")
    else if string_ends_with filename (codes ".json")
    then some (codes "application/javascript; charset=utf-8")
    else if string_ends_with filename (codes ".xml")
    then some (codes "text/xml")
    else if string_ends_with filename (codes ".xhtml")
    then some (codes "application/xhtml+xml")
    else if string_ends_with filename (codes ".gif")
    then some (codes "image/gif")
    else if string_ends_with filename (codes ".png")
    then some (codes "image/png")
    else if string_ends_with filename (codes ".jpg")
    then some (codes "image/jpeg")
    else if string_ends_with filename (codes ".jpeg")
    then some (codes "image/jpeg")
    else if string_ends_with filename (codes ".svg")
    then some (codes "image/svg+xml")
    else none
