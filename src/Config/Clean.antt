-- ===== src/Config/Clean.antt =====
-- `remove_extra_spaces_and_comments_from_config_line`: a machine over the characters of a line.
use smart_socksproxy.Base.{
  ℕ, Bool, true, false, not, ◌&&◌, ◌||◌, [], ◌∷◌, ◌++◌, Bytes, ◌==◌, if◌then◌else◌,
}

-- What is written, and the marks of the loop.
pub record Scan : Type 0 where
  pub out : Bytes
  pub escape : Bool
  pub need_a_space : Bool
  pub quote_single : Bool
  pub quote_double : Bool

abbrev pub start : Scan
start = record {
  out = [];
  escape = false;
  need_a_space = false;
  quote_single = false;
  quote_double = false;
}

-- `CHECK_FOR_SPACE; *outptr = *inptr; outptr++`
abbrev pub spaced : Scan → ℕ → Scan
spaced s c = record s {
  out = s.out ++ (if s.need_a_space then b' ' ∷ c ∷ [] else c ∷ []);
  need_a_space = false;
}

abbrev pub copied : Scan → ℕ → Scan
copied s c = record s { out = s.out ++ c ∷ [] }

abbrev pub is_space : ℕ → Bool
is_space c = c == b' ' || c == b'\t'

abbrev pub is_empty : Bytes → Bool
is_empty [] = true
is_empty (c ∷ s) = false

-- One character, up to a comment.
unfoldable pub step : Scan → ℕ → Scan
step s c =
    if c == b'\\' && not s.escape
    then record s { escape = true }
    else if s.escape
    then record (spaced s c) { escape = false }
    else if (s.quote_single && c == b'\'') || (s.quote_double && c == b'"')
    then record (copied s c) { quote_single = false; quote_double = false }
    else if s.quote_single || s.quote_double
    then copied s c
    else if c == b'\''
    then record (spaced s c) { quote_single = true }
    else if c == b'"'
    then record (spaced s c) { quote_double = true }
    else if is_empty s.out && is_space c
    then s
    else if is_space c
    then record s { need_a_space = true }
    else spaced s c

-- The test for a comment comes after those for an escape and for quotes.
abbrev pub is_comment : Scan → ℕ → Bool
is_comment s c = c == b'#' && not (s.escape || s.quote_single || s.quote_double)

unfoldable pub scan : Scan → Bytes → Scan
unfolding step
scan s [] = s
scan s (c ∷ line) = let more = scan (step s c) line in if is_comment s c then s else more

-- The return value, and `outbuf`.
unfoldable pub remove_extra_spaces_and_comments_from_config_line : Bytes → Bool × Bytes
unfolding scan
remove_extra_spaces_and_comments_from_config_line inbuf =
    let s = scan start inbuf in (not (s.quote_single || s.quote_double), s.out)
