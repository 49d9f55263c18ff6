-- ===== src/Text.antt =====
-- string2.c. A string is its bytes before the terminating zero; `tolower` and `isdigit` are those
-- of the C locale. The 1000-byte buffer of `string_ends_with` is not modelled: the callers pass
-- host names of at most 259 bytes and file names of at most 994.
mod Search
mod Laws
pub use Search.{strcasestr}
pub use Laws.*
unfoldable pub use Search.{
  string_starts_with, string_ends_with, string_contains, string_count_char_instances,
  string_is_a_number, tolower,
}
