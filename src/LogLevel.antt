-- ===== src/LogLevel.antt =====
-- log_level.c: the names of the log levels.
use smart_socksproxy.Base.{
  ℕ, Bool, Option, none, some, List, [], ◌∷◌, map, Bytes, codes, if◌then◌else◌, str_eq, ℤ, pos,
  negsuc, eq_ℤ,
}
use smart_socksproxy.Text.{tolower}

abbrev pub log_level_invalid : ℤ
log_level_invalid = negsuc 0

-- `log_levels`, up to its end mark.
abbrev pub log_levels : List (ℕ × Bytes)
log_levels =
    (0, codes "trace2")
    ∷ (1, codes "trace")
    ∷ (2, codes "debug")
    ∷ (3, codes "info")
    ∷ (4, codes "warn")
    ∷ (5, codes "error")
    ∷ []

unfoldable pub name_of : ℤ → List (ℕ × Bytes) → Option Bytes
name_of level [] = none
name_of level ((n, name) ∷ levels) = if eq_ℤ (pos n) level then some name else name_of level levels

unfoldable pub log_level_str : ℤ → Option Bytes
log_level_str level = name_of level log_levels

-- `strcasecmp(a, b) == 0`
abbrev pub same_letters : Bytes → Bytes → Bool
same_letters a b = str_eq (map tolower a) (map tolower b)

unfoldable pub level_of : Bytes → List (ℕ × Bytes) → ℤ
level_of str [] = log_level_invalid
level_of str ((n, name) ∷ levels) = if same_letters name str then pos n else level_of str levels

unfoldable pub log_level_from_str : Option Bytes → ℤ
log_level_from_str none = log_level_invalid
log_level_from_str (some str) = level_of str log_levels
