-- ===== src/Clib.antt =====
-- What the parsers use of the C library: `strsep`, `sscanf` with "%i", and `strncpy` into a buffer.
use smart_socksproxy.Base.{
  ℕ, zero, suc, ◌+◌, ◌-◌, ◌*◌, ◌/◌, ◌%◌, ◌<◌, ◌≡◌, Bool, ◌&&◌, ◌||◌, Option, none, some, [], ◌∷◌,
  Bytes, length, take, leb, ltb, ◌==◌, if◌then◌else◌, ◌++◌, ◌^◌, negsuc, ℤ, pos, neg, arith,
}

-- `strncpy(dst, src, size)` and a zero at the end of a buffer of `size` bytes.
abbrev pub strncpy : Bytes → ℕ → Bytes
strncpy src size = take (size - 1) src

-- `strncpy(dst, src, size - 1)` into memory that is not set: a text that fills it has no zero, and
-- `beyond` is what reading it finds behind the text.
abbrev pub strncpy_unset : (Bytes → Bytes) → Bytes → ℕ → Bytes
strncpy_unset beyond src size =
    if ltb (length src) (size - 1) then src else take (size - 1) src ++ beyond src

-- What an `int` of the C code holds. The results of `scan_int` are not cut: "%i" is not defined for a
-- number that does not fit, and such texts are outside the model.
abbrev pub FitsInt : ℤ → Type 0
FitsInt (pos n) = n < 2 ^ 31
FitsInt (negsuc n) = n < 2 ^ 31

-- `strsep` on a string: the token, and the string behind the delimiter, if there was one.
unfoldable pub strsep : (ℕ → Bool) → Bytes → Bytes × Option Bytes
strsep delim [] = ([], none)
strsep delim (c ∷ cs) =
    let (token, rest) = strsep delim cs in if delim c then ([], some cs) else (c ∷ token, rest)

-- The value of a digit in a base, if the byte is one.
unfoldable pub digit : ℕ → ℕ → Option ℕ
digit base c =
    if leb b'0' c && leb c b'9' && ltb (c - b'0') base
    then some (c - b'0')
    else if leb b'a' c && leb c b'f' && ltb (c - b'a' + 10) base
    then some (c - b'a' + 10)
    else if leb b'A' c && leb c b'F' && ltb (c - b'A' + 10) base
    then some (c - b'A' + 10)
    else none

-- The number that the leading digits spell, after `acc`.
unfoldable pub digits_value : ℕ → ℕ → Bytes → ℕ
digits_value base acc [] = acc
digits_value base acc (c ∷ cs) = elim (digit base c) [
  | none ↦ acc
  | some d ↦ digits_value base (acc * base + d) cs
]

-- At least one digit is wanted.
scan_digits : ℕ → Bytes → Option ℕ
scan_digits base [] = none
scan_digits base (c ∷ cs) = elim (digit base c) [
  | none ↦ none
  | some d ↦ some (digits_value base d cs)
]

-- The prefix of "%i" chooses the base: 0x or 0X, 0, or none. An "0x" with no digit behind it is no
-- number.
scan_based : Bytes → Option ℕ
scan_based [] = none
scan_based (c ∷ []) = scan_digits 10 (c ∷ [])
scan_based (c ∷ x ∷ cs) =
    if c == b'0' && (x == b'x' || x == b'X')
    then scan_digits 16 cs
    else scan_digits (if c == b'0' then 8 else 10) (c ∷ x ∷ cs)

negated : Option ℕ → Option ℤ
negated none = none
negated (some n) = some (neg n)

positive : Option ℕ → Option ℤ
positive none = none
positive (some n) = some (pos n)

scan_signed : Bytes → Option ℤ
scan_signed [] = none
scan_signed (c ∷ cs) =
    if c == b'-'
    then negated (scan_based cs)
    else if c == b'+'
    then positive (scan_based cs)
    else positive (scan_based (c ∷ cs))

is_space : ℕ → Bool
is_space c = c == b' ' || (leb 9 c && leb c 13)

-- `sscanf(s, "%i", &n) == 1`, and `n`. Numbers that do not fit an `int` are not modelled.
unfoldable pub scan_int : Bytes → Option ℤ
unfolding digit digits_value scan_digits scan_based negated positive scan_signed is_space
scan_int [] = none
scan_int (c ∷ cs) = let rest = scan_int cs in if is_space c then rest else scan_signed (c ∷ cs)

-- What is left behind a token is shorter.
pub length-strsep :
    (delim : ℕ → Bool) (s : Bytes) {rest : Bytes}
    → (strsep delim s).1 ≡ some rest
    → length rest < length s
unfolding strsep
length-strsep delim [] e = cc
length-strsep delim (c ∷ cs) {rest} e = ground (arith, length-strsep delim cs {rest = rest})

-- The decimal digits of a number, in front of `rest`; `fuel` bounds their count.
unfoldable pub decimal_onto : ℕ → ℕ → Bytes → Bytes
decimal_onto zero n rest = rest
decimal_onto (suc fuel) n rest =
    let more = decimal_onto fuel (n / 10) ((b'0' + n % 10) ∷ rest) in
    if ltb n 10 then (b'0' + n) ∷ rest else more

-- `%i` and `%llu` of a number that is not negative.
unfoldable pub decimal : ℕ → Bytes
unfolding decimal_onto
decimal n = decimal_onto (suc n) n []
