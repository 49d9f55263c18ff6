-- ===== src/Http/Safety.antt =====
-- What a request can name.
use smart_socksproxy.Base.{
  ℕ, zero, suc, ◌-◌, ◌≤◌, ◌<◌, ◌≡◌, refl, ap, ◌≢◌, true, false, [], ◌∷◌, ◌++◌, Bytes, codes, length,
  drop, All, Bool-cases, inl, inr, ◌==◌, arith,
}
use smart_socksproxy.Http.Request.{is_allowed, safe_from, get_safe_filename_from_request}

-- A character that cannot leave the directory: no slash, no backslash, no zero, no control
-- character of the shell.
abbrev pub IsSafe : ℕ → Type 0
IsSafe c = (is_allowed c ≡ true) × (c ≢ b'/') × (c ≢ b'\\') × (c ≢ 0)

allowed-IsSafe : (c : ℕ) → is_allowed c ≡ true → IsSafe c
allowed-IsSafe c h = (h, ground arith, ground arith, ground arith)

safe_from-IsSafe :
    (room : ℕ) (src : Bytes)
    → All IsSafe (safe_from room src) × (length (safe_from room src) ≤ room)
unfolding safe_from
safe_from-IsSafe zero src = (tt, omega arith)
safe_from-IsSafe (suc room) [] = (tt, omega arith)
safe_from-IsSafe (suc room) (c ∷ src) = elim (Bool-cases (c == b' ')) [
  | inl blank ↦ rw (blank, safe_from) (tt, omega arith)
  | inr more ↦ elim (Bool-cases (is_allowed c)) [
    | inl good ↦
        let rest = safe_from-IsSafe room src in
        rw (more, good, safe_from) ((allowed-IsSafe c good, rest.0), omega (arith, rest.1))
    | inr bad ↦ rw (more, bad, safe_from) (safe_from-IsSafe (suc room) src)
  ]
]

-- Whatever is requested and whatever the size of the buffer, if it is not 0, the file name has allowed characters only, no "/" among them, so that it
-- is a name in the directory that is served; and with its zero byte it fits its buffer.
pub get_safe_filename_from_request-IsSafe :
    (request : Bytes) (len : ℕ)
    → 0 < len
    → All IsSafe (get_safe_filename_from_request request len)
      × (length (get_safe_filename_from_request request len) < len)
unfolding get_safe_filename_from_request
get_safe_filename_from_request-IsSafe request len h =
    let safe = safe_from-IsSafe (len - 1) (drop 5 request) in (safe.0, omega (arith, safe.1))

pub allowed-not_blank : (c : ℕ) → is_allowed c ≡ true → (c == b' ') ≡ false
allowed-not_blank c h = ground arith

safe_from-allowed :
    (room : ℕ) (name rest : Bytes)
    → All (λ c. is_allowed c ≡ true) name
    → length name ≤ room
    → safe_from room (name ++ b' ' ∷ rest) ≡ name
unfolding safe_from
safe_from-allowed zero [] rest h k = refl
safe_from-allowed (suc room) [] rest h k = refl
safe_from-allowed zero (c ∷ name) rest h k = absurd (omega arith)
safe_from-allowed (suc room) (c ∷ name) rest h k =
    rw (allowed-not_blank c h.0, h.0, safe_from)
      (ap (◌∷◌ c) (safe_from-allowed room name rest h.1 (omega arith)))

-- A name of allowed characters that fits is taken as it is.
pub get_safe_filename_from_request-allowed :
    (name rest : Bytes) (len : ℕ)
    → All (λ c. is_allowed c ≡ true) name
    → length name < len
    → get_safe_filename_from_request (codes "GET /" ++ name ++ b' ' ∷ rest) len ≡ name
unfolding get_safe_filename_from_request
get_safe_filename_from_request-allowed name rest len h k =
    safe_from-allowed (len - 1) name rest h (omega arith)
