-- ===== src/Base/Words.antt =====
-- Words in network byte order. A word in memory is the list of its bytes, so that `htons` and
-- `htonl` are the same on every machine.
use Prim.Native.Nat.{ℕ, ◌+◌, ◌*◌, ◌/◌, ◌%◌, ◌<◌}
use mathlib.Core.Path.{◌≡◌}
use mathlib.Core.List.{[], ◌∷◌}
use native.Mathlib.Omega.{arith}
use smart_socksproxy.Base.Lists.{Bytes}

abbrev pub htons : ℕ → Bytes
htons n = n / 256 % 256 ∷ n % 256 ∷ []

abbrev pub ntohs : Bytes → ℕ
ntohs (a ∷ b ∷ []) = a * 256 + b
ntohs _ = 0

abbrev pub htonl : ℕ → Bytes
htonl n = n / 16777216 % 256 ∷ n / 65536 % 256 ∷ n / 256 % 256 ∷ n % 256 ∷ []

abbrev pub ntohl : Bytes → ℕ
ntohl (a ∷ b ∷ c ∷ d ∷ []) = ((a * 256 + b) * 256 + c) * 256 + d
ntohl _ = 0

pub ntohs-htons : (n : ℕ) → n < 65536 → ntohs (htons n) ≡ n
ntohs-htons n h = omega arith

pub ntohl-htonl : (n : ℕ) → n < 4294967296 → ntohl (htonl n) ≡ n
ntohl-htonl n h = omega arith
