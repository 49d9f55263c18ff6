-- ===== src/Base/Bits.antt =====
-- Masks at variables: the native operations on words, one binary place at a time.
use Prim.Native.Nat.{
  ℕ, zero, suc, ◌+◌, ◌-◌, ◌*◌, ◌/◌, ◌%◌, ◌^◌, ◌≤◌, ◌<◌, min, max, differ, digits, bit_and, bit_or,
  bit_xor, bit_and-bitwise, bit_or-bitwise, bit_xor-bitwise,
}
use mathlib.Core.Path.{◌≡◌, refl, sym, ap, ◌∙◌}
use native.Mathlib.Nat.{pow-suc, mul_comm, mul_assoc, div-div-eq-div-mul}
use native.Mathlib.Omega.{arith}

-- More fuel than the first word has places changes nothing.
module _ (rest : ℕ → ℕ) (op : ℕ → ℕ → ℕ) where
  enough : (m n x y : ℕ) → x ≤ m → x ≤ n → digits rest op m x y ≡ digits rest op n x y
  enough zero zero x y h k = refl
  enough (suc m) (suc n) (suc x) y h k =
      ap (λ (d : ℕ). d * 2 + op (suc x % 2) (y % 2))
        (enough m n (suc x / 2) (y / 2) (omega arith) (omega arith))
  enough zero (suc n) zero y h k = refl
  enough zero (suc n) (suc x) y h k = absurd (omega arith)
  enough (suc m) zero zero y h k = refl
  enough (suc m) zero (suc x) y h k = absurd (omega arith)
  enough (suc m) (suc n) zero y h k = refl

  lowest_place :
      (x y : ℕ)
      → digits rest op (suc x) (suc x) y
        ≡ digits rest op (suc x / 2) (suc x / 2) (y / 2) * 2 + op (suc x % 2) (y % 2)
  lowest_place x y =
      ap (λ (d : ℕ). d * 2 + op (suc x % 2) (y % 2))
        (enough x (suc x / 2) (suc x / 2) (y / 2) (omega arith) (omega arith))

and_place : (x y : ℕ) → bit_and x y ≡ bit_and (x / 2) (y / 2) * 2 + min (x % 2) (y % 2)
and_place zero y = omega (arith, bit_and-bitwise 0 y, bit_and-bitwise 0 (y / 2))
and_place (suc x) y =
    bit_and-bitwise (suc x) y
    ∙ lowest_place (λ b. 0) min x y
    ∙ ap (λ (d : ℕ). d * 2 + min (suc x % 2) (y % 2)) (sym (bit_and-bitwise (suc x / 2) (y / 2)))

or_place : (x y : ℕ) → bit_or x y ≡ bit_or (x / 2) (y / 2) * 2 + max (x % 2) (y % 2)
or_place zero y = omega (arith, bit_or-bitwise 0 y, bit_or-bitwise 0 (y / 2))
or_place (suc x) y =
    bit_or-bitwise (suc x) y
    ∙ lowest_place (λ b. b) max x y
    ∙ ap (λ (d : ℕ). d * 2 + max (suc x % 2) (y % 2)) (sym (bit_or-bitwise (suc x / 2) (y / 2)))

xor_place : (x y : ℕ) → bit_xor x y ≡ bit_xor (x / 2) (y / 2) * 2 + differ (x % 2) (y % 2)
xor_place zero y = omega (arith, bit_xor-bitwise 0 y, bit_xor-bitwise 0 (y / 2))
xor_place (suc x) y =
    bit_xor-bitwise (suc x) y
    ∙ lowest_place (λ b. b) differ x y
    ∙ ap (λ (d : ℕ). d * 2 + differ (suc x % 2) (y % 2)) (sym (bit_xor-bitwise (suc x / 2) (y / 2)))

-- The two parts of a word after an operation: what is above the lowest place, and that place.
and_half : (x y : ℕ) → bit_and x y / 2 ≡ bit_and (x / 2) (y / 2)
and_half x y = omega (arith, and_place x y)

and_low : (x y : ℕ) → bit_and x y % 2 ≡ min (x % 2) (y % 2)
and_low x y = omega (arith, and_place x y)

or_half : (x y : ℕ) → bit_or x y / 2 ≡ bit_or (x / 2) (y / 2)
or_half x y = omega (arith, or_place x y)

or_low : (x y : ℕ) → bit_or x y % 2 ≡ max (x % 2) (y % 2)
or_low x y = omega (arith, or_place x y)

differ_bits : (a b : ℕ) → a < 2 → b < 2 → differ a b ≡ (a + b) % 2
differ_bits zero b h k = omega arith
differ_bits (suc zero) zero h k = refl
differ_bits (suc zero) (suc zero) h k = refl
differ_bits (suc zero) (suc (suc b)) h k = absurd (omega arith)
differ_bits (suc (suc a)) b h k = absurd (omega arith)

xor_half : (x y : ℕ) → bit_xor x y / 2 ≡ bit_xor (x / 2) (y / 2)
xor_half x y = omega (arith, xor_place x y, differ_bits (x % 2) (y % 2) (omega arith) (omega arith))

xor_low : (x y : ℕ) → bit_xor x y % 2 ≡ (x % 2 + y % 2) % 2
xor_low x y = omega (arith, xor_place x y, differ_bits (x % 2) (y % 2) (omega arith) (omega arith))

-- k ones.
abbrev pub ones : ℕ → ℕ
ones zero = 0
ones (suc k) = ones k * 2 + 1

-- `(a & ~m) | (t & m)`, in words of k places.
abbrev pub merge : ℕ → ℕ → ℕ → ℕ → ℕ
merge k a t m = bit_or (bit_and a (bit_xor (ones k) m)) (bit_and t m)

merge_half : (k a t m : ℕ) → merge (suc k) a t m / 2 ≡ merge k (a / 2) (t / 2) (m / 2)
merge_half k a t m =
    let o : ones (suc k) / 2 ≡ ones k = omega arith in
    rw (or_half, and_half a, xor_half, and_half t, o)

merge_low :
    (k a t m : ℕ) → merge (suc k) a t m % 2 ≡ max (min (a % 2) (1 - m % 2)) (min (t % 2) (m % 2))
merge_low k a t m =
    let o : ones (suc k) % 2 ≡ 1 = omega arith in
    omega (
      arith,
      or_low (bit_and a (bit_xor (ones (suc k)) m)) (bit_and t m),
      and_low a (bit_xor (ones (suc k)) m),
      and_low t m,
      xor_low (ones (suc k)) m,
      o,
    )

half_lt : (k m : ℕ) → m ≤ ones (suc k) → m / 2 ≤ ones k
half_lt k m h = omega arith

zero-and : (m : ℕ) → bit_and 0 m ≡ 0
zero-and m = bit_and-bitwise 0 m

and-zero : (k x : ℕ) → x ≤ k → bit_and x 0 ≡ 0
and-zero k zero h = zero-and 0
and-zero zero (suc x) h = absurd (omega arith)
and-zero (suc k) (suc x) h =
    omega (arith, and_place (suc x) 0, and-zero k (suc x / 2) (omega arith))

-- Under the mask the merged word is the second.
pub and-merge_mask : (k a t m : ℕ) → m ≤ ones k → bit_and (merge k a t m) m ≡ bit_and t m
and-merge_mask zero a t m h =
    let e : m ≡ 0 = omega arith in
    let w = merge zero a t 0 in rw e (and-zero w w (omega arith) ∙ sym (and-zero t t (omega arith)))
and-merge_mask (suc k) a t m h = omega (
  arith,
  and_place (merge (suc k) a t m) m,
  and_place t m,
  ap (λ (w : ℕ). bit_and w (m / 2)) (merge_half k a t m),
  and-merge_mask k (a / 2) (t / 2) (m / 2) (half_lt k m h),
  merge_low k a t m,
)

-- Off the mask it is the first.
pub and-merge_rest :
    (k a t m : ℕ)
    → m ≤ ones k
    → bit_and (merge k a t m) (bit_xor (ones k) m) ≡ bit_and a (bit_xor (ones k) m)
and-merge_rest zero a t m h =
    let e : m ≡ 0 = omega arith in
    let w = merge zero a t 0 in rw e (and-zero w w (omega arith) ∙ sym (and-zero a a (omega arith)))
and-merge_rest (suc k) a t m h =
    let n = bit_xor (ones (suc k)) m in
    let o : ones (suc k) / 2 ≡ ones k = omega arith in
    let n_half : n / 2 ≡ bit_xor (ones k) (m / 2) =
      xor_half (ones (suc k)) m ∙ ap (λ (w : ℕ). bit_xor w (m / 2)) o in
    let n_low : n % 2 ≡ 1 - m % 2 = omega (arith, xor_low (ones (suc k)) m) in
    let left : bit_and (merge (suc k) a t m / 2) (n / 2) ≡ bit_and (a / 2) (n / 2) =
      rw (merge_half k a t m, n_half) (and-merge_rest k (a / 2) (t / 2) (m / 2) (half_lt k m h)) in
    omega (arith, and_place (merge (suc k) a t m) n, and_place a n, left, n_low, merge_low k a t m)

-- It stays within the places of the mask.
pub merge-le : (k a t m : ℕ) → m ≤ ones k → merge k a t m ≤ ones k
merge-le zero a t m h =
    let e : m ≡ 0 = omega arith in
    rw (e, and-zero t t (omega arith), and-zero a a (omega arith)) (omega arith)
merge-le (suc k) a t m h =
    omega (arith, merge_half k a t m, merge-le k (a / 2) (t / 2) (m / 2) (half_lt k m h))

-- j ones, and k zeros below them.
abbrev pub mask_of : ℕ → ℕ → ℕ
mask_of j zero = ones j
mask_of j (suc k) = mask_of j k * 2

and-ones : (j x : ℕ) → x ≤ ones j → bit_and x (ones j) ≡ x
and-ones zero x h = let e : x ≡ 0 = omega arith in rw e (zero-and 0)
and-ones (suc j) x h =
    let o : ones (suc j) / 2 ≡ ones j = omega arith in
    omega (
      arith,
      and_place x (ones (suc j)),
      ap (bit_and (x / 2)) o,
      and-ones j (x / 2) (half_lt j x h),
    )

-- Such a mask keeps the leading places.
pub and-mask_of : (j k x : ℕ) → x ≤ ones (k + j) → bit_and x (mask_of j k) ≡ x / 2 ^ k * 2 ^ k
and-mask_of j zero x h = let e : 0 + j ≡ j = omega arith in omega (arith, and-ones j x (rw e at h))
and-mask_of j (suc k) x h =
    let e : suc k + j ≡ suc (k + j) = omega arith in
    let m = mask_of j k in
    let m_half : m * 2 / 2 ≡ m = omega arith in
    let halves : x / 2 ^ suc k ≡ x / 2 / 2 ^ k =
      ap (λ (d : ℕ). x / d) (pow-suc 2 k ∙ mul_comm (2 ^ k) 2)
      ∙ sym (div-div-eq-div-mul x 2 (2 ^ k)) in
    let scaled : x / 2 / 2 ^ k * 2 ^ suc k ≡ x / 2 / 2 ^ k * 2 ^ k * 2 =
      ap (λ (d : ℕ). x / 2 / 2 ^ k * d) (pow-suc 2 k) ∙ sym (mul_assoc (x / 2 / 2 ^ k) (2 ^ k) 2) in
    let above : bit_and (x / 2) (m * 2 / 2) ≡ x / 2 / 2 ^ k * 2 ^ k =
      rw m_half (and-mask_of j k (x / 2) (half_lt (k + j) x (rw e at h))) in
    and_place x (m * 2)
    ∙ ap (λ (d : ℕ). d * 2 + min (x % 2) (m * 2 % 2)) above
    ∙ omega (arith, scaled)
    ∙ ap (λ (d : ℕ). d * 2 ^ suc k) (sym halves)
