-- ===== src/Engine/Prefix.antt =====
-- What a netmask "/p" compares.
use native.Mathlib.Nat.{eq_of_mul-eq-mul_right, pow-suc}
use smart_socksproxy.Base.{
  ℕ, zero, suc, ◌+◌, ◌-◌, ◌*◌, ◌/◌, ◌^◌, ◌≤◌, ◌<◌, ◌≡◌, refl, sym, ap, ◌∙◌, ◌↔◌, Bool, true, none,
  some, pos, ◌==◌, ==_iff, bit_and, passes_all, passes_at, arith,
}
use smart_socksproxy.Base.Bits.{mask_of, and-mask_of}
use smart_socksproxy.Rule.{prefix_mask}

same_mask : ℕ → Bool
same_mask p = elim (prefix_mask (pos p)) [ none ↦ true | some m ↦ m == mask_of p (32 - p) ]

same_mask_table : passes_all same_mask 33 ≡ true
unfolding passes_all same_mask
same_mask_table = refl

prefix_mask_lem : (p m : ℕ) → prefix_mask (pos p) ≡ some m → (p < 33) × (m ≡ mask_of p (32 - p))
unfolding same_mask
prefix_mask_lem p m e = (within, (==_iff m (mask_of p (32 - p))).0 tested)
  where
    within : p < 33
    within = ground arith

    tested : (m == mask_of p (32 - p)) ≡ true
    tested = rw (e, same_mask) at (passes_at same_mask 33 p within same_mask_table)

pow-pos : (k : ℕ) → 0 < 2 ^ k
pow-pos zero = omega arith
pow-pos (suc k) = omega (arith, pow-suc 2 k, pow-pos k)

leading :
    (p m x : ℕ)
    → prefix_mask (pos p) ≡ some m
    → x ≤ 0xffff_ffff
    → bit_and x m ≡ x / 2 ^ (32 - p) * 2 ^ (32 - p)
leading p m x e h =
    let (within, is) = prefix_mask_lem p m e in
    let all : 32 - p + p ≡ 32 = omega arith in rw is (and-mask_of p (32 - p) x (rw all h))

-- Under the mask that a prefix "/p" has, two addresses of 32 bits agree exactly when their leading p
-- bits do.
pub prefix_mask_iff :
    (p m a b : ℕ)
    → prefix_mask (pos p) ≡ some m
    → a ≤ 0xffff_ffff
    → b ≤ 0xffff_ffff
    → (bit_and a m ≡ bit_and b m) ↔ (a / 2 ^ (32 - p) ≡ b / 2 ^ (32 - p))
prefix_mask_iff p m a b e h k = (
  λ q.
      eq_of_mul-eq-mul_right (2 ^ (32 - p)) (pow-pos (32 - p)) _ _
        (sym (leading p m a e h) ∙ q ∙ leading p m b e k),
  λ q. leading p m a e h ∙ ap (λ d. d * 2 ^ (32 - p)) q ∙ sym (leading p m b e k),
)
