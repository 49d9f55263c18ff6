-- ===== src/LogFile/Names.antt =====
-- The names of the old logs differ: the number at the end can be read back.
use smart_socksproxy.Base.{
  ℕ, zero, suc, ◌+◌, ◌-◌, ◌*◌, ◌/◌, ◌%◌, ◌<◌, ◌≡◌, ◌≢◌, refl, sym, ap, ◌∙◌, inl, inr, Bool-cases,
  [], ◌∷◌, ◌++◌, Bytes, length, drop, ltb, arith,
}
use smart_socksproxy.Clib.{decimal, decimal_onto}
use smart_socksproxy.LogFile.Defs.{rotated}

-- The number that digits spell, after `acc`.
spelled : ℕ → Bytes → ℕ
spelled acc [] = acc
spelled acc (c ∷ cs) = spelled (acc * 10 + (c - 48)) cs

spelled_at : (rest : Bytes) {m n : ℕ} → m ≡ n → spelled m rest ≡ spelled n rest
spelled_at rest e = ap (λ k. spelled k rest) e

spelled-decimal_onto :
    (fuel n : ℕ) (rest : Bytes) → n < fuel → spelled 0 (decimal_onto fuel n rest) ≡ spelled n rest
unfolding decimal_onto spelled
spelled-decimal_onto zero n rest h = absurd (omega arith)
spelled-decimal_onto (suc fuel) n rest h = elim (Bool-cases (ltb n 10)) [
  | inl small ↦ rw small (spelled_at rest (omega arith))
  | inr large ↦ rw large (
      spelled-decimal_onto fuel (n / 10) ((48 + n % 10) ∷ rest) (ground arith)
      ∙ spelled_at rest (omega arith))
]

drop_name : (name rest : Bytes) (c : ℕ) → drop (suc (length name)) (name ++ c ∷ rest) ≡ rest
drop_name [] rest c = refl
drop_name (x ∷ name) rest c = drop_name name rest c

drop_past : (name : Bytes) → drop (suc (length name)) name ≡ []
drop_past [] = refl
drop_past (x ∷ name) = drop_past name

-- The number in a name of an old log.
generation : Bytes → Bytes → ℕ
generation name file = spelled 0 (drop (suc (length name)) file)

generation-rotated : (name : Bytes) (i : ℕ) → generation name (rotated name i) ≡ i
unfolding generation rotated spelled decimal
generation-rotated name zero = ap (spelled 0) (drop_past name)
generation-rotated name (suc i) =
    ap (spelled 0) (drop_name name (decimal (suc i)) b'.')
    ∙ spelled-decimal_onto (suc (suc i)) (suc i) [] (omega arith)

pub rotated_distinct : (name : Bytes) {i j : ℕ} → i ≢ j → rotated name i ≢ rotated name j
rotated_distinct name {i} {j} ne e =
    ne (sym (generation-rotated name i) ∙ ap (generation name) e ∙ generation-rotated name j)
