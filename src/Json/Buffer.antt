-- ===== src/Json/Buffer.antt =====
-- `add_to_buf`. The buffer is what was written to it, without the zero at its end, and its size.
-- `realloc` says for which sizes `realloc` succeeds; sizes fit an `int`.
use smart_socksproxy.Base.{
  ℕ, zero, suc, ◌+◌, ◌*◌, ◌≤◌, ◌<◌, ◌≡◌, sym, ap, ◌∙◌, Bool, true, not, ◌&&◌, List, [], ◌∷◌, ◌++◌,
  append_assoc, append-nil, Bytes, length, length-append, ltb, ◌==◌, if◌then◌else◌, arith,
}

pub record Buf : Type 0 where
  pub text : Bytes
  pub size : ℕ

-- `while (new_size < needed) new_size *= 2`. The code counts sizes in an `int`: they are taken to stay
-- below 2^31.
unfoldable pub doubled : ℕ → ℕ → ℕ → ℕ
doubled zero needed size = size
doubled (suc fuel) needed size =
    let more = doubled fuel needed (size * 2) in if ltb size needed then more else size

-- With a size that is not 0 the loop ends by its test within as many rounds as are needed bytes.
pub doubled_enough :
    (fuel needed size : ℕ) → 0 < size → needed ≤ size + fuel → needed ≤ doubled fuel needed size
unfolding doubled
doubled_enough zero needed size p h = omega arith
doubled_enough (suc fuel) needed size p h = ground (arith, doubled_enough fuel needed (size * 2))

pub doubled-le : (fuel needed size : ℕ) → size ≤ doubled fuel needed size
unfolding doubled
doubled-le zero needed size = omega arith
doubled-le (suc fuel) needed size = ground (arith, doubled-le fuel needed (size * 2))

-- Texts in a row, in front of `rest`.
unfoldable pub joined : List Bytes → Bytes → Bytes
joined [] rest = rest
joined (text ∷ texts) rest = text ++ joined texts rest

module _ (realloc : ℕ → Bool) where
  unfoldable pub add_to_buf : Buf → Bytes → Buf
  add_to_buf b add =
      let needed = length b.text + length add + 10 in
      let new_size = doubled needed needed b.size in
      let size = if not (b.size == new_size) && realloc new_size then new_size else b.size in
      if ltb (length b.text + length add) size
      then record { text = b.text ++ add; size = size }
      else record b { size = size }

  -- The texts that are handed to `add_to_buf`, one after another.
  unfoldable pub add_each : Buf → List Bytes → Buf
  add_each b [] = b
  add_each b (add ∷ adds) = add_each (add_to_buf b add) adds

  -- Whether `realloc` succeeds or not, the text and its zero stay within the buffer, which never
  -- shrinks.
  add_to_buf-within :
      (b : Buf) (add : Bytes)
      → length b.text < b.size
      → (length (add_to_buf b add).text < (add_to_buf b add).size)
        × (b.size ≤ (add_to_buf b add).size)
  unfolding add_to_buf
  add_to_buf-within b add h = ground (
    arith,
    length-append b.text add,
    doubled-le (length b.text + length add + 10) (length b.text + length add + 10) b.size,
  )

  pub add_each-within :
      (b : Buf) (adds : List Bytes)
      → length b.text < b.size
      → length (add_each b adds).text < (add_each b adds).size
  unfolding add_each
  add_each-within b [] h = h
  add_each-within b (add ∷ adds) h =
      add_each-within (add_to_buf b add) adds (add_to_buf-within b add h).0

  module _ (grows : (size : ℕ) → realloc size ≡ true) where
    add_to_buf-text :
        (b : Buf) (add : Bytes) → length b.text < b.size → (add_to_buf b add).text ≡ b.text ++ add
    unfolding add_to_buf
    add_to_buf-text b add h =
        let needed = length b.text + length add + 10 in
        ground (arith, doubled_enough needed needed b.size, grows (doubled needed needed b.size))

    pub add_each-text :
        (b : Buf) (adds : List Bytes)
        → length b.text < b.size
        → (add_each b adds).text ≡ b.text ++ joined adds []
    unfolding add_each joined
    add_each-text b [] h = sym (append-nil b.text)
    add_each-text b (add ∷ adds) h =
        add_each-text (add_to_buf b add) adds (add_to_buf-within b add h).0
        ∙ ap (λ t. t ++ joined adds []) (add_to_buf-text b add h)
        ∙ append_assoc b.text add (joined adds [])
