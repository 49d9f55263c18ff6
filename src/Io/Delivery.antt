-- ===== src/Io/Delivery.antt =====
-- What `sb_read_len` returns does not depend on how the bytes arrive.
use Prim.Native.Nat.{min}
use smart_socksproxy.Base.{
  ℕ, zero, suc, ◌-◌, ◌≤◌, ◌<◌, ◌≡◌, refl, ap, inl, inr, List, [], ◌∷◌, ◌++◌, append_assoc, Bytes,
  length, take, drop, length-append, take_all, Bool-cases, ltb, arith,
}
use smart_socksproxy.Io.Read.{Event, chunk, failed, count, eintr, Reply, put_back, sb_read_len}

-- The bytes that arrive, in order.
abbrev pub stream : List Event → Bytes
stream [] = []
stream (chunk bs ∷ es) = bs ++ stream es
stream (failed e ∷ es) = stream es

-- No chunk is empty, and no failure but interruptions occurs.
abbrev pub IsClean : List Event → Type 0
IsClean [] = Unit
IsClean (chunk bs ∷ es) = (0 < length bs) × IsClean es
IsClean (failed e ∷ es) = (e ≡ eintr) × IsClean es

pub stream-put_back : (bs : Bytes) (es : List Event) → stream (put_back bs es) ≡ bs ++ stream es
unfolding put_back
stream-put_back [] es = refl
stream-put_back (b ∷ bs) es = refl

pub put_back-IsClean : (bs : Bytes) (es : List Event) → IsClean es → IsClean (put_back bs es)
unfolding put_back
put_back-IsClean [] es c = c
put_back-IsClean (b ∷ bs) es c = (omega arith, c)

take_front : (n : ℕ) (bs ys : Bytes) → n ≤ length bs → take n (bs ++ ys) ≡ take n bs
take_front zero bs ys h = refl
take_front (suc n) [] ys h = absurd (omega arith)
take_front (suc n) (b ∷ bs) ys h = ap (◌∷◌ b) (take_front n bs ys (omega arith))

drop_front : (n : ℕ) (bs ys : Bytes) → n ≤ length bs → drop n (bs ++ ys) ≡ drop n bs ++ ys
drop_front zero bs ys h = refl
drop_front (suc n) [] ys h = absurd (omega arith)
drop_front (suc n) (b ∷ bs) ys h = drop_front n bs ys (omega arith)

take_past :
    (n : ℕ) (bs ys : Bytes) → length bs ≤ n → take n (bs ++ ys) ≡ bs ++ take (n - length bs) ys
take_past n [] ys h = let e : n - 0 ≡ n = omega arith in rw e
take_past zero (b ∷ bs) ys h = absurd (omega arith)
take_past (suc n) (b ∷ bs) ys h =
    let e : suc n - suc (length bs) ≡ n - length bs = omega arith in
    rw e (ap (◌∷◌ b) (take_past n bs ys (omega arith)))

drop_past : (n : ℕ) (bs ys : Bytes) → length bs ≤ n → drop n (bs ++ ys) ≡ drop (n - length bs) ys
drop_past n [] ys h = let e : n - 0 ≡ n = omega arith in rw e
drop_past zero (b ∷ bs) ys h = absurd (omega arith)
drop_past (suc n) (b ∷ bs) ys h =
    let e : suc n - suc (length bs) ≡ n - length bs = omega arith in
    rw e (drop_past n bs ys (omega arith))

-- A call that got `bs`, on a descriptor whose rest is clean and carries `later`.
pub record Got (r : Reply) (bs later : Bytes) : Type 0 where
  pub rc : r.rc ≡ count (length bs)
  pub buf : r.buf ≡ bs
  pub rest : stream r.rest ≡ later
  pub clean : IsClean r.rest

read_on :
    (n : ℕ) (got bs : Bytes) (es : List Event)
    → 0 < length bs
    → length bs < n
    → sb_read_len n got (chunk bs ∷ es) ≡ sb_read_len (n - length bs) (got ++ bs) es
unfolding sb_read_len
read_on n got bs es h k =
    let m : min n (length bs) ≡ length bs = omega arith in
    rw (m, take_all n bs (omega arith)) (ground arith)

read_done :
    (n : ℕ) (got bs : Bytes) (es : List Event)
    → 0 < n
    → n ≤ length bs
    → sb_read_len n got (chunk bs ∷ es) ≡ record {
      rc = count (length (got ++ take n bs));
      buf = got ++ take n bs;
      rest = put_back (drop n bs) es;
    }
unfolding sb_read_len
read_done n got bs es h k = let m : min n (length bs) ≡ n = omega arith in rw m (ground arith)

read_retry :
    (n : ℕ) (got : Bytes) (e : ℕ) (es : List Event)
    → e ≡ eintr
    → sb_read_len n got (failed e ∷ es) ≡ sb_read_len n got es
unfolding sb_read_len
read_retry n got e es q = ground arith

-- The induction over the events: the buffer so far is kept in front of what comes.
sb_read_len-Got_from :
    (n : ℕ) (got : Bytes) (es : List Event)
    → IsClean es
    → 0 < n
    → n ≤ length (stream es)
    → Got (sb_read_len n got es) (got ++ take n (stream es)) (drop n (stream es))
sb_read_len-Got_from n got [] c h k = absurd (omega arith)
sb_read_len-Got_from n got (failed e ∷ es) c h k =
    rw (read_retry n got e es c.0) (sb_read_len-Got_from n got es c.1 h k)
sb_read_len-Got_from n got (chunk bs ∷ es) c h k = elim (Bool-cases (ltb (length bs) n)) [
  | inl short ↦
      let more =
        sb_read_len-Got_from (n - length bs) (got ++ bs) es c.1 (ground arith)
          (ground (arith, length-append bs (stream es))) in
      rw
        (
          read_on n got bs es c.0 (ground arith),
          take_past n bs (stream es) (ground arith),
          drop_past n bs (stream es) (ground arith),
          ← append_assoc got bs (take (n - length bs) (stream es)),
        )
        more
  | inr whole ↦
      rw
        (
          read_done n got bs es h (ground arith),
          take_front n bs (stream es) (ground arith),
          drop_front n bs (stream es) (ground arith),
        )
        (record {
          rc = refl;
          buf = refl;
          rest = stream-put_back (drop n bs) es;
          clean = put_back-IsClean (drop n bs) es c.1;
        })
]

read_nothing :
    (bs : Bytes) (es : List Event)
    → sb_read_len 0 [] (chunk bs ∷ es) ≡ record { rc = count 0; buf = []; rest = put_back bs es }
unfolding sb_read_len
read_nothing bs es = let m : min 0 (length bs) ≡ 0 = omega arith in rw m

sb_read_len-zero : (es : List Event) → IsClean es → Got (sb_read_len 0 [] es) [] (stream es)
unfolding sb_read_len
sb_read_len-zero [] c = record { rc = refl; buf = refl; rest = refl; clean = tt }
sb_read_len-zero (failed e ∷ es) c = rw (read_retry 0 [] e es c.0) (sb_read_len-zero es c.1)
sb_read_len-zero (chunk bs ∷ es) c = rw (read_nothing bs es) (record {
  rc = refl;
  buf = refl;
  rest = stream-put_back bs es;
  clean = put_back-IsClean bs es c.1;
})

-- Where n bytes will come and reads fail by interruption only, `sb_read_len` of n bytes gets exactly
-- the next n bytes of the stream, however the network cuts them into chunks and wherever a signal
-- interrupts, and leaves the rest of the stream unread.
pub sb_read_len-Got :
    (n : ℕ) (es : List Event)
    → IsClean es
    → n ≤ length (stream es)
    → Got (sb_read_len n [] es) (take n (stream es)) (drop n (stream es))
sb_read_len-Got zero es c k = sb_read_len-zero es c
sb_read_len-Got (suc n) es c k = sb_read_len-Got_from (suc n) [] es c (omega arith) k

-- On a stream that ends too soon, with reads that fail by interruption only, `sb_read_len` returns 0,
-- whatever it has read already: the caller is not told of the bytes that came.
pub sb_read_len-short :
    (n : ℕ) (got : Bytes) (es : List Event)
    → IsClean es
    → length (stream es) < n
    → (sb_read_len n got es).rc ≡ count 0
sb_read_len-short n got [] c k = unfold sb_read_len in refl
sb_read_len-short n got (failed e ∷ es) c k =
    rw (read_retry n got e es c.0) (sb_read_len-short n got es c.1 k)
sb_read_len-short n got (chunk bs ∷ es) c k =
    rw (read_on n got bs es c.0 (omega (arith, length-append bs (stream es)))) (
      sb_read_len-short (n - length bs) (got ++ bs) es c.1
        (omega (arith, length-append bs (stream es))))
