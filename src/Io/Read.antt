-- ===== src/Io/Read.antt =====
-- `read`, `sb_read` and `sb_read_len`.
use Prim.Native.Nat.{min}
use smart_socksproxy.Base.{
  ℕ, ◌-◌, Bool, false, ◌&&◌, List, [], ◌∷◌, ◌++◌, Bytes, length, take, drop, ltb, ◌==◌,
  if◌then◌else◌,
}

pub data Event : Type 0 where
  chunk : Bytes → Event
  failed : ℕ → Event

-- The return value of a call: a count of bytes, or -1 with `errno`.
pub data Rc : Type 0 where
  count : ℕ → Rc
  error : ℕ → Rc

-- `rc == n`
abbrev pub eq_count : Rc → ℕ → Bool
eq_count (count k) n = k == n
eq_count (error e) n = false

-- What a call returned, what it put into the buffer, and what is still to be read.
pub record Reply : Type 0 where
  pub rc : Rc
  pub buf : Bytes
  pub rest : List Event

-- What is left of a chunk stays in front.
unfoldable pub put_back : Bytes → List Event → List Event
put_back [] es = es
put_back (b ∷ bs) es = chunk (b ∷ bs) ∷ es

abbrev pub eintr : ℕ
eintr = 4

-- One `read(fd, buf, n)` of the kernel.
unfoldable pub read : ℕ → List Event → Reply
read n [] = record { rc = count 0; buf = []; rest = [] }
read n (chunk bs ∷ es) = record {
  rc = count (min n (length bs));
  buf = take n bs;
  rest = put_back (drop n bs) es;
}
read n (failed e ∷ es) = record { rc = error e; buf = []; rest = es }

-- The `do … while (rc < 0 && errno == EINTR)` of `sb_read`.
unfoldable pub sb_read : ℕ → List Event → Reply
unfolding read
sb_read n [] = read n []
sb_read n (chunk bs ∷ es) = read n (chunk bs ∷ es)
sb_read n (failed e ∷ es) =
    let again = sb_read n es in if e == eintr then again else read n (failed e ∷ es)

-- What the loop of `sb_read_len` does after one `read`. `got` is the buffer up to `index`; `again`
-- is the next round, on what is left.
unfoldable pub read_more : ℕ → Bytes → Reply → (ℕ → Bytes → Reply) → Reply
read_more remain got r again = elim r.rc [
  | count k ↦
      if ltb 0 k && ltb 0 (remain - k)
      then again (remain - k) (got ++ r.buf)
      else if ltb 0 k
      then record { rc = count (length (got ++ r.buf)); buf = got ++ r.buf; rest = r.rest }
      else record { rc = count 0; buf = got; rest = r.rest }
  | error e ↦
      if e == eintr then again remain got else record { rc = error e; buf = got; rest = r.rest }
]

-- `sb_read_len`, the loop at `remain` and `got`. A round that goes on has used up the first event.
unfoldable pub sb_read_len : ℕ → Bytes → List Event → Reply
unfolding read_more read put_back
sb_read_len remain got [] = read_more remain got (read remain []) (λ n g. read n [])
sb_read_len remain got (e ∷ es) =
    read_more remain got (read remain (e ∷ es)) (λ n g. sb_read_len n g es)
