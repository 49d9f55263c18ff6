-- ===== src/Io/Write.antt =====
-- `write` and `sb_write_len`.
use Prim.Native.Nat.{min}
use smart_socksproxy.Base.{
  ℕ, ◌+◌, ◌-◌, List, [], ◌∷◌, ◌++◌, Bytes, length, take, drop, ltb, ◌==◌, if◌then◌else◌,
}
use smart_socksproxy.Io.Read.{Rc, count, error, eintr}

-- What the next `write` of the kernel does: it takes so many bytes at most, or fails.
pub data Slot : Type 0 where
  accepts : ℕ → Slot
  broken : ℕ → Slot

-- What a call returned, all the bytes that went out so far, and the calls to come.
pub record Sent : Type 0 where
  pub rc : Rc
  pub out : Bytes
  pub slots : List Slot

-- One `write(fd, buf, length buf)`, with `out` gone out before.
unfoldable pub write : Bytes → Bytes → List Slot → Sent
write buf out [] = record { rc = count (length buf); out = out ++ buf; slots = [] }
write buf out (accepts k ∷ ss) = record {
  rc = count (min k (length buf));
  out = out ++ take k buf;
  slots = ss;
}
write buf out (broken e ∷ ss) = record { rc = error e; out = out; slots = ss }

-- What the loop of `sb_write_len` does after one `write` of `buf`, the part from `index` on.
-- `again` is the next round.
unfoldable pub write_more : ℕ → Bytes → Sent → (ℕ → Bytes → Bytes → Sent) → Sent
write_more index buf w again = elim w.rc [
  | count k ↦
      if ltb 0 (length buf - k)
      then again (index + k) (drop k buf) w.out
      else if ltb 0 k
      then record { rc = count (index + k); out = w.out; slots = w.slots }
      else w
  | error e ↦ if e == eintr then again index buf w.out else w
]

-- `sb_write_len`, the loop at `index` and what is still to be written.
unfoldable pub sb_write_len : ℕ → Bytes → Bytes → List Slot → Sent
unfolding write_more write
sb_write_len index buf out [] = write_more index buf (write buf out []) (λ i b o. write b o [])
sb_write_len index buf out (s ∷ ss) =
    write_more index buf (write buf out (s ∷ ss)) (λ i b o. sb_write_len i b o ss)
