-- ===== src/Io/Sending.antt =====
-- What `sb_write_len` sends does not depend on how much each `write` takes.
use Prim.Native.Nat.{min}
use smart_socksproxy.Base.{
  ℕ, ◌+◌, ◌≤◌, ◌<◌, ◌≡◌, refl, ap, ◌∙◌, inl, inr, List, [], ◌∷◌, ◌++◌, append_assoc, Bytes, length,
  take, drop, length-drop, take_all, take-append-drop, Bool-cases, ltb, arith,
}
use smart_socksproxy.Io.Read.{count, eintr}
use smart_socksproxy.Io.Write.{Slot, accepts, broken, Sent, sb_write_len}

-- No `write` fails but by interruption.
abbrev pub IsOpen : List Slot → Type 0
IsOpen [] = Unit
IsOpen (accepts k ∷ ss) = IsOpen ss
IsOpen (broken e ∷ ss) = (e ≡ eintr) × IsOpen ss

-- A call that sent `buf` after `out`.
pub record Sends (r : Sent) (sent : Bytes) (total : ℕ) : Type 0 where
  pub rc : r.rc ≡ count total
  pub out : r.out ≡ sent
  pub open_slots : IsOpen r.slots

write_step :
    (index k : ℕ) (buf out : Bytes) (ss : List Slot)
    → k < length buf
    → sb_write_len index buf out (accepts k ∷ ss)
      ≡ sb_write_len (index + k) (drop k buf) (out ++ take k buf) ss
unfolding sb_write_len
write_step index k buf out ss h =
    let m : min k (length buf) ≡ k = omega arith in rw m (ground arith)

pub write_retry :
    (index e : ℕ) (buf out : Bytes) (ss : List Slot)
    → e ≡ eintr
    → sb_write_len index buf out (broken e ∷ ss) ≡ sb_write_len index buf out ss
unfolding sb_write_len
write_retry index e buf out ss q = ground arith

write_last :
    (index k : ℕ) (buf out : Bytes) (ss : List Slot)
    → 0 < length buf
    → length buf ≤ k
    → sb_write_len index buf out (accepts k ∷ ss)
      ≡ record { rc = count (index + length buf); out = out ++ buf; slots = ss }
unfolding sb_write_len
write_last index k buf out ss h q =
    let m : min k (length buf) ≡ length buf = omega arith in rw (m, take_all k buf q) (ground arith)

write_end :
    (index : ℕ) (buf out : Bytes)
    → 0 < length buf
    → sb_write_len index buf out []
      ≡ record { rc = count (index + length buf); out = out ++ buf; slots = [] }
unfolding sb_write_len
write_end index buf out h = ground arith

sb_write_len-Sends_from :
    (index : ℕ) (buf out : Bytes) (ss : List Slot)
    → IsOpen ss
    → 0 < length buf
    → Sends (sb_write_len index buf out ss) (out ++ buf) (index + length buf)
sb_write_len-Sends_from index buf out [] o h =
    rw (write_end index buf out h) (record { rc = refl; out = refl; open_slots = tt })
sb_write_len-Sends_from index buf out (broken e ∷ ss) o h =
    rw (write_retry index e buf out ss o.0) (sb_write_len-Sends_from index buf out ss o.1 h)
sb_write_len-Sends_from index buf out (accepts k ∷ ss) o h =
    elim (Bool-cases (ltb k (length buf))) [
      | inl part ↦
          let more =
            sb_write_len-Sends_from (index + k) (drop k buf) (out ++ take k buf) ss o
              (ground (arith, length-drop k buf)) in
          let total : index + k + length (drop k buf) ≡ index + length buf =
            ground (arith, length-drop k buf) in
          let whole : out ++ take k buf ++ drop k buf ≡ out ++ buf =
            append_assoc out (take k buf) (drop k buf) ∙ ap (◌++◌ out) (take-append-drop k buf) in
          rw (write_step index k buf out ss (ground arith)) (record {
            rc = more.rc ∙ ap count total;
            out = more.out ∙ whole;
            open_slots = more.open_slots;
          })
      | inr all ↦
          rw (write_last index k buf out ss h (ground arith))
            (record { rc = refl; out = refl; open_slots = o })
    ]

-- Where writes fail by interruption only, `sb_write_len` sends the whole of a buffer that is not empty,
-- once and in order, however little each `write` takes and wherever a signal interrupts, and returns
-- the buffer's length.
pub sb_write_len-Sends :
    (buf out : Bytes) (ss : List Slot)
    → IsOpen ss
    → 0 < length buf
    → Sends (sb_write_len 0 buf out ss) (out ++ buf) (length buf)
sb_write_len-Sends buf out ss o h =
    let r = sb_write_len-Sends_from 0 buf out ss o h in
    record { rc = r.rc ∙ ap count (omega arith); out = r.out; open_slots = r.open_slots }
