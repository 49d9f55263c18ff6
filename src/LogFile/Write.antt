-- ===== src/LogFile/Write.antt =====
-- log_file_open and log_file_write. Calls that are interrupted are repeated: the parameters say what
-- they come to. What goes to standard error is left out.
use smart_socksproxy.Base.{
  ℕ, ◌+◌, ◌≡◌, ap, Bool, true, false, Option, none, some, List, [], ◌∷◌, ◌++◌, map, Bytes, codes,
  length, if◌then◌else◌, ℤ, pos, negsuc, arith,
}
use smart_socksproxy.LogFile.Defs.{LogFile, same_name}

-- `opens` is the descriptor that `open` gives, if it succeeds, and `position` what `lseek` answers.
unfoldable pub log_file_open : (Bytes → Option ℤ) → (ℤ → ℕ) → LogFile → LogFile
unfolding same_name
log_file_open opens position log = elim log.fd [
  | pos n ↦ log
  | negsuc n ↦
      if same_name log.file_name (codes "-")
      then record log { fd = pos 1 }
      else elim (opens log.file_name) [
        | none ↦ log
        | some fd ↦ record log { fd = fd; byte_count = position fd }
      ]
]

-- Behind `log_file_open`: the log, and what is handed to `write` on which descriptor.
unfoldable pub written : LogFile → Bytes → Option LogFile × List (ℤ × Bytes)
written log buf = elim log.fd [
  | pos n ↦ (some (record log { byte_count = log.byte_count + length buf }), (pos n, buf) ∷ [])
  | negsuc n ↦ (some log, [])
]

-- `locks` says whether the mutex was got. Without a log the text goes to standard output.
unfoldable pub log_file_write :
    (Bytes → Option ℤ) → (ℤ → ℕ) → Bool → Option LogFile → Bytes → Option LogFile × List (ℤ × Bytes)
unfolding log_file_open written
log_file_write opens position false log buf = (log, [])
log_file_write opens position true none buf = (none, (pos 1, buf) ∷ [])
log_file_write opens position true (some log) buf = written (log_file_open opens position log) buf

abbrev pub total : List Bytes → ℕ
total [] = 0
total (text ∷ texts) = length text + total texts

abbrev pub opened : LogFile → ℕ → ℕ → LogFile
opened log n count = record log { fd = pos n; byte_count = count }

abbrev pub on_descriptor : ℕ → List Bytes → List (ℤ × Bytes)
on_descriptor n texts = map (λ text. (pos n, text)) texts

module _ (opens : Bytes → Option ℤ) (position : ℤ → ℕ) where
  -- One text after another, where the mutex is got each time.
  unfoldable pub write_all : Option LogFile → List Bytes → Option LogFile × List (ℤ × Bytes)
  unfolding log_file_write
  write_all log [] = (log, [])
  write_all log (text ∷ texts) =
      let (log', out) = log_file_write opens position true log text in
      let (log'', outs) = write_all log' texts in (log'', out ++ outs)

  write_all-opened :
      (log : LogFile) (n count : ℕ) (texts : List Bytes)
      → write_all (some (opened log n count)) texts
        ≡ (some (opened log n (count + total texts)), on_descriptor n texts)
  unfolding write_all
  write_all-opened log n count [] = ap (λ k. (some (opened log n k), [])) (omega arith)
  write_all-opened log n count (text ∷ texts) =
      rw (write_all-opened log n (count + length text) texts)
        (ap (λ k. (some (opened log n k), on_descriptor n (text ∷ texts))) (omega arith))

  -- A log that is closed and is not standard output is opened, if that succeeds, by the first of some
  -- texts. They are handed to `write` on its descriptor, whole and in order, and their lengths are
  -- added to what `lseek` answered.
  pub write_all-in_order :
      (log : LogFile) (k n : ℕ) (text : Bytes) (texts : List Bytes)
      → log.fd ≡ negsuc k
      → same_name log.file_name (codes "-") ≡ false
      → opens log.file_name ≡ some (pos n)
      → write_all (some log) (text ∷ texts) ≡ (
        some (opened log n (position (pos n) + total (text ∷ texts))),
        on_descriptor n (text ∷ texts),
      )
  unfolding write_all
  write_all-in_order log k n text texts closed file opening =
      rw (log_file_write, log_file_open, closed, file, opening)
        (write_all-opened log n (position (pos n)) (text ∷ texts))
