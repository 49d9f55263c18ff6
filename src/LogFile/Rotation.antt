-- ===== src/LogFile/Rotation.antt =====
-- log_file_rotate over a file system: where the old logs go.
use smart_socksproxy.Base.{
  ℕ, zero, suc, ◌<◌, ◌≤◌, ◌≡◌, ◌≢◌, refl, ap, subst, ◌∙◌, inl, inr, Bool, true, false, Bool-cases,
  Option-cases, Option, none, some, Bytes, str_eq, str_eq_iff, ltb, ℤ, negsuc, arith,
}
use smart_socksproxy.LogFile.Defs.{LogFile, Files, rename, rotated, rename_all, log_file_rotate}
use smart_socksproxy.LogFile.Names.{rotated_distinct}

-- What `new` holds after `rename old new`.
unfoldable pub or_else : Option Bytes → Option Bytes → Option Bytes
or_else none other = other
or_else (some content) other = some content

same : (a : Bytes) → str_eq a a ≡ true
same a = (str_eq_iff a a).1 refl

different : (a b : Bytes) → a ≢ b → str_eq a b ≡ false
different a b ne = elim (Bool-cases (str_eq a b)) [
  | inl equal ↦ absurd (ne ((str_eq_iff a b).0 equal))
  | inr unequal ↦ unequal
]

rename_other :
    (old new name : Bytes) (files : Files)
    → name ≢ old
    → name ≢ new
    → rename old new files name ≡ files name
unfolding rename
rename_other old new name files not_old not_new = elim (Option-cases (files old)) [
  | inl e ↦ rw (rename, e) refl
  | inr (content, e) ↦ rw (rename, e, different name new not_new, different name old not_old) refl
]

rename_new :
    (old new : Bytes) (files : Files) → rename old new files new ≡ or_else (files old) (files new)
unfolding rename or_else
rename_new old new files = elim (Option-cases (files old)) [
  | inl e ↦ rw (rename, e) refl
  | inr (content, e) ↦ rw (rename, e, same new) refl
]

rename_old : (old new : Bytes) (files : Files) → old ≢ new → rename old new files old ≡ none
unfolding rename
rename_old old new files ne = elim (Option-cases (files old)) [
  | inl e ↦ rw (rename, e) e
  | inr (content, e) ↦ rw (rename, e, different old new ne, same old) refl
]

-- What the loop leaves where it is allowed every `rename`.
moved : ℕ → Bytes → Files → Files
moved zero name files = files
moved (suc i) name files = moved i name (rename (rotated name i) (rotated name (suc i)) files)

rename_all-moved :
    (allowed : Bytes → Bytes → Bool) (n : ℕ) (name : Bytes) (files : Files)
    → ((old new : Bytes) → allowed old new ≡ true)
    → rename_all allowed n name files ≡ some (moved n name files)
unfolding rename_all moved
rename_all-moved allowed zero name files h = refl
rename_all-moved allowed (suc i) name files h =
    rw (h (rotated name i) (rotated name (suc i))) (rename_all-moved allowed i name _ h)

moved_other :
    (n : ℕ) (name file : Bytes) (files : Files)
    → ((j : ℕ) → j ≤ n → file ≢ rotated name j)
    → moved n name files file ≡ files file
unfolding moved
moved_other zero name file files h = refl
moved_other (suc i) name file files h =
    moved_other i name file _ (λ j le. h j (omega arith))
    ∙ rename_other (rotated name i) (rotated name (suc i)) file files (h i (omega arith))
        (h (suc i) (omega arith))

moved_last :
    (i : ℕ) (name : Bytes) (files : Files)
    → moved (suc i) name files (rotated name (suc i))
      ≡ or_else (files (rotated name i)) (files (rotated name (suc i)))
unfolding moved
moved_last i name files =
    moved_other i name (rotated name (suc i)) _ (λ j le. rotated_distinct name (omega arith))
    ∙ rename_new (rotated name i) (rotated name (suc i)) files

moved_first :
    (i : ℕ) (name : Bytes) (files : Files) → moved (suc i) name files (rotated name 0) ≡ none
unfolding moved
moved_first zero name files =
    rename_old (rotated name 0) (rotated name 1) files (rotated_distinct name (omega arith))
moved_first (suc i) name files = moved_first i name _

or_else-none : (content : Option Bytes) → or_else content none ≡ content
unfolding or_else
or_else-none none = refl
or_else-none (some content) = refl

moved_newest :
    (i : ℕ) (name : Bytes) (files : Files)
    → moved (suc (suc i)) name files (rotated name (suc i)) ≡ files (rotated name i)
unfolding moved
moved_newest i name files =
    moved_last i name renamed
    ∙ ap (or_else (renamed (rotated name i))) (
        rename_old (rotated name (suc i)) (rotated name (suc (suc i))) files
          (rotated_distinct name (omega arith)))
    ∙ or_else-none _
    ∙ rename_other _ _ (rotated name i) files (rotated_distinct name (omega arith))
        (rotated_distinct name (omega arith))
  where
    renamed : Files
    renamed = rename (rotated name (suc i)) (rotated name (suc (suc i))) files

-- The renames of the loop start with the oldest log, so that each log's new name is free.
moved_next :
    (n j : ℕ) (name : Bytes) (files : Files)
    → suc j < n
    → moved n name files (rotated name (suc j)) ≡ files (rotated name j)
unfolding moved
moved_next zero j name files h = absurd (omega arith)
moved_next (suc i) j name files h = elim (Bool-cases (ltb (suc j) i)) [
  | inl older ↦
      moved_next i j name _ (ground arith)
      ∙ rename_other _ _ (rotated name j) files (rotated_distinct name (omega arith))
          (rotated_distinct name (omega arith))
  | inr newest ↦
      let e : suc j ≡ i = ground arith in
      subst (λ k. moved (suc k) name files (rotated name (suc j)) ≡ files (rotated name j)) e
        (moved_newest j name files)
]

-- Each of `suc n` logs has the name of the next, the first of them that of the first old log, and
-- there is no file under the log's own name. The oldest is replaced if there is another to take its
-- place. No other file has changed.
pub record IsRotated (name : Bytes) (n : ℕ) (files files' : Files) : Type 0 where
  pub first : files' (rotated name 0) ≡ none
  pub next : (j : ℕ) → j < n → files' (rotated name (suc j)) ≡ files (rotated name j)
  pub last :
      files' (rotated name (suc n))
      ≡ or_else (files (rotated name n)) (files (rotated name (suc n)))
  pub others :
      (file : Bytes) → ((j : ℕ) → j ≤ suc n → file ≢ rotated name j) → files' file ≡ files file

-- A log file that may rotate and has reached its size is rotated, where every `rename` is allowed,
-- `close` succeeds and at least one old log is kept: the log takes the name of the first old log and
-- each old log that of the next, the oldest is replaced if there is another to take its place, there
-- is no file under the log's own name, and no other file is touched. The log file is left closed and
-- empty.
pub log_file_rotate-IsRotated :
    (allowed : Bytes → Bytes → Bool) (close : ℤ → Bool) (log : LogFile) (files : Files) (n : ℕ)
    → ((old new : Bytes) → allowed old new ≡ true)
    → close log.fd ≡ true
    → log.can_rotate ≡ true
    → log.byte_count_max ≤ log.byte_count
    → log.file_rotate_count ≡ suc n
    → (files' : Files) × (log_file_rotate allowed close log files
        ≡ some (record log { fd = negsuc 0; byte_count = 0 }, files'))
      × IsRotated log.file_name n files files'
unfolding log_file_rotate
log_file_rotate-IsRotated allowed close log files n h closes can full count = (
  moved (suc n) log.file_name files,
  simp (
    log_file_rotate,
    can,
    due,
    count,
    rename_all-moved allowed (suc n) log.file_name files h,
    closes,
  ),
  record {
    first = moved_first n log.file_name files;
    next = λ j lt. moved_next (suc n) j log.file_name files (omega arith);
    last = moved_last n log.file_name files;
    others = λ file other. moved_other (suc n) log.file_name file files other;
  },
)
  where
    due : ltb log.byte_count log.byte_count_max ≡ false
    due = ground arith
