-- ===== src/LogFile/Registry.antt =====
-- The program has one record for each log file.
use smart_socksproxy.Base.{
  ◌≤◌, ◌≡◌, ◌≢◌, ◌↔◌, ◌⊎◌, refl, inl, inr, true, Bool-cases, Option-cases, Option, none, some, List,
  [], ◌∷◌, Bytes, length, take, take_all, length-take, str_eq_iff, All, arith,
}
use smart_socksproxy.LogFile.Defs.{
  LogFile, same_name, name_or_dash, new_log_file, new_log_file_from_template, find_log_file,
  created, find_or_create_log_file,
}

-- No two log files have the same name, and each name fits `file_name`.
unfoldable pub IsRegistry : List LogFile → Type 0
IsRegistry [] = Unit {0}
IsRegistry (log ∷ rest) =
    (length log.file_name ≤ 2047)
    × All (λ other. other.file_name ≢ log.file_name) rest
    × IsRegistry rest

named :
    (template : Option LogFile) (filename : Bytes)
    → (created template filename).file_name ≡ take 2047 filename
unfolding created new_log_file name_or_dash new_log_file_from_template
named none filename = refl
named (some template) filename = refl

same_name_iff : (a b : Bytes) → length a ≤ 2047 → (same_name a b ≡ true) ↔ (a ≡ take 2047 b)
unfolding same_name
same_name_iff a b fits = rw (take_all 2047 a fits) (str_eq_iff a (take 2047 b))

-- What is found has the name.
found :
    (head : List LogFile) (filename : Bytes) {log : LogFile}
    → IsRegistry head
    → find_log_file head filename ≡ some log
    → log.file_name ≡ take 2047 filename
unfolding find_log_file IsRegistry
found [] filename r e = cc
found (log ∷ rest) filename {log = log'} (fits, others, r) e =
    elim (Bool-cases (same_name log.file_name filename)) [
      | inl same ↦ ground (arith, (same_name_iff log.file_name filename fits).0 same)
      | inr other ↦ found rest filename {log = log'} r (ground arith)
    ]

missing :
    (head : List LogFile) (filename : Bytes)
    → IsRegistry head
    → find_log_file head filename ≡ none
    → All (λ other. other.file_name ≢ take 2047 filename) head
unfolding find_log_file IsRegistry
missing [] filename r e = tt
missing (log ∷ rest) filename (fits, others, r) e =
    elim (Bool-cases (same_name log.file_name filename)) [
      | inl same ↦ absurd (ground arith)
      | inr other ↦ (
        λ eq. absurd (ground (arith, (same_name_iff log.file_name filename fits).1 eq)),
        missing rest filename r (ground arith),
      )
    ]

created-IsRegistry :
    (head : List LogFile) (template : Option LogFile) (filename : Bytes)
    → IsRegistry head
    → find_log_file head filename ≡ none
    → IsRegistry (created template filename ∷ head)
unfolding IsRegistry
created-IsRegistry head template filename r e = (
  rw (named template filename) (omega (arith, length-take 2047 filename)),
  rw (named template filename) (missing head filename r e),
  r,
)

created_found :
    (head : List LogFile) (template : Option LogFile) (filename : Bytes)
    → find_log_file (created template filename ∷ head) filename ≡ some (created template filename)
unfolding find_log_file
created_found head template filename = rw same refl
  where
    fits : length (created template filename).file_name ≤ 2047
    fits = rw (named template filename) (omega (arith, length-take 2047 filename))

    same : same_name (created template filename).file_name filename ≡ true
    same = (same_name_iff _ filename fits).1 (named template filename)

kept :
    (head : List LogFile) (template : Option LogFile) (filename : Bytes) {log : LogFile}
    → find_log_file head filename ≡ some log
    → find_or_create_log_file head template filename ≡ (log, head)
unfolding find_or_create_log_file
kept head template filename e = rw (find_or_create_log_file, e) refl

inserted :
    (head : List LogFile) (template : Option LogFile) (filename : Bytes)
    → find_log_file head filename ≡ none
    → find_or_create_log_file head template filename
      ≡ (created template filename, created template filename ∷ head)
unfolding find_or_create_log_file
inserted head template filename e = rw (find_or_create_log_file, e) refl

-- On a list in which no two log files have the same name and no name is longer than 2047
-- characters, `find_or_create_log_file` returns a log file with the name, cut to 2047 characters, and
-- leaves such a list: the one it was given, or that list behind the log file returned. Asked for the
-- name again, with whatever template, it returns the same log file and leaves the list as it is.
pub find_or_create_log_file-IsRegistry :
    (head : List LogFile) (template again : Option LogFile) (filename : Bytes)
    → IsRegistry head
    → let (log, head') = find_or_create_log_file head template filename in
      IsRegistry head'
      × (log.file_name ≡ take 2047 filename)
      × ((head' ≡ head) ⊎ (head' ≡ log ∷ head))
      × (find_or_create_log_file head' again filename ≡ (log, head'))
find_or_create_log_file-IsRegistry head template again filename r =
    elim (Option-cases (find_log_file head filename)) [
      | inl none_found ↦ rw (inserted head template filename none_found) (
        created-IsRegistry head template filename r none_found,
        named template filename,
        inr refl,
        kept _ again filename (created_found head template filename),
      )
      | inr (log, e) ↦
          rw (kept head template filename e)
            (r, found head filename r e, inl refl, kept head again filename e)
    ]
