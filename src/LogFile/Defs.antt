-- ===== src/LogFile/Defs.antt =====
-- log_file.c: the records of the log files, their list and their rotation. The mutex and the sizes of
-- the buffers for names are not modelled; a negative size or count is as 0.
use smart_socksproxy.Base.{
  ℕ, zero, suc, ◌*◌, Bool, not, ◌||◌, Option, none, some, List, [], ◌∷◌, ◌++◌, Bytes, codes, take,
  str_eq, if◌then◌else◌, ltb, ℤ, negsuc,
}
use smart_socksproxy.Clib.{strncpy, decimal}

pub record LogFile : Type 0 where
  pub file_name : Bytes
  pub fd : ℤ
  pub byte_count : ℕ
  pub can_rotate : Bool
  pub byte_count_max : ℕ
  pub file_rotate_count : ℕ

-- `strncmp(a, b, LOG_FILE_NAME_MAX_LEN-1) == 0`.
unfoldable pub same_name : Bytes → Bytes → Bool
same_name a b = str_eq (take 2047 a) (take 2047 b)

-- NULL stands for standard output.
unfoldable pub name_or_dash : Option Bytes → Bytes
name_or_dash none = codes "-"
name_or_dash (some filename) = filename

unfoldable pub new_log_file : Option Bytes → LogFile
unfolding same_name name_or_dash
new_log_file filename =
    let name = strncpy (name_or_dash filename) 2048 in
    record {
      file_name = name;
      fd = negsuc 0;
      byte_count = 0;
      can_rotate = not (same_name name (codes "-"));
      byte_count_max = 1024 * 1024 * 20;
      file_rotate_count = 4;
    }

unfoldable pub new_log_file_from_template : LogFile → Bytes → LogFile
unfolding new_log_file
new_log_file_from_template template filename = record (new_log_file (some filename)) {
  byte_count_max = template.byte_count_max;
  file_rotate_count = template.file_rotate_count;
}

unfoldable pub find_log_file : List LogFile → Bytes → Option LogFile
unfolding same_name
find_log_file [] filename = none
find_log_file (log ∷ rest) filename =
    let later = find_log_file rest filename in
    if same_name log.file_name filename then some log else later

-- `new_log_file` or `new_log_file_from_template`: the template may be NULL.
unfoldable pub created : Option LogFile → Bytes → LogFile
unfolding new_log_file new_log_file_from_template
created none filename = new_log_file (some filename)
created (some template) filename = new_log_file_from_template template filename

-- The log file, and the list behind the call.
unfoldable pub find_or_create_log_file :
    List LogFile → Option LogFile → Bytes → LogFile × List LogFile
unfolding find_log_file created
find_or_create_log_file head template filename = elim (find_log_file head filename) [
  | some log ↦ (log, head)
  | none ↦ let log = created template filename in (log, log ∷ head)
]

-- The contents of the files by their names.
abbrev pub Files : Type 0
Files = Bytes → Option Bytes

-- `rename`, which puts `old` in the place of `new`, and fails with ENOENT where there is no `old`.
unfoldable pub rename : Bytes → Bytes → Files → Files
rename old new files name = elim (files old) [
  | none ↦ files name
  | some content ↦
      if str_eq name new then some content else if str_eq name old then none else files name
]

-- The name of the `i`th old log; the log itself is the first.
unfoldable pub rotated : Bytes → ℕ → Bytes
rotated name zero = name
rotated name (suc i) = name ++ b'.' ∷ decimal (suc i)

-- The loop over `i`, from `count - 1` down to 0; `none` is the exit of the program where a `rename`
-- that `allowed` does not allow fails with another error than ENOENT.
unfoldable pub rename_all : (Bytes → Bytes → Bool) → ℕ → Bytes → Files → Option Files
unfolding rename rotated
rename_all allowed zero name files = some files
rename_all allowed (suc i) name files =
    let rest = rename_all allowed i name (rename (rotated name i) (rotated name (suc i)) files) in
    if allowed (rotated name i) (rotated name (suc i)) then rest else none

-- `close` says for which descriptors `close` succeeds; `none` is the exit of the program.
unfoldable pub log_file_rotate :
    (Bytes → Bytes → Bool) → (ℤ → Bool) → LogFile → Files → Option (LogFile × Files)
unfolding rename_all
log_file_rotate allowed close log files =
    if not log.can_rotate || ltb log.byte_count log.byte_count_max
    then some (log, files)
    else elim (rename_all allowed log.file_rotate_count log.file_name files) [
      | none ↦ none
      | some files' ↦
          if close log.fd then some (record log { fd = negsuc 0; byte_count = 0 }, files') else none
    ]
