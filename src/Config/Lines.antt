-- ===== src/Config/Lines.antt =====
-- `read_line`, and the lines that a loop over it sees.
use smart_socksproxy.Base.{
  ℕ, zero, suc, ◌+◌, ◌-◌, Bool, true, false, ◌&&◌, List, [], ◌∷◌, ◌++◌, Bytes, length, leb, ◌==◌,
  if◌then◌else◌,
}

-- What `read(fd, &chr, 1)` gives, call by call: a byte, the end of the file, or a failure. Calls
-- that a signal interrupts are repeated and leave no trace.
pub data Input : Type 0 where
  eof : Input
  broken : Input
  next : ℕ → Input → Input

-- The return value, `buf`, the marks `cr` and `lf`, and what is still to be read.
pub record Line : Type 0 where
  pub rc : ℕ
  pub text : Bytes
  pub cr : Bool
  pub lf : Bool
  pub rest : Input

-- The loop, with `text` in the buffer.
unfoldable pub read_line_from : ℕ → Bytes → Bool → Bool → Input → Line
read_line_from buflen text cr lf eof = record { rc = 2; text = text; cr = cr; lf = lf; rest = eof }
read_line_from buflen text cr lf broken = record {
  rc = 0;
  text = text;
  cr = cr;
  lf = lf;
  rest = broken;
}
read_line_from buflen text cr lf (next chr rest) = elim (chr == 10 && cr) [
  | true ↦ read_line_from buflen text false false rest
  | false ↦ elim (chr == 13 && lf) [
    | true ↦ read_line_from buflen text false false rest
    | false ↦ elim (chr == 10) [
      | true ↦ record { rc = 1; text = text; cr = cr; lf = true; rest = rest }
      | false ↦ elim (chr == 13) [
        | true ↦ record { rc = 1; text = text; cr = true; lf = lf; rest = rest }
        | false ↦ elim (leb (buflen - 1) (length text + 1)) [
          | true ↦ record { rc = 0; text = text ++ chr ∷ []; cr = false; lf = false; rest = rest }
          | false ↦ read_line_from buflen (text ++ chr ∷ []) false false rest
        ]
      ]
    ]
  ]
]

unfoldable pub read_line : ℕ → Bool → Bool → Input → Line
unfolding read_line_from
read_line buflen cr lf input = read_line_from buflen [] cr lf input

-- The loop of `config_file_parse` over `read_line`, `fuel` rounds at most: the lines that it looks
-- at, and whether the end of the file was reached. What `read_line` returns with the end of the file
-- is not looked at.
unfoldable pub read_lines : ℕ → ℕ → Bool → Bool → Input → Bool × List Bytes
unfolding read_line
read_lines zero buflen cr lf input = (false, [])
read_lines (suc fuel) buflen cr lf input =
    let line = read_line buflen cr lf input in
    let (ended, more) = read_lines fuel buflen line.cr line.lf line.rest in
    if line.rc == 2
    then (true, [])
    else if line.rc == 1
    then (ended, line.text ∷ more)
    else (false, [])
