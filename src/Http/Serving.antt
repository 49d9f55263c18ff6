-- ===== src/Http/Serving.antt =====
-- The bytes that a client gets.
use smart_socksproxy.Base.{
  ℕ, zero, suc, ◌<◌, ◌≡◌, refl, ap, ◌≢◌, false, List, [], ◌∷◌, ◌++◌, append_assoc, append-nil,
  Bytes, length, take, drop, All, ◌==◌, arith,
}
use smart_socksproxy.Io.{Event, count, Reply, stream, IsClean, Got, sb_read_len, sb_read_len-Got}
use smart_socksproxy.Http.Request.{line_turn, read_line_on, read_one_line_safely}

abbrev pub IsInLine : ℕ → Type 0
IsInLine c = (c ≢ b'\n') × (c ≢ b'\r')

-- A line that was read, and what stays unread.
pub record LineRead (r : Reply) (line rest : Bytes) : Type 0 where
  pub rc : r.rc ≡ count (length line)
  pub buf : r.buf ≡ line
  pub unread : stream r.rest ≡ rest
  pub clean : IsClean r.rest

read_byte :
    (es : List Event) (c : ℕ) (rest : Bytes)
    → IsClean es
    → stream es ≡ c ∷ rest
    → Got (sb_read_len 1 [] es) (c ∷ []) rest
read_byte es c rest clean e =
    let got = sb_read_len-Got 1 es clean (omega (arith, ap length e)) in
    let one : take 1 (stream es) ≡ c ∷ [] = ap (take 1) e in
    let later : drop 1 (stream es) ≡ rest = ap (drop 1) e in rw (one, later) at got

read_line_turn :
    (room : ℕ) (line : Bytes) (es : List Event) (c : ℕ) (rest : Bytes)
    → IsClean es
    → stream es ≡ c ∷ rest
    → IsInLine c
    → read_line_on (suc room) line es
      ≡ read_line_on room (line ++ c ∷ []) (sb_read_len 1 [] es).rest
unfolding read_line_on line_turn
read_line_turn room line es c rest clean e h =
    let got = read_byte es c rest clean e in
    let nl : (c == b'\n') ≡ false = ground arith in
    let cr : (c == b'\r') ≡ false = ground arith in rw (got.rc, got.buf, nl, cr, line_turn)

read_line_end :
    (room : ℕ) (line : Bytes) (es : List Event) (rest : Bytes)
    → IsClean es
    → stream es ≡ b'\n' ∷ rest
    → LineRead (read_line_on (suc room) line es) line rest
unfolding read_line_on line_turn
read_line_end room line es rest clean e =
    let got = read_byte es b'\n' rest clean e in
    rw (got.rc, got.buf, line_turn)
      (record { rc = refl; buf = refl; unread = got.rest; clean = got.clean })

read_line_lem :
    (room : ℕ) (line text : Bytes) (es : List Event) (rest : Bytes)
    → IsClean es
    → stream es ≡ text ++ b'\n' ∷ rest
    → All IsInLine text
    → length text < room
    → LineRead (read_line_on room line es) (line ++ text) rest
read_line_lem (suc room) line [] es rest clean e h k =
    rw (append-nil line) (read_line_end room line es rest clean e)
read_line_lem (suc room) line (c ∷ text) es rest clean e h k =
    let got = read_byte es c (text ++ b'\n' ∷ rest) clean e in
    let more =
      read_line_lem room (line ++ c ∷ []) text (sb_read_len 1 [] es).rest rest got.clean got.rest
        h.1 (omega arith) in
    rw
      (
        read_line_turn room line es c (text ++ b'\n' ∷ rest) clean e h.0,
        ← append_assoc line (c ∷ []) text,
      )
      more
read_line_lem zero line text es rest clean e h k = absurd (omega arith)

-- Where reads fail by interruption only, `read_one_line_safely` reads a line without CR and LF that the buffer holds, up to its LF, and nothing behind it,
-- however the network cuts it into pieces.
pub read_one_line_safely-LineRead :
    (buflen : ℕ) (line : Bytes) (es : List Event) (rest : Bytes)
    → IsClean es
    → stream es ≡ line ++ b'\n' ∷ rest
    → All IsInLine line
    → length line < buflen
    → LineRead (read_one_line_safely buflen es) line rest
unfolding read_one_line_safely
read_one_line_safely-LineRead buflen line es rest clean e h k =
    read_line_lem buflen [] line es rest clean e h k
