-- ===== src/Config/Splitting.antt =====
-- The lines of a file, whatever ends them.
use smart_socksproxy.Base.{
  ℕ, zero, suc, ◌+◌, ◌<◌, ◌≡◌, refl, ◌∙◌, ◌≢◌, Bool, true, false, ◌&&◌, List, [], ◌∷◌, ◌++◌,
  append_assoc, append-nil, Bytes, length, length-append, ◌==◌, All, arith,
}
use smart_socksproxy.Config.Lines.{Input, eof, next, read_line, read_line_from, read_lines}

-- How a file ends its lines.
pub data Ending : Type 0 where
  line_feed : Ending
  carriage_return : Ending
  both : Ending

-- The bytes that follow the first byte of an ending.
abbrev pub second : Ending → Input → Input
second line_feed rest = rest
second carriage_return rest = rest
second both rest = next 10 rest

abbrev pub ending : Ending → Input → Input
ending line_feed rest = next 10 rest
ending carriage_return rest = next 13 rest
ending both rest = next 13 (next 10 rest)

-- A text in front of what follows it.
abbrev pub put : Bytes → Input → Input
put [] rest = rest
put (c ∷ s) rest = next c (put s rest)

-- A file of lines, with a last one that nothing ends.
abbrev pub file : Ending → List Bytes → Bytes → Input
file e [] last = put last eof
file e (l ∷ ls) last = put l (ending e (file e ls last))

abbrev pub IsText : ℕ → Type 0
IsText c = (c ≢ 10) × (c ≢ 13)

-- A line that the buffer holds.
abbrev pub IsLine : ℕ → Bytes → Type 0
IsLine buflen l = All IsText l × (length l + 1 < buflen)

abbrev is_empty : Bytes → Bool
is_empty [] = true
is_empty (c ∷ s) = false

-- The marks that a line may start with, and those that it leaves.
abbrev Fits : Ending → Bool → Bool → Type 0
Fits line_feed cr lf = cr ≡ false
Fits carriage_return cr lf = lf ≡ false
Fits both cr lf = lf ≡ false

abbrev cr_after : Ending → Bool
cr_after line_feed = false
cr_after carriage_return = true
cr_after both = true

abbrev lf_after : Ending → Bool
lf_after line_feed = true
lf_after carriage_return = false
lf_after both = false

-- The marks once the second byte is read.
abbrev e_cr : Ending → Bool
e_cr line_feed = false
e_cr carriage_return = true
e_cr both = false

abbrev e_lf : Ending → Bool
e_lf line_feed = true
e_lf carriage_return = false
e_lf both = false

Fits-e : (e : Ending) → Fits e (e_cr e) (e_lf e)
Fits-e line_feed = refl
Fits-e carriage_return = refl
Fits-e both = refl

Fits-false : (e : Ending) → Fits e false false
Fits-false line_feed = refl
Fits-false carriage_return = refl
Fits-false both = refl

text_step :
    (buflen c : ℕ) (text : Bytes) (cr lf : Bool) (rest : Input)
    → IsText c
    → length text + 2 < buflen
    → read_line_from buflen text cr lf (next c rest)
      ≡ read_line_from buflen (text ++ c ∷ []) false false rest
unfolding read_line_from
text_step buflen c text cr lf rest t h =
    let nl : (c == 10) ≡ false = ground arith in
    let ret : (c == 13) ≡ false = ground arith in rw (nl, ret, read_line_from) (ground arith)

and_false : (b : Bool) → (b && false) ≡ false
and_false true = refl
and_false false = refl

text_lem :
    (buflen : ℕ) (l text : Bytes) (cr lf : Bool) (rest : Input)
    → All IsText l
    → length text + length l + 1 < buflen
    → read_line_from buflen text cr lf (put l rest)
      ≡ read_line_from buflen (text ++ l) (is_empty l && cr) (is_empty l && lf) rest
text_lem buflen [] text cr lf rest t h = rw (append-nil text)
text_lem buflen (c ∷ l) text cr lf rest t h =
    text_step buflen c text cr lf (put l rest) t.0 (omega arith)
    ∙ text_lem buflen l (text ++ c ∷ []) false false rest t.1
        (omega (arith, length-append text (c ∷ [])))
    ∙ rw (and_false (is_empty l), append_assoc text (c ∷ []) l)

ending_lem :
    (e : Ending) (buflen : ℕ) (text : Bytes) (cr lf : Bool) (rest : Input)
    → Fits e cr lf
    → read_line_from buflen text cr lf (ending e rest)
      ≡ record { rc = 1; text = text; cr = cr_after e; lf = lf_after e; rest = second e rest }
unfolding read_line_from
ending_lem line_feed buflen text false lf rest f = refl
ending_lem line_feed buflen text true lf rest f = absurd (cc f)
ending_lem carriage_return buflen text cr false rest f = refl
ending_lem carriage_return buflen text cr true rest f = absurd (cc f)
ending_lem both buflen text cr false rest f = refl
ending_lem both buflen text cr true rest f = absurd (cc f)

Fits-and : (e : Ending) (b cr lf : Bool) → Fits e cr lf → Fits e (b && cr) (b && lf)
Fits-and line_feed b cr lf f = rw f (and_false b)
Fits-and carriage_return b cr lf f = rw f (and_false b)
Fits-and both b cr lf f = rw f (and_false b)

line_lem :
    (e : Ending) (buflen : ℕ) (l : Bytes) (cr lf : Bool) (rest : Input)
    → Fits e cr lf
    → IsLine buflen l
    → read_line buflen cr lf (put l (ending e rest))
      ≡ record { rc = 1; text = l; cr = cr_after e; lf = lf_after e; rest = second e rest }
unfolding read_line
line_lem e buflen l cr lf rest f h =
    text_lem buflen l [] cr lf (ending e rest) h.0 (omega (arith, h.1))
    ∙ ending_lem e buflen l (is_empty l && cr) (is_empty l && lf) rest
        (Fits-and e (is_empty l) cr lf f)

last_lem :
    (buflen : ℕ) (l : Bytes) (cr lf : Bool)
    → IsLine buflen l
    → read_line buflen cr lf (put l eof)
      ≡ record { rc = 2; text = l; cr = is_empty l && cr; lf = is_empty l && lf; rest = eof }
unfolding read_line read_line_from
last_lem buflen l cr lf h = text_lem buflen l [] cr lf eof h.0 (omega (arith, h.1))

-- The second byte of an ending is no part of the next line.
second_lem :
    (e : Ending) (fuel buflen : ℕ) (rest : Input)
    → read_lines fuel buflen (cr_after e) (lf_after e) (second e rest)
      ≡ read_lines fuel buflen (e_cr e) (e_lf e) rest
unfolding read_lines read_line read_line_from
second_lem e zero buflen rest = refl
second_lem line_feed (suc fuel) buflen rest = refl
second_lem carriage_return (suc fuel) buflen rest = refl
second_lem both (suc fuel) buflen rest = refl

lines_lem :
    (e : Ending) (fuel buflen : ℕ) (ls : List Bytes) (last : Bytes) (cr lf : Bool)
    → Fits e cr lf
    → All (IsLine buflen) ls
    → IsLine buflen last
    → length ls < fuel
    → read_lines fuel buflen cr lf (file e ls last) ≡ (true, ls)
unfolding read_lines
lines_lem e (suc fuel) buflen [] last cr lf f h k enough =
    rw (last_lem buflen last cr lf k, read_lines)
lines_lem e (suc fuel) buflen (l ∷ ls) last cr lf f h k enough =
    let first = line_lem e buflen l cr lf (file e ls last) f h.0 in
    let others =
      second_lem e fuel buflen (file e ls last)
      ∙ lines_lem e fuel buflen ls last (e_cr e) (e_lf e) (Fits-e e) h.1 k (omega arith) in
    rw (first, read_lines, others)
lines_lem e zero buflen ls last cr lf f h k enough = absurd (omega arith)

-- Of a file whose lines end in LF, in CR or in CR LF the loop sees just these lines, empty ones
-- included, as long as each line fits the buffer with room for two more bytes. The text behind the
-- last ending is dropped.
pub read_lines-file :
    (e : Ending) (buflen : ℕ) (ls : List Bytes) (last : Bytes)
    → All (IsLine buflen) ls
    → IsLine buflen last
    → read_lines (suc (length ls)) buflen false false (file e ls last) ≡ (true, ls)
read_lines-file e buflen ls last h k =
    lines_lem e (suc (length ls)) buflen ls last false false (Fits-false e) h k (omega arith)
