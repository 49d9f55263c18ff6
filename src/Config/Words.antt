-- ===== src/Config/Words.antt =====
-- What is left of a line without quotes and escapes.
use smart_socksproxy.Base.{
  ℕ, ◌≡◌, refl, sym, ap, ◌∙◌, ◌≢◌, inl, inr, Bool, true, false, not, ◌&&◌, ◌||◌, List, [], ◌∷◌,
  ◌++◌, append_assoc, append-nil, Bytes, ◌==◌, if◌then◌else◌, All, Bool-cases, arith,
}
use smart_socksproxy.Config.Clean.{
  Scan, start, spaced, is_space, is_empty, step, scan,
  remove_extra_spaces_and_comments_from_config_line,
}

-- A character that is no escape, no quote and no comment.
abbrev pub IsPlain : ℕ → Type 0
IsPlain c = (c ≢ b'\\') × (c ≢ b'\'') × (c ≢ b'"') × (c ≢ b'#')

abbrev pub flush : Bytes → List Bytes → List Bytes
flush [] ws = ws
flush (c ∷ w) ws = (c ∷ w) ∷ ws

-- The words of a line, with `w` begun.
abbrev pub words_from : Bytes → Bytes → List Bytes
words_from w [] = flush w []
words_from w (c ∷ s) = if is_space c then flush w (words_from [] s) else words_from (w ++ c ∷ []) s

-- The words of a line: its longest parts without spaces and tabs.
abbrev pub words : Bytes → List Bytes
words s = words_from [] s

-- Words behind another, a space before each.
abbrev pub glue : List Bytes → Bytes
glue [] = []
glue (w ∷ ws) = b' ' ∷ (w ++ glue ws)

abbrev pub unwords : List Bytes → Bytes
unwords [] = []
unwords (w ∷ ws) = w ++ glue ws

-- The machine within a word.
abbrev inside : Bytes → Bytes
inside [] = []
inside (c ∷ s) = if is_space c then glue (words s) else c ∷ inside s

unwords-inside : (a : ℕ) (w s : Bytes) → unwords (words_from (a ∷ w) s) ≡ (a ∷ w) ++ inside s
unwords-inside a w [] = refl
unwords-inside a w (c ∷ s) = elim (Bool-cases (is_space c)) [
  | inl space ↦ rw space
  | inr letter ↦
      rw letter (unwords-inside a (w ++ c ∷ []) s ∙ append_assoc (a ∷ w) (c ∷ []) (inside s))
]

glue-inside : (a : ℕ) (w s : Bytes) → glue (words_from (a ∷ w) s) ≡ b' ' ∷ ((a ∷ w) ++ inside s)
glue-inside a w [] = refl
glue-inside a w (c ∷ s) = elim (Bool-cases (is_space c)) [
  | inl space ↦ rw space
  | inr letter ↦
      rw letter
        (glue-inside a (w ++ c ∷ []) s ∙ ap (◌∷◌ b' ') (append_assoc (a ∷ w) (c ∷ []) (inside s)))
]

-- The machine outside quotes and escapes.
abbrev at_rest : Bytes → Bool → Scan
at_rest out need = record {
  out = out;
  escape = false;
  need_a_space = need;
  quote_single = false;
  quote_double = false;
}

scan_plain :
    (c : ℕ) (o : Bytes) (need : Bool) (s : Bytes)
    → IsPlain c
    → scan (at_rest o need) (c ∷ s)
      ≡ scan
          (if is_empty o && is_space c
            then at_rest o need
            else if is_space c
            then at_rest o true
            else spaced (at_rest o need) c)
          s
unfolding scan step
scan_plain c o need s p =
    let e1 : (c == b'\\') ≡ false = ground arith in
    let e2 : (c == b'\'') ≡ false = ground arith in
    let e3 : (c == b'"') ≡ false = ground arith in
    let e4 : (c == b'#') ≡ false = ground arith in rw (e1, e2, e3, e4, scan, step)

scan_space :
    (a c : ℕ) (o : Bytes) (need : Bool) (s : Bytes)
    → IsPlain c
    → is_space c ≡ true
    → scan (at_rest (a ∷ o) need) (c ∷ s) ≡ scan (at_rest (a ∷ o) true) s
scan_space a c o need s p space = scan_plain c (a ∷ o) need s p ∙ rw space

scan_lead :
    (c : ℕ) (s : Bytes)
    → IsPlain c
    → is_space c ≡ true
    → scan (at_rest [] false) (c ∷ s) ≡ scan (at_rest [] false) s
scan_lead c s p space = scan_plain c [] false s p ∙ rw space

scan_letter :
    (c : ℕ) (o : Bytes) (need : Bool) (s : Bytes)
    → IsPlain c
    → is_space c ≡ false
    → scan (at_rest o need) (c ∷ s) ≡ scan (spaced (at_rest o need) c) s
scan_letter c [] need s p letter = scan_plain c [] need s p ∙ rw letter
scan_letter c (a ∷ o) need s p letter = scan_plain c (a ∷ o) need s p ∙ rw letter

-- The return value and the text of a machine.
abbrev finish : Scan → Bool × Bytes
finish s = (not (s.quote_single || s.quote_double), s.out)

-- `tail` stands behind the plain part, and writes nothing.
module _ (tail : Bytes)
    (quiet : (o : Bytes) (need : Bool) → scan (at_rest o need) tail ≡ at_rest o need) where
  abbrev Writes : Scan → Bytes → Bytes → Type 0
  Writes st s text = finish (scan st (s ++ tail)) ≡ (true, text)

  scan_on :
      (s : Bytes)
      → All IsPlain s
      → ((a : ℕ) (o : Bytes) → Writes (at_rest (a ∷ o) true) s ((a ∷ o) ++ glue (words s)))
        × ((a : ℕ) (o : Bytes) → Writes (at_rest (a ∷ o) false) s ((a ∷ o) ++ inside s))
  scan_on [] p =
      (λ a o. rw (quiet (a ∷ o) true, append-nil o), λ a o. rw (quiet (a ∷ o) false, append-nil o))
  scan_on (c ∷ s) p =
      let (gap, in_word) = scan_on s p.1 in
      elim (Bool-cases (is_space c)) [
        | inl space ↦ (
          λ a o. rw (scan_space a c o true (s ++ tail) p.0 space, space) (gap a o),
          λ a o. rw (scan_space a c o false (s ++ tail) p.0 space, space) (gap a o),
        )
        | inr letter ↦ (
          λ a o.
              rw (scan_letter c (a ∷ o) true (s ++ tail) p.0 letter, letter)
                (in_word a (o ++ b' ' ∷ c ∷ [])
                  ∙ rw (append_assoc o (b' ' ∷ c ∷ []) (inside s), glue-inside c [] s)),
          λ a o.
              rw (scan_letter c (a ∷ o) false (s ++ tail) p.0 letter, letter)
                (in_word a (o ++ c ∷ []) ∙ rw (append_assoc o (c ∷ []) (inside s))),
        )
      ]

  scan_start : (s : Bytes) → All IsPlain s → Writes (at_rest [] false) s (unwords (words s))
  scan_start [] p = rw (quiet [] false)
  scan_start (c ∷ s) p = elim (Bool-cases (is_space c)) [
    | inl space ↦ rw (scan_lead c (s ++ tail) p.0 space, space) (scan_start s p.1)
    | inr letter ↦
        rw (scan_letter c [] false (s ++ tail) p.0 letter, letter)
          ((scan_on s p.1).1 c [] ∙ rw (unwords-inside c [] s))
  ]

-- A line without a quote of either kind, a backslash and "#" keeps its words, with one space between
-- two of them and none at the ends.
pub remove_extra_spaces_and_comments_from_config_line-plain :
    (line : Bytes)
    → All IsPlain line
    → remove_extra_spaces_and_comments_from_config_line line ≡ (true, unwords (words line))
unfolding remove_extra_spaces_and_comments_from_config_line scan
remove_extra_spaces_and_comments_from_config_line-plain line p =
    ap (λ l. finish (scan start l)) (sym (append-nil line)) ∙ scan_start [] (λ o need. refl) line p
