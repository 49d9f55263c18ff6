-- ===== src/Config/Substitution.antt =====
-- What a line becomes when its variables are replaced.
use smart_socksproxy.Base.{
  ℕ, ◌<◌, ◌≡◌, refl, sym, ap, ◌∙◌, ◌≢◌, true, false, Option, none, some, List, [], ◌∷◌, ◌++◌,
  append_assoc, append-nil, Bytes, length, All, ltb, leb, ◌==◌, arith,
}
use smart_socksproxy.Config.Environment.{
  is_name, value_of, substitute, replace_environment_variables_in_string,
}

-- A text without "$", and the variable behind it.
pub record Piece : Type 0 where
  pub text : Bytes
  pub name : Bytes

abbrev pub IsNoDollar : ℕ → Type 0
IsNoDollar c = c ≢ b'$'

abbrev pub IsName : ℕ → Type 0
IsName c = is_name c ≡ true

pub record IsPiece (p : Piece) : Type 0 where
  pub text : All IsNoDollar p.text
  pub name : All IsName p.name
  pub some_name : 0 < length p.name
  pub fits : length p.name < 8192

-- A line as it is written, and with the values of its variables.
abbrev pub written : List Piece → Bytes → Bytes
written [] last = last
written (p ∷ ps) last = p.text ++ b'$' ∷ b'{' ∷ (p.name ++ b'}' ∷ written ps last)

abbrev pub expanded : (Bytes → Option Bytes) → List Piece → Bytes → Bytes
expanded getenv [] last = last
expanded getenv (p ∷ ps) last = p.text ++ (value_of getenv p.name ++ expanded getenv ps last)

module _ (getenv : Bytes → Option Bytes) where
  copies :
      (text s out : Bytes)
      → All IsNoDollar text
      → substitute getenv false none (text ++ s) out ≡ substitute getenv false none s (out ++ text)
  unfolding substitute
  copies [] s out h = rw (append-nil out)
  copies (c ∷ text) s out h =
      let e : (c == b'$') ≡ false = ground arith in
      rw (e, substitute)
        (copies text s (out ++ c ∷ []) h.1
          ∙ ap (λ o. substitute getenv false none s o) (append_assoc out (c ∷ []) text))

  name_step :
      (c : ℕ) (name s out : Bytes)
      → IsName c
      → substitute getenv false (some name) (c ∷ s) out
        ≡ substitute getenv false (some (name ++ c ∷ [])) s out
  unfolding substitute
  name_step c name s out h = let e : (c == b'$') ≡ false = ground arith in rw (e, h, substitute)

  names :
      (more name s out : Bytes)
      → All IsName more
      → substitute getenv false (some name) (more ++ s) out
        ≡ substitute getenv false (some (name ++ more)) s out
  names [] name s out h = rw (append-nil name)
  names (c ∷ more) name s out h =
      name_step c name (more ++ s) out h.0
      ∙ names more (name ++ c ∷ []) s out h.1
      ∙ ap (λ n. substitute getenv false (some n) s out) (append_assoc name (c ∷ []) more)

  closes :
      (name s out : Bytes)
      → 0 < length name
      → length name < 8192
      → substitute getenv false (some name) (b'}' ∷ s) out
        ≡ substitute getenv false none s (out ++ value_of getenv name)
  unfolding substitute
  closes name s out h k =
      let e1 : ltb 0 (length name) ≡ true = ground arith in
      let e2 : leb (length name) 8192 ≡ true = ground arith in rw (e1, e2, substitute)

  opens :
      (s out : Bytes)
      → substitute getenv false none (b'$' ∷ b'{' ∷ s) out ≡ substitute getenv false (some []) s out
  unfolding substitute
  opens s out = refl

  piece_lem :
      (p : Piece) (s out : Bytes)
      → IsPiece p
      → substitute getenv false none (p.text ++ b'$' ∷ b'{' ∷ (p.name ++ b'}' ∷ s)) out
        ≡ substitute getenv false none s (out ++ (p.text ++ value_of getenv p.name))
  piece_lem p s out h =
      copies p.text (b'$' ∷ b'{' ∷ (p.name ++ b'}' ∷ s)) out h.text
      ∙ opens (p.name ++ b'}' ∷ s) (out ++ p.text)
      ∙ names p.name [] (b'}' ∷ s) (out ++ p.text) h.name
      ∙ closes p.name s (out ++ p.text) h.some_name h.fits
      ∙ ap (λ o. substitute getenv false none s o)
          (append_assoc out p.text (value_of getenv p.name))

  pieces_lem :
      (ps : List Piece) (last out : Bytes)
      → All IsPiece ps
      → All IsNoDollar last
      → substitute getenv false none (written ps last) out ≡ (true, out ++ expanded getenv ps last)
  unfolding substitute
  pieces_lem [] last out h k =
      ap (λ l. substitute getenv false none l out) (sym (append-nil last)) ∙ copies last [] out k
  pieces_lem (p ∷ ps) last out h k =
      piece_lem p (written ps last) out h.0
      ∙ pieces_lem ps last (out ++ (p.text ++ value_of getenv p.name)) h.1 k
      ∙ rw (
        append_assoc out (p.text ++ value_of getenv p.name) (expanded getenv ps last),
        append_assoc p.text (value_of getenv p.name) (expanded getenv ps last),
      )

  -- Each "${name}" of a line is replaced by the value of the variable, cut to 8191 characters, or by
  -- nothing if it does not exist, and the text between them, which has no "$", stays. The names have
  -- 1 to 8191 letters, digits and underscores, and what the line becomes fits the buffer with its
  -- zero.
  pub replace_environment_variables_in_string-written :
      (ps : List Piece) (last : Bytes) (outbuflen : ℕ)
      → All IsPiece ps
      → All IsNoDollar last
      → length (expanded getenv ps last) < outbuflen
      → replace_environment_variables_in_string getenv outbuflen (written ps last)
        ≡ some (true, expanded getenv ps last)
  unfolding replace_environment_variables_in_string
  replace_environment_variables_in_string-written ps last outbuflen h k fits =
      let within : ltb (length (expanded getenv ps last)) outbuflen ≡ true = ground (arith, fits) in
      rw (pieces_lem ps last [] h k, within) refl
