-- ===== src/Text/Laws.antt =====
-- What the searches of string2.c find.
use smart_socksproxy.Base.{
  ℕ, suc, ◌+◌, ◌-◌, ◌≤◌, ◌≡◌, refl, sym, ap, ◌∙◌, ◌↔◌, inl, inr, true, [], ◌∷◌, ◌++◌, map, Bytes,
  length, take, drop, Bool-cases, str_eq, str_eq_iff, length-append, take-append-drop, arith,
}
use smart_socksproxy.Text.Search.{
  tolower, has_prefix, string_starts_with, string_ends_with, strcasestr, string_contains,
}

take-append : (p rest : Bytes) → take (length p) (p ++ rest) ≡ p
take-append [] rest = refl
take-append (x ∷ p) rest = ap (◌∷◌ x) (take-append p rest)

drop-append : (p rest : Bytes) → drop (length p) (p ++ rest) ≡ rest
drop-append [] rest = refl
drop-append (x ∷ p) rest = drop-append p rest

pub has_prefix_iff : (s p : Bytes) → (has_prefix s p ≡ true) ↔ ((rest : Bytes) × (s ≡ p ++ rest))
has_prefix_iff s p = (there, back)
  where
    there : has_prefix s p ≡ true → (rest : Bytes) × (s ≡ p ++ rest)
    there h = (
      drop (length p) s,
      sym (take-append-drop (length p) s) ∙ ap (λ q. q ++ drop (length p) s) ((str_eq_iff _ p).0 h),
    )

    back : (rest : Bytes) × (s ≡ p ++ rest) → has_prefix s p ≡ true
    back (rest, e) = (str_eq_iff _ p).1 (rw e (take-append p rest))

-- `string_starts_with` holds exactly when the string is the given start with something behind it.
pub string_starts_with_iff :
    (str start : Bytes)
    → (string_starts_with str start ≡ true) ↔ ((rest : Bytes) × (str ≡ start ++ rest))
unfolding string_starts_with
string_starts_with_iff str start = (there, back)
  where
    there : string_starts_with str start ≡ true → (rest : Bytes) × (str ≡ start ++ rest)
    there h = (has_prefix_iff str start).0 (ground arith)

    back : (rest : Bytes) × (str ≡ start ++ rest) → string_starts_with str start ≡ true
    back (rest, e) =
        ground
          (arith, (has_prefix_iff str start).1 (rest, e), ap length e, length-append start rest)

length-map : (f : ℕ → ℕ) (s : Bytes) → length (map f s) ≡ length s
length-map f [] = refl
length-map f (x ∷ s) = ap suc (length-map f s)

ends_split :
    (s e : Bytes)
    → length e ≤ length s
    → drop (length s - length e) s ≡ e
    → (front : Bytes) × (s ≡ front ++ e)
ends_split s e h d = (
  take (length s - length e) s,
  sym (take-append-drop (length s - length e) s) ∙ ap (◌++◌ (take (length s - length e) s)) d,
)

ends_join : (front e : Bytes) → drop (length (front ++ e) - length e) (front ++ e) ≡ e
ends_join front e = rw (length-append front e, cancel) (drop-append front e)
  where
    cancel : length front + length e - length e ≡ length front
    cancel = omega arith

-- `string_ends_with` compares the end with the string in lower case, and leaves the end as it is.
pub string_ends_with_iff :
    (str end : Bytes)
    → (string_ends_with str end ≡ true) ↔ ((front : Bytes) × (map tolower str ≡ front ++ end))
unfolding string_ends_with
string_ends_with_iff str end = (there, back)
  where
    there : string_ends_with str end ≡ true → (front : Bytes) × (map tolower str ≡ front ++ end)
    there h = ends_split (map tolower str) end (ground arith) ((str_eq_iff _ end).0 (ground arith))

    back : (front : Bytes) × (map tolower str ≡ front ++ end) → string_ends_with str end ≡ true
    back (front, e) = ground (
      arith,
      found (map tolower str) (rw e (ends_join front end)),
      ap length e,
      length-append front end,
    )
      where
        found :
            (lower : Bytes)
            → drop (length lower - length end) lower ≡ end
            → str_eq (drop (length lower - length end) lower) end ≡ true
        found lower = (str_eq_iff _ end).1

prefix_append : (s p : Bytes) → (rest : Bytes) × (s ≡ p ++ rest) → has_prefix s p ≡ true
prefix_append s p = (has_prefix_iff s p).1

strcasestr_sound :
    (s n : Bytes)
    → strcasestr s n ≡ true
    → (front : Bytes) × (rest : Bytes) × (map tolower s ≡ front ++ (map tolower n ++ rest))
unfolding strcasestr
strcasestr_sound [] n h = let (rest, e) = (has_prefix_iff [] (map tolower n)).0 h in ([], rest, e)
strcasestr_sound (c ∷ s) n h =
    elim (Bool-cases (has_prefix (map tolower (c ∷ s)) (map tolower n))) [
      | inl first ↦ let (rest, e) = (has_prefix_iff _ (map tolower n)).0 first in ([], rest, e)
      | inr later ↦
          let (front, rest, e) = strcasestr_sound s n (ground arith) in
          (tolower c ∷ front, rest, ap (◌∷◌ (tolower c)) e)
    ]

strcasestr_complete :
    (s n front rest : Bytes)
    → map tolower s ≡ front ++ (map tolower n ++ rest)
    → strcasestr s n ≡ true
unfolding strcasestr
strcasestr_complete [] n [] rest e = prefix_append [] (map tolower n) (rest, e)
strcasestr_complete [] n (f ∷ front) rest e = cc
strcasestr_complete (c ∷ s) n [] rest e =
    rw (prefix_append (map tolower (c ∷ s)) (map tolower n) (rest, e))
strcasestr_complete (c ∷ s) n (f ∷ front) rest e =
    let later = strcasestr_complete s n front rest (cc) in ground (arith, later)

-- `string_contains` finds the second string anywhere in the first, the case of both ignored.
pub string_contains_iff :
    (str contained : Bytes)
    → (string_contains str contained ≡ true) ↔ (
        (front : Bytes) × (rest : Bytes) × (map tolower str
          ≡ front ++ (map tolower contained ++ rest)))
unfolding string_contains
string_contains_iff str contained = (
  strcasestr_sound str contained,
  λ (found : (front : Bytes) × (rest : Bytes) × (map tolower str
          ≡ front ++ (map tolower contained ++ rest))).
      strcasestr_complete str contained found.0 found.1 found.2,
)
