-- ===== src/Json/Pieces.antt =====
-- Texts that write the fields of an object and its last brace, field by field.
use smart_socksproxy.Base.{
  ℕ, ◌≡◌, refl, sym, ap, ◌∙◌, Bool, true, false, List, [], ◌∷◌, ◌++◌, append_assoc, Bytes, codes, ℤ,
  pos, if◌then◌else◌,
}
use smart_socksproxy.Clib.{decimal}
use smart_socksproxy.Json.Buffer.{joined}
use smart_socksproxy.Json.Writers.{signed_decimal}
use smart_socksproxy.Json.Tree.{
  str, num, obj, Fields, end, field, value_onto, fields_onto, more_onto,
}
use smart_socksproxy.Json.State.{only_if, each}
use smart_socksproxy.Json.Document.{fields_of}

pub joined-append :
    (xs ys : List Bytes) (rest : Bytes) → joined (xs ++ ys) rest ≡ joined xs (joined ys rest)
unfolding joined
joined-append [] ys rest = refl
joined-append (x ∷ xs) ys rest = ap (λ t. x ++ t) (joined-append xs ys rest)

-- There is a field, so that a comma comes before all of them where one does before the first.
pub record Closes (texts : List Bytes) (fs : Fields) : Type 0 where
  pub first : (rest : Bytes) → joined texts rest ≡ fields_onto fs (b'}' ∷ rest)
  pub more : (rest : Bytes) → more_onto fs rest ≡ b',' ∷ fields_onto fs rest

module _ {texts : List Bytes} {fs : Fields} (c : Closes texts fs) where
  after : (rest : Bytes) → b',' ∷ joined texts rest ≡ more_onto fs (b'}' ∷ rest)
  after rest = ap (λ t. b',' ∷ t) (c.first rest) ∙ sym (c.more (b'}' ∷ rest))

  pub string_field :
      {k s : Bytes}
      → Closes
          (codes "\"" ∷ k ∷ codes "\":\"" ∷ s ∷ codes "\"" ∷ codes "," ∷ texts)
          (field k (str s) fs)
  unfolding joined fields_onto
  string_field {k} {s} = record {
    first = λ rest. ap (λ t. b'"' ∷ (k ++ b'"' ∷ b':' ∷ b'"' ∷ (s ++ b'"' ∷ t))) (after rest);
    more = λ rest. refl;
  }

  pub number_field :
      {k : Bytes} {n : ℤ}
      → Closes
          (codes "\"" ∷ k ∷ codes "\":" ∷ signed_decimal n ∷ codes "," ∷ texts)
          (field k (num n) fs)
  unfolding joined fields_onto
  number_field {k} {n} = record {
    first = λ rest. ap (λ t. b'"' ∷ (k ++ b'"' ∷ b':' ∷ (signed_decimal n ++ t))) (after rest);
    more = λ rest. refl;
  }

  pub unsigned_field :
      {k : Bytes} {n : ℕ}
      → Closes
          (codes "\"" ∷ k ∷ codes "\":" ∷ decimal n ∷ codes "," ∷ texts)
          (field k (num (pos n)) fs)
  unfolding joined fields_onto signed_decimal
  unsigned_field {k} {n} = record {
    first = λ rest. ap (λ t. b'"' ∷ (k ++ b'"' ∷ b':' ∷ (decimal n ++ t))) (after rest);
    more = λ rest. refl;
  }

  -- The same where the key is a part of the first text.
  pub keyed_unsigned :
      {k key : Bytes} {n : ℕ}
      → key ≡ (b'"' ∷ k) ++ codes "\":"
      → Closes (key ∷ decimal n ∷ codes "," ∷ texts) (field k (num (pos n)) fs)
  unfolding joined fields_onto signed_decimal
  keyed_unsigned {k} {key} {n} e = record {
    first = λ rest.
        ap (λ t. key ++ (decimal n ++ t)) (after rest)
        ∙ ap (λ l. l ++ (decimal n ++ more_onto fs (b'}' ∷ rest))) e
        ∙ append_assoc (b'"' ∷ k) (codes "\":") _;
    more = λ rest. refl;
  }

  pub keyed_string :
      {k key s : Bytes}
      → key ≡ (b'"' ∷ k) ++ codes "\":\""
      → Closes (key ∷ s ∷ codes "\"," ∷ texts) (field k (str s) fs)
  unfolding joined fields_onto
  keyed_string {k} {key} {s} e = record {
    first = λ rest.
        ap (λ t. key ++ (s ++ b'"' ∷ t)) (after rest)
        ∙ ap (λ l. l ++ (s ++ b'"' ∷ more_onto fs (b'}' ∷ rest))) e
        ∙ append_assoc (b'"' ∷ k) (codes "\":\"") _;
    more = λ rest. refl;
  }

  pub keyed_object :
      {k key : Bytes} {gs : Fields} (inner : List Bytes)
      → key ≡ (b'"' ∷ k) ++ codes "\":{"
      → ((rest : Bytes) → joined inner rest ≡ fields_onto gs rest)
      → Closes (key ∷ (inner ++ codes "}," ∷ texts)) (field k (obj gs) fs)
  unfolding joined fields_onto
  keyed_object {k} {key} {gs} inner e h = record {
    first = λ rest.
        ap (λ t. key ++ t)
          (joined-append inner (codes "}," ∷ texts) rest
            ∙ h _
            ∙ ap (λ t. fields_onto gs (b'}' ∷ t)) (after rest))
        ∙ ap (λ l. l ++ fields_onto gs (b'}' ∷ more_onto fs (b'}' ∷ rest))) e
        ∙ append_assoc (b'"' ∷ k) (codes "\":{") _;
    more = λ rest. refl;
  }

-- The last fields.
pub last_number :
    {k key : Bytes} {n : ℤ}
    → key ≡ (b'"' ∷ k) ++ codes "\":"
    → Closes (key ∷ signed_decimal n ∷ codes "}" ∷ []) (field k (num n) end)
unfolding joined fields_onto
last_number {k} {key} {n} e = record {
  first = λ rest.
      ap (λ l. l ++ (signed_decimal n ++ b'}' ∷ rest)) e ∙ append_assoc (b'"' ∷ k) (codes "\":") _;
  more = λ rest. refl;
}

pub last_unsigned :
    {k key : Bytes} {n : ℕ}
    → key ≡ (b'"' ∷ k) ++ codes "\":"
    → Closes (key ∷ decimal n ∷ codes "}" ∷ []) (field k (num (pos n)) end)
unfolding joined fields_onto signed_decimal
last_unsigned {k} {key} {n} e = record {
  first =
      λ rest. ap (λ l. l ++ (decimal n ++ b'}' ∷ rest)) e ∙ append_assoc (b'"' ∷ k) (codes "\":") _;
  more = λ rest. refl;
}

pub last_object :
    {k key : Bytes} {gs : Fields} (inner : List Bytes)
    → key ≡ (b'"' ∷ k) ++ codes "\":{"
    → ((rest : Bytes) → joined inner rest ≡ fields_onto gs rest)
    → Closes (key ∷ (inner ++ codes "}" ∷ codes "}" ∷ [])) (field k (obj gs) end)
unfolding joined fields_onto
last_object {k} {key} {gs} inner e h = record {
  first = λ rest.
      ap (λ t. key ++ t) (joined-append inner (codes "}" ∷ codes "}" ∷ []) rest ∙ h _)
      ∙ ap (λ l. l ++ fields_onto gs (b'}' ∷ b'}' ∷ rest)) e
      ∙ append_assoc (b'"' ∷ k) (codes "\":{") _;
  more = λ rest. refl;
}

-- Texts that are written on a condition.
pub optional :
    (given : Bool) (piece : List Bytes) {texts : List Bytes} {gs fs : Fields}
    → Closes (piece ++ texts) gs
    → Closes texts fs
    → Closes (only_if given piece ++ texts) (if given then gs else fs)
optional true piece c d = c
optional false piece c d = d

-- A loop writes the fields of its items.
module _ {ℓ} {A : Type ℓ} (add : A → List Bytes) (key : A → Bytes) (value : A → Fields)
    (item : (x : A) (rest : Bytes)
      → joined (add x) rest ≡ b'"' ∷ key x ++ b'"' ∷ b':' ∷ value_onto (obj (value x)) rest) where
  each-more :
      (xs : List A) (rest : Bytes)
      → joined (each add true xs) rest ≡ more_onto (fields_of key value xs) rest
  unfolding each joined fields_of fields_onto
  each-more [] rest = refl
  each-more (x ∷ xs) rest =
      ap (λ t. b',' ∷ t)
        (joined-append (add x) (each add true xs) rest
          ∙ item x _
          ∙ ap (λ t. b'"' ∷ key x ++ b'"' ∷ b':' ∷ value_onto (obj (value x)) t)
              (each-more xs rest))

  pub each-fields :
      (xs : List A) (rest : Bytes)
      → joined (each add false xs) rest ≡ fields_onto (fields_of key value xs) rest
  unfolding each joined fields_of fields_onto
  each-fields [] rest = refl
  each-fields (x ∷ xs) rest =
      joined-append (add x) (each add true xs) rest
      ∙ item x _
      ∙ ap (λ t. b'"' ∷ key x ++ b'"' ∷ b':' ∷ value_onto (obj (value x)) t) (each-more xs rest)
