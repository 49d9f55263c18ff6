-- ===== src/Json/Tree.antt =====
-- JSON values and their text.
use smart_socksproxy.Base.{Bool, ◌∷◌, ◌++◌, Bytes, ℤ, if◌then◌else◌}
use smart_socksproxy.Json.Writers.{signed_decimal}

mutual
  pub data Value : Type 0 where
    str : Bytes → Value
    num : ℤ → Value
    obj : Fields → Value

  pub data Fields : Type 0 where
    end : Fields
    field : Bytes → Value → Fields → Fields

-- The text of a value in front of `rest`. A text in it is written as it is, without escapes.
unfoldable mutual
  pub value_onto : Value → Bytes → Bytes
  value_onto (str s) rest = b'"' ∷ s ++ b'"' ∷ rest
  value_onto (num n) rest = signed_decimal n ++ rest
  value_onto (obj fs) rest = b'{' ∷ fields_onto fs (b'}' ∷ rest)

  -- Fields with a comma between two of them.
  pub fields_onto : Fields → Bytes → Bytes
  fields_onto end rest = rest
  fields_onto (field k v fs) rest = b'"' ∷ k ++ b'"' ∷ b':' ∷ value_onto v (more_onto fs rest)

  pub more_onto : Fields → Bytes → Bytes
  more_onto end rest = rest
  more_onto (field k v fs) rest = b',' ∷ b'"' ∷ k ++ b'"' ∷ b':' ∷ value_onto v (more_onto fs rest)

abbrev pub when : Bool → Bytes → Value → Fields → Fields
when given k v fs = if given then field k v fs else fs
