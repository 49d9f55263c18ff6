-- ===== src/Base.antt =====
-- Names that all modules share: the libraries', and those of the children.
mod Tests
mod Lists
mod Int
mod Words
pub mod Bits
pub use Tests.{
  ltb, leb, ◌==◌, if◌then◌else◌, leb→le, ==_iff, Bool-cases, Option-cases, if-all, option-all,
  is_some, passes_at,
}
unfoldable pub use Tests.{passes_all}
pub use Lists.{
  Bytes, codes, length, take, drop, length-append, length-take, length-drop, take-append-drop,
  take_all, drop_all, All, str_eq_iff,
}
unfoldable pub use Lists.{str_eq}
pub use Int.*
pub use Words.*
pub use Prim.Native.Nat.{
  ℕ, zero, suc, ◌+◌, ◌-◌, ◌*◌, ◌/◌, ◌%◌, ◌^◌, ◌≤◌, ◌<◌, bit_and, bit_or, bit_xor,
}
pub use mathlib.Core.Path.{◌≡◌, refl, sym, ap, subst, ◌∙◌, ◌≡⟨◌⟩◌, ◌∎}
pub use mathlib.Core.Logic.{◌≢◌, ◌↔◌, ◌⊎◌, inl, inr}
pub use mathlib.Core.Bool.{Bool, true, false, not, ◌&&◌, ◌||◌}
pub use mathlib.Core.Option.{Option, none, some}
pub use mathlib.Core.List.{List, [], ◌∷◌, ◌++◌, map, append-nil, append_assoc}
pub use native.Mathlib.Omega.{arith}
