-- ===== src/Config/Ordering.antt =====
-- The files of a directory of rules are read in the order of their names.
use mathlib.Core.List.{Perm}
use mathlib.Core.List.Perm
use smart_socksproxy.Base.{
  ℕ, zero, suc, ◌≤◌, ◌<◌, ◌≡◌, ◌==◌, ==_iff, ltb, take_all, refl, ap, inl, inr, Bool, true, false,
  Bool-cases, Option, some, List, [], ◌∷◌, Bytes, All, length, arith,
}
use smart_socksproxy.Config.ProxyEntries.{
  is_behind, lowest, sorted, file_list, most_files, route_files, route_dir,
}
use smart_socksproxy.Config.RuleFile.{Source}
use smart_socksproxy.Config.Sections.{Config}
use smart_socksproxy.Config.Sound.{All-weaken}
use smart_socksproxy.Proxy.{ProxyInstance}

-- A name is a beginning of another, or has the lower byte in the first place where they differ.
pub data IsUpTo : Bytes → Bytes → Type 0 where
  beginning : {b : Bytes} → IsUpTo [] b
  lower : {x y : ℕ} {a b : Bytes} → x < y → IsUpTo (x ∷ a) (y ∷ b)
  same_byte : {x y : ℕ} {a b : Bytes} → x ≡ y → IsUpTo a b → IsUpTo (x ∷ a) (y ∷ b)

-- The entries of a directory, with the names of its files.
pub data Holds : List (Bytes × Bool) → List Bytes → Type 0 where
  nothing : Holds [] []
  a_file :
      {name : Bytes} {entries : List (Bytes × Bool)} {names : List Bytes}
      → length name ≤ 4095
      → Holds entries names
      → Holds ((name, true) ∷ entries) (name ∷ names)
  no_file :
      {name : Bytes} {entries : List (Bytes × Bool)} {names : List Bytes}
      → Holds entries names
      → Holds ((name, false) ∷ entries) names

-- A name that `strcmp` does not put behind another.
abbrev NotBehind : Bytes → Bytes → Type 0
NotBehind a b = is_behind a b ≡ false

-- No name stands in front of a lower one.
abbrev pub IsInOrder : List Bytes → Type 0
IsInOrder [] = Unit
IsInOrder (a ∷ names) = All (IsUpTo a) names × IsInOrder names

NotBehind-IsUpTo : (a b : Bytes) → NotBehind a b → IsUpTo a b
unfolding is_behind
NotBehind-IsUpTo [] b h = beginning
NotBehind-IsUpTo (x ∷ a) [] h = absurd (ground (arith, h))
NotBehind-IsUpTo (x ∷ a) (y ∷ b) h = elim (Bool-cases (x == y)) [
  | inl equal ↦ same_byte ((==_iff x y).0 equal) (NotBehind-IsUpTo a b (ground (arith, h, equal)))
  | inr different ↦ lower (ground (arith, h, different))
]

not_behind_itself : (a : Bytes) → NotBehind a a
unfolding is_behind
not_behind_itself [] = refl
not_behind_itself (x ∷ a) = ground (arith, not_behind_itself a)

behind-NotBehind : (a b : Bytes) → is_behind a b ≡ true → NotBehind b a
unfolding is_behind
behind-NotBehind [] b h = absurd (ground (arith, h))
behind-NotBehind (x ∷ a) [] h = refl
behind-NotBehind (x ∷ a) (y ∷ b) h = elim (Bool-cases (is_behind a b)) [
  | inl behind ↦ ground (arith, h, behind-NotBehind a b behind)
  | inr not ↦ ground (arith, h, not)
]

not_behind_trans : (a b c : Bytes) → NotBehind a b → NotBehind b c → NotBehind a c
unfolding is_behind
not_behind_trans [] b c h k = refl
not_behind_trans (x ∷ a) [] c h k = absurd (ground (arith, h))
not_behind_trans (x ∷ a) (y ∷ b) [] h k = absurd (ground (arith, k))
not_behind_trans (x ∷ a) (y ∷ b) (z ∷ c) h k = elim (Bool-cases (is_behind a b)) [
  | inl behind ↦ ground (arith, h, k)
  | inr not ↦ elim (Bool-cases (is_behind b c)) [
    | inl behind ↦ ground (arith, h, k)
    | inr not' ↦ ground (arith, h, k, not_behind_trans a b c not not')
  ]
]

-- What the inner loop finds: the lowest name and the others.
record Found (low : Bytes) (rest : List Bytes) (found : Bytes × List Bytes) : Type 0 where
  same_names : Perm (found.0 ∷ found.1) (low ∷ rest)
  first : NotBehind found.0 low
  others : All (NotBehind found.0) found.1
  count : length found.1 ≡ length rest

lowest-Found : (low : Bytes) (rest : List Bytes) → Found low rest (lowest low rest)
unfolding lowest
lowest-Found low [] = record {
  same_names = Perm.rfl;
  first = not_behind_itself low;
  others = tt;
  count = refl;
}
lowest-Found low (name ∷ rest) = elim (Bool-cases (is_behind low name)) [
  | inl behind ↦
      let f = lowest-Found name rest in
      let below = not_behind_trans _ name low f.first (behind-NotBehind low name behind) in
      rw behind (record {
        same_names = Perm.trans (Perm.swap low _ _) (Perm.cons low f.same_names);
        first = below;
        others = (below, f.others);
        count = ap suc f.count;
      })
  | inr not ↦
      let f = lowest-Found low rest in
      rw not (record {
        same_names =
            Perm.trans (Perm.swap name _ _)
              (Perm.trans (Perm.cons name f.same_names) (Perm.swap low name rest));
        first = f.first;
        others = (not_behind_trans _ low name f.first not, f.others);
        count = ap suc f.count;
      })
]

lowest-all :
    (P : Bytes → Type 0) (low : Bytes) (rest : List Bytes)
    → P low
    → All P rest
    → P (lowest low rest).0 × All P (lowest low rest).1
unfolding lowest
lowest-all P low [] p all = (p, tt)
lowest-all P low (name ∷ rest) p (q, all) = elim (Bool-cases (is_behind low name)) [
  | inl behind ↦ let (a, b) = lowest-all P name rest q all in rw behind (a, (p, b))
  | inr not ↦ let (a, b) = lowest-all P low rest p all in rw not (a, (q, b))
]

sorted-all :
    (P : Bytes → Type 0) (n : ℕ) (names : List Bytes) → All P names → All P (sorted n names)
unfolding sorted
sorted-all P zero names all = tt
sorted-all P (suc n) [] all = tt
sorted-all P (suc n) (low ∷ rest) (p, all) =
    let (a, b) = lowest-all P low rest p all in (a, sorted-all P n (lowest low rest).1 b)

-- As many rounds of the selection as there are names leave the same names in order.
sorted-IsInOrder :
    (n : ℕ) (names : List Bytes)
    → length names ≤ n
    → Perm (sorted n names) names × IsInOrder (sorted n names)
unfolding sorted
sorted-IsInOrder zero [] h = (Perm.rfl, tt)
sorted-IsInOrder zero (low ∷ rest) h = absurd (omega arith)
sorted-IsInOrder (suc n) [] h = (Perm.rfl, tt)
sorted-IsInOrder (suc n) (low ∷ rest) h =
    let f = lowest-Found low rest in
    let others = (lowest low rest).1 in
    let (same, order) = sorted-IsInOrder n others (ground (arith, f.count)) in
    (
      Perm.trans (Perm.cons _ same) f.same_names,
      (
        sorted-all (IsUpTo (lowest low rest).0) n others (
            All-weaken (NotBehind (lowest low rest).0) (IsUpTo (lowest low rest).0) others
              (NotBehind-IsUpTo (lowest low rest).0) f.others),
        order,
      ),
    )

file_list-Holds :
    {entries : List (Bytes × Bool)} {files : List Bytes}
    → Holds entries files
    → file_list entries ≡ files
unfolding file_list
file_list-Holds nothing = refl
file_list-Holds (a_file {name = name} fits holds) =
    rw (take_all 4095 name fits) (ap (λ l. name ∷ l) (file_list-Holds holds))
file_list-Holds (no_file holds) = file_list-Holds holds

-- The files of a directory that can be opened, 200 at most and with names of at most 4095
-- characters, are read one after another, each as often as the directory lists it, in an order in
-- which each name, up to the first byte where it differs from one behind it, is a beginning of that
-- or has the lower byte. What is no file is left out.
pub route_dir-IsInOrder :
    (source : Source) (directory : Bytes → Option (List (Bytes × Bool))) (dir : Bytes)
    (entries : List (Bytes × Bool)) (files : List Bytes) (proxy : ProxyInstance) (c : Config)
    → directory dir ≡ some entries
    → Holds entries files
    → length files ≤ 200
    → (names : List Bytes) × Perm names files
      × IsInOrder names
      × (route_dir source directory dir proxy c ≡ route_files source directory dir names proxy c)
unfolding route_dir
route_dir-IsInOrder source directory dir entries files proxy c e holds few =
    let (same, order) = sorted-IsInOrder (length files) files (omega arith) in
    let fits : ltb most_files (length files) ≡ false = ground (arith, few) in
    (sorted (length files) files, same, order, rw (route_dir, e, file_list-Holds holds, fits) refl)
