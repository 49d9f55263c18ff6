-- ===== src/Pool/Shape.antt =====
-- What a list in memory stands for: connections with their addresses, in order.
use mathlib.Core.List.{reverse_aux}
use smart_socksproxy.Base.{
  ℕ, ◌≡◌, refl, ◌∙◌, Bool, true, false, ◌||◌, Option, none, some, List, [], ◌∷◌, ◌==◌, arith,
}
use smart_socksproxy.Connection.{ClientConnection}
use smart_socksproxy.Pool.Memory.{cell, Cells}

abbrev pub Nodes : Type 0
Nodes = List (ℕ × ClientConnection)

-- A pointer to the first node.
abbrev pub first : Nodes → Option ℕ
first [] = none
first ((a, con) ∷ nodes) = some a

abbrev pub has : ℕ → Nodes → Bool
has q [] = false
has q ((a, con) ∷ nodes) = (q == a) || has q nodes

abbrev pub Distinct : Nodes → Type 0
Distinct [] = Unit {0}
Distinct ((a, con) ∷ nodes) = (has a nodes ≡ false) × Distinct nodes

-- The nodes lie in memory, each linked to the next and to the one before it, the first to `prev`.
abbrev pub Linked : Cells → Option ℕ → Nodes → Type 0
Linked cells prev [] = Unit {0}
Linked cells prev ((a, con) ∷ nodes) =
    (cells a ≡ some (cell con prev (first nodes))) × Linked cells (some a) nodes

-- The same for nodes in reverse order, the first of which is linked on to `next`.
abbrev pub BackLinked : Cells → Option ℕ → Nodes → Type 0
BackLinked cells next [] = Unit {0}
BackLinked cells next ((a, con) ∷ nodes) =
    (cells a ≡ some (cell con (first nodes) next)) × BackLinked cells (some a) nodes

pub Linked-reverse_aux :
    (cells : Cells) (before nodes : Nodes)
    → BackLinked cells (first nodes) before
    → Linked cells (first before) nodes
    → Linked cells none (reverse_aux before nodes)
Linked-reverse_aux cells [] nodes back fwd = fwd
Linked-reverse_aux cells ((a, con) ∷ before) nodes (e, back) fwd =
    Linked-reverse_aux cells before ((a, con) ∷ nodes) back (e, fwd)

-- Links survive any change elsewhere.
pub Linked-frame :
    (cells cells' : Cells) (prev : Option ℕ) (nodes : Nodes)
    → ((q : ℕ) → has q nodes ≡ true → cells' q ≡ cells q)
    → Linked cells prev nodes
    → Linked cells' prev nodes
Linked-frame cells cells' prev [] same fwd = tt
Linked-frame cells cells' prev ((a, con) ∷ nodes) same (e, fwd) = (
  same a (ground arith) ∙ e,
  Linked-frame cells cells' (some a) nodes (λ q h. same q (ground arith)) fwd,
)

pub BackLinked-frame :
    (cells cells' : Cells) (next : Option ℕ) (nodes : Nodes)
    → ((q : ℕ) → has q nodes ≡ true → cells' q ≡ cells q)
    → BackLinked cells next nodes
    → BackLinked cells' next nodes
BackLinked-frame cells cells' next [] same back = tt
BackLinked-frame cells cells' next ((a, con) ∷ nodes) same (e, back) = (
  same a (ground arith) ∙ e,
  BackLinked-frame cells cells' (some a) nodes (λ q h. same q (ground arith)) back,
)

-- The head of the whole list is a node of the front part, if there is one.
pub first-reverse_aux :
    (before : Nodes) (a : ℕ) (con : ClientConnection)
    → (b : ℕ) × (has b ((a, con) ∷ before) ≡ true)
      × ((nodes : Nodes) → first (reverse_aux ((a, con) ∷ before) nodes) ≡ some b)
first-reverse_aux [] a con = (a, ground arith, λ nodes. refl)
first-reverse_aux ((a', con') ∷ before) a con =
    let (b, h, e) = first-reverse_aux before a' con' in
    (b, ground arith, λ nodes. e ((a, con) ∷ nodes))
