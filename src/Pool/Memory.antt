-- ===== src/Pool/Memory.antt =====
-- Memory that holds connections: cells by their addresses, and commands that read and write them.
use smart_socksproxy.Base.{
  ℕ, Option, none, some, List, [], ◌∷◌, ◌++◌, ◌==◌, if◌then◌else◌, ℤ, pos, negsuc,
}
use smart_socksproxy.Connection.{ClientConnection}

-- A connection with its links; `none` is NULL.
pub record Cell : Type 0 where
  pub con : ClientConnection
  pub prev : Option ℕ
  pub next : Option ℕ

abbrev pub cell : ClientConnection → Option ℕ → Option ℕ → Cell
cell con prev next = record { con = con; prev = prev; next = next }

abbrev pub Cells : Type 0
Cells = ℕ → Option Cell

-- `closed` lists the descriptors that were closed.
pub record Store : Type 0 where
  pub cells : Cells
  pub closed : List ℤ

-- A fault is an access to memory that holds no connection.
pub data Run (A : Type 0) : Type 0 where
  ok : A → Store → Run A
  fault : Run A
  out_of_fuel : Run A

abbrev pub M : Type 0 → Type 0
M A = Store → Run A

module _ {A B : Type 0} where
  abbrev pub and_then : Run A → (A → M B) → Run B
  and_then (ok a s) f = f a s
  and_then fault f = fault
  and_then out_of_fuel f = out_of_fuel

  infixl 5 ◌>>=◌ ◌>>◌
  abbrev pub ◌>>=◌ : M A → (A → M B) → M B
  (m >>= f) s = and_then (m s) f

  abbrev pub ◌>>◌ : M A → M B → M B
  m >> k = m >>= λ _. k

abbrev pub write : Cells → ℕ → Option Cell → Cells
write cells a content q = if q == a then content else cells q

abbrev pub load : ℕ → M Cell
load a s = elim (s.cells a) [ none ↦ fault | some c ↦ ok c s ]

abbrev pub put : ℕ → Option Cell → M (Unit {0})
put a content s = ok tt (record s { cells = write s.cells a content })

-- `if (fd > -1) close(fd)`
abbrev pub close_open : ℤ → M (Unit {0})
close_open (pos n) s = ok tt (record s { closed = s.closed ++ pos n ∷ [] })
close_open (negsuc n) s = ok tt s
