-- ===== src/Pool/Insert.antt =====
-- A new connection becomes the head of its list.
use smart_socksproxy.Base.{ℕ, ◌≡◌, ◌≢◌, refl, false, Option, none, some, [], ◌∷◌, arith}
use smart_socksproxy.Connection.{ClientConnection}
use smart_socksproxy.Pool.Memory.{cell, Cells, Store, ok, write}
use smart_socksproxy.Pool.Defs.{insert_client_connection}
use smart_socksproxy.Pool.Shape.{Nodes, first, has, Distinct, Linked, Linked-frame}

pub record Inserted (s s' : Store) (a : ℕ) (con : ClientConnection) (nodes : Nodes) : Type 0 where
  pub linked : Linked s'.cells none ((a, con) ∷ nodes)
  pub others : (q : ℕ) → q ≢ a → has q nodes ≡ false → s'.cells q ≡ s.cells q
  pub closed : s'.closed ≡ s.closed

pub insert_client_connection-Inserted :
    (s : Store) (a : ℕ) (con : ClientConnection) (prev next : Option ℕ) (nodes : Nodes)
    → s.cells a ≡ some (cell con prev next)
    → has a nodes ≡ false
    → Linked s.cells none nodes
    → Distinct nodes
    → (s' : Store) × (insert_client_connection (first nodes) a s ≡ ok (some a) s')
      × Inserted s s' a con nodes
unfolding insert_client_connection
insert_client_connection-Inserted s a con prev next [] e out fwd d = (
  record s {
    cells = write (write s.cells a (some (cell con prev none))) a (some (cell con none none));
  },
  ground arith,
  record { linked = (ground arith, tt); others = λ q ne h. ground arith; closed = refl },
)
insert_client_connection-Inserted s a con prev next ((b, conb) ∷ nodes) e out (eb, fwd) d = (
  record s { cells = linked },
  ground arith,
  record {
    linked = (
      ground arith,
      (ground arith, Linked-frame s.cells linked (some b) nodes (λ q h. ground arith) fwd),
    );
    others = λ q ne h. ground arith;
    closed = refl;
  },
)
  where
    linked : Cells
    linked =
        write
          (write (write s.cells a (some (cell con prev (some b)))) a
            (some (cell con none (some b))))
          b (some (cell conb (some a) (first nodes)))
