-- ===== src/Pool/Free.antt =====
-- A node is taken out of its list and freed: what becomes of the memory.
use smart_socksproxy.Base.{
  ℕ, ◌≡◌, ◌≢◌, refl, true, false, Option, none, some, List, [], ◌∷◌, ◌++◌, append-nil, append_assoc,
  ℤ, pos, negsuc, arith,
}
use smart_socksproxy.Connection.{ClientConnection}
use smart_socksproxy.Pool.Memory.{cell, Cells, Store, ok, write, close_open}
use smart_socksproxy.Pool.Defs.{remove_client_connection, close_and_free, free_client_connection}
use smart_socksproxy.Pool.Shape.{
  Nodes, first, has, Distinct, Linked, BackLinked, Linked-frame, BackLinked-frame,
}

relink_rest : Cells → Nodes → Option ℕ → Cells
relink_rest cells [] prev = cells
relink_rest cells ((b, con) ∷ rest) prev = write cells b (some (cell con prev (first rest)))

relink_before : Cells → Nodes → Option ℕ → Cells
relink_before cells [] next = cells
relink_before cells ((b, con) ∷ before) next = write cells b (some (cell con (first before) next))

-- Memory with the neighbours of `a` linked to each other.
bypassed : Cells → Nodes → Nodes → Cells
bypassed cells before rest =
    relink_before (relink_rest cells rest (first before)) before (first rest)

-- A node between others, and none of these at its address or at another's.
pub record Between (cells : Cells) (a : ℕ) (con : ClientConnection) (before rest : Nodes)
    : Type 0 where
  pub here : cells a ≡ some (cell con (first before) (first rest))
  pub back : BackLinked cells (some a) before
  pub fwd : Linked cells (some a) rest
  pub not_before : has a before ≡ false
  pub not_rest : has a rest ≡ false
  pub apart : (q : ℕ) → has q before ≡ true → has q rest ≡ false

module _ (s : Store) (a : ℕ) (con : ClientConnection) where
  remove-bypassed :
      (before rest : Nodes)
      → Between s.cells a con before rest
      → remove_client_connection a s
        ≡ ok tt (record s {
          cells =
              write
                (write (bypassed s.cells before rest) a (some (cell con (first before) none)))
                a
                (some (cell con none none));
        })
  unfolding remove_client_connection bypassed relink_rest relink_before
  remove-bypassed [] [] b = ground (arith, b.here)
  remove-bypassed [] ((n, cn) ∷ rest) b = ground (arith, b.here, b.fwd, b.not_rest)
  remove-bypassed ((p, cp) ∷ before) [] b = ground (arith, b.here, b.back, b.not_before)
  remove-bypassed ((p, cp) ∷ before) ((n, cn) ∷ rest) b =
      ground (arith, b.here, b.back, b.fwd, b.not_before, b.not_rest, b.apart n, b.apart p)

bypassed-other :
    (cells : Cells) (before rest : Nodes) (q : ℕ)
    → has q before ≡ false
    → has q rest ≡ false
    → bypassed cells before rest q ≡ cells q
unfolding bypassed relink_rest relink_before
bypassed-other cells [] [] q h k = refl
bypassed-other cells [] ((n, cn) ∷ rest) q h k = ground arith
bypassed-other cells ((p, cp) ∷ before) [] q h k = ground arith
bypassed-other cells ((p, cp) ∷ before) ((n, cn) ∷ rest) q h k = ground arith

bypassed-Linked :
    (cells : Cells) (before rest : Nodes) (prev : Option ℕ)
    → Linked cells prev rest
    → Distinct rest
    → ((q : ℕ) → has q before ≡ true → has q rest ≡ false)
    → Linked (bypassed cells before rest) (first before) rest
unfolding bypassed relink_rest relink_before
bypassed-Linked cells before [] prev fwd d apart = tt
bypassed-Linked cells [] ((n, cn) ∷ rest) prev (e, fwd) d apart =
    (ground arith, Linked-frame cells _ (some n) rest (λ q h. ground arith) fwd)
bypassed-Linked cells ((p, cp) ∷ before) ((n, cn) ∷ rest) prev (e, fwd) d apart = (
  ground (arith, apart p),
  Linked-frame cells _ (some n) rest (λ q h. ground (arith, apart p)) fwd,
)

bypassed-BackLinked :
    (cells : Cells) (before rest : Nodes) (next : Option ℕ)
    → BackLinked cells next before
    → Distinct before
    → ((q : ℕ) → has q before ≡ true → has q rest ≡ false)
    → BackLinked (bypassed cells before rest) (first rest) before
unfolding bypassed relink_rest relink_before
bypassed-BackLinked cells [] rest next back d apart = tt
bypassed-BackLinked cells ((p, cp) ∷ before) [] next (e, back) d apart =
    (ground arith, BackLinked-frame cells _ (some p) before (λ q h. ground arith) back)
bypassed-BackLinked cells ((p, cp) ∷ before) ((n, cn) ∷ rest) next (e, back) d apart =
    (ground arith, BackLinked-frame cells _ (some p) before (λ q h. ground (arith, apart q)) back)

-- The descriptors that are closed.
abbrev pub open_fd : ℤ → List ℤ
open_fd (pos n) = pos n ∷ []
open_fd (negsuc n) = []

abbrev pub open_fds : ClientConnection → List ℤ
open_fds con = open_fd con.fd_in ++ open_fd con.fd_out

close_open_fd :
    (fd : ℤ) (s : Store) → close_open fd s ≡ ok tt (record s { closed = s.closed ++ open_fd fd })
close_open_fd (pos n) s = refl
close_open_fd (negsuc n) s = rw (append-nil s.closed) refl

-- The state once `a` is freed.
pub record Freed (s s' : Store) (a : ℕ) (con : ClientConnection) (before rest : Nodes)
    : Type 0 where
  pub back : BackLinked s'.cells (first rest) before
  pub fwd : Linked s'.cells (first before) rest
  pub gone : s'.cells a ≡ none
  pub others : (q : ℕ) → q ≢ a → has q before ≡ false → has q rest ≡ false → s'.cells q ≡ s.cells q
  pub closed : s'.closed ≡ s.closed ++ open_fds con

close_and_free_lem :
    (s : Store) (a : ℕ) (con : ClientConnection)
    → s.cells a ≡ some (cell con none none)
    → close_and_free a s
      ≡ ok tt (record {
        cells = write s.cells a none;
        closed = (s.closed ++ open_fd con.fd_in) ++ open_fd con.fd_out;
      })
unfolding close_and_free
close_and_free_lem s a con e = ground (
  arith,
  close_open_fd con.fd_in s,
  close_open_fd con.fd_out (record s { closed = s.closed ++ open_fd con.fd_in }),
)

pub free_client_connection-Freed :
    (s : Store) (a : ℕ) (con : ClientConnection) (before rest : Nodes)
    → Between s.cells a con before rest
    → Distinct before
    → Distinct rest
    → (s' : Store) × (free_client_connection a s ≡ ok tt s') × Freed s s' a con before rest
unfolding free_client_connection
free_client_connection-Freed s a con before rest b db dr = (
  record { cells = ended; closed = (s.closed ++ open_fd con.fd_in) ++ open_fd con.fd_out },
  rw (remove-bypassed s a con before rest b) (close_and_free_lem _ a con (ground arith)),
  record {
    back =
        BackLinked-frame (bypassed s.cells before rest) ended (first rest) before
          (λ q h. ground (arith, b.not_before))
          (bypassed-BackLinked s.cells before rest (some a) b.back db b.apart);
    fwd =
        Linked-frame (bypassed s.cells before rest) ended (first before) rest
          (λ q h. ground (arith, b.not_rest))
          (bypassed-Linked s.cells before rest (some a) b.fwd dr b.apart);
    gone = ground arith;
    others = λ q ne h k. ground (arith, bypassed-other s.cells before rest q h k);
    closed = append_assoc s.closed (open_fd con.fd_in) (open_fd con.fd_out);
  },
)
  where
    ended : Cells
    ended =
        write
          (write (write (bypassed s.cells before rest) a (some (cell con (first before) none))) a
            (some (cell con none none)))
          a none
