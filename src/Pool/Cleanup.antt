-- ===== src/Pool/Cleanup.antt =====
-- What the clean-up keeps, and what it frees.
use mathlib.Core.List.{reverse_aux}
use smart_socksproxy.Base.{
  ℕ, zero, suc, ◌≤◌, ◌≡◌, refl, sym, ap, ◌∙◌, inl, inr, true, false, Bool-cases, Option, none, some,
  List, [], ◌∷◌, ◌++◌, append-nil, append_assoc, length, ◌==◌, if◌then◌else◌, ℤ, arith,
}
use smart_socksproxy.Connection.{ClientConnection}
use smart_socksproxy.Pool.Memory.{Store, ok}
use smart_socksproxy.Pool.Defs.{loitered, is_at, next_of, cleanup_loop, cleanup_connections}
use smart_socksproxy.Pool.Shape.{
  Nodes, first, has, Distinct, Linked, BackLinked, Linked-reverse_aux, first-reverse_aux,
}
use smart_socksproxy.Pool.Free.{Between, Freed, open_fds, free_client_connection-Freed}

module _ {ℓ} {A : Type ℓ} (now : ℕ) where
  unfoldable pub kept : List (A × ClientConnection) → List (A × ClientConnection)
  kept [] = []
  kept ((a, con) ∷ nodes) =
      let rest = kept nodes in if loitered now con then rest else (a, con) ∷ rest

  unfoldable pub dropped : List (A × ClientConnection) → List (A × ClientConnection)
  dropped [] = []
  dropped ((a, con) ∷ nodes) =
      let rest = dropped nodes in if loitered now con then (a, con) ∷ rest else rest

abbrev pub all_fds : Nodes → List ℤ
all_fds [] = []
all_fds ((a, con) ∷ nodes) = open_fds con ++ all_fds nodes

-- The state when the nodes after `before` have been cleaned up: those kept are one list with
-- `before`, the memory of the others is freed and their descriptors are closed.
pub record Cleaned (now : ℕ) (before nodes : Nodes) (s s' : Store) (pool : Option ℕ) : Type 0 where
  pub linked : Linked s'.cells none (reverse_aux before (kept now nodes))
  pub head : pool ≡ first (reverse_aux before (kept now nodes))
  pub gone : (q : ℕ) → has q (dropped now nodes) ≡ true → s'.cells q ≡ none
  pub others : (q : ℕ) → has q before ≡ false → has q nodes ≡ false → s'.cells q ≡ s.cells q
  pub closed : s'.closed ≡ s.closed ++ all_fds (dropped now nodes)

-- The pointer behind the first node, if there is one.
abbrev next_after : Nodes → Option ℕ → Option ℕ
next_after [] next = next
next_after ((a, con) ∷ nodes) next = first nodes

next_of_lem :
    (s : Store) (prev next : Option ℕ) (nodes : Nodes)
    → Linked s.cells prev nodes
    → next_of (first nodes) next s ≡ ok (next_after nodes next) s
next_of_lem s prev next [] fwd = refl
next_of_lem s prev next ((a, con) ∷ nodes) (e, fwd) = ground arith

-- The invariant of the loop: the nodes seen, in reverse, and those to come.
record Midway (before nodes : Nodes) (s : Store) (pool : Option ℕ) : Type 0 where
  back : BackLinked s.cells (first nodes) before
  fwd : Linked s.cells (first before) nodes
  distinct_before : Distinct before
  distinct_nodes : Distinct nodes
  apart : (q : ℕ) → has q before ≡ true → has q nodes ≡ false
  pool_is : pool ≡ first (reverse_aux before nodes)

pub differ : (p q : ℕ) (nodes : Nodes) → has p nodes ≡ true → has q nodes ≡ false → (p == q) ≡ false
differ p q nodes h k = elim (Bool-cases (p == q)) [
  | inl same ↦ let e : p ≡ q = ground arith in cc (sym h ∙ ap (λ r. has r nodes) e ∙ k)
  | inr other ↦ other
]

-- The head of the list once the node behind `before` has left it.
head_without :
    (before nodes : Nodes) (a : ℕ) (con : ClientConnection) (pool : Option ℕ)
    → has a before ≡ false
    → pool ≡ first (reverse_aux before ((a, con) ∷ nodes))
    → (if is_at pool a then first nodes else pool) ≡ first (reverse_aux before nodes)
head_without [] nodes a con pool h e = rw e (ground arith)
head_without ((b, conb) ∷ before) nodes a con pool h e =
    let (z, is_in, head) = first-reverse_aux before b conb in
    rw (e, head ((a, con) ∷ nodes), head nodes, differ z a ((b, conb) ∷ before) is_in h) refl

module _ (before nodes : Nodes) (s : Store) (a : ℕ) (con : ClientConnection) (pool : Option ℕ)
    (m : Midway before ((a, con) ∷ nodes) s pool) where
  not_before : has a before ≡ false
  not_before = elim (Bool-cases (has a before)) [
    | inl is_in ↦ absurd (ground (arith, m.apart a is_in))
    | inr out ↦ out
  ]

  away : (q : ℕ) → (q == a) ≡ true → has q nodes ≡ false
  away q same = let e : q ≡ a = ground arith in rw e m.distinct_nodes.0

  passed : Midway ((a, con) ∷ before) nodes s pool
  passed = record {
    back = (m.fwd.0, m.back);
    fwd = m.fwd.1;
    distinct_before = (not_before, m.distinct_before);
    distinct_nodes = m.distinct_nodes.1;
    apart = λ q h. ground (arith, m.apart q, m.distinct_nodes.0, away q);
    pool_is = m.pool_is;
  }

  between : Between s.cells a con before nodes
  between = record {
    here = m.fwd.0;
    back = m.back;
    fwd = m.fwd.1;
    not_before = not_before;
    not_rest = m.distinct_nodes.0;
    apart = λ q h. ground (arith, m.apart q);
  }

  freed :
      (s' : Store)
      → Freed s s' a con before nodes
      → Midway before nodes s' (if is_at pool a then first nodes else pool)
  freed s' f = record {
    back = f.back;
    fwd = f.fwd;
    distinct_before = m.distinct_before;
    distinct_nodes = m.distinct_nodes.1;
    apart = between.apart;
    pool_is = head_without before nodes a con pool between.not_before m.pool_is;
  }

  module _ (now : ℕ) (s' : Store) (pool' : Option ℕ) where
    passed-Cleaned :
        loitered now con ≡ false
        → Cleaned now ((a, con) ∷ before) nodes s s' pool'
        → Cleaned now before ((a, con) ∷ nodes) s s' pool'
    unfolding kept dropped
    passed-Cleaned new c = record {
      linked = rw new c.linked;
      head = rw new c.head;
      gone = λ q h. c.gone q (ground arith);
      others = λ q h k. c.others q (ground arith) (ground arith);
      closed = rw new c.closed;
    }

    Freed-Cleaned :
        (s1 : Store)
        → loitered now con ≡ true
        → Freed s s1 a con before nodes
        → Cleaned now before nodes s1 s' pool'
        → Cleaned now before ((a, con) ∷ nodes) s s' pool'
    unfolding kept dropped
    Freed-Cleaned s1 old f c = record {
      linked = rw old c.linked;
      head = rw old c.head;
      gone = λ q h. elim (Bool-cases (q == a)) [
        | inl same ↦
            let e : q ≡ a = ground arith in rw e (c.others a not_before m.distinct_nodes.0 ∙ f.gone)
        | inr other ↦ c.gone q (ground arith)
      ];
      others = λ q h k. c.others q h (ground arith) ∙ f.others q (ground arith) h (ground arith);
      closed = rw old (
          c.closed
          ∙ ap (λ l. l ++ all_fds (dropped now nodes)) f.closed
          ∙ append_assoc s.closed (open_fds con) (all_fds (dropped now nodes)));
    }

cleanup_loop-Cleaned :
    (fuel now : ℕ) (before nodes : Nodes) (s : Store) (next pool : Option ℕ)
    → Midway before nodes s pool
    → length nodes ≤ fuel
    → (pool' : Option ℕ) × (s' : Store) × (cleanup_loop fuel now
          (first nodes)
          (next_after nodes next)
          pool
          s
        ≡ ok pool' s')
      × Cleaned now before nodes s s' pool'
unfolding cleanup_loop kept dropped
cleanup_loop-Cleaned fuel now before [] s next pool m h = (
  pool,
  s,
  refl,
  record {
    linked = Linked-reverse_aux s.cells before [] m.back tt;
    head = m.pool_is;
    gone = λ q k. cc;
    others = λ q k l. refl;
    closed = sym (append-nil s.closed);
  },
)
cleanup_loop-Cleaned zero now before ((a, con) ∷ nodes) s next pool m h = absurd (omega arith)
cleanup_loop-Cleaned (suc fuel) now before ((a, con) ∷ nodes) s next pool m h =
    elim (Bool-cases (loitered now con)) [
      | inl old ↦
          let (s1, freeing, f) =
            free_client_connection-Freed s a con before nodes (between before nodes s a con pool m)
              m.distinct_before m.distinct_nodes.1 in
          let (pool', s', run, c) =
            cleanup_loop-Cleaned fuel now before nodes s1 (first nodes)
              (if is_at pool a then first nodes else pool) (freed before nodes s a con pool m s1 f)
              (omega arith) in
          (
            pool',
            s',
            ground (
              arith,
              m.fwd,
              old,
              freeing,
              next_of_lem s1 (first before) (first nodes) nodes f.fwd,
              run,
            ),
            Freed-Cleaned before nodes s a con pool m now s' pool' s1 old f c,
          )
      | inr new ↦
          let (pool', s', run, c) =
            cleanup_loop-Cleaned fuel now ((a, con) ∷ before) nodes s (first nodes) pool
              (passed before nodes s a con pool m) (omega arith) in
          (
            pool',
            s',
            ground (arith, m.fwd, new, next_of_lem s (some a) (first nodes) nodes m.fwd.1, run),
            passed-Cleaned before nodes s a con pool m now s' pool' new c,
          )
    ]

-- On a list of distinct nodes that memory holds, `cleanup_connections` touches no other memory and
-- ends: what is left, in its order, are the connections whose thread has not ended or ended at most
-- four seconds ago, linked in both directions behind the pointer returned; the memory of the others
-- is freed and their open descriptors, and no others, are closed.
pub cleanup_connections-Cleaned :
    (fuel now : ℕ) (nodes : Nodes) (s : Store)
    → Linked s.cells none nodes
    → Distinct nodes
    → length nodes ≤ fuel
    → (pool : Option ℕ) × (s' : Store) × (cleanup_connections fuel now (first nodes) s ≡ ok pool s')
      × Cleaned now [] nodes s s' pool
unfolding cleanup_connections
cleanup_connections-Cleaned fuel now nodes s fwd d h =
    let (pool, s', run, c) = cleanup_loop-Cleaned fuel now [] nodes s none (first nodes) start h in
    (pool, s', ground (arith, next_of_lem s none none nodes fwd, run), c)
  where
    start : Midway [] nodes s (first nodes)
    start = record {
      back = tt;
      fwd = fwd;
      distinct_before = tt;
      distinct_nodes = d;
      apart = λ q k. cc;
      pool_is = refl;
    }
