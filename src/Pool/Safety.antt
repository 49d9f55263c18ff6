-- ===== src/Pool/Safety.antt =====
-- However the main loop and the threads take turns, no command touches memory that was freed, and
-- the list in memory is the one that the same operations give on plain lists.
use smart_socksproxy.Base.{
  ℕ, suc, ◌+◌, ◌≤◌, ◌≡◌, refl, sym, ap, ◌∙◌, inl, inr, true, false, ◌||◌, Bool-cases, Option, none,
  some, List, [], ◌∷◌, length, ◌==◌, arith,
}
use smart_socksproxy.Connection.{ClientConnection}
use smart_socksproxy.Pool.Memory.{Cell, cell, Cells, Store, ok, write}
use smart_socksproxy.Pool.Defs.{loitered}
use smart_socksproxy.Pool.Shape.{Nodes, first, has, Distinct, Linked, Linked-frame}
use smart_socksproxy.Pool.Cleanup.{kept, differ, cleanup_connections-Cleaned}
use smart_socksproxy.Pool.Insert.{insert_client_connection-Inserted}
use smart_socksproxy.Pool.Schedule.{
  Op, accepted, worked, cleaned, run_op, run_ops, edit, abstract_op, abstract_ops, alive, mem,
  without, threads_after, IsEnabled, IsSchedule,
}

-- Memory holds the list, each node at an address of its own.
pub record Represents (s : Store) (head : Option ℕ) (nodes : Nodes) : Type 0 where
  pub linked : Linked s.cells none nodes
  pub distinct : Distinct nodes
  pub head_is : head ≡ first nodes

-- Each thread that runs has its connection in the list.
abbrev pub AllAlive : List ℕ → Nodes → Type 0
AllAlive threads nodes = (q : ℕ) → mem q threads ≡ true → alive q nodes ≡ true

has-kept : (now q : ℕ) (nodes : Nodes) → has q nodes ≡ false → has q (kept now nodes) ≡ false
unfolding kept
has-kept now q [] h = refl
has-kept now q ((a, con) ∷ nodes) h = ground (arith, has-kept now q nodes)

kept-Distinct : (now : ℕ) (nodes : Nodes) → Distinct nodes → Distinct (kept now nodes)
unfolding kept
kept-Distinct now [] d = tt
kept-Distinct now ((a, con) ∷ nodes) (h, d) = elim (Bool-cases (loitered now con)) [
  | inl old ↦ rw old (kept-Distinct now nodes d)
  | inr new ↦ rw new (has-kept now a nodes h, kept-Distinct now nodes d)
]

alive-kept : (now q : ℕ) (nodes : Nodes) → alive q nodes ≡ true → alive q (kept now nodes) ≡ true
unfolding kept alive
alive-kept now q [] h = h
alive-kept now q ((a, con) ∷ nodes) h = ground (arith, alive-kept now q nodes)

module _ (q : ℕ) (change : ClientConnection → ClientConnection) where
  has-edit : (r : ℕ) (nodes : Nodes) → has r (edit q change nodes) ≡ has r nodes
  unfolding edit
  has-edit r [] = refl
  has-edit r ((a, con) ∷ nodes) = ap (λ b. (r == a) || b) (has-edit r nodes)

  first-edit : (nodes : Nodes) → first (edit q change nodes) ≡ first nodes
  unfolding edit
  first-edit [] = refl
  first-edit ((a, con) ∷ nodes) = refl

  edit-Distinct : (nodes : Nodes) → Distinct nodes → Distinct (edit q change nodes)
  unfolding edit
  edit-Distinct [] d = tt
  edit-Distinct ((a, con) ∷ nodes) (h, d) = (has-edit a nodes ∙ h, edit-Distinct nodes d)

  alive-edit :
      (r : ℕ) (nodes : Nodes) → (r == q) ≡ false → alive r (edit q change nodes) ≡ alive r nodes
  unfolding edit alive
  alive-edit r [] ne = refl
  alive-edit r ((a, con) ∷ nodes) ne = ground (arith, alive-edit r nodes)

  edit_absent : (nodes : Nodes) → has q nodes ≡ false → edit q change nodes ≡ nodes
  unfolding edit
  edit_absent [] h = refl
  edit_absent ((a, con) ∷ nodes) h = ground (arith, edit_absent nodes)

alive→has : (q : ℕ) (nodes : Nodes) → alive q nodes ≡ true → has q nodes ≡ true
unfolding alive
alive→has q [] h = h
alive→has q ((a, con) ∷ nodes) h = ground (arith, alive→has q nodes)

mem-without :
    (q a : ℕ) (list : List ℕ)
    → mem q (without a list) ≡ true
    → (mem q list ≡ true) × ((q == a) ≡ false)
mem-without q a [] h = absurd (ground arith)
mem-without q a (b ∷ list) h = elim (Bool-cases (a == b)) [
  | inl same ↦ let (is_in, ne) = mem-without q a list (ground arith) in (ground arith, ne)
  | inr other ↦ elim (Bool-cases (q == b)) [
    | inl here ↦ (ground arith, ground arith)
    | inr later ↦ let (is_in, ne) = mem-without q a list (ground arith) in (ground arith, ne)
  ]
]

-- A change of one record in memory is that change in the list.
Linked-edit :
    (cells : Cells) (a : ℕ) (change : ClientConnection → ClientConnection) (nodes : Nodes)
    (prev : Option ℕ)
    → has a nodes ≡ true
    → Distinct nodes
    → Linked cells prev nodes
    → (c : Cell) × (cells a ≡ some c)
      × Linked (write cells a (some (record c { con = change c.con }))) prev (edit a change nodes)
unfolding edit
Linked-edit cells a change [] prev h d fwd = cc
Linked-edit cells a change ((b, con) ∷ nodes) prev h (out, d) (e, fwd) =
    elim (Bool-cases (a == b)) [
      | inl same ↦
          let at : a ≡ b = ground arith in
          (
            cell con prev (first nodes),
            ap cells at ∙ e,
            (
              ground (arith, e, first-edit a change nodes),
              rw (edit_absent a change nodes (ap (λ r. has r nodes) at ∙ out)) (
                  Linked-frame cells _ (some b) nodes
                    (λ r k. ground (arith, differ r b nodes k out)) fwd),
            ),
          )
      | inr other ↦
          let (c, e', fwd') = Linked-edit cells a change nodes (some b) (ground arith) d fwd in
          (c, e', (ground (arith, e, first-edit a change nodes), fwd'))
    ]

threads_after-AllAlive :
    (op : Op) (nodes : Nodes) (threads : List ℕ)
    → IsEnabled op nodes threads
    → AllAlive threads nodes
    → AllAlive (threads_after op nodes threads) (abstract_op op nodes)
unfolding threads_after abstract_op
threads_after-AllAlive (accepted a con) nodes threads en live q h =
    elim (Bool-cases (mem q threads)) [
      | inl old ↦
          let ne = differ q a nodes (alive→has q nodes (live q old)) en in
          ground (arith, ne, live q old)
      | inr new ↦ ground arith
    ]
threads_after-AllAlive (worked a change) nodes threads en live q h =
    elim (Bool-cases (alive a (edit a change nodes))) [
      | inl runs ↦ elim (Bool-cases (q == a)) [
        | inl same ↦ let e : q ≡ a = ground arith in rw e runs
        | inr other ↦ alive-edit a change q nodes other ∙ live q (ground arith)
      ]
      | inr ended ↦
          let (is_in, ne) = mem-without q a threads (ground arith) in
          alive-edit a change q nodes ne ∙ live q is_in
    ]
threads_after-AllAlive (cleaned now) nodes threads en live q h = alive-kept now q nodes (live q h)

length-kept : (now : ℕ) (nodes : Nodes) → length (kept now nodes) ≤ length nodes
unfolding kept
length-kept now [] = omega arith
length-kept now ((a, con) ∷ nodes) = ground (arith, length-kept now nodes)

length-edit :
    (a : ℕ) (change : ClientConnection → ClientConnection) (nodes : Nodes)
    → length (edit a change nodes) ≡ length nodes
unfolding edit
length-edit a change [] = refl
length-edit a change (n ∷ nodes) = ap suc (length-edit a change nodes)

length-abstract_op : (op : Op) (nodes : Nodes) → length (abstract_op op nodes) ≤ suc (length nodes)
unfolding abstract_op
length-abstract_op (accepted a con) nodes = omega arith
length-abstract_op (worked a change) nodes = omega (arith, length-edit a change nodes)
length-abstract_op (cleaned now) nodes = omega (arith, length-kept now nodes)

run_op-Represents :
    (fuel : ℕ) (op : Op) (nodes : Nodes) (threads : List ℕ) (s : Store) (head : Option ℕ)
    → IsEnabled op nodes threads
    → AllAlive threads nodes
    → length nodes ≤ fuel
    → Represents s head nodes
    → (head' : Option ℕ) × (s' : Store) × (run_op fuel op head s ≡ ok head' s')
      × Represents s' head' (abstract_op op nodes)
unfolding run_op abstract_op
run_op-Represents fuel (accepted a con) nodes threads s head en live h r =
    let (s', run, i) =
      insert_client_connection-Inserted placed a con none none nodes (ground arith) en
        (Linked-frame s.cells placed.cells none nodes (λ q k. ground (arith, differ q a nodes k en))
          r.linked)
        r.distinct in
    (
      some a,
      s',
      rw r.head_is run,
      record { linked = i.linked; distinct = (en, r.distinct); head_is = refl },
    )
  where
    placed : Store
    placed = record s { cells = write s.cells a (some (cell con none none)) }
run_op-Represents fuel (worked a change) nodes threads s head en live h r =
    let (c, e, fwd) =
      Linked-edit s.cells a change nodes none (alive→has a nodes (live a en)) r.distinct r.linked in
    (
      head,
      record s { cells = write s.cells a (some (record c { con = change c.con })) },
      ground arith,
      record {
        linked = fwd;
        distinct = edit-Distinct a change nodes r.distinct;
        head_is = r.head_is ∙ sym (first-edit a change nodes);
      },
    )
run_op-Represents fuel (cleaned now) nodes threads s head en live h r =
    let (pool, s', run, c) = cleanup_connections-Cleaned fuel now nodes s r.linked r.distinct h in
    (
      pool,
      s',
      rw r.head_is run,
      record { linked = c.linked; distinct = kept-Distinct now nodes r.distinct; head_is = c.head },
    )

-- From a list that memory represents, with a thread only for connections in the list, in whatever
-- order connections are accepted, threads that run change their records and the main loop cleans
-- up: every operation ends and touches allocated memory only, and behind them memory represents the
-- list that they give on plain lists.
pub run_ops-Represents :
    (fuel : ℕ) (ops : List Op) (nodes : Nodes) (threads : List ℕ) (s : Store) (head : Option ℕ)
    → IsSchedule ops nodes threads
    → AllAlive threads nodes
    → length nodes + length ops ≤ fuel
    → Represents s head nodes
    → (head' : Option ℕ) × (s' : Store) × (run_ops fuel ops head s ≡ ok head' s')
      × Represents s' head' (abstract_ops ops nodes)
unfolding run_ops abstract_ops
run_ops-Represents fuel [] nodes threads s head sched live h r = (head, s, refl, r)
run_ops-Represents fuel (op ∷ ops) nodes threads s head (en, sched) live h r =
    let (head1, s1, run1, r1) =
      run_op-Represents fuel op nodes threads s head en live (omega arith) r in
    let (head', s', run, r') =
      run_ops-Represents fuel ops (abstract_op op nodes) (threads_after op nodes threads) s1 head1
        sched (threads_after-AllAlive op nodes threads en live)
        (omega (arith, length-abstract_op op nodes)) r1 in
    (head', s', rw run1 run, r')
