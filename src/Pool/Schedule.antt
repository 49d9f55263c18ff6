-- ===== src/Pool/Schedule.antt =====
-- The main loop and the threads on one list of connections: accepted connections, steps of threads
-- on their own records, and clean-ups, in any order.
use smart_socksproxy.Base.{
  ℕ, ◌≡◌, Bool, true, false, not, ◌||◌, Option, none, some, List, [], ◌∷◌, ◌==◌, if◌then◌else◌,
}
use smart_socksproxy.Connection.{ClientConnection}
use smart_socksproxy.Pool.Memory.{cell, ok, M, ◌>>=◌, ◌>>◌, load, put}
use smart_socksproxy.Pool.Defs.{insert_client_connection, cleanup_connections}
use smart_socksproxy.Pool.Shape.{Nodes, has}
use smart_socksproxy.Pool.Cleanup.{kept}

-- `accepted a con`: the main loop accepts a connection, for which `malloc` gives the address `a`.
-- `worked a change`: the thread of the connection at `a` changes its record.
-- `cleaned now`: the main loop cleans up.
pub data Op : Type 0 where
  accepted : ℕ → ClientConnection → Op
  worked : ℕ → (ClientConnection → ClientConnection) → Op
  cleaned : ℕ → Op

-- The operation in memory, and the head of the list behind it.
unfoldable pub run_op : ℕ → Op → Option ℕ → M (Option ℕ)
run_op fuel (accepted a con) head = do
  put a (some (cell con none none))
  insert_client_connection head a
run_op fuel (worked a change) head = do
  c ← load a
  put a (some (record c { con = change c.con }))
  ok head
run_op fuel (cleaned now) head = cleanup_connections fuel now head

unfoldable pub run_ops : ℕ → List Op → Option ℕ → M (Option ℕ)
run_ops fuel [] head = ok head
run_ops fuel (op ∷ ops) head = do head' ← run_op fuel op head; run_ops fuel ops head'

-- The same on plain lists.
unfoldable pub edit : ℕ → (ClientConnection → ClientConnection) → Nodes → Nodes
edit q change [] = []
edit q change ((a, con) ∷ nodes) = (a, if q == a then change con else con) ∷ edit q change nodes

unfoldable pub abstract_op : Op → Nodes → Nodes
abstract_op (accepted a con) nodes = (a, con) ∷ nodes
abstract_op (worked a change) nodes = edit a change nodes
abstract_op (cleaned now) nodes = kept now nodes

unfoldable pub abstract_ops : List Op → Nodes → Nodes
abstract_ops [] nodes = nodes
abstract_ops (op ∷ ops) nodes = abstract_ops ops (abstract_op op nodes)

-- A node whose thread has not ended.
unfoldable pub alive : ℕ → Nodes → Bool
alive q [] = false
alive q ((a, con) ∷ nodes) =
    let rest = alive q nodes in if q == a then not con.thread_has_exited else rest

abbrev pub mem : ℕ → List ℕ → Bool
mem q [] = false
mem q (a ∷ list) = (q == a) || mem q list

abbrev pub without : ℕ → List ℕ → List ℕ
without q [] = []
without q (a ∷ list) = let rest = without q list in if q == a then rest else a ∷ rest

-- The threads that run: one starts with its connection, unless the record says that it could not be
-- started, and it ends by the mark that it sets.
unfoldable pub threads_after : Op → Nodes → List ℕ → List ℕ
unfolding alive edit
threads_after (accepted a con) nodes threads =
    if con.thread_has_exited then threads else a ∷ threads
threads_after (worked a change) nodes threads =
    if alive a (edit a change nodes) then threads else without a threads
threads_after (cleaned now) nodes threads = threads

-- `malloc` gives memory that is not in use, and only a thread that runs changes its record.
abbrev pub IsEnabled : Op → Nodes → List ℕ → Type 0
IsEnabled (accepted a con) nodes threads = has a nodes ≡ false
IsEnabled (worked a change) nodes threads = mem a threads ≡ true
IsEnabled (cleaned now) nodes threads = Unit {0}

abbrev pub IsSchedule : List Op → Nodes → List ℕ → Type 0
IsSchedule [] nodes threads = Unit {0}
IsSchedule (op ∷ ops) nodes threads =
    IsEnabled op nodes threads
    × IsSchedule ops (abstract_op op nodes) (threads_after op nodes threads)
