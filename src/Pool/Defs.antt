-- ===== src/Pool/Defs.antt =====
-- `insert_client_connection`, `remove_client_connection`, `free_client_connection` and
-- `cleanup_connections`. `close` succeeds.
use smart_socksproxy.Base.{
  ℕ, zero, suc, ◌+◌, Bool, false, ◌&&◌, Option, none, some, ltb, ◌==◌, if◌then◌else◌,
}
use smart_socksproxy.Connection.{ClientConnection}
use smart_socksproxy.Pool.Memory.{ok, out_of_fuel, M, ◌>>=◌, ◌>>◌, load, put, close_open}

set_prev : ℕ → Option ℕ → M (Unit {0})
set_prev a prev = do c ← load a; put a (some (record c { prev = prev }))

set_next : ℕ → Option ℕ → M (Unit {0})
set_next a next = do c ← load a; put a (some (record c { next = next }))

-- `if (p != NULL) p->prev = …` and the same for `next`.
abbrev if_not_null : Option ℕ → (ℕ → M (Unit {0})) → M (Unit {0})
if_not_null none f = ok tt
if_not_null (some a) f = f a

-- The new head.
unfoldable pub insert_client_connection : Option ℕ → ℕ → M (Option ℕ)
unfolding set_prev set_next
insert_client_connection head a = do
  set_next a head
  set_prev a none
  if_not_null head (λ h. set_prev h (some a))
  ok (some a)

unfoldable pub remove_client_connection : ℕ → M (Unit {0})
unfolding set_prev set_next
remove_client_connection a = do
  c ← load a
  if_not_null c.next (λ n. set_prev n c.prev)
  c' ← load a
  if_not_null c'.prev (λ p. set_next p c'.next)
  set_next a none
  set_prev a none

unfoldable pub close_and_free : ℕ → M (Unit {0})
close_and_free a = do c ← load a; close_open c.con.fd_in; close_open c.con.fd_out; put a none

unfoldable pub free_client_connection : ℕ → M (Unit {0})
free_client_connection a = do remove_client_connection a; close_and_free a

-- A thread that has ended is kept for four seconds more.
abbrev pub loitered : ℕ → ClientConnection → Bool
loitered now con = con.thread_has_exited && ltb (con.end_time + 4) now

-- `pool == cur`
abbrev pub is_at : Option ℕ → ℕ → Bool
is_at none a = false
is_at (some b) a = b == a

-- `cur->next` where `cur` is not NULL, and else what `next` was.
abbrev pub next_of : Option ℕ → Option ℕ → M (Option ℕ)
next_of none next = ok next
next_of (some a) next = do c ← load a; ok c.next

-- The loop over `cur`, `next` and `pool`. Each round looks at one connection.
unfoldable pub cleanup_loop : ℕ → ℕ → Option ℕ → Option ℕ → Option ℕ → M (Option ℕ)
cleanup_loop fuel now none next pool = ok pool
cleanup_loop zero now (some a) next pool = λ s. out_of_fuel
cleanup_loop (suc fuel) now (some a) next pool = do
  c ← load a
  pool' ←
      (if loitered now c.con
        then free_client_connection a >> ok (if is_at pool a then next else pool)
        else ok pool)
  next' ← next_of next next
  cleanup_loop fuel now next next' pool'

unfoldable pub cleanup_connections : ℕ → ℕ → Option ℕ → M (Option ℕ)
unfolding cleanup_loop
cleanup_connections fuel now pool = do
  next ← next_of pool none
  cleanup_loop fuel now pool next pool
