-- ===== src/Socks/State.antt =====
-- The state of a thread that speaks SOCKS on one descriptor, and the steps that stop at the first
-- call that falls short.
use smart_socksproxy.Base.{
  ℕ, zero, suc, Bool, true, false, Option, none, some, List, [], ◌∷◌, Bytes, length, if◌then◌else◌,
}
use smart_socksproxy.Io.{Event, Slot, Rc, count, error, eq_count, sb_read_len, sb_write_len}
use smart_socksproxy.Connection.{ClientConnection}

-- One descriptor: what its reads and writes will meet, and what was sent.
pub record Peer : Type 0 where
  pub input : List Event
  pub slots : List Slot
  pub sent : Bytes

-- `failure_type` is a local variable of the handler, with no value until one is assigned.
pub record Session : Type 0 where
  pub con : ClientConnection
  pub peer : Peer
  pub failure_type : Option ℕ

abbrev pub M : Type 0 → Type 0
M A = Session → Option A × Session

abbrev pub ok : {A : Type 0} → A → M A
ok a s = (some a, s)

-- The `return` of an error.
abbrev pub fail : {A : Type 0} → M A
fail s = (none, s)

abbrev pub next : {A B : Type 0} → Option A × Session → (A → M B) → Option B × Session
next (none, s) f = (none, s)
next (some a, s) f = f a s

infixl 5 ◌>>=◌ ◌>>◌
abbrev pub ◌>>=◌ : {A B : Type 0} → M A → (A → M B) → M B
◌>>=◌ m f s = next (m s) f

abbrev pub ◌>>◌ : {B : Type 0} → M (Unit {0}) → M B → M B
m >> k = m >>= λ _. k

abbrev pub guard : Bool → M (Unit {0})
guard true = ok tt
guard false = fail

abbrev pub modify : (Session → Session) → M (Unit {0})
modify f s = (some tt, f s)

-- `buf[i]`
abbrev pub at : Bytes → ℕ → ℕ
at [] i = 0
at (b ∷ bs) zero = b
at (b ∷ bs) (suc i) = at bs i

abbrev pub with_input : Session → List Event → Session
with_input s i = record s { peer = record s.peer { input = i } }

-- `rc=sb_read_len(fd,buf,n); if (rc != n) return …`
unfoldable pub receive : ℕ → M Bytes
receive n s =
    let r = sb_read_len n [] s.peer.input in
    (if eq_count r.rc n then some r.buf else none, with_input s r.rest)

-- `rc=sb_write_len(fd,buf,n)`, and the session that it leaves.
unfoldable pub send : Bytes → Session → Rc × Session
send buf s =
    let w = sb_write_len 0 buf s.peer.sent s.peer.slots in
    (w.rc, record s { peer = record s.peer { sent = w.out; slots = w.slots } })

-- `if (rc != n) return …`
unfoldable pub transmit : Bytes → M (Unit {0})
unfolding send
transmit buf s =
    let (rc, s') = send buf s in (if eq_count rc (length buf) then some tt else none, s')

abbrev pub is_error : Rc → Bool
is_error (count n) = false
is_error (error e) = true

-- `if (rc < 0) return …`
unfoldable pub transmit_unless_error : Bytes → M (Unit {0})
unfolding send
transmit_unless_error buf s =
    let (rc, s') = send buf s in (if is_error rc then none else some tt, s')
