-- ===== src/Shuttle/Defs.antt =====
-- `shuttle`, `shuttle_data_back_and_forth` and `shuttle_null_connection`. The bits of `revents` that
-- the code looks at are Booleans; what `poll` answers is a list, one item for each turn.
use smart_socksproxy.Base.{
  ℕ, zero, suc, ◌+◌, Bool, true, false, not, ◌&&◌, ◌||◌, Option, none, some, List, [], ◌∷◌, Bytes,
  codes, if◌then◌else◌, ℤ, pos, negsuc,
}
use smart_socksproxy.Io.{Event, Rc, count, error, sb_read, sb_read_len, sb_write_len}
use smart_socksproxy.Connection.{ClientConnection, set_client_connection_status}
use smart_socksproxy.Socks.{Peer}

-- The connection, its two descriptors `fd_in` and `fd_out`, and the marks of the loop.
pub record State : Type 0 where
  pub con : ClientConnection
  pub inner : Peer
  pub outer : Peer
  pub in_can_write : Bool
  pub out_can_write : Bool

-- What one call of `shuttle` leaves, with its return value.
pub record Moved : Type 0 where
  pub rc : Rc
  pub con : ClientConnection
  pub source : Peer
  pub target : Peer

-- POLLRDNORM, POLLHUP and POLLERR or POLLNVAL of the two descriptors.
pub record Ready : Type 0 where
  pub in_readable : Bool
  pub in_hung_up : Bool
  pub in_error : Bool
  pub out_readable : Bool
  pub out_hung_up : Bool
  pub out_error : Bool

-- `poll` once it is not interrupted.
pub data Poll : Type 0 where
  poll_failed : Poll
  polled : Ready → Poll

-- The loop goes on, or the function returns 1 or 0.
pub data Outcome : Type 0 where
  running : State → Outcome
  returned : Bool → State → Outcome

-- `continue_loop` stays 0.
abbrev pub stays_closed : Outcome → Outcome
stays_closed (running s) = returned true s
stays_closed (returned b s) = returned b s

-- `strerror` is the C library's.
module _ (strerror : ℕ → Bytes) where
  abbrev pub read_failed : ℕ → ClientConnection → ClientConnection
  read_failed errno con =
      set_client_connection_status con errno (some (codes "Error")) (some (strerror errno))

  abbrev pub written : Bytes → ℤ → ClientConnection → Peer → Peer → ℕ → Moved
  written buf (negsuc n) con source target got = record {
    rc = count got;
    con = con;
    source = source;
    target = target;
  }
  written buf (pos n) con source target got =
      let w = sb_write_len 0 buf target.sent target.slots in
      record {
        rc = w.rc;
        con = con;
        source = source;
        target = record target { sent = w.out; slots = w.slots };
      }

  -- `fd_write` is below 0 where nothing can be written: the data are drained. The zero behind the
  -- bytes is left out; after a read of 10000 bytes it is the byte past the end of `buf`.
  unfoldable pub shuttle : ℤ → ClientConnection → Peer → Peer → Moved
  shuttle fd_write con source target =
      let r = sb_read 10000 source.input in
      let source' = record source { input = r.rest } in
      elim r.rc [
        | error e ↦ record {
          rc = error e;
          con = read_failed e con;
          source = source';
          target = target;
        }
        | count zero ↦ record { rc = count 0; con = con; source = source'; target = target }
        | count (suc n) ↦ written r.buf fd_write con source' target (suc n)
      ]

  -- What the loop makes of a return value: an error returns 0, the end of the data closes the
  -- descriptor and ends the loop, and bytes are counted.
  abbrev pub after_forward : Moved → State → Outcome
  after_forward m s =
      let s' = record s { con = m.con; inner = m.source; outer = m.target } in
      elim m.rc [
        | error e ↦ returned false s'
        | count zero ↦ returned true (record s' { con = record m.con { fd_in = negsuc 0 } })
        | count (suc n) ↦
            running (record s' { con = record m.con { bytes_tx = m.con.bytes_tx + suc n } })
      ]

  abbrev pub after_backward : Moved → State → Outcome
  after_backward m s =
      let s' = record s { con = m.con; outer = m.source; inner = m.target } in
      elim m.rc [
        | error e ↦ returned false s'
        | count zero ↦ returned true (record s' { con = record m.con { fd_out = negsuc 0 } })
        | count (suc n) ↦
            running (record s' { con = record m.con { bytes_rx = m.con.bytes_rx + suc n } })
      ]

  -- From `fd_in` to `fd_out`. `returned true` is `continue_loop=0`.
  unfoldable pub forward : State → Outcome
  forward s =
      after_forward
        (shuttle (if s.out_can_write then s.con.fd_out else negsuc 0) s.con s.inner s.outer) s

  unfoldable pub backward : State → Outcome
  backward s =
      after_backward
        (shuttle (if s.in_can_write then s.con.fd_in else negsuc 0) s.con s.outer s.inner) s

  -- The second half of a turn runs after the first has closed `fd_in`, too, and both decide whether
  -- the loop goes on.
  abbrev pub then_backward : Bool → Outcome → Outcome
  then_backward readable (returned false s) = returned false s
  then_backward readable (running s) = if readable then backward s else running s
  then_backward readable (returned true s) =
      if readable then stays_closed (backward s) else returned true s

  -- A side that has hung up and has nothing to read ends the loop.
  abbrev pub idle : Ready → Outcome → Outcome
  idle r (returned b s) = returned b s
  idle r (running s) =
      if (s.in_can_write || r.in_readable) && (s.out_can_write || r.out_readable)
      then running s
      else returned true s

  -- One turn of the loop.
  unfoldable pub turn : Poll → State → Outcome
  turn poll_failed s = returned false s
  turn (polled r) s =
      let s' = record s {
        in_can_write = s.in_can_write && not r.in_hung_up;
        out_can_write = s.out_can_write && not r.out_hung_up;
      } in
      if r.in_error || r.out_error
      then returned false s'
      else idle r (then_backward r.out_readable (if r.in_readable then forward s' else running s'))

  -- The loop, over what `poll` answers.
  unfoldable pub shuttle_on : List Poll → Outcome → Outcome
  shuttle_on [] o = o
  shuttle_on (p ∷ ps) (returned b s) = returned b s
  shuttle_on (p ∷ ps) (running s) = shuttle_on ps (turn p s)

  unfoldable pub shuttle_data_back_and_forth : List Poll → ClientConnection → Peer → Peer → Outcome
  shuttle_data_back_and_forth polls con inner outer = shuttle_on polls (
      running (record {
        con = con;
        inner = inner;
        outer = outer;
        in_can_write = true;
        out_can_write = true;
      }))

  -- Bytes are read one by one, counted and dropped; `fuel` bounds their number. The errno at the end
  -- of the data is what an earlier call left.
  unfoldable pub shuttle_null_connection :
      ℕ → ℕ → ClientConnection → List Event → Option Bool × ClientConnection
  shuttle_null_connection zero errno con es = (none, con)
  shuttle_null_connection (suc fuel) errno con es =
      let r = sb_read_len 1 [] es in
      let more =
        shuttle_null_connection fuel errno (record con { bytes_rx = con.bytes_rx + 1 }) r.rest in
      elim r.rc [
        | error e ↦ (some false, read_failed e con)
        | count zero ↦ (some true, read_failed errno con)
        | count (suc n) ↦ more
      ]
