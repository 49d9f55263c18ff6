-- ===== src/Shuttle/Loop.antt =====
-- The loop as a whole.
use smart_socksproxy.Base.{
  ℕ, ◌≡◌, refl, sym, Bool, true, false, not, ◌&&◌, ◌||◌, List, [], ◌∷◌, append-nil, Bytes, All,
  Bool-cases, inl, inr, if◌then◌else◌, pos, arith,
}
use smart_socksproxy.Io.{IsClean, IsOpen}
use smart_socksproxy.Connection.{ClientConnection}
use smart_socksproxy.Socks.{Peer}
use smart_socksproxy.Shuttle.Defs.{
  State, Ready, Poll, poll_failed, polled, Outcome, running, returned, forward, backward,
  then_backward, stays_closed, idle, turn, shuttle_on, shuttle_data_back_and_forth,
}
use smart_socksproxy.Shuttle.Relay.{
  Relays, Writable, Relayed, Carried, Relays-refl, Relayed-trans, forward-Carried, backward-Relayed,
}

-- The other side does not hang up.
abbrev pub StaysUp : Poll → Type 0
StaysUp poll_failed = Unit
StaysUp (polled r) = r.out_hung_up ≡ false

-- The state in which the loop stands or has ended.
abbrev pub state : Outcome → State
state (running s) = s
state (returned b s) = s

-- The state in which the loop begins.
abbrev pub start : ClientConnection → Peer → Peer → State
start con inner outer = record {
  con = con;
  inner = inner;
  outer = outer;
  in_can_write = true;
  out_can_write = true;
}

-- The marks at the beginning of a turn.
abbrev marked : Ready → State → State
marked r s = record s {
  in_can_write = s.in_can_write && not r.in_hung_up;
  out_can_write = s.out_can_write && not r.out_hung_up;
}

module _ (strerror : ℕ → Bytes) where
  closed-Relayed : (s : State) (o : Outcome) → Relayed s o → Relayed s (stays_closed o)
  closed-Relayed s (running t) a = a.0
  closed-Relayed s (returned b t) a = a

  in_part-Carried :
      (s : State) (readable : Bool)
      → Writable s
      → Carried s (if readable then forward strerror s else running s)
  in_part-Carried s true w = forward-Carried strerror s w
  in_part-Carried s false w = (Relays-refl s w, w)

  then_backward-Relayed :
      (s : State) (readable : Bool) (o : Outcome)
      → Carried s o
      → Relayed s (then_backward strerror readable o)
  then_backward-Relayed s readable (returned false t) a = a
  then_backward-Relayed s true (running t) (a, w) =
      Relayed-trans (backward strerror t) a (backward-Relayed strerror t w)
  then_backward-Relayed s false (running t) a = a
  then_backward-Relayed s true (returned true t) (a, w) =
      closed-Relayed s (backward strerror t)
        (Relayed-trans (backward strerror t) a (backward-Relayed strerror t w))
  then_backward-Relayed s false (returned true t) (a, w) = a

  idle-Relayed : (s : State) (r : Ready) (o : Outcome) → Relayed s o → Relayed s (idle strerror r o)
  idle-Relayed s r (returned b t) a = a
  idle-Relayed s r (running t) a =
      elim (Bool-cases ((t.in_can_write || r.in_readable) && (t.out_can_write || r.out_readable))) [
        | inl on ↦ rw on a
        | inr off ↦ rw off a.0
      ]

  marked-Writable :
      (r : Ready) (s : State) → r.out_hung_up ≡ false → Writable s → Writable (marked r s)
  marked-Writable r s up w = record {
    clean = w.clean;
    open_slots = w.open_slots;
    can_write = rw (w.can_write, up);
    fd = w.fd;
    is_open = w.is_open;
  }

  marked-Relays : (r : Ready) (s : State) → Writable s → Relays s (marked r s)
  marked-Relays r s w = record {
    moved = [];
    sent = sym (append-nil s.outer.sent);
    read = refl;
    counted = omega arith;
    clean = w.clean;
    open_slots = w.open_slots;
  }

  turn-Relayed : (p : Poll) (s : State) → StaysUp p → Writable s → Relayed s (turn strerror p s)
  unfolding turn
  turn-Relayed poll_failed s up w = Relays-refl s w
  turn-Relayed (polled r) s up w = elim (Bool-cases (r.in_error || r.out_error)) [
    | inl bad ↦ rw bad (marked-Relays r s w)
    | inr good ↦ rw good (
        Relayed-trans _ (marked-Relays r s w) (
          idle-Relayed (marked r s) r _ (
            then_backward-Relayed (marked r s) r.out_readable _
              (in_part-Carried (marked r s) r.in_readable (marked-Writable r s up w)))))
  ]

  shuttle_on-Relayed :
      (s : State) (ps : List Poll) (o : Outcome)
      → All StaysUp ps
      → Relayed s o
      → Relayed s (shuttle_on strerror ps o)
  unfolding shuttle_on
  shuttle_on-Relayed s [] o up a = a
  shuttle_on-Relayed s (p ∷ ps) (returned b t) up a = a
  shuttle_on-Relayed s (p ∷ ps) (running t) up (a, w) =
      shuttle_on-Relayed s ps (turn strerror p t) up.1
        (Relayed-trans (turn strerror p t) a (turn-Relayed p t up.0 w))

  Relayed-Relays : (s : State) (o : Outcome) → Relayed s o → Relays s (state o)
  Relayed-Relays s (running t) a = a.0
  Relayed-Relays s (returned b t) a = a

  -- As long as reads on `fd_in` fail by interruption only, `fd_out` is open and takes what it is given
  -- and the other side does not hang up, the loop relays: at each
  -- moment and however the turns fall, the bytes read on `fd_in` are sent on `fd_out` in their order,
  -- none twice and none left out, and `bytes_tx` counts them.
  pub shuttle_data_back_and_forth-Relays :
      (polls : List Poll) (con : ClientConnection) (inner outer : Peer) (fd : ℕ)
      → All StaysUp polls
      → IsClean inner.input
      → IsOpen outer.slots
      → con.fd_out ≡ pos fd
      → Relays
          (start con inner outer)
          (state (shuttle_data_back_and_forth strerror polls con inner outer))
  unfolding shuttle_data_back_and_forth
  shuttle_data_back_and_forth-Relays polls con inner outer fd up c o is =
      let w : Writable (start con inner outer) = record {
        clean = c;
        open_slots = o;
        can_write = refl;
        fd = fd;
        is_open = is;
      } in
      Relayed-Relays (start con inner outer) _ (
        shuttle_on-Relayed (start con inner outer) polls (running (start con inner outer)) up
          (Relays-refl (start con inner outer) w, w))
