-- ===== src/Shuttle/Relay.antt =====
-- What the client has sent reaches the other side.
use smart_socksproxy.Base.{
  ℕ, zero, suc, ◌+◌, ◌<◌, ◌≡◌, refl, sym, ap, subst, ◌∙◌, ◌⊎◌, inl, inr, true, false, List, [], ◌∷◌,
  ◌++◌, append_assoc, append-nil, Bytes, length, take, drop, length-append, length-take,
  take-append-drop, ◌==◌, if◌then◌else◌, ℤ, pos, negsuc, arith,
}
use smart_socksproxy.Io.{
  Event, chunk, failed, Rc, count, error, eintr, Reply, sb_read, stream, IsClean, stream-put_back,
  put_back-IsClean, IsOpen, sb_write_len-Sends,
}
use smart_socksproxy.Connection.{ClientConnection, set_client_connection_status}
use smart_socksproxy.Socks.{Peer}
use smart_socksproxy.Shuttle.Defs.{
  State, Moved, Outcome, running, returned, shuttle, written, forward, backward, after_forward,
  after_backward,
}

-- A call that took some bytes, at least one if there is one, and left the others.
pub record Takes (r : Reply) (es : List Event) : Type 0 where
  pub rc : r.rc ≡ count (length r.buf)
  pub whole : stream es ≡ r.buf ++ stream r.rest
  pub clean : IsClean r.rest
  pub some_bytes : (0 < length r.buf) ⊎ (stream es ≡ [])

sb_read-Takes : (n : ℕ) (es : List Event) → 0 < n → IsClean es → Takes (sb_read n es) es
unfolding sb_read
sb_read-Takes n [] h c = record { rc = refl; whole = refl; clean = tt; some_bytes = inr refl }
sb_read-Takes n (chunk bs ∷ es) h c = record {
  rc = ap count (sym (length-take n bs));
  whole =
      ap (λ l. l ++ stream es) (sym (take-append-drop n bs))
      ∙ append_assoc (take n bs) (drop n bs) (stream es)
      ∙ ap (λ l. take n bs ++ l) (sym (stream-put_back (drop n bs) es));
  clean = put_back-IsClean (drop n bs) es c.1;
  some_bytes = inl (omega (arith, length-take n bs, c.0));
}
sb_read-Takes n (failed e ∷ es) h c =
    let interrupted : (e == eintr) ≡ true = ground arith in
    let t = sb_read-Takes n es h c.1 in
    rw (interrupted, sb_read)
      (record { rc = t.rc; whole = t.whole; clean = t.clean; some_bytes = t.some_bytes })

Rc-cases :
    (rc : Rc) → ((e : ℕ) × (rc ≡ error e)) ⊎ (rc ≡ count 0) ⊎ ((n : ℕ) × (rc ≡ count (suc n)))
Rc-cases (error e) = inl (e, refl)
Rc-cases (count zero) = inr (inl refl)
Rc-cases (count (suc n)) = inr (inr (n, refl))

-- From `s` on, what was read on `fd_in` was sent on `fd_out`, in order and counted.
pub record Relays (s s' : State) : Type 0 where
  pub moved : Bytes
  pub sent : s'.outer.sent ≡ s.outer.sent ++ moved
  pub read : stream s.inner.input ≡ moved ++ stream s'.inner.input
  pub counted : s'.con.bytes_tx ≡ s.con.bytes_tx + length moved
  pub clean : IsClean s'.inner.input
  pub open_slots : IsOpen s'.outer.slots

-- `fd_in` delivers its bytes, and `fd_out` takes what it is given.
pub record Writable (s : State) : Type 0 where
  pub clean : IsClean s.inner.input
  pub open_slots : IsOpen s.outer.slots
  pub can_write : s.out_can_write ≡ true
  pub fd : ℕ
  pub is_open : s.con.fd_out ≡ pos fd

abbrev pub Relayed : State → Outcome → Type 0
Relayed s (running s') = Relays s s' × Writable s'
Relayed s (returned b s') = Relays s s'

-- The same of `forward`: where it closes `fd_in`, `fd_out` still takes what it is given.
abbrev pub Carried : State → Outcome → Type 0
Carried s (running s') = Relays s s' × Writable s'
Carried s (returned true s') = Relays s s' × Writable s'
Carried s (returned false s') = Relays s s'

pub Relays-refl : (s : State) → Writable s → Relays s s
Relays-refl s w = record {
  moved = [];
  sent = sym (append-nil s.outer.sent);
  read = refl;
  counted = omega arith;
  clean = w.clean;
  open_slots = w.open_slots;
}

pub Relays-trans : {s t u : State} → Relays s t → Relays t u → Relays s u
Relays-trans {s} {t} {u} a b = record {
  moved = a.moved ++ b.moved;
  sent = b.sent ∙ ap (λ l. l ++ b.moved) a.sent ∙ append_assoc s.outer.sent a.moved b.moved;
  read =
      a.read
      ∙ ap (λ l. a.moved ++ l) b.read
      ∙ sym (append_assoc a.moved b.moved (stream u.inner.input));
  counted = omega (arith, a.counted, b.counted, length-append a.moved b.moved);
  clean = b.clean;
  open_slots = b.open_slots;
}

pub Relayed-trans : {s t : State} (o : Outcome) → Relays s t → Relayed t o → Relayed s o
Relayed-trans (running u) a (b, w) = (Relays-trans a b, w)
Relayed-trans (returned r u) a b = Relays-trans a b

-- A call of `shuttle` that took bytes and sent them.
record Moves (m : Moved) (con : ClientConnection) (source target : Peer) : Type 0 where
  bytes : Bytes
  rc : m.rc ≡ count (length bytes)
  con_same : m.con ≡ con
  whole : stream source.input ≡ bytes ++ stream m.source.input
  clean : IsClean m.source.input
  sent : m.target.sent ≡ target.sent ++ bytes
  open_slots : IsOpen m.target.slots

-- What a call of `shuttle` leaves alone.
record Keeps (m : Moved) (con : ClientConnection) (source target : Peer) : Type 0 where
  tx : m.con.bytes_tx ≡ con.bytes_tx
  fd : m.con.fd_out ≡ con.fd_out
  input : m.target.input ≡ target.input
  sent : m.source.sent ≡ source.sent
  slots : m.source.slots ≡ source.slots

module _ (strerror : ℕ → Bytes) where
  written-Keeps :
      (buf : Bytes) (fd : ℤ) (con : ClientConnection) (source target : Peer) (n : ℕ)
      → Keeps (written strerror buf fd con source target n) con source target
  written-Keeps buf (pos k) con source target n = record {
    tx = refl;
    fd = refl;
    input = refl;
    sent = refl;
    slots = refl;
  }
  written-Keeps buf (negsuc k) con source target n = record {
    tx = refl;
    fd = refl;
    input = refl;
    sent = refl;
    slots = refl;
  }

  shuttle-Keeps :
      (fd : ℤ) (con : ClientConnection) (source target : Peer)
      → Keeps (shuttle strerror fd con source target) con source target
  unfolding shuttle set_client_connection_status
  shuttle-Keeps fd con source target = elim (Rc-cases (sb_read 10000 source.input).rc) [
    | inl (e, is) ↦
        rw (is, shuttle) (record { tx = refl; fd = refl; input = refl; sent = refl; slots = refl })
    | inr (inl is) ↦
        rw (is, shuttle) (record { tx = refl; fd = refl; input = refl; sent = refl; slots = refl })
    | inr (inr (n, is)) ↦
        rw (is, shuttle)
          (let k =
              written-Keeps (sb_read 10000 source.input).buf fd con
                (record source { input = (sb_read 10000 source.input).rest }) target (suc n) in
            record { tx = k.tx; fd = k.fd; input = k.input; sent = k.sent; slots = k.slots })
  ]

  shuttle-Moves :
      (fd : ℕ) (con : ClientConnection) (source target : Peer)
      → IsClean source.input
      → IsOpen target.slots
      → Moves (shuttle strerror (pos fd) con source target) con source target
  unfolding shuttle
  shuttle-Moves fd con source target c o =
      let t = sb_read-Takes 10000 source.input (omega arith) c in
      let buf = (sb_read 10000 source.input).buf in
      elim (Rc-cases (sb_read 10000 source.input).rc) [
        | inl (e, is) ↦ absurd (cc (is, t.rc))
        | inr (inl is) ↦
            let none_is : buf ≡ [] = no_bytes buf (sym t.rc ∙ is) in
            rw (is, shuttle)
              (record {
                bytes = [];
                rc = refl;
                con_same = refl;
                whole = t.whole ∙ ap (λ l. l ++ stream (sb_read 10000 source.input).rest) none_is;
                clean = t.clean;
                sent = sym (append-nil target.sent);
                open_slots = o;
              })
        | inr (inr (n, is)) ↦
            let w =
              sb_write_len-Sends buf target.sent target.slots o
                (some_count buf n (sym t.rc ∙ is)) in
            rw (is, shuttle)
              (record {
                bytes = buf;
                rc = w.rc;
                con_same = refl;
                whole = t.whole;
                clean = t.clean;
                sent = w.out;
                open_slots = w.open_slots;
              })
      ]
    where
      no_bytes : (bs : Bytes) → count (length bs) ≡ count 0 → bs ≡ []
      no_bytes [] e = refl
      no_bytes (b ∷ bs) e = absurd (cc e)

      some_count : (bs : Bytes) (n : ℕ) → count (length bs) ≡ count (suc n) → 0 < length bs
      some_count [] n e = absurd (cc e)
      some_count (b ∷ bs) n e = omega arith

  still :
      (s s' : State)
      → Writable s
      → s'.outer.sent ≡ s.outer.sent
      → s'.outer.slots ≡ s.outer.slots
      → s'.inner.input ≡ s.inner.input
      → s'.con.bytes_tx ≡ s.con.bytes_tx
      → Relays s s'
  still s s' w sent slots input tx = record {
    moved = [];
    sent = sent ∙ sym (append-nil s.outer.sent);
    read = ap stream (sym input);
    counted = omega (arith, tx);
    clean = subst IsClean (sym input) w.clean;
    open_slots = subst IsOpen (sym slots) w.open_slots;
  }

  after_forward-Carried :
      (m : Moved) (s : State)
      → Moves m s.con s.inner s.outer
      → Writable s
      → Carried s (after_forward strerror m s)
  after_forward-Carried m s v w = elim (Rc-cases m.rc) [
    | inl (e, is) ↦ absurd (cc (is, v.rc))
    | inr (inl is) ↦ rw (is) (
      record {
        moved = v.bytes;
        sent = v.sent;
        read = v.whole;
        counted = tx ∙ omega (arith, size 0 is);
        clean = v.clean;
        open_slots = v.open_slots;
      },
      record {
        clean = v.clean;
        open_slots = v.open_slots;
        can_write = w.can_write;
        fd = w.fd;
        is_open = ap (λ c. c.fd_out) v.con_same ∙ w.is_open;
      },
    )
    | inr (inr (n, is)) ↦ rw (is) (
      record {
        moved = v.bytes;
        sent = v.sent;
        read = v.whole;
        counted = ap (λ t. t + suc n) tx ∙ omega (arith, size (suc n) is);
        clean = v.clean;
        open_slots = v.open_slots;
      },
      record {
        clean = v.clean;
        open_slots = v.open_slots;
        can_write = w.can_write;
        fd = w.fd;
        is_open = ap (λ c. c.fd_out) v.con_same ∙ w.is_open;
      },
    )
  ]
    where
      tx : m.con.bytes_tx ≡ s.con.bytes_tx
      tx = ap (λ c. c.bytes_tx) v.con_same

      size : (n : ℕ) → m.rc ≡ count n → length v.bytes ≡ n
      size n is = cc (is, v.rc)

  after_backward-Relayed :
      (m : Moved) (s : State)
      → Keeps m s.con s.outer s.inner
      → Writable s
      → Relayed s (after_backward strerror m s)
  after_backward-Relayed m s k w = elim (Rc-cases m.rc) [
    | inl (e, is) ↦ rw (is) (still s _ w k.sent k.slots k.input k.tx)
    | inr (inl is) ↦ rw (is) (still s _ w k.sent k.slots k.input k.tx)
    | inr (inr (n, is)) ↦ rw (is) (
      still s _ w k.sent k.slots k.input k.tx,
      record {
        clean = subst IsClean (sym k.input) w.clean;
        open_slots = subst IsOpen (sym k.slots) w.open_slots;
        can_write = w.can_write;
        fd = w.fd;
        is_open = k.fd ∙ w.is_open;
      },
    )
  ]

  pub forward-Carried : (s : State) → Writable s → Carried s (forward strerror s)
  unfolding forward
  forward-Carried s w =
      let open_is : (if s.out_can_write then s.con.fd_out else negsuc 0) ≡ pos w.fd =
        ap (λ b. if b then s.con.fd_out else negsuc 0) w.can_write ∙ w.is_open in
      let m = shuttle strerror (pos w.fd) s.con s.inner s.outer in
      subst (λ fd. Carried s (after_forward strerror (shuttle strerror fd s.con s.inner s.outer) s))
        (sym open_is)
        (after_forward-Carried m s (shuttle-Moves w.fd s.con s.inner s.outer w.clean w.open_slots)
          w)

  pub backward-Relayed : (s : State) → Writable s → Relayed s (backward strerror s)
  unfolding backward
  backward-Relayed s w =
      let fd = if s.in_can_write then s.con.fd_in else negsuc 0 in
      after_backward-Relayed (shuttle strerror fd s.con s.outer s.inner) s
        (shuttle-Keeps fd s.con s.outer s.inner) w
