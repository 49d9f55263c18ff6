-- ===== src/Socks/Receive.antt =====
-- On a connection that delivers its bytes, a step gets the bytes that it asks for.
use smart_socksproxy.Base.{
  ℕ, ◌≡◌, refl, ap, ◌∙◌, some, List, [], ◌∷◌, ◌++◌, Bytes, length, take, drop, length-append, arith,
}
use smart_socksproxy.Io.{Event, count, sb_read_len, stream, IsClean, sb_read_len-Got}
use smart_socksproxy.Socks.State.{Session, with_input, receive}

take-length : (bs rest : Bytes) → take (length bs) (bs ++ rest) ≡ bs
take-length [] rest = refl
take-length (b ∷ bs) rest = ap (◌∷◌ b) (take-length bs rest)

drop-length : (bs rest : Bytes) → drop (length bs) (bs ++ rest) ≡ rest
drop-length [] rest = refl
drop-length (b ∷ bs) rest = drop-length bs rest

-- An input whose bytes are these, in whatever chunks.
pub record Carries (i : List Event) (bytes : Bytes) : Type 0 where
  pub clean : IsClean i
  pub bytes_are : stream i ≡ bytes

-- A step that reads `bs`, and leaves an input that carries `rest`.
pub record Receives (n : ℕ) (s : Session) (bs rest : Bytes) : Type 0 where
  pub input : List Event
  pub gets : receive n s ≡ (some bs, with_input s input)
  pub carries : Carries input rest

pub receive-Receives :
    (s : Session) (bs rest : Bytes)
    → Carries s.peer.input (bs ++ rest)
    → Receives (length bs) s bs rest
unfolding receive
receive-Receives s bs rest c =
    let got =
      sb_read_len-Got (length bs) s.peer.input c.clean
        (omega (arith, ap length c.bytes_are, length-append bs rest)) in
    let bs_are : take (length bs) (stream s.peer.input) ≡ bs =
      ap (take (length bs)) c.bytes_are ∙ take-length bs rest in
    let rest_is : drop (length bs) (stream s.peer.input) ≡ rest =
      ap (drop (length bs)) c.bytes_are ∙ drop-length bs rest in
    let rc_is : (sb_read_len (length bs) [] s.peer.input).rc ≡ count (length bs) =
      got.rc ∙ ap (λ t. count (length t)) bs_are in
    record {
      input = (sb_read_len (length bs) [] s.peer.input).rest;
      gets = rw (rc_is, receive) (ground (arith, got.buf, bs_are));
      carries = record { clean = got.clean; bytes_are = got.rest ∙ rest_is };
    }
