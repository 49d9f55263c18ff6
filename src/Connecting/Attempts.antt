-- ===== src/Connecting/Attempts.antt =====
-- `socks_connect`: the tunnels of a route in turn, until one connects.
use smart_socksproxy.Base.{
  ℕ, zero, suc, ◌+◌, ◌%◌, Bool, true, false, Option, none, some, List, [], ◌∷◌, Bytes, codes,
  length, ◌==◌, if◌then◌else◌, ℤ, pos, negsuc,
}
use smart_socksproxy.Host.{Net}
use smart_socksproxy.Tunnel.{SshTunnel, new_ssh_tunnel, ssh_tunnel_direct, ssh_tunnel_null}
use smart_socksproxy.Rule.{RouteRule}
use smart_socksproxy.Connection.{ccstatus_err_network}
use smart_socksproxy.Socks.{Session, M}
use smart_socksproxy.Connecting.Direct.{
  Dialer, reply_connection_refused, with_status, connect_null, connect_direct,
  connect_via_ssh_socks5,
}

-- What stays the same while a connection is made: the libraries, the tunnels, and the network at the
-- time of each attempt.
pub record World : Type 0 where
  pub net : Net
  pub strerror : ℕ → Bytes
  pub reset_text : Bytes
  pub tunnels : List SshTunnel
  pub dialers : ℕ → Dialer

-- The tunnel that a pointer, an id, leads to.
abbrev pub tunnel_at : ℕ → List SshTunnel → SshTunnel
tunnel_at id [] = new_ssh_tunnel id
tunnel_at id (ssh ∷ list) = if ssh.id == id then ssh else tunnel_at id list

-- `list[i]`
abbrev pub nth : List ℕ → ℕ → ℕ
nth [] i = 0
nth (t ∷ ts) zero = t
nth (t ∷ ts) (suc i) = nth ts i

unfoldable pub connect_by : World → ℕ → ℕ → M (Unit {0})
connect_by w i id =
    if id == ssh_tunnel_direct
    then connect_direct w.net (w.dialers i)
    else if id == ssh_tunnel_null
    then connect_null
    else connect_via_ssh_socks5 w.strerror w.reset_text (w.dialers i) (tunnel_at id w.tunnels)

abbrev pub is_refused : Option ℕ → Bool
is_refused none = false
is_refused (some n) = n == reply_connection_refused

abbrev pub is_above_zero : ℤ → Bool
is_above_zero (pos zero) = false
is_above_zero (pos (suc n)) = true
is_above_zero (negsuc n) = false

-- No tunnel is used, and the descriptor is closed.
abbrev pub given_up : Session → Session
given_up s = record s {
  con = record s.con {
    tunnel = none;
    fd_out = if is_above_zero s.con.fd_out then negsuc 0 else s.con.fd_out;
  };
}

-- An attempt has succeeded, was refused, or has failed in another way.
pub data Attempt : Type 0 where
  created : Session → Attempt
  turned_away : Session → Attempt
  failed_once : Session → Attempt

unfoldable pub judge : Option (Unit {0}) × Session → Attempt
judge (some u, s) = created s
judge (none, s) =
    if is_refused s.failure_type
    then turned_away (
        given_up (
          with_status s ccstatus_err_network (some (codes "Connection Refused"))
            (some (codes "Connection to remote host was refused."))))
    else failed_once (given_up s)

unfoldable pub attempt : World → List ℕ → ℕ → Session → Attempt
attempt w route i s =
    let id = nth route (i % length route) in
    judge (connect_by w i id (record s { con = record s.con { tunnel = some id } }))

-- What becomes of an attempt; `again` is what follows a failure.
abbrev pub or_again : (Session → Bool × Session) → Attempt → Bool × Session
or_again again (created s) = (true, s)
or_again again (turned_away s) = (false, s)
or_again again (failed_once s) = again s

-- Attempt number i, with `left` attempts behind it: number 100 is the last.
unfoldable pub attempts : World → List ℕ → ℕ → ℕ → Session → Bool × Session
attempts w route zero i s = or_again (λ t. (false, t)) (attempt w route i s)
attempts w route (suc left) i s =
    or_again (λ t. attempts w route left (i + 1) t) (attempt w route i s)

-- The result, and the session. A route without tunnels makes no attempt.
unfoldable pub socks_connect : World → RouteRule → Session → Bool × Session
socks_connect w route s = elim route.tunnel [
  | [] ↦ (false, s)
  | t ∷ ts ↦ attempts w (t ∷ ts) 100 0 s
]
