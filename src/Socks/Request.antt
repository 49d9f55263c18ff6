-- ===== src/Socks/Request.antt =====
-- The server's side of a request: what `socks5_get_command` makes of the bytes on the wire.
use smart_socksproxy.Base.{
  ℕ, ◌+◌, ◌*◌, ◌≡◌, ◌⊎◌, inl, inr, some, List, [], ◌∷◌, ◌++◌, Bytes, length, pos,
}
use smart_socksproxy.Io.{Event}
use smart_socksproxy.Host.{host_id_set_addr_in_from_byte_array, host_id_set_name, host_id_set_port}
use smart_socksproxy.Socks.State.{Session, with_input}
use smart_socksproxy.Socks.Server.{
  cmd_connect, cmd_bind, cmd_udp_associate, addrtype_ipv4, addrtype_domain, record_request,
  known_command, socks5_get_command,
}
use smart_socksproxy.Socks.Receive.{Carries, receive-Receives}

abbrev pub IsCommand : ℕ → Type 0
IsCommand c = (c ≡ cmd_connect) ⊎ (c ≡ cmd_bind) ⊎ (c ≡ cmd_udp_associate)

known_command-IsCommand : (c : ℕ) (s : Session) → IsCommand c → known_command c s ≡ (some c, s)
unfolding known_command
known_command-IsCommand c s (inl e) = rw e
known_command-IsCommand c s (inr (inl e)) = rw e
known_command-IsCommand c s (inr (inr e)) = rw e

-- A request for a name.
pub socks5_get_command_domain :
    (s : Session) (c hi lo : ℕ) (name rest : Bytes)
    → IsCommand c
    → Carries s.peer.input (5 ∷ c ∷ 0 ∷ addrtype_domain ∷ length name ∷ (name ++ hi ∷ lo ∷ rest))
    → (i : List Event) × (socks5_get_command s ≡ (
      some c,
      record s {
        con =
            record_request
              (pos 5)
              c
              addrtype_domain
              (host_id_set_port (host_id_set_name s.con.dst_host name) (pos (hi * 256 + lo)))
              s.con;
        peer = record s.peer { input = i };
      },
    ))
      × Carries i rest
unfolding socks5_get_command
socks5_get_command_domain s c hi lo name rest known w =
    let r1 =
      receive-Receives s (5 ∷ c ∷ 0 ∷ addrtype_domain ∷ []) (length name ∷ (name ++ hi ∷ lo ∷ rest))
        w in
    let s1 = with_input s r1.input in
    let r2 = receive-Receives s1 (length name ∷ []) (name ++ hi ∷ lo ∷ rest) r1.carries in
    let s2 = with_input s r2.input in
    let r3 = receive-Receives s2 name (hi ∷ lo ∷ rest) r2.carries in
    let s3 = with_input s r3.input in
    let r4 = receive-Receives s3 (hi ∷ lo ∷ []) rest r3.carries in
    (
      r4.input,
      rw (r1.gets, r2.gets, r3.gets, r4.gets) (known_command-IsCommand c _ known),
      r4.carries,
    )

-- A request for an IPv4 address.
pub socks5_get_command_ipv4 :
    (s : Session) (c hi lo a b d e : ℕ) (rest : Bytes)
    → IsCommand c
    → Carries s.peer.input (5 ∷ c ∷ 0 ∷ addrtype_ipv4 ∷ a ∷ b ∷ d ∷ e ∷ hi ∷ lo ∷ rest)
    → (i : List Event) × (socks5_get_command s ≡ (
      some c,
      record s {
        con =
            record_request
              (pos 5)
              c
              addrtype_ipv4
              (host_id_set_addr_in_from_byte_array s.con.dst_host
                (a ∷ b ∷ d ∷ e ∷ [])
                (pos (hi * 256 + lo)))
              s.con;
        peer = record s.peer { input = i };
      },
    ))
      × Carries i rest
unfolding socks5_get_command
socks5_get_command_ipv4 s c hi lo a b d e rest known w =
    let r1 =
      receive-Receives s (5 ∷ c ∷ 0 ∷ addrtype_ipv4 ∷ []) (a ∷ b ∷ d ∷ e ∷ hi ∷ lo ∷ rest) w in
    let s1 = with_input s r1.input in
    let r2 = receive-Receives s1 (a ∷ b ∷ d ∷ e ∷ []) (hi ∷ lo ∷ rest) r1.carries in
    let s2 = with_input s r2.input in
    let r3 = receive-Receives s2 (hi ∷ lo ∷ []) rest r2.carries in
    (r3.input, rw (r1.gets, r2.gets, r3.gets) (known_command-IsCommand c _ known), r3.carries)
