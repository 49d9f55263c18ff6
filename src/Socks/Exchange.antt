-- ===== src/Socks/Exchange.antt =====
-- The two ends of the protocol together: a request that the client's side writes is the request that
-- the server's side reads.
use smart_socksproxy.Base.{
  ℕ, ◌+◌, ◌*◌, ◌/◌, ◌%◌, ◌<◌, ◌≡◌, refl, sym, ap, ◌∙◌, ◌⊎◌, inl, inr, some, [], ◌∷◌, ◌++◌, Bytes,
  length, All, pos, low_16, ntohl, htonl, append_assoc, arith,
}
use smart_socksproxy.Io.{IsOpen, sb_write_len-Sends}
use smart_socksproxy.Host.{
  SockaddrIn, inet, IsChar, host_id_get_addr_as_byte_array, host_id_set_addr_in_from_byte_array,
  host_id_set_port, host_id_set_name-fits, ipv4_round_trip,
}
use smart_socksproxy.Connection.{ClientConnection}
use smart_socksproxy.Socks.State.{Session, send, transmit_unless_error}
use smart_socksproxy.Socks.Server.{addrtype_ipv4, addrtype_domain, socks5_get_command}
use smart_socksproxy.Socks.Client.{
  address_field, command_bytes, port_bytes, transmit_command, socks5_client_send_command,
}
use smart_socksproxy.Socks.Receive.{Carries}
use smart_socksproxy.Socks.Request.{IsCommand, socks5_get_command_domain, socks5_get_command_ipv4}

-- A destination that a request can carry: a name of at most 255 characters, or an IPv4 address.
abbrev pub IsSendable : ClientConnection → Type 0
IsSendable con =
    ((con.socks_address_type ≡ addrtype_domain)
      × All IsChar con.dst_host.name
      × (length con.dst_host.name < 256))
    ⊎ ((con.socks_address_type ≡ addrtype_ipv4) × ((a : SockaddrIn) × (con.dst_host.addr ≡ inet a)))

-- The host has the destination of the connection: its name, or its IPv4 address.
abbrev pub SameDestination : ClientConnection → ClientConnection → Type 0
SameDestination con out =
    (out.dst_host.port ≡ con.dst_host.port)
    × (((con.socks_address_type ≡ addrtype_domain) × (out.dst_host.name ≡ con.dst_host.name))
        ⊎ ((con.socks_address_type ≡ addrtype_ipv4)
            × (host_id_get_addr_as_byte_array out.dst_host 4
                ≡ host_id_get_addr_as_byte_array con.dst_host 4)))

port_of_bytes : (p : ℕ) → p < 65536 → low_16 (pos p) / 256 * 256 + low_16 (pos p) % 256 ≡ p
port_of_bytes p h = omega arith

-- What the server's side has read of a request: the command and the destination of `con`.
pub record Understood (con : ClientConnection) (s : Session) (rest : Bytes) : Type 0 where
  pub after : Session
  pub runs : socks5_get_command s ≡ (some con.socks_command, after)
  pub version : after.con.socks_version ≡ pos 5
  pub command : after.con.socks_command ≡ con.socks_command
  pub address_type : after.con.socks_address_type ≡ con.socks_address_type
  pub destination : SameDestination con after.con
  pub original : after.con.dst_host_original ≡ after.con.dst_host
  pub unread : Carries after.peer.input rest

-- The bytes of a request, and that the server's side understands them.
abbrev RoundTrip : ClientConnection → Type 0
RoundTrip con =
    (bytes : Bytes) × (command_bytes con ≡ some bytes)
    × (0 < length bytes)
    × ((s : Session) (rest : Bytes) → Carries s.peer.input (bytes ++ rest) → Understood con s rest)

command_lem :
    (con : ClientConnection) (p t : ℕ) (field : Bytes)
    → address_field con ≡ some field
    → con.dst_host.port ≡ pos p
    → con.socks_address_type ≡ t
    → command_bytes con ≡ some (5 ∷ con.socks_command ∷ 0 ∷ t ∷ (field ++ port_bytes (pos p)))
unfolding command_bytes
command_lem con p t field e port type =
    rw (e, command_bytes)
      (ap (λ q. some (5 ∷ con.socks_command ∷ 0 ∷ con.socks_address_type ∷ (field ++ port_bytes q)))
          port
        ∙ ap (λ n. some (5 ∷ con.socks_command ∷ 0 ∷ n ∷ (field ++ port_bytes (pos p)))) type)

domain-RoundTrip :
    (con : ClientConnection) (p : ℕ)
    → IsCommand con.socks_command
    → con.dst_host.port ≡ pos p
    → p < 65536
    → con.socks_address_type ≡ addrtype_domain
    → All IsChar con.dst_host.name
    → length con.dst_host.name < 256
    → RoundTrip con
unfolding address_field host_id_set_port
domain-RoundTrip con p known port h type chars short = (
  5 ∷ con.socks_command ∷ 0 ∷ 3 ∷ length name ∷ (name ++ port_bytes (pos p)),
  command_lem con p addrtype_domain (length name ∷ name) field port type,
  omega arith,
  λ s rest w.
      let (i, runs, unread) =
        socks5_get_command_domain s con.socks_command (low_16 (pos p) / 256) (low_16 (pos p) % 256)
          name rest known (rw append_assoc at w) in
      record {
        after = _;
        runs = runs;
        version = refl;
        command = refl;
        address_type = sym type;
        destination = (
          rw (port_of_bytes p h) (sym port),
          inl (
            type,
            ap (λ id. id.name) (host_id_set_name-fits s.con.dst_host name chars (omega arith)),
          ),
        );
        original = refl;
        unread = unread;
      },
)
  where
    name : Bytes
    name = con.dst_host.name

    field : address_field con ≡ some (length name ∷ name)
    field = rw (type, address_field) (ap (λ n. some (n ∷ name)) (omega arith))

ipv4_request-RoundTrip :
    (con : ClientConnection) (p : ℕ) (a : SockaddrIn)
    → IsCommand con.socks_command
    → con.dst_host.port ≡ pos p
    → p < 65536
    → con.socks_address_type ≡ addrtype_ipv4
    → con.dst_host.addr ≡ inet a
    → RoundTrip con
unfolding address_field host_id_get_addr_as_byte_array host_id_set_addr_in_from_byte_array
ipv4_request-RoundTrip con p a known port h type addr = (
  5 ∷ con.socks_command ∷ 0 ∷ 1 ∷ b0 ∷ b1 ∷ b2 ∷ b3 ∷ port_bytes (pos p),
  command_lem con p addrtype_ipv4 (htonl n) field port type,
  omega arith,
  λ s rest w.
      let (i, runs, unread) =
        socks5_get_command_ipv4 s con.socks_command (low_16 (pos p) / 256) (low_16 (pos p) % 256) b0
          b1 b2 b3 rest known w in
      record {
        after = _;
        runs = runs;
        version = refl;
        command = refl;
        address_type = sym type;
        destination = (
          rw (port_of_bytes p h) (sym port),
          inr (type, ipv4_round_trip s.con.dst_host b0 b1 b2 b3 (pos p) 4 (omega arith) ∙ sym sent),
        );
        original = refl;
        unread = unread;
      },
)
  where
    n : ℕ
    n = ntohl a.sin_addr

    b0 : ℕ
    b0 = n / 16777216 % 256

    b1 : ℕ
    b1 = n / 65536 % 256

    b2 : ℕ
    b2 = n / 256 % 256

    b3 : ℕ
    b3 = n % 256

    sent : host_id_get_addr_as_byte_array con.dst_host 4 ≡ htonl n
    sent = rw (addr, host_id_get_addr_as_byte_array)

    field : address_field con ≡ some (htonl n)
    field = rw (type, address_field) (ap some sent)

round_trip :
    (con : ClientConnection) (p : ℕ)
    → IsCommand con.socks_command
    → con.dst_host.port ≡ pos p
    → p < 65536
    → IsSendable con
    → RoundTrip con
round_trip con p known port h (inl (type, chars, short)) =
    domain-RoundTrip con p known port h type chars short
round_trip con p known port h (inr (type, (a, addr))) =
    ipv4_request-RoundTrip con p a known port h type addr

sends_command :
    (c : Session) (bytes : Bytes)
    → IsOpen c.peer.slots
    → command_bytes c.con ≡ some bytes
    → 0 < length bytes
    → ((socks5_client_send_command c).0 ≡ some tt)
      × ((socks5_client_send_command c).1.peer.sent ≡ c.peer.sent ++ bytes)
unfolding socks5_client_send_command transmit_unless_error send
sends_command c bytes o e h =
    let w = sb_write_len-Sends bytes c.peer.sent c.peer.slots o h in
    rw (e, transmit_command) (rw (w.rc) (refl, w.out))

-- The two ends of the protocol agree. On a descriptor that takes its bytes, with nothing sent before,
-- `socks5_client_send_command` succeeds for a known command, a destination of an IPv4 address or a
-- name of at most 255 characters, and a port of 16 bits. A server that is sent these bytes, in
-- whatever pieces and whatever follows them, understands the same command, address type,
-- destination and port (`socks5_get_command`), and leaves what follows unread.
pub socks5_round_trip :
    (c s : Session) (p : ℕ) (rest : Bytes)
    → IsCommand c.con.socks_command
    → c.con.dst_host.port ≡ pos p
    → p < 65536
    → IsSendable c.con
    → IsOpen c.peer.slots
    → c.peer.sent ≡ []
    → Carries s.peer.input ((socks5_client_send_command c).1.peer.sent ++ rest)
    → ((socks5_client_send_command c).0 ≡ some tt) × Understood c.con s rest
socks5_round_trip c s p rest known port h sendable o start carries =
    let (bytes, is, some_bytes, understands) = round_trip c.con p known port h sendable in
    let (done, sent) = sends_command c bytes o is some_bytes in
    let all : (socks5_client_send_command c).1.peer.sent ≡ bytes =
      sent ∙ ap (λ l. l ++ bytes) start in
    (done, understands s rest (rw all at carries))
