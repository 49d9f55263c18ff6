-- ===== src/Socks/Client.antt =====
-- socks5_client.c: the proxy as a client of an SSH tunnel's SOCKS5 server, on `fd_out`.
use smart_socksproxy.Base.{
  ℕ, ◌/◌, ◌%◌, ◌&&◌, Option, none, some, [], ◌∷◌, ◌++◌, Bytes, codes, length, drop, ◌==◌,
  if◌then◌else◌, ℤ, low_16,
}
use smart_socksproxy.Io.{Rc, count, error, sb_read_len}
use smart_socksproxy.Clib.{decimal}
use smart_socksproxy.Host.{host_id_get_addr_as_byte_array}
use smart_socksproxy.Connection.{
  ClientConnection, ccstatus_err_internal, set_client_connection_status,
}
use smart_socksproxy.Socks.State.{
  Session, M, ok, fail, ◌>>=◌, ◌>>◌, guard, modify, at, with_input, transmit_unless_error, is_error,
}
use smart_socksproxy.Socks.Server.{addrtype_ipv4, addrtype_ipv6, addrtype_domain}
use smart_socksproxy.Socks.Respond.{reply_succeed}

abbrev pub reply_connection_refused : ℕ
reply_connection_refused = 5

-- `sb_read_len(con->fd_out, buf, n)` over what `buf` held before: the return value, and the buffer.
unfoldable pub read_over : Bytes → ℕ → Session → Rc × Bytes × Session
read_over old n s =
    let r = sb_read_len n [] s.peer.input in
    (r.rc, r.buf ++ drop (length r.buf) old, with_input s r.rest)

-- The same with `if (rc < 0) { return 0; }`.
unfoldable pub read_unless_error : Bytes → ℕ → M Bytes
unfolding read_over
read_unless_error old n s =
    let (rc, buf, s') = read_over old n s in (if is_error rc then none else some buf, s')

unfoldable pub sock5_client_negotiate_auth : M (Unit {0})
sock5_client_negotiate_auth = do
  transmit_unless_error (5 ∷ 1 ∷ 0 ∷ [])
  buf ← read_unless_error (5 ∷ 1 ∷ 0 ∷ []) 2
  guard (at buf 0 == 5 && at buf 1 == 0)

-- `(port >> 8) & 0x0FF` and `port & 0x0FF`
abbrev pub port_bytes : ℤ → Bytes
port_bytes port = low_16 port / 256 ∷ low_16 port % 256 ∷ []

-- The destination as a request carries it. The length of a name is put into one byte. An address
-- type of IPv4 goes with an IPv4 address: without one the source sends what is on its stack.
unfoldable pub address_field : ClientConnection → Option Bytes
address_field con =
    if con.socks_address_type == addrtype_ipv4
    then some (host_id_get_addr_as_byte_array con.dst_host 4)
    else if con.socks_address_type == addrtype_ipv6
    then some (host_id_get_addr_as_byte_array con.dst_host 16)
    else if con.socks_address_type == addrtype_domain
    then some (length con.dst_host.name % 256 ∷ con.dst_host.name)
    else none

-- The request that is sent, if the address type is known.
unfoldable pub command_bytes : ClientConnection → Option Bytes
command_bytes con = elim (address_field con) [
  | none ↦ none
  | some field ↦
      some (
        5
        ∷ con.socks_command
        ∷ 0
        ∷ con.socks_address_type
        ∷ (field ++ port_bytes con.dst_host.port))
]

unfoldable pub transmit_command : Option Bytes → M (Unit {0})
transmit_command none = fail
transmit_command (some buf) = transmit_unless_error buf

unfoldable pub socks5_client_send_command : M (Unit {0})
unfolding transmit_command
socks5_client_send_command s = transmit_command (command_bytes s.con) s

-- What the first read of a response means: 4 bytes, a closed connection, or a failure.
unfoldable pub first_read : Rc × Bytes × Session → Option Bytes × Session
first_read (count n, buf, s) =
    if n == 4
    then (some buf, s)
    else if n == 0
    then (none, record s { failure_type = some reply_connection_refused })
    else (none, s)
first_read (error e, buf, s) = (none, s)

unfoldable pub unsupported_version : ℕ → M (Unit {0})
unfolding decimal
unsupported_version version s = (
  none,
  record s {
    con =
        set_client_connection_status s.con ccstatus_err_internal (some (codes "Unexpected Error"))
          (some (codes "SSH SOCKS5 server replied with unsupported version " ++ decimal version));
  },
)

unfoldable pub set_failure_type : ℕ → M (Unit {0})
set_failure_type n = modify (λ s. record s { failure_type = some n })

-- The address in a response is read and dropped. The third test of the source is again for IPv4, so
-- the address type of a domain is unknown here.
unfoldable pub skip_address : ℕ → M (Unit {0})
skip_address addr_type =
    if addr_type == addrtype_ipv4
    then (read_unless_error [] 4 >>= λ addr. ok tt)
    else if addr_type == addrtype_ipv6
    then (read_unless_error [] 16 >>= λ addr. ok tt)
    else fail

unfoldable pub socks5_client_get_command_response : M (Unit {0})
socks5_client_get_command_response = do
  buf ← λ s. first_read (read_over [] 4 s)
  (if at buf 0 == 5 then ok tt else unsupported_version (at buf 0))
  set_failure_type (at buf 1)
  skip_address (at buf 3)
  port ← read_unless_error [] 2
  guard (at buf 1 == reply_succeed)
