-- ===== src/Host/Defs.antt =====
-- `host_id` and its operations. A socket address keeps port and address as the bytes in memory,
-- in network order.
use smart_socksproxy.Base.{
  ℕ, ◌+◌, ◌-◌, ◌*◌, ◌/◌, ◌%◌, Bool, true, false, not, Option, none, some, [], ◌∷◌, Bytes, length,
  take, ltb, ◌==◌, if◌then◌else◌, ℤ, pos, low_16, htons, ntohs, htonl, ntohl,
}

pub record SockaddrIn : Type 0 where
  pub sin_port : Bytes
  pub sin_addr : Bytes

-- The union `addr`, by its `sa_family`.
pub data Addr : Type 0 where
  unspec : Addr
  inet : SockaddrIn → Addr
  inet6 : SockaddrIn → Addr

pub record HostId : Type 0 where
  pub name : Bytes
  pub addr : Addr
  pub port : ℤ

abbrev pub max_dns : ℕ
max_dns = 260

-- The C string that a buffer holds: the bytes before the first zero.
abbrev pub c_string : Bytes → Bytes
c_string [] = []
c_string (c ∷ cs) = if c == 0 then [] else c ∷ c_string cs

abbrev pub host_id_init : HostId
host_id_init = record { name = []; addr = unspec; port = pos 0 }

abbrev pub is_empty : Bytes → Bool
is_empty [] = true
is_empty (c ∷ cs) = false

abbrev pub host_id_has_name : HostId → Bool
host_id_has_name id = not (is_empty id.name)

abbrev has_family : Addr → Bool
has_family unspec = false
has_family (inet a) = true
has_family (inet6 a) = true

abbrev pub host_id_has_addr : HostId → Bool
host_id_has_addr id = has_family id.addr

-- `strncpy` into `name[MAX_DNS]`, and a zero at its end.
unfoldable pub host_id_set_name : HostId → Bytes → HostId
host_id_set_name id name = record id { name = take (max_dns - 1) (c_string name) }

abbrev pub host_id_get_name : HostId → Bytes
host_id_get_name id = id.name

abbrev pub host_id_get_port : HostId → ℤ
host_id_get_port id = id.port

set_sin_port : Addr → ℤ → Addr
set_sin_port unspec port = unspec
set_sin_port (inet a) port = inet (record a { sin_port = htons (low_16 port) })
set_sin_port (inet6 a) port = inet6 (record a { sin_port = htons (low_16 port) })

unfoldable pub host_id_set_port : HostId → ℤ → HostId
unfolding set_sin_port
host_id_set_port id port = record id { port = port; addr = set_sin_port id.addr port }

unfoldable pub host_id_set_addr_in : HostId → SockaddrIn → HostId
host_id_set_addr_in id sa_in = record id { addr = inet sa_in; port = pos (ntohs sa_in.sin_port) }

unfoldable pub host_id_set_addr_in6 : HostId → SockaddrIn → HostId
host_id_set_addr_in6 id sa_in6 = record id {
  addr = inet6 sa_in6;
  port = pos (ntohs sa_in6.sin_port);
}

-- `addr |= ipv4[i]; addr <<= 8`: the low byte is empty at each `|`, which therefore adds.
abbrev pub byte_address : Bytes → ℕ
byte_address (a ∷ b ∷ c ∷ d ∷ _) = ((a * 256 + b) * 256 + c) * 256 + d
byte_address _ = 0

unfoldable pub host_id_set_addr_in_from_byte_array : HostId → Bytes → ℤ → HostId
host_id_set_addr_in_from_byte_array id ipv4 port = record id {
  port = port;
  addr = inet (record { sin_port = htons (low_16 port); sin_addr = htonl (byte_address ipv4) });
}

unfoldable pub host_id_set_addr_in6_from_byte_array : HostId → Bytes → ℤ → HostId
host_id_set_addr_in6_from_byte_array id ipv6 port = record id {
  port = port;
  addr = inet6 (record { sin_port = htons (low_16 port); sin_addr = take 16 ipv6 });
}

abbrev pub host_id_get_addr : HostId → Addr
host_id_get_addr id = id.addr

-- `(addr >> 24) & 0xFF` and so on, of `addr = ntohl(s_addr)`.
abbrev address_bytes : ℕ → Bytes
address_bytes a = a / 16777216 % 256 ∷ a / 65536 % 256 ∷ a / 256 % 256 ∷ a % 256 ∷ []

addr_as_byte_array : Addr → ℕ → Bytes
addr_as_byte_array unspec buflen = []
addr_as_byte_array (inet a) buflen = if ltb buflen 4 then [] else address_bytes (ntohl a.sin_addr)
addr_as_byte_array (inet6 a) buflen = if ltb buflen 16 then [] else take 16 a.sin_addr

-- The bytes written to `buf`; the function returns their number.
unfoldable pub host_id_get_addr_as_byte_array : HostId → ℕ → Bytes
unfolding addr_as_byte_array
host_id_get_addr_as_byte_array id buflen = addr_as_byte_array id.addr buflen

-- The C library's `inet_ntop`, for each family, is a parameter. It fails where text and zero do
-- not fit.
module _ (ntop ntop6 : Bytes → Bytes) where
  fitted : Bytes → ℕ → Option Bytes
  fitted text size = if ltb (length text) size then some text else none

  addr_text : Addr → ℕ → Option Bytes
  addr_text unspec size = none
  addr_text (inet a) size = fitted (ntop a.sin_addr) size
  addr_text (inet6 a) size = fitted (ntop6 a.sin_addr) size

  unfoldable pub host_id_addr_str : HostId → ℕ → Option Bytes
  unfolding addr_text fitted
  host_id_addr_str id len = addr_text id.addr (len - 1)

  unfoldable pub host_id_name_or_addr_str : HostId → ℕ → Option Bytes
  unfolding host_id_addr_str
  host_id_name_or_addr_str id len =
      if host_id_has_name id
      then some id.name
      else if host_id_has_addr id
      then host_id_addr_str id len
      else none
