-- ===== src/Host/Laws.antt =====
-- What a host keeps.
use smart_socksproxy.Base.{
  ℕ, ◌-◌, ◌/◌, ◌%◌, ◌<◌, ◌≡◌, refl, sym, ap, [], ◌∷◌, Bytes, length, ltb, if◌then◌else◌, ℤ, pos,
  low_16, htons, ntohs, htonl, ntohl, ntohl-htonl, take_all, arith, All,
}
use smart_socksproxy.Host.Defs.{
  SockaddrIn, Addr, unspec, inet, inet6, HostId, c_string, max_dns, byte_address, host_id_set_name,
  host_id_set_port, host_id_set_addr_in, host_id_set_addr_in6, host_id_set_addr_in_from_byte_array,
  host_id_set_addr_in6_from_byte_array, host_id_get_addr_as_byte_array,
}

-- A byte of a C string.
abbrev pub IsChar : ℕ → Type 0
IsChar c = (0 < c) × (c < 256)

abbrev pub IsByte : ℕ → Type 0
IsByte c = c < 256

pub c_string_id : (s : Bytes) → All IsChar s → c_string s ≡ s
c_string_id [] h = refl
c_string_id (c ∷ s) h = ground (arith, c_string_id s h.1)

-- A name that fits is kept as it is.
pub host_id_set_name-fits :
    (id : HostId) (name : Bytes)
    → All IsChar name
    → length name < max_dns
    → host_id_set_name id name ≡ record id { name = name }
unfolding host_id_set_name
host_id_set_name-fits id name h k =
    rw (c_string_id name h, take_all (max_dns - 1) name (omega arith))

byte_address_digits :
    (a b c d : ℕ)
    → All IsByte (a ∷ b ∷ c ∷ d ∷ [])
    → htonl (byte_address (a ∷ b ∷ c ∷ d ∷ [])) ≡ a ∷ b ∷ c ∷ d ∷ []
byte_address_digits a b c d h =
    let n = byte_address (a ∷ b ∷ c ∷ d ∷ []) in
    let p : n / 16777216 % 256 ≡ a = omega arith in
    let q : n / 65536 % 256 ≡ b = omega arith in
    let r : n / 256 % 256 ≡ c = omega arith in let s : n % 256 ≡ d = omega arith in cc (p, q, r, s)

-- Four bytes that are stored as an IPv4 address are read back in the same order, into any buffer
-- of four bytes or more; a smaller buffer gets nothing.
pub ipv4_round_trip :
    (id : HostId) (a b c d : ℕ) (port : ℤ) (buflen : ℕ)
    → All IsByte (a ∷ b ∷ c ∷ d ∷ [])
    → host_id_get_addr_as_byte_array
        (host_id_set_addr_in_from_byte_array id (a ∷ b ∷ c ∷ d ∷ []) port)
        buflen
      ≡ (if ltb buflen 4 then [] else a ∷ b ∷ c ∷ d ∷ [])
unfolding host_id_set_addr_in_from_byte_array host_id_get_addr_as_byte_array
ipv4_round_trip id a b c d port buflen h =
    let n = byte_address (a ∷ b ∷ c ∷ d ∷ []) in
    let whole : ntohl (htonl n) ≡ n = ntohl-htonl n (omega arith) in
    rw (whole, byte_address_digits a b c d h)

-- The port of the host and the port of its socket address are one and the same.
abbrev pub PortsAgree : HostId → Type 0
PortsAgree id = elim id.addr [
  | unspec ↦ Unit
  | inet a ↦ id.port ≡ pos (ntohs a.sin_port)
  | inet6 a ↦ id.port ≡ pos (ntohs a.sin_port)
]

low_16_port : (n : ℕ) → n < 65536 → pos (ntohs (htons (low_16 (pos n)))) ≡ pos n
low_16_port n h = ap pos (omega arith)

-- Every operation that changes a host keeps the two copies of its port equal, as long as the port
-- is one of a socket.
pub PortsAgree-operations :
    (id : HostId) (port : ℕ) (bytes name : Bytes) (sa : SockaddrIn)
    → PortsAgree id
    → port < 65536
    → PortsAgree (host_id_set_port id (pos port))
      × PortsAgree (host_id_set_addr_in id sa)
      × PortsAgree (host_id_set_addr_in6 id sa)
      × PortsAgree (host_id_set_addr_in_from_byte_array id bytes (pos port))
      × PortsAgree (host_id_set_addr_in6_from_byte_array id bytes (pos port))
      × PortsAgree (host_id_set_name id name)
unfolding host_id_set_port host_id_set_addr_in host_id_set_addr_in6
    host_id_set_addr_in_from_byte_array host_id_set_addr_in6_from_byte_array host_id_set_name
PortsAgree-operations id port bytes name sa agree h =
    (set_port id.addr, refl, refl, sym (low_16_port port h), sym (low_16_port port h), agree)
  where
    set_port : (a : Addr) → PortsAgree (host_id_set_port (record id { addr = a }) (pos port))
    set_port unspec = tt
    set_port (inet a) = sym (low_16_port port h)
    set_port (inet6 a) = sym (low_16_port port h)
