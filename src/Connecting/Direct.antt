-- ===== src/Connecting/Direct.antt =====
-- One attempt to connect. The session's descriptor is `fd_out`.
use smart_socksproxy.Base.{
  ℕ, not, ◌&&◌, Option, none, some, Bytes, codes, if◌then◌else◌, ℤ, pos, negsuc, low_16, htons,
  htonl,
}
use smart_socksproxy.Host.{
  SockaddrIn, unspec, inet, inet6, host_id_has_name, host_id_has_addr, host_id_set_addr_in, Net,
  resolve_dns_for_host_id,
}
use smart_socksproxy.Tunnel.{SshTunnel}
use smart_socksproxy.Connection.{
  ClientConnection, ccstatus_okay, ccstatus_error, set_client_connection_status,
}
use smart_socksproxy.Socks.{
  Peer, Session, M, ◌>>◌, sock5_client_negotiate_auth, socks5_client_send_command,
  socks5_client_get_command_response,
}

-- What `connect` gives once it is not interrupted: ECONNREFUSED and ECONNRESET apart.
pub data Connect : Type 0 where
  connected : Connect
  refused : Connect
  reset : Connect
  other : ℕ → Connect

-- The descriptor that `socket` gives, or its errno, what `connect` gives, and the descriptor's reads
-- and writes once it is connected.
pub record Dial : Type 0 where
  pub socket : Option ℕ
  pub socket_errno : ℕ
  pub connect : Connect
  pub peer : Peer

-- The network, for an address.
abbrev pub Dialer : Type 0
Dialer = SockaddrIn → Dial

abbrev pub reply_succeed : ℕ
reply_succeed = 0

abbrev pub reply_server_failure : ℕ
reply_server_failure = 1

abbrev pub reply_connection_refused : ℕ
reply_connection_refused = 5

abbrev pub reply_address_type_not_supported : ℕ
reply_address_type_not_supported = 8

-- It leaves `failure_type` as it is.
unfoldable pub connect_null : M (Unit {0})
connect_null s = (some tt, s)

-- The name is read as an IPv4 address, or looked up, if there is no address yet.
abbrev pub located : Net → ClientConnection → ClientConnection
located net con =
    if host_id_has_name con.dst_host && not (host_id_has_addr con.dst_host)
    then record con {
      dst_host = elim (net.pton con.dst_host.name) [
        | some a ↦
            host_id_set_addr_in con.dst_host
              (record { sin_port = htons (low_16 con.dst_host.port); sin_addr = a })
        | none ↦ (resolve_dns_for_host_id net con.dst_host).1
      ];
    }
    else con

abbrev pub with_fd : Session → ℤ → Session
with_fd s fd = record s { con = record s.con { fd_out = fd } }

abbrev pub with_failure : Session → ℕ → Session
with_failure s n = record s { failure_type = some n }

abbrev pub after_connect : Connect → ℕ → Peer → Session → Option (Unit {0}) × Session
after_connect connected fd peer s =
    (some tt, record (with_failure (with_fd s (pos fd)) reply_succeed) { peer = peer })
after_connect refused fd peer s =
    (none, with_failure (with_fd s (negsuc 0)) reply_connection_refused)
after_connect reset fd peer s = (none, with_failure (with_fd s (negsuc 0)) reply_connection_refused)
after_connect (other e) fd peer s = (none, with_fd s (negsuc 0))

abbrev pub dial_direct : Dial → M (Unit {0})
dial_direct d s = elim d.socket [
  | none ↦ (none, with_fd s (negsuc 0))
  | some fd ↦ after_connect d.connect fd d.peer s
]

unfoldable pub connect_direct : Net → Dialer → M (Unit {0})
connect_direct net dialer s =
    let s' = record s { con = located net s.con; failure_type = some reply_server_failure } in
    elim s'.con.dst_host.addr [
      | unspec ↦ (none, with_failure s' reply_address_type_not_supported)
      | inet a ↦ dial_direct (dialer a) s'
      | inet6 a ↦ (none, with_failure s' reply_address_type_not_supported)
    ]

abbrev pub with_status : Session → ℕ → Option Bytes → Option Bytes → Session
with_status s status name text = record s {
  con = set_client_connection_status s.con status name text;
}

-- `strerror` is the C library's; of ECONNRESET it is given as its own argument.
module _ (strerror : ℕ → Bytes) (reset_text : Bytes) where
  abbrev pub after_proxy_connect : Connect → ℕ → Peer → Session → Option (Unit {0}) × Session
  after_proxy_connect connected fd peer s = (some tt, record (with_fd s (pos fd)) { peer = peer })
  after_proxy_connect refused fd peer s = (
    none,
    with_status (with_fd s (negsuc 0)) ccstatus_okay (some (codes "Waiting"))
        (some (codes "SSH SOCKS5 proxy connection refused.")),
  )
  after_proxy_connect reset fd peer s =
      (none, with_status (with_fd s (negsuc 0)) ccstatus_error none (some reset_text))
  after_proxy_connect (other e) fd peer s =
      (none, with_status (with_fd s (negsuc 0)) ccstatus_error none (some (strerror e)))

  -- 127.0.0.1, and the port of the tunnel.
  abbrev pub proxy_address : SshTunnel → SockaddrIn
  proxy_address tun = record {
    sin_port = htons (low_16 tun.socks_port);
    sin_addr = htonl 0x7f00_0001;
  }

  unfoldable pub connect_to_ssh_socks5_proxy : Dialer → SshTunnel → M (Unit {0})
  connect_to_ssh_socks5_proxy dialer tun s =
      let d = dialer (proxy_address tun) in
      elim d.socket [
        | none ↦ (
          none,
          with_status (with_fd s (negsuc 0)) d.socket_errno (some (codes "Error"))
              (some (strerror d.socket_errno)),
        )
        | some fd ↦ after_proxy_connect d.connect fd d.peer s
      ]

  abbrev pub say : ℕ → Option Bytes → Option Bytes → M (Unit {0})
  say status name text s = (some tt, with_status s status name text)

  unfoldable pub connect_via_ssh_socks5 : Dialer → SshTunnel → M (Unit {0})
  connect_via_ssh_socks5 dialer tun s =
      (say ccstatus_okay (some (codes "Connecting"))
            (some (codes "Connecting to SSH SOCKS5 server"))
          >> connect_to_ssh_socks5_proxy dialer tun
          >> say ccstatus_okay (some (codes "Negotiating"))
              (some (codes "Negotiating connection with SSH SOCKS5 server"))
          >> sock5_client_negotiate_auth
          >> socks5_client_send_command
          >> socks5_client_get_command_response
          >> say ccstatus_okay none none)
        (with_failure s reply_server_failure)
