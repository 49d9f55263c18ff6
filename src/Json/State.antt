-- ===== src/Json/State.antt =====
-- The functions that write connections, proxies, tunnels and the whole state.
use smart_socksproxy.Base.{
  ℕ, Bool, true, false, not, ◌&&◌, Option, none, some, List, [], ◌∷◌, ◌++◌, Bytes, codes, ltb, ◌==◌,
  if◌then◌else◌, ℤ, pos, negsuc, eq_ℤ, is_some,
}
use smart_socksproxy.Host.{
  HostId, host_id_has_name, host_id_has_addr, host_id_get_name, host_id_get_port, host_id_addr_str,
}
use smart_socksproxy.LogLevel.{log_level_str}
use smart_socksproxy.LogFile.{LogFile}
use smart_socksproxy.Tunnel.{SshTunnel}
use smart_socksproxy.Service.{Kind, kind_none, kind_socks, kind_port_forward, kind_http, Service}
use smart_socksproxy.Proxy.{ProxyInstance}
use smart_socksproxy.Connection.{ClientConnection}
use smart_socksproxy.Json.Buffer.{Buf, add_each}
use smart_socksproxy.Json.Writers.{
  steps, text, add_to_buf_int, add_to_buf_uint, add_string, add_int, add_uint, add_comma,
  add_service,
}

-- `if (…)` around a few calls.
abbrev pub only_if : Bool → List Bytes → List Bytes
only_if given texts = if given then texts else []

-- A loop that writes a comma before each item but the first.
unfoldable pub each {ℓ} : {A : Type ℓ} → (A → List Bytes) → Bool → List A → List Bytes
each add need_comma [] = []
each add need_comma (x ∷ xs) = only_if need_comma (text (codes ",")) ++ add x ++ each add true xs

abbrev pub is_http : Kind → Bool
is_http (kind_http base_dir) = true
is_http _ = false

-- The services that make routed connections.
abbrev pub is_routed : Kind → Bool
is_routed kind_none = false
is_routed kind_socks = true
is_routed (kind_port_forward host port) = true
is_routed (kind_http base_dir) = false

abbrev pub is_empty : Bytes → Bool
is_empty [] = true
is_empty (c ∷ cs) = false

-- `con->tunnel->name`
unfoldable pub tunnel_name : List SshTunnel → Option ℕ → Bytes
tunnel_name tunnels none = []
tunnel_name [] (some id) = []
tunnel_name (ssh ∷ tunnels) (some id) =
    if ssh.id == id then ssh.name else tunnel_name tunnels (some id)

-- What the build writes into version.h.
pub record Build : Type 0 where
  pub version : Bytes
  pub build_date : Bytes
  pub git_hash : Bytes

abbrev pub level_text : Option Bytes → Bytes
level_text none = []
level_text (some name) = name

abbrev pub log_file_text : Option LogFile → Bytes
log_file_text none = codes "-"
log_file_text (some log) = log.file_name

-- `if (ssh->socks_port == 0) continue;` before an item.
unfoldable pub listed : List SshTunnel → List SshTunnel
listed [] = []
listed (ssh ∷ tunnels) =
    let rest = listed tunnels in if eq_ℤ ssh.socks_port (pos 0) then rest else ssh ∷ rest

abbrev pub is_positive : ℤ → Bool
is_positive (pos n) = ltb 0 n
is_positive (negsuc n) = false

-- `%llu` of a pid.
abbrev pub pid_value : ℤ → ℕ
pid_value (pos n) = n
pid_value (negsuc n) = 0

unfoldable pub add_ssh_tunnel : SshTunnel → List Bytes
add_ssh_tunnel ssh = steps (
    text (codes "\"")
    ∷ text ssh.name
    ∷ text (codes "\":{")
    ∷ add_string (codes "name") ssh.name
    ∷ add_comma
    ∷ only_if (is_positive ssh.pid) (
        steps (
          text (codes "\"pid\":")
          ∷ add_to_buf_uint (pid_value ssh.pid)
          ∷ text (codes ",")
          ∷ text (codes "\"timeStart\":")
          ∷ add_to_buf_uint ssh.start_time
          ∷ text (codes ",")
          ∷ text (codes "\"numConnections\":")
          ∷ add_to_buf_uint ssh.connection_count
          ∷ text (codes ",")
          ∷ []))
    ∷ text (codes "\"socksPort\":")
    ∷ add_to_buf_int ssh.socks_port
    ∷ text (codes "}")
    ∷ [])

abbrev pub route_texts : List SshTunnel → ClientConnection → List Bytes
route_texts tunnels con = steps (
    text (codes "\"route\":\"")
    ∷ text (tunnel_name tunnels con.tunnel)
    ∷ text (codes "\",")
    ∷ add_int (codes "socksVersion") con.socks_version
    ∷ add_comma
    ∷ add_int (codes "socksCommand") (pos con.socks_command)
    ∷ add_comma
    ∷ [])

-- `ntop` and `ntop6` are `inet_ntop`. The text of an address is empty where the code has NULL, for a
-- host with no address: a source always has one, and the others are tested.
module _ (ntop ntop6 : Bytes → Bytes) where
  unfoldable pub addr_str : HostId → Bytes
  addr_str id = elim (host_id_addr_str ntop ntop6 id 1023) [ none ↦ [] | some s ↦ s ]

  module _ (tunnels : List SshTunnel) where
    unfoldable pub add_client_connection : Service × ClientConnection → List Bytes
    add_client_connection (srv, con) = steps (
        text (codes "\"")
        ∷ add_to_buf_uint con.id
        ∷ text (codes "\":{")
        ∷ add_uint (codes "connectionId") con.id
        ∷ add_comma
        ∷ text (codes "\"service\":")
        ∷ add_to_buf_uint srv.id
        ∷ text (codes ",")
        ∷ only_if (is_routed srv.kind && is_some con.tunnel) (route_texts tunnels con)
        ∷ only_if (host_id_has_name con.dst_host_original)
            (add_string (codes "remoteName") (host_id_get_name con.dst_host_original) ++ add_comma)
        ∷ only_if (host_id_has_addr con.dst_host_original)
            (add_string (codes "remoteAddress") (addr_str con.dst_host_original) ++ add_comma)
        ∷ add_int (codes "remotePort") (host_id_get_port con.dst_host_original)
        ∷ add_comma
        ∷ only_if (host_id_has_name con.dst_host)
            (add_string (codes "remoteNameEffective") (host_id_get_name con.dst_host) ++ add_comma)
        ∷ only_if (host_id_has_addr con.dst_host)
            (add_string (codes "remoteAddressEffective") (addr_str con.dst_host) ++ add_comma)
        ∷ add_int (codes "remotePortEffective") (host_id_get_port con.dst_host)
        ∷ add_comma
        ∷ add_int (codes "status") (pos con.status)
        ∷ add_comma
        ∷ only_if (not (is_empty con.status_name))
            (add_string (codes "statusName") con.status_name ++ add_comma)
        ∷ only_if (not (is_empty con.status_description))
            (add_string (codes "statusDescription") con.status_description ++ add_comma)
        ∷ text (codes "\"bytesTx\":")
        ∷ add_to_buf_uint con.bytes_tx
        ∷ text (codes ",")
        ∷ text (codes "\"bytesRx\":")
        ∷ add_to_buf_uint con.bytes_rx
        ∷ text (codes ",")
        ∷ only_if (is_http srv.kind && not (is_empty con.url_path))
            (add_string (codes "urlPath") con.url_path ++ add_comma)
        ∷ only_if (host_id_has_name con.src_host)
            (add_string (codes "sourceName") (host_id_get_name con.src_host) ++ add_comma)
        ∷ add_string (codes "sourceAddress") (addr_str con.src_host)
        ∷ add_comma
        ∷ add_int (codes "sourcePort") (host_id_get_port con.src_host)
        ∷ add_comma
        ∷ only_if (ltb 0 con.end_time) (
            steps
              (text (codes "\"timeEnd\":") ∷ add_to_buf_uint con.end_time ∷ text (codes ",") ∷ []))
        ∷ text (codes "\"timeStart\":")
        ∷ add_to_buf_uint con.start_time
        ∷ text (codes "}")
        ∷ [])

    -- The name of the level is NULL, which is not written here, for a level that does not exist.
    unfoldable pub add_proxy_instance : ProxyInstance → List Bytes
    unfolding each
    add_proxy_instance proxy = steps (
        text (codes "\"")
        ∷ text proxy.name
        ∷ text (codes "\":{")
        ∷ add_string (codes "name") proxy.name
        ∷ add_comma
        ∷ text (codes "\"logLevel\":\"")
        ∷ text (level_text (log_level_str proxy.log_level))
        ∷ text (codes "\",")
        ∷ text (codes "\"logFilename\":\"")
        ∷ text (log_file_text proxy.log_file)
        ∷ text (codes "\",")
        ∷ text (codes "\"service\":{")
        ∷ each add_service false proxy.service_list
        ∷ text (codes "},")
        ∷ text (codes "\"connection\":{")
        ∷ each add_client_connection false proxy.client_connection_list
        ∷ text (codes "}")
        ∷ text (codes "}")
        ∷ [])

    -- The texts from the first brace to the last.
    unfoldable pub add_state : Build → ℕ → ℕ → List ProxyInstance → List Bytes
    unfolding each listed
    add_state build now proxy_start_time proxies = steps (
        text (codes "{")
        ∷ add_int (codes "currentTime") (pos now)
        ∷ add_comma
        ∷ add_int (codes "proxyStartTime") (pos proxy_start_time)
        ∷ add_comma
        ∷ add_string (codes "version") build.version
        ∷ add_comma
        ∷ add_string (codes "buildDate") build.build_date
        ∷ add_comma
        ∷ add_string (codes "gitHash") build.git_hash
        ∷ add_comma
        ∷ text (codes "\"proxyInstance\":{")
        ∷ each add_proxy_instance false proxies
        ∷ text (codes "},")
        ∷ text (codes "\"sshTunnel\":{")
        ∷ each add_ssh_tunnel false (listed tunnels)
        ∷ text (codes "}")
        ∷ text (codes "}")
        ∷ [])

    -- The buffer starts with `default_size` bytes; `none` where `malloc` fails. The final size is the
    -- next `default_size`.
    unfoldable pub build_json :
        (ℕ → Bool) → Bool → ℕ → Build → ℕ → ℕ → List ProxyInstance → Option Buf
    build_json realloc malloc default_size build now proxy_start_time proxies =
        if malloc
        then some (
            add_each realloc (record { text = []; size = default_size })
              (add_state build now proxy_start_time proxies))
        else none
