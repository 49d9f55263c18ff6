-- ===== src/Json/Document.antt =====
-- The state as a JSON value.
use smart_socksproxy.Base.{
  ℕ, not, ◌&&◌, List, [], ◌∷◌, Bytes, codes, ltb, if◌then◌else◌, pos, is_some,
}
use smart_socksproxy.Clib.{decimal}
use smart_socksproxy.Host.{HostId, host_id_has_name, host_id_has_addr}
use smart_socksproxy.LogLevel.{log_level_str}
use smart_socksproxy.Tunnel.{SshTunnel}
use smart_socksproxy.Service.{Kind, kind_none, kind_socks, kind_port_forward, kind_http, Service}
use smart_socksproxy.Proxy.{ProxyInstance}
use smart_socksproxy.Connection.{ClientConnection}
use smart_socksproxy.Json.Writers.{type_name}
use smart_socksproxy.Json.Tree.{Value, str, num, obj, Fields, end, field, when}
use smart_socksproxy.Json.State.{
  is_http, is_routed, is_empty, tunnel_name, addr_str, level_text, log_file_text, listed,
  is_positive, pid_value, Build,
}

unfoldable pub fields_of {ℓ} : {A : Type ℓ} → (A → Bytes) → (A → Fields) → List A → Fields
fields_of key value [] = end
fields_of key value (x ∷ xs) = field (key x) (obj (value x)) (fields_of key value xs)

abbrev pub kind_fields : Kind → Fields → Fields
kind_fields kind_none fs = fs
kind_fields kind_socks fs = fs
kind_fields (kind_port_forward host port) fs =
    field (codes "remoteAddress") (str host) (field (codes "remotePort") (num port) fs)
kind_fields (kind_http base_dir) fs = field (codes "baseDir") (str base_dir) fs

unfoldable pub service_fields : Service → Fields
service_fields srv = field (codes "serviceId") (num (pos srv.id)) (
    field (codes "type") (str (type_name srv.kind)) (
      kind_fields srv.kind (
        field (codes "localAddress") (str srv.bind_address)
          (field (codes "localPort") (num srv.port) end))))

abbrev pub pid_fields : SshTunnel → Fields → Fields
pid_fields ssh fs = field (codes "pid") (num (pos (pid_value ssh.pid))) (
    field (codes "timeStart") (num (pos ssh.start_time))
      (field (codes "numConnections") (num (pos ssh.connection_count)) fs))

unfoldable pub tunnel_fields : SshTunnel → Fields
tunnel_fields ssh =
    let last = field (codes "socksPort") (num ssh.socks_port) end in
    field (codes "name") (str ssh.name) (if is_positive ssh.pid then pid_fields ssh last else last)

module _ (ntop ntop6 : Bytes → Bytes) (tunnels : List SshTunnel) where
  abbrev pub source_fields : ClientConnection → Fields
  source_fields con =
      when (host_id_has_name con.src_host) (codes "sourceName") (str con.src_host.name) (
        field (codes "sourceAddress") (str (addr_str ntop ntop6 con.src_host)) (
          field (codes "sourcePort") (num con.src_host.port) (
            when (ltb 0 con.end_time) (codes "timeEnd") (num (pos con.end_time))
              (field (codes "timeStart") (num (pos con.start_time)) end))))

  abbrev pub status_fields : ClientConnection → Fields → Fields
  status_fields con fs = field (codes "status") (num (pos con.status)) (
      when (not (is_empty con.status_name)) (codes "statusName") (str con.status_name) (
        when (not (is_empty con.status_description)) (codes "statusDescription")
          (str con.status_description)
          (field (codes "bytesTx") (num (pos con.bytes_tx))
            (field (codes "bytesRx") (num (pos con.bytes_rx)) fs))))

  -- A host under three keys: its name, its address and its port.
  abbrev pub host_fields : HostId → Bytes → Bytes → Bytes → Fields → Fields
  host_fields id name address port fs = when (host_id_has_name id) name (str id.name) (
      when (host_id_has_addr id) address (str (addr_str ntop ntop6 id))
        (field port (num id.port) fs))

  abbrev pub route_fields : ClientConnection → Fields → Fields
  route_fields con fs = field (codes "route") (str (tunnel_name tunnels con.tunnel)) (
      field (codes "socksVersion") (num con.socks_version)
        (field (codes "socksCommand") (num (pos con.socks_command)) fs))

  abbrev pub after_route : Service → ClientConnection → Fields
  after_route srv con =
      host_fields con.dst_host_original (codes "remoteName") (codes "remoteAddress")
        (codes "remotePort")
        (host_fields con.dst_host (codes "remoteNameEffective") (codes "remoteAddressEffective")
          (codes "remotePortEffective")
          (status_fields con (
            when (is_http srv.kind && not (is_empty con.url_path)) (codes "urlPath")
              (str con.url_path) (source_fields con))))

  unfoldable pub connection_fields : Service × ClientConnection → Fields
  connection_fields (srv, con) = field (codes "connectionId") (num (pos con.id)) (
      field (codes "service") (num (pos srv.id)) (
        if is_routed srv.kind && is_some con.tunnel
        then route_fields con (after_route srv con)
        else after_route srv con))

  unfoldable pub proxy_fields : ProxyInstance → Fields
  unfolding fields_of service_fields connection_fields
  proxy_fields proxy = field (codes "name") (str proxy.name) (
      field (codes "logLevel") (str (level_text (log_level_str proxy.log_level))) (
        field (codes "logFilename") (str (log_file_text proxy.log_file)) (
          field (codes "service")
            (obj (fields_of (λ srv. decimal srv.id) service_fields proxy.service_list))
            (field (codes "connection")
              (obj (fields_of (λ p. decimal p.1.id) connection_fields proxy.client_connection_list))
              end))))

  unfoldable pub state_value : Build → ℕ → ℕ → List ProxyInstance → Value
  unfolding fields_of proxy_fields tunnel_fields
  state_value build now proxy_start_time proxies = obj (
      field (codes "currentTime") (num (pos now)) (
        field (codes "proxyStartTime") (num (pos proxy_start_time)) (
          field (codes "version") (str build.version) (
            field (codes "buildDate") (str build.build_date) (
              field (codes "gitHash") (str build.git_hash) (
                field (codes "proxyInstance")
                  (obj (fields_of (λ proxy. proxy.name) proxy_fields proxies))
                  (field (codes "sshTunnel")
                    (obj (fields_of (λ ssh. ssh.name) tunnel_fields (listed tunnels))) end)))))))
