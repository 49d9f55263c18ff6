-- ===== src/Json/Items.antt =====
-- What is written of a service, a tunnel, a connection and a proxy is the text of its JSON object.
use smart_socksproxy.Base.{
  ◌≡◌, refl, ap, Bool, not, ◌&&◌, if◌then◌else◌, List, [], ◌∷◌, ◌++◌, Bytes, codes, ltb, is_some,
}
use smart_socksproxy.Clib.{decimal}
use smart_socksproxy.Host.{host_id_has_name, host_id_has_addr}
use smart_socksproxy.Tunnel.{SshTunnel}
use smart_socksproxy.Service.{Kind, kind_none, kind_socks, kind_port_forward, kind_http, Service}
use smart_socksproxy.Proxy.{ProxyInstance}
use smart_socksproxy.Connection.{ClientConnection}
use smart_socksproxy.Json.Buffer.{joined}
use smart_socksproxy.Json.Writers.{add_kind, add_service}
use smart_socksproxy.Json.Tree.{str, obj, Fields, when, value_onto, fields_onto}
use smart_socksproxy.Json.State.{
  is_http, is_routed, is_empty, add_ssh_tunnel, add_client_connection, add_proxy_instance,
  is_positive, only_if, route_texts,
}
use smart_socksproxy.Json.Document.{
  service_fields, kind_fields, tunnel_fields, connection_fields, proxy_fields, route_fields,
}
use smart_socksproxy.Json.Pieces.{
  Closes, string_field, number_field, unsigned_field, keyed_unsigned, keyed_string, keyed_object,
  last_number, last_unsigned, last_object, optional, each-fields,
}

-- An item is its key and the texts of its fields.
object_of :
    (k : Bytes) (texts : List Bytes) (fs : Fields)
    → Closes texts fs
    → (rest : Bytes)
    → joined (codes "\"" ∷ k ∷ codes "\":{" ∷ texts) rest
      ≡ b'"' ∷ k ++ b'"' ∷ b':' ∷ value_onto (obj fs) rest
unfolding joined fields_onto
object_of k texts fs c rest = ap (λ t. b'"' ∷ (k ++ b'"' ∷ b':' ∷ b'{' ∷ t)) (c.first rest)

kind-Closes :
    (kind : Kind) {texts : List Bytes} {fs : Fields}
    → Closes texts fs
    → Closes (add_kind kind ++ texts) (kind_fields kind fs)
unfolding add_kind
kind-Closes kind_none c = c
kind-Closes kind_socks c = c
kind-Closes (kind_port_forward host port) c = string_field (number_field c)
kind-Closes (kind_http base_dir) c = keyed_string c refl

service_item :
    (srv : Service) (rest : Bytes)
    → joined (add_service srv) rest
      ≡ b'"' ∷ decimal srv.id ++ b'"' ∷ b':' ∷ value_onto (obj (service_fields srv)) rest
unfolding add_service service_fields
service_item srv = object_of (decimal srv.id) _ _ (
    unsigned_field
      (keyed_string (kind-Closes srv.kind (keyed_string (last_number refl) refl)) refl))

pub tunnel_item :
    (ssh : SshTunnel) (rest : Bytes)
    → joined (add_ssh_tunnel ssh) rest
      ≡ b'"' ∷ ssh.name ++ b'"' ∷ b':' ∷ value_onto (obj (tunnel_fields ssh)) rest
unfolding add_ssh_tunnel tunnel_fields
tunnel_item ssh = object_of ssh.name _ _ (
    string_field (
      optional (is_positive ssh.pid) _
        (keyed_unsigned (keyed_unsigned (keyed_unsigned (last_number refl) refl) refl) refl)
        (last_number refl)))

-- A text that is written on a condition.
maybe_string :
    (given : Bool) (k s : Bytes) {texts : List Bytes} {fs : Fields}
    → Closes texts fs
    → Closes
        (only_if given (codes "\"" ∷ k ∷ codes "\":\"" ∷ s ∷ codes "\"" ∷ codes "," ∷ []) ++ texts)
        (when given k (str s) fs)
maybe_string given k s c = optional given _ (string_field c) c

module _ (ntop ntop6 : Bytes → Bytes) (tunnels : List SshTunnel) where
  connection_item :
      (p : Service × ClientConnection) (rest : Bytes)
      → joined (add_client_connection ntop ntop6 tunnels p) rest
        ≡ b'"' ∷ decimal p.1.id
          ++ b'"' ∷ b':' ∷ value_onto (obj (connection_fields ntop ntop6 tunnels p)) rest
  unfolding add_client_connection connection_fields
  connection_item (srv, con) = object_of (decimal con.id) _ _ (
      unsigned_field (
        keyed_unsigned
          (routed (
            maybe_string (host_id_has_name con.dst_host_original) _ _ (
              maybe_string (host_id_has_addr con.dst_host_original) _ _ (
                number_field (
                  maybe_string (host_id_has_name con.dst_host) _ _ (
                    maybe_string (host_id_has_addr con.dst_host) _ _ (
                      number_field (
                        number_field (
                          maybe_string (not (is_empty con.status_name)) _ _ (
                            maybe_string (not (is_empty con.status_description)) _ _ (
                              keyed_unsigned
                                (keyed_unsigned
                                  (maybe_string (is_http srv.kind && not (is_empty con.url_path)) _
                                    _
                                    (maybe_string (host_id_has_name con.src_host) _ _ (
                                      string_field (
                                        number_field (
                                          optional (ltb 0 con.end_time) _
                                            (keyed_unsigned (last_unsigned refl) refl)
                                            (last_unsigned refl))))))
                                  refl)
                                refl)))))))))))
          refl))
    where
      routed :
          {texts : List Bytes} {fs : Fields}
          → Closes texts fs
          → Closes
              (only_if (is_routed srv.kind && is_some con.tunnel) (route_texts tunnels con)
                ++ texts)
              (if is_routed srv.kind && is_some con.tunnel
                then route_fields ntop ntop6 tunnels con fs
                else fs)
      routed c =
          optional (is_routed srv.kind && is_some con.tunnel) _
            (keyed_string (number_field (number_field c)) refl) c

  pub proxy_item :
      (proxy : ProxyInstance) (rest : Bytes)
      → joined (add_proxy_instance ntop ntop6 tunnels proxy) rest
        ≡ b'"' ∷ proxy.name
          ++ b'"' ∷ b':' ∷ value_onto (obj (proxy_fields ntop ntop6 tunnels proxy)) rest
  unfolding add_proxy_instance proxy_fields
  proxy_item proxy = object_of proxy.name _ _ (
      string_field (
        keyed_string
          (keyed_string
            (keyed_object
              (last_object _ refl (
                each-fields (add_client_connection ntop ntop6 tunnels) (λ p. decimal p.1.id)
                  (connection_fields ntop ntop6 tunnels) connection_item
                  proxy.client_connection_list))
              _ refl
              (each-fields add_service (λ srv. decimal srv.id) service_fields service_item
                proxy.service_list))
            refl)
          refl))
