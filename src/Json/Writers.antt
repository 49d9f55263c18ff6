-- ===== src/Json/Writers.antt =====
-- The functions that write the state: each is the list of the texts that it hands to `add_to_buf`.
-- Only that function touches the buffer.
use smart_socksproxy.Base.{ℕ, suc, List, [], ◌∷◌, ◌++◌, Bytes, codes, ℤ, pos, negsuc}
use smart_socksproxy.Clib.{decimal}
use smart_socksproxy.Service.{Kind, kind_none, kind_socks, kind_port_forward, kind_http, Service}

-- `%lli`
unfoldable pub signed_decimal : ℤ → Bytes
signed_decimal (pos n) = decimal n
signed_decimal (negsuc n) = b'-' ∷ decimal (suc n)

abbrev pub steps : List (List Bytes) → List Bytes
steps [] = []
steps (step ∷ rest) = step ++ steps rest

abbrev pub text : Bytes → List Bytes
text s = s ∷ []

abbrev pub add_to_buf_int : ℤ → List Bytes
add_to_buf_int value = signed_decimal value ∷ []

abbrev pub add_to_buf_uint : ℕ → List Bytes
add_to_buf_uint value = decimal value ∷ []

abbrev pub add_string : Bytes → Bytes → List Bytes
add_string name value = codes "\"" ∷ name ∷ codes "\":\"" ∷ value ∷ codes "\"" ∷ []

abbrev pub add_int : Bytes → ℤ → List Bytes
add_int name value = codes "\"" ∷ name ∷ codes "\":" ∷ add_to_buf_int value

abbrev pub add_uint : Bytes → ℕ → List Bytes
add_uint name value = codes "\"" ∷ name ∷ codes "\":" ∷ add_to_buf_uint value

abbrev pub add_comma : List Bytes
add_comma = codes "," ∷ []

abbrev pub type_name : Kind → Bytes
type_name kind_none = codes "none"
type_name kind_socks = codes "SOCKS"
type_name (kind_port_forward host port) = codes "portForward"
type_name (kind_http base_dir) = codes "HTTP"

-- What only some kinds of services have.
unfoldable pub add_kind : Kind → List Bytes
add_kind kind_none = []
add_kind kind_socks = []
add_kind (kind_port_forward host port) = steps (
    add_string (codes "remoteAddress") host
    ∷ add_comma
    ∷ add_int (codes "remotePort") port
    ∷ add_comma
    ∷ [])
add_kind (kind_http base_dir) =
    steps (text (codes "\"baseDir\":\"") ∷ text base_dir ∷ text (codes "\",") ∷ [])

unfoldable pub add_service : Service → List Bytes
unfolding add_kind
add_service srv = steps (
    text (codes "\"")
    ∷ add_to_buf_uint srv.id
    ∷ text (codes "\":{")
    ∷ add_uint (codes "serviceId") srv.id
    ∷ add_comma
    ∷ text (codes "\"type\":\"")
    ∷ text (type_name srv.kind)
    ∷ text (codes "\",")
    ∷ add_kind srv.kind
    ∷ text (codes "\"localAddress\":\"")
    ∷ text srv.bind_address
    ∷ text (codes "\",")
    ∷ text (codes "\"localPort\":")
    ∷ add_to_buf_int srv.port
    ∷ text (codes "}")
    ∷ [])
