-- ===== src/Service/Defs.antt =====
-- service.c, service.h and the constructors of the three kinds of services. The functions that a
-- service holds are told apart by its kind.
use smart_socksproxy.Base.{ℕ, List, [], ◌∷◌, Bytes, ℤ, pos, negsuc}

-- What follows the `service` in memory: nothing, or `remote_host` and `remote_port` of a forwarded
-- port, or `base_dir` of a web server.
pub data Kind : Type 0 where
  kind_none : Kind
  kind_socks : Kind
  kind_port_forward : Bytes → ℤ → Kind
  kind_http : Bytes → Kind

pub record Service : Type 0 where
  pub id : ℕ
  pub kind : Kind
  pub bind_address : Bytes
  pub port : ℤ
  pub fd : ℤ

abbrev pub new_service : ℕ → Kind → Service
new_service id kind = record {
  id = id;
  kind = kind;
  bind_address = [];
  port = pos 0;
  fd = negsuc 0;
}

-- The new head.
abbrev pub insert_service : List Service → Service → List Service
insert_service head srv = srv ∷ head

abbrev pub new_service_socks : ℕ → Service
new_service_socks id = new_service id kind_socks

abbrev pub new_service_port_forward : ℕ → Service
new_service_port_forward id = new_service id (kind_port_forward [] (pos 0))

abbrev pub new_service_http : ℕ → Service
new_service_http id = new_service id (kind_http [])
