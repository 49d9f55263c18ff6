-- ===== src/Proxy.antt =====
-- proxy_instance.c: the instances of the proxy, each with its log, services, rules and connections.
use smart_socksproxy.Base.{Option, none, some, List, [], ◌∷◌, Bytes, codes, ℤ, pos}
use smart_socksproxy.LogFile.{LogFile}
use smart_socksproxy.Rule.{RouteRule}
use smart_socksproxy.Service.{Service}
use smart_socksproxy.Connection.{ClientConnection}

-- A connection stands with the service that its `srv` points to.
pub record ProxyInstance : Type 0 where
  pub name : Bytes
  pub log_level : ℤ
  pub log_file : Option LogFile
  pub service_list : List Service
  pub route_rule_list : List RouteRule
  pub client_connection_list : List (Service × ClientConnection)

-- `log_config_init` leaves no file; the level is LOG_LEVEL_ERROR.
abbrev pub new_proxy_instance : ProxyInstance
new_proxy_instance = record {
  name = codes "x";
  log_level = pos 5;
  log_file = none;
  service_list = [];
  route_rule_list = [];
  client_connection_list = [];
}

-- The new instance is the last.
unfoldable pub insert_proxy_instance : List ProxyInstance → ProxyInstance → List ProxyInstance
insert_proxy_instance [] pinst = pinst ∷ []
insert_proxy_instance (pp ∷ rest) pinst = pp ∷ insert_proxy_instance rest pinst

-- The template may be NULL.
unfoldable pub new_proxy_instance_from_template : Option ProxyInstance → ProxyInstance
new_proxy_instance_from_template none = new_proxy_instance
new_proxy_instance_from_template (some template) = record new_proxy_instance {
  log_level = template.log_level;
  log_file = template.log_file;
}
