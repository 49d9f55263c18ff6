-- ===== src/Connection/Defs.antt =====
-- `client_connection` and what sets it up. The route and the tunnel that a connection points to
-- are a rule and the id of a tunnel.
use smart_socksproxy.Base.{ℕ, Bool, false, Option, none, some, [], Bytes, ℤ, pos, negsuc}
use smart_socksproxy.Clib.{strncpy}
use smart_socksproxy.Host.{HostId, host_id_init}
use smart_socksproxy.Rule.{RouteRule}

pub record ClientConnection : Type 0 where
  pub id : ℕ
  pub fd_in : ℤ
  pub fd_out : ℤ
  pub thread_should_exit : Bool
  pub thread_has_exited : Bool
  pub src_host : HostId
  pub bytes_tx : ℕ
  pub bytes_rx : ℕ
  pub start_time : ℕ
  pub end_time : ℕ
  pub status : ℕ
  pub status_name : Bytes
  pub status_description : Bytes
  pub route : Option RouteRule
  pub tunnel : Option ℕ
  pub socks_version : ℤ
  pub socks_command : ℕ
  pub socks_command_original : ℕ
  pub socks_address_type : ℕ
  pub socks_address_type_original : ℕ
  pub dst_host : HostId
  pub dst_host_original : HostId
  pub url_path : Bytes
  pub json_status_requested : Bool
  pub json_status_ready : Bool
  pub json_status_str : Option Bytes

abbrev pub ccstatus_okay : ℕ
ccstatus_okay = 0

abbrev pub ccstatus_error : ℕ
ccstatus_error = 1

abbrev pub ccstatus_err_internal : ℕ
ccstatus_err_internal = 2

abbrev pub ccstatus_err_network : ℕ
ccstatus_err_network = 3

-- The id comes from `id_pool`, the time from `time(NULL)`. The SOCKS fields, which the function
-- leaves unset, are 0 here; the handlers set them before they read them.
abbrev pub new_client_connection : ℕ → ℕ → ClientConnection
new_client_connection id now = record {
  id = id;
  fd_in = negsuc 0;
  fd_out = negsuc 0;
  thread_should_exit = false;
  thread_has_exited = false;
  src_host = host_id_init;
  bytes_tx = 0;
  bytes_rx = 0;
  start_time = now;
  end_time = 0;
  status = ccstatus_okay;
  status_name = [];
  status_description = [];
  route = none;
  tunnel = none;
  socks_version = pos 0;
  socks_command = 0;
  socks_command_original = 0;
  socks_address_type = 0;
  socks_address_type_original = 0;
  dst_host = host_id_init;
  dst_host_original = host_id_init;
  url_path = [];
  json_status_requested = false;
  json_status_ready = false;
  json_status_str = none;
}

text_or_empty : Option Bytes → ℕ → Bytes
text_or_empty none size = []
text_or_empty (some s) size = strncpy s size

-- The two texts may be NULL.
unfoldable pub set_client_connection_status :
    ClientConnection → ℕ → Option Bytes → Option Bytes → ClientConnection
unfolding text_or_empty
set_client_connection_status con status name description = record con {
  status = status;
  status_name = text_or_empty name 128;
  status_description = text_or_empty description 1024;
}
