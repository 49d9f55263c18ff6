-- ===== src/Rule/Defs.antt =====
-- `route_rule`, and the list of rules. A rule's tunnels are the ids of the tunnels.
use smart_socksproxy.Base.{ℕ, Bool, false, List, [], ◌∷◌, Bytes, ℤ, pos, negsuc}

pub record RouteRule : Type 0 where
  pub id : ℕ
  pub match_is : Bytes
  pub match_starts_with : Bytes
  pub match_ends_with : Bytes
  pub match_contains : Bytes
  pub match_port : ℤ
  pub have_match_ipv4 : Bool
  pub match_ipv4_addr : ℕ
  pub match_ipv4_mask : ℕ
  pub resolve_dns : Bool
  pub have_map_ipv4 : Bool
  pub map_ipv4_addr : ℕ
  pub map_ipv4_mask : ℕ
  pub have_to_ipv4 : Bool
  pub to_ipv4_addr : ℕ
  pub to_ipv4_mask : ℕ
  pub tunnel : List ℕ
  pub file_name : Bytes
  pub file_line_number : ℤ

abbrev pub max_tunnels : ℕ
max_tunnels = 100

-- The id comes from `route_rule_id_pool`.
abbrev pub new_route_rule : ℕ → RouteRule
new_route_rule id = record {
  id = id;
  match_is = [];
  match_starts_with = [];
  match_ends_with = [];
  match_contains = [];
  match_port = pos 0;
  have_match_ipv4 = false;
  match_ipv4_addr = 0;
  match_ipv4_mask = 0;
  resolve_dns = false;
  have_map_ipv4 = false;
  map_ipv4_addr = 0;
  map_ipv4_mask = 0;
  have_to_ipv4 = false;
  to_ipv4_addr = 0;
  to_ipv4_mask = 0;
  tunnel = [];
  file_name = [];
  file_line_number = negsuc 0;
}

-- The new rule goes to the end.
unfoldable pub insert_route_rule : List RouteRule → RouteRule → List RouteRule
insert_route_rule [] route = route ∷ []
insert_route_rule (r ∷ rs) route = r ∷ insert_route_rule rs route
