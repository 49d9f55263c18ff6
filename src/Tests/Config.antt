-- ===== src/Tests/Config.antt =====
-- Specifications and files of rules at concrete inputs.
use smart_socksproxy.Base.{
  ℕ, ◌≡◌, refl, true, none, some, [], ◌∷◌, Bytes, codes, str_eq, if◌then◌else◌, ℤ, pos, arith,
}
use smart_socksproxy.Clib.{scan_int, strsep}
use smart_socksproxy.Rule.{RouteRule, new_route_rule, parse_route_rule_spec, insert_route_rule}
use smart_socksproxy.Tunnel.{ssh_tunnel_init}
use smart_socksproxy.Config.{
  Source, Rules, returns, route_rule_file_parse, added, add_all, inlined,
  route_rule_file_parse-inlined, remove_extra_spaces_and_comments_from_config_line,
  replace_environment_variables_in_string, config_set_string,
}
use smart_socksproxy.Service.{
  parse_service_port_forward_spec, specified, parse_service_port_forward_spec-parts,
}

abbrev two_files : Source
two_files = record {
  file = λ name.
      if str_eq name (codes "a")
      then some (
        true,
        codes "endsWith x via direct"
            ∷ codes "routeFile b"
            ∷ codes "routeFile a"
            ∷ codes "port 22 via direct"
            ∷ [],
      )
      else if str_eq name (codes "b")
      then some (true, [] ∷ codes "endsWith y via direct" ∷ [])
      else none;
  getenv = λ name. none;
  pton = λ s. none;
  beyond = λ s. [];
}

abbrev no_rules : Rules
no_rules = record { list = []; id_pool = 0 }

abbrev direct_rule : ℕ → Bytes → ℤ → RouteRule
direct_rule id filename line_num = record (new_route_rule id) {
  tunnel = 1 ∷ [];
  file_name = filename;
  file_line_number = line_num;
}

abbrev known_rules : Rules
known_rules = record {
  list =
      record (direct_rule 1 (codes "a") (pos 1)) { match_ends_with = codes "x" }
      ∷ record (direct_rule 2 (codes "b") (pos 2)) { match_ends_with = codes "y" }
      ∷ record (direct_rule 3 (codes "a") (pos 4)) { match_port = pos 22 }
      ∷ [];
  id_pool = 3;
}

they_are_rules :
    added two_files
      (ssh_tunnel_init [])
      (inlined two_files (ssh_tunnel_init []) 1 [] (codes "a"))
      no_rules
    ≡ some known_rules
unfolding inlined add_all str_eq remove_extra_spaces_and_comments_from_config_line
    replace_environment_variables_in_string config_set_string parse_route_rule_spec strsep scan_int
    insert_route_rule
they_are_rules = refl

route_rule_file_parse-inlined_example :
    route_rule_file_parse two_files (ssh_tunnel_init []) 1 [] (codes "a") no_rules
    ≡ returns true known_rules
route_rule_file_parse-inlined_example =
    route_rule_file_parse-inlined two_files (ssh_tunnel_init []) 1 [] (codes "a") no_rules
      known_rules they_are_rules

scanned_8080 : scan_int (codes "8080") ≡ some (pos 8080)
unfolding scan_int
scanned_8080 = refl

scanned_22 : scan_int (codes "22") ≡ some (pos 22)
unfolding scan_int
scanned_22 = refl

parse_service_port_forward_spec-parts_example :
    (parse_service_port_forward_spec (λ s. []) 6 (codes "10.0.0.1:8080:db.example:22")
      ≡ (some (specified 6 (codes "10.0.0.1") (pos 8080) (codes "db.example") (pos 22)), 7))
    × (parse_service_port_forward_spec (λ s. []) 6 (codes "8080:db.example:22")
        ≡ (some (specified 6 (codes "127.0.0.1") (pos 8080) (codes "db.example") (pos 22)), 7))
parse_service_port_forward_spec-parts_example =
    parse_service_port_forward_spec-parts (λ s. []) 6 (codes "10.0.0.1") (codes "8080")
      (codes "db.example") (codes "22") (pos 8080) (pos 22)
      (refl, (refl, (refl, (refl, (refl, (refl, (refl, (refl, tt))))))))
      (refl, (refl, (refl, (refl, tt))))
      (refl, (refl, (refl, (refl, (refl, (refl, (refl, (refl, (refl, (refl, tt))))))))))
      (refl, (refl, tt)) scanned_8080 scanned_22 (omega arith) (omega arith) (omega arith)
      (omega arith)
