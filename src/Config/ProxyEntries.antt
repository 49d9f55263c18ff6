-- ===== src/Config/ProxyEntries.antt =====
-- `config_file_parse_proxy_instance_entry`: the lines of a proxy's section.
use smart_socksproxy.Base.{
  ℕ, zero, suc, Bool, true, false, ◌&&◌, ◌||◌, length, Option, none, some, List, [], ◌∷◌, ◌++◌,
  Bytes, codes, take, ltb, ◌==◌, if◌then◌else◌, pos, eq_ℤ,
}
use smart_socksproxy.LogLevel.{log_level_from_str, log_level_invalid}
use smart_socksproxy.LogFile.{find_or_create_log_file}
use smart_socksproxy.Rule.{
  Parsed, rule, refused, undefined, exhausted, insert_route_rule, parse_route_rule_spec,
}
use smart_socksproxy.Service.{
  Service, insert_service, parse_service_socks_spec, parse_service_port_forward_spec,
  parse_service_http_spec,
}
use smart_socksproxy.Proxy.{ProxyInstance}
use smart_socksproxy.Config.RuleFile.{
  Source, Rules, Result, returns, crashed, route_rule_file_parse,
}
use smart_socksproxy.Config.Sections.{Config, Parsing, continues, exits, crashes}
use smart_socksproxy.Config.Entries.{set, or_else, or_exits, on_value}

-- A service that a specification describes becomes the first of the proxy.
unfoldable pub with_service :
    ProxyInstance → Config → Option Service × ℕ → Parsing (ProxyInstance × Config)
with_service proxy c (none, pool) = exits
with_service proxy c (some srv, pool) = continues (
  record proxy { service_list = insert_service proxy.service_list srv },
  record c { service_id_pool = pool },
)

abbrev pub rules_of : ProxyInstance → Config → Rules
rules_of proxy c = record { list = proxy.route_rule_list; id_pool = c.rule_id_pool }

abbrev with_rules : ProxyInstance → Config → Rules → ProxyInstance × Config
with_rules proxy c rules =
    (record proxy { route_rule_list = rules.list }, record c { rule_id_pool = rules.id_pool })

unfoldable pub add_rule : ProxyInstance → Config → Parsed → Parsing (ProxyInstance × Config)
add_rule proxy c (rule r) = continues (
    with_rules proxy c
      (record { list = insert_route_rule proxy.route_rule_list r; id_pool = suc c.rule_id_pool }))
add_rule proxy c refused = exits
add_rule proxy c undefined = crashes
add_rule proxy c exhausted = crashes

unfoldable pub take_rules : ProxyInstance → Config → Result Rules → Parsing (ProxyInstance × Config)
take_rules proxy c (returns true rules) = continues (with_rules proxy c rules)
take_rules proxy c (returns false rules) = exits
take_rules proxy c crashed = crashes

-- `strcmp(a, b) > 0`
unfoldable pub is_behind : Bytes → Bytes → Bool
is_behind [] b = false
is_behind (x ∷ a) [] = true
is_behind (x ∷ a) (y ∷ b) = let rest = is_behind a b in ltb y x || (x == y && rest)

-- The inner loop: the first of the lowest names, and the others in their order. A name that has been
-- taken is empty in the source, which skips it; here it is left out.
unfoldable pub lowest : Bytes → List Bytes → Bytes × List Bytes
unfolding is_behind
lowest low [] = (low, [])
lowest low (name ∷ rest) =
    let kept = lowest low rest in
    let lower = lowest name rest in
    if is_behind low name then (lower.0, low ∷ lower.1) else (kept.0, name ∷ kept.1)

-- The outer loop, as often as there are names.
unfoldable pub sorted : ℕ → List Bytes → List Bytes
unfolding lowest
sorted zero names = []
sorted (suc n) [] = []
sorted (suc n) (name ∷ rest) = let (low, others) = lowest name rest in low ∷ sorted n others

-- The regular files and links of a directory, cut to their buffers.
unfoldable pub file_list : List (Bytes × Bool) → List Bytes
file_list [] = []
file_list ((name, is_file) ∷ entries) =
    let rest = file_list entries in if is_file then take 4095 name ∷ rest else rest

-- ROUTE_RULE_DIR_MAX_FILES.
abbrev pub most_files : ℕ
most_files = 200

-- One more than what is left of ROUTE_RULE_FILENAME_STACK_SIZE behind the first file.
abbrev pub stack_room : ℕ
stack_room = 199

module _ (source : Source) (directory : Bytes → Option (List (Bytes × Bool))) where
  abbrev pub read_rules : ProxyInstance → Config → Bytes → Parsing (ProxyInstance × Config)
  read_rules proxy c name =
      take_rules proxy c
        (route_rule_file_parse source c.ssh_tunnel_list stack_room [] name (rules_of proxy c))

  -- The files of a directory, one after another, until one fails.
  unfoldable pub route_files :
      Bytes → List Bytes → ProxyInstance → Config → Parsing (ProxyInstance × Config)
  unfolding take_rules
  route_files dir [] proxy c = continues (proxy, c)
  route_files dir (name ∷ rest) proxy c =
      elim (read_rules proxy c (take 4095 (dir ++ b'/' ∷ name))) [
        | continues (proxy', c') ↦ route_files dir rest proxy' c'
        | exits ↦ exits
        | crashes ↦ crashes
      ]

  -- More files than that are written past the end of the array.
  unfoldable pub route_dir : Bytes → ProxyInstance → Config → Parsing (ProxyInstance × Config)
  unfolding file_list sorted route_files
  route_dir dir proxy c = elim (directory dir) [
    | none ↦ exits
    | some entries ↦
        let names = file_list entries in
        if ltb most_files (length names)
        then crashes
        else route_files dir (sorted (length names) names) proxy c
  ]

  -- `filename` and `line_num` are those of the line.
  unfoldable pub config_file_parse_proxy_instance_entry :
      Bytes → ℕ → Bytes → ProxyInstance → Config → Parsing (ProxyInstance × Config)
  unfolding with_service add_rule take_rules route_dir
  config_file_parse_proxy_instance_entry filename line_num line proxy c =
      let log =
        on_value
          (λ name.
            let (log, logs) =
              find_or_create_log_file c.log_file_list (some c.log_file_default) name in
            continues (record proxy { log_file = some log }, record c { log_file_list = logs }))
          (set source.beyond line (codes "logFilename ")) in
      let level =
        on_value
          (λ str.
            let level = log_level_from_str (some str) in
            if eq_ℤ level log_level_invalid
            then exits
            else continues (record proxy { log_level = level }, c))
          (set source.beyond line (codes "logVerbosity ")) in
      let socks =
        on_value
          (λ str.
            with_service proxy c (parse_service_socks_spec source.beyond c.service_id_pool str))
          (set source.beyond line (codes "socksServer ")) in
      let forward =
        on_value
          (λ str.
            with_service proxy c
              (parse_service_port_forward_spec source.beyond c.service_id_pool str))
          (set source.beyond line (codes "portForward ")) in
      let http =
        on_value
          (λ str.
            with_service proxy c (parse_service_http_spec source.beyond c.service_id_pool str))
          (set source.beyond line (codes "httpServer ")) in
      let route =
        on_value
          (λ str. add_rule proxy c (
            parse_route_rule_spec source.pton (suc c.rule_id_pool) str filename (pos line_num)
              c.ssh_tunnel_list))
          (set source.beyond line (codes "route ")) in
      let file = on_value (read_rules proxy c) (set source.beyond line (codes "routeFile ")) in
      let dir =
        on_value (λ name. route_dir name proxy c) (set source.beyond line (codes "routeDir ")) in
      or_exits (
        or_else log (
          or_else level
            (or_else socks (or_else forward (or_else http (or_else route (or_else file dir)))))))
