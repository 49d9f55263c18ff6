-- ===== src/Config/SoundProxies.antt =====
-- The entries of a proxy keep a configuration sound.
use smart_socksproxy.Base.{
  ℕ, suc, Bool, true, false, option-all, if-all, ltb, Option, none, some, List, [], ◌∷◌, ◌++◌,
  Bytes, length, take, pos,
}
use smart_socksproxy.Proxy.{ProxyInstance}
use smart_socksproxy.Rule.{
  Parsed, rule, refused, undefined, exhausted, IsWellFormed, Ensures, WritesAddress,
  parse_route_rule_spec-IsWellFormed,
}
use smart_socksproxy.Service.{Service}
use smart_socksproxy.Config.RuleFile.{Source, Result, returns, crashed, Rules}
use smart_socksproxy.Config.RuleSound.{All-insert, Returned, route_rule_file_parse-Returned}
use smart_socksproxy.Config.Sections.{Config}
use smart_socksproxy.Config.ProxyEntries.{
  with_service, add_rule, take_rules, route_files, route_dir,
  config_file_parse_proxy_instance_entry, sorted, file_list, stack_room, most_files, rules_of,
  read_rules,
}
use smart_socksproxy.Config.Sound.{After, bind-After, with_logs}
use smart_socksproxy.Config.SoundEntries.{
  value-AfterSome, or_exits-After, next, level-After, logs_with, IsSoundProxy,
}

with_service-After :
    (proxy : ProxyInstance) (c : Config) (parsed : Option Service × ℕ)
    → IsSoundProxy (proxy, c)
    → After IsSoundProxy (with_service proxy c parsed)
unfolding with_service
with_service-After proxy c (none, pool) s = tt
with_service-After proxy c (some srv, pool) s = s

add_rule-After :
    (proxy : ProxyInstance) (c : Config) (parsed : Parsed)
    → IsSoundProxy (proxy, c)
    → Ensures (IsWellFormed c.ssh_tunnel_list) parsed
    → After IsSoundProxy (add_rule proxy c parsed)
unfolding add_rule
add_rule-After proxy c (rule r) (s, rules) e =
    (s, All-insert (IsWellFormed c.ssh_tunnel_list) proxy.route_rule_list r rules e)
add_rule-After proxy c refused s e = tt
add_rule-After proxy c undefined s e = tt
add_rule-After proxy c exhausted s e = tt

take_rules-After :
    (source : Source) (writes : WritesAddress source.pton) (proxy : ProxyInstance) (c : Config)
    (result : Result Rules)
    → IsSoundProxy (proxy, c)
    → Returned source c.ssh_tunnel_list writes result
    → After IsSoundProxy (take_rules proxy c result)
unfolding take_rules
take_rules-After source writes proxy c (returns true rules) s r = (s.0, r)
take_rules-After source writes proxy c (returns false rules) s r = tt
take_rules-After source writes proxy c crashed s r = tt

module _ (source : Source) (directory : Bytes → Option (List (Bytes × Bool)))
    (writes : WritesAddress source.pton) where
  read_rules-After :
      (name : Bytes) (proxy : ProxyInstance) (c : Config)
      → IsSoundProxy (proxy, c)
      → After IsSoundProxy (read_rules source directory proxy c name)
  read_rules-After name proxy c s = take_rules-After source writes proxy c _ s (
      route_rule_file_parse-Returned source c.ssh_tunnel_list writes stack_room [] name
        (rules_of proxy c) s.1)

  route_files-After :
      (dir : Bytes) (names : List Bytes) (proxy : ProxyInstance) (c : Config)
      → IsSoundProxy (proxy, c)
      → After IsSoundProxy (route_files source directory dir names proxy c)
  unfolding route_files
  route_files-After dir [] proxy c s = s
  route_files-After dir (name ∷ rest) proxy c s =
      bind-After IsSoundProxy IsSoundProxy
        (read_rules source directory proxy c (take 4095 (dir ++ b'/' ∷ name)))
        (λ r. route_files source directory dir rest r.0 r.1)
        (read_rules-After (take 4095 (dir ++ b'/' ∷ name)) proxy c s)
        (λ r. route_files-After dir rest r.0 r.1)

  route_dir-After :
      (dir : Bytes) (proxy : ProxyInstance) (c : Config)
      → IsSoundProxy (proxy, c)
      → After IsSoundProxy (route_dir source directory dir proxy c)
  unfolding route_dir
  route_dir-After dir proxy c s = option-all (After IsSoundProxy) (directory dir) _ _ tt (λ entries.
      if-all (After IsSoundProxy) (ltb most_files (length (file_list entries))) _ _ tt
        (route_files-After dir (sorted (length (file_list entries)) (file_list entries)) proxy c s))

  pub proxy_entry-IsSound :
      (filename : Bytes) (line_num : ℕ) (line : Bytes) (proxy : ProxyInstance) (c : Config)
      → IsSoundProxy (proxy, c)
      → After IsSoundProxy
          (config_file_parse_proxy_instance_entry source directory filename line_num line proxy c)
  unfolding config_file_parse_proxy_instance_entry
  proxy_entry-IsSound filename line_num line proxy c s = or_exits-After IsSoundProxy _ (
      next IsSoundProxy _ _ _ (λ name. (with_logs c _ s.0 (logs_with c name s.0), s.1))
        (next IsSoundProxy _ _ _ (λ str. level-After IsSoundProxy str _ s)
          (next IsSoundProxy _ _ _ (λ str. with_service-After proxy c _ s)
            (next IsSoundProxy _ _ _ (λ str. with_service-After proxy c _ s)
              (next IsSoundProxy _ _ _ (λ str. with_service-After proxy c _ s)
                (next IsSoundProxy _ _ _
                  (λ str. add_rule-After proxy c _ s (
                    parse_route_rule_spec-IsWellFormed source.pton (suc c.rule_id_pool) str filename
                      (pos line_num) c.ssh_tunnel_list writes))
                  (next IsSoundProxy _ _ _ (λ name. read_rules-After name proxy c s)
                    (value-AfterSome IsSoundProxy _ _
                      (λ name. route_dir-After name proxy c s)))))))))
