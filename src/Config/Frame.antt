-- ===== src/Config/Frame.antt =====
-- What the entries of a proxy leave as it is.
use smart_socksproxy.Base.{
  ℕ, zero, suc, ◌≡◌, ◌≢◌, refl, ap, ◌∙◌, Bool, true, false, option-all, if-all, ltb, Option, none,
  some, List, [], ◌∷◌, ◌++◌, Bytes, length, take, ℤ,
}
use smart_socksproxy.Tunnel.{SshTunnel}
use smart_socksproxy.Proxy.{ProxyInstance}
use smart_socksproxy.Rule.{Parsed, rule, refused, undefined, exhausted}
use smart_socksproxy.Service.{Service}
use smart_socksproxy.Config.RuleFile.{Source, Result, returns, crashed, Rules}
use smart_socksproxy.Config.Sections.{Config, in_proxy, Parsing, continues, exits, crashes}
use smart_socksproxy.Config.ProxyEntries.{
  with_service, add_rule, take_rules, route_files, route_dir,
  config_file_parse_proxy_instance_entry, sorted, file_list, most_files, read_rules,
}
use smart_socksproxy.Config.Parse.{then_config, nth_proxy, put_proxy, entry_line}
use smart_socksproxy.Config.Sound.{After, bind-After}
use smart_socksproxy.Config.SoundEntries.{value-AfterSome, or_exits-After, next, level-After}

-- What no entry of a proxy changes.
abbrev Others : Type 0
Others = List ProxyInstance × ProxyInstance × List SshTunnel × SshTunnel × ℤ × ℤ

abbrev others : Config → Others
others c = (
  c.proxy_instance_list, c.proxy_default, c.ssh_tunnel_list, c.ssh_default, c.main_log_level,
  c.ulimit,
)

-- Behind an entry the proxy's own record is not yet in the list.
abbrev Keeps : Config → ProxyInstance × Config → Type 0
Keeps c (proxy, c') = others c' ≡ others c

with_service-Keeps :
    (proxy : ProxyInstance) (c : Config) (parsed : Option Service × ℕ)
    → After (Keeps c) (with_service proxy c parsed)
unfolding with_service
with_service-Keeps proxy c (none, pool) = tt
with_service-Keeps proxy c (some srv, pool) = refl

add_rule-Keeps :
    (proxy : ProxyInstance) (c : Config) (parsed : Parsed)
    → After (Keeps c) (add_rule proxy c parsed)
unfolding add_rule
add_rule-Keeps proxy c (rule r) = refl
add_rule-Keeps proxy c refused = tt
add_rule-Keeps proxy c undefined = tt
add_rule-Keeps proxy c exhausted = tt

take_rules-Keeps :
    (proxy : ProxyInstance) (c : Config) (result : Result Rules)
    → After (Keeps c) (take_rules proxy c result)
unfolding take_rules
take_rules-Keeps proxy c (returns true rules) = refl
take_rules-Keeps proxy c (returns false rules) = tt
take_rules-Keeps proxy c crashed = tt

module _ (source : Source) (directory : Bytes → Option (List (Bytes × Bool))) where
  route_files-Keeps :
      (dir : Bytes) (names : List Bytes) (proxy : ProxyInstance) (c c' : Config)
      → Keeps c (proxy, c')
      → After (Keeps c) (route_files source directory dir names proxy c')
  unfolding route_files
  route_files-Keeps dir [] proxy c c' e = e
  route_files-Keeps dir (name ∷ rest) proxy c c' e =
      bind-After (Keeps c') (Keeps c)
        (read_rules source directory proxy c' (take 4095 (dir ++ b'/' ∷ name)))
        (λ r. route_files source directory dir rest r.0 r.1) (take_rules-Keeps proxy c' _)
        (λ r k. route_files-Keeps dir rest r.0 c r.1 (k ∙ e))

  route_dir-Keeps :
      (dir : Bytes) (proxy : ProxyInstance) (c : Config)
      → After (Keeps c) (route_dir source directory dir proxy c)
  unfolding route_dir
  route_dir-Keeps dir proxy c = option-all (After (Keeps c)) (directory dir) _ _ tt (λ entries.
      if-all (After (Keeps c)) (ltb most_files (length (file_list entries))) _ _ tt (
        route_files-Keeps dir (sorted (length (file_list entries)) (file_list entries)) proxy c c
          refl))

  proxy_entry-Keeps :
      (filename : Bytes) (line_num : ℕ) (line : Bytes) (proxy : ProxyInstance) (c : Config)
      → After
          (Keeps c)
          (config_file_parse_proxy_instance_entry source directory filename line_num line proxy c)
  unfolding config_file_parse_proxy_instance_entry
  proxy_entry-Keeps filename line_num line proxy c = or_exits-After (Keeps c) _ (
      next (Keeps c) _ _ _ (λ name. refl)
        (next (Keeps c) _ _ _ (λ str. level-After (Keeps c) str _ refl)
          (next (Keeps c) _ _ _ (λ str. with_service-Keeps proxy c _)
            (next (Keeps c) _ _ _ (λ str. with_service-Keeps proxy c _)
              (next (Keeps c) _ _ _ (λ str. with_service-Keeps proxy c _)
                (next (Keeps c) _ _ _ (λ str. add_rule-Keeps proxy c _)
                  (next (Keeps c) _ _ _ (λ name. take_rules-Keeps proxy c _)
                    (value-AfterSome (Keeps c) _ _ (λ name. route_dir-Keeps name proxy c)))))))))

-- Another place of the list is as before.
nth-put_proxy :
    (i j : ℕ) (proxy : ProxyInstance) (proxies : List ProxyInstance)
    → j ≢ i
    → nth_proxy j (put_proxy i proxy proxies) ≡ nth_proxy j proxies
unfolding nth_proxy put_proxy
nth-put_proxy i j proxy [] ne = refl
nth-put_proxy zero zero proxy (p ∷ rest) ne = absurd (ne refl)
nth-put_proxy zero (suc j) proxy (p ∷ rest) ne = refl
nth-put_proxy (suc i) zero proxy (p ∷ rest) ne = refl
nth-put_proxy (suc i) (suc j) proxy (p ∷ rest) ne =
    nth-put_proxy i j proxy rest (λ e. ne (ap suc e))

-- What an entry of the proxy in place `i` leaves of a configuration.
pub record OnlyChanges (i : ℕ) (c c' : Config) : Type 0 where
  pub other_proxies :
      (j : ℕ) → j ≢ i → nth_proxy j c'.proxy_instance_list ≡ nth_proxy j c.proxy_instance_list
  pub same_default : c'.proxy_default ≡ c.proxy_default
  pub same_tunnels : c'.ssh_tunnel_list ≡ c.ssh_tunnel_list
  pub same_ssh_default : c'.ssh_default ≡ c.ssh_default
  pub same_main_log_level : c'.main_log_level ≡ c.main_log_level
  pub same_ulimit : c'.ulimit ≡ c.ulimit

then_put :
    (i : ℕ) (c : Config) (m : Parsing (ProxyInstance × Config))
    → After (Keeps c) m
    → After (OnlyChanges i c) (
        then_config
          (λ proxy' c'. record c' {
            proxy_instance_list = put_proxy i proxy' c'.proxy_instance_list;
          })
          m)
then_put i c (continues (proxy, c')) e = record {
  other_proxies = λ j ne.
      nth-put_proxy i j proxy c'.proxy_instance_list ne ∙ ap (λ (o : Others). nth_proxy j o.0) e;
  same_default = ap (λ (o : Others). o.1) e;
  same_tunnels = ap (λ (o : Others). o.2) e;
  same_ssh_default = ap (λ (o : Others). o.3) e;
  same_main_log_level = ap (λ (o : Others). o.4) e;
  same_ulimit = ap (λ (o : Others). o.5) e;
}
then_put i c exits e = tt
then_put i c crashes e = tt

-- An entry of a proxy's section, whatever it says and whatever files of rules it names, changes no
-- other proxy, no tunnel, neither object of defaults, and not the log level and the limit of main.
pub entry_line-OnlyChanges :
    (source : Source) (directory : Bytes → Option (List (Bytes × Bool))) (filename : Bytes)
    (line_num : ℕ) (line : Bytes) (i : ℕ) (c : Config)
    → After
        (OnlyChanges i c)
        (entry_line source directory filename line_num line (in_proxy (some i)) c)
unfolding entry_line
entry_line-OnlyChanges source directory filename line_num line i c =
    option-all (After (OnlyChanges i c)) (nth_proxy i c.proxy_instance_list) _ _ tt
      (λ proxy. then_put i c _ (proxy_entry-Keeps source directory filename line_num line proxy c))
