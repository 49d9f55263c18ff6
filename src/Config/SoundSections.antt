-- ===== src/Config/SoundSections.antt =====
-- The start of a section keeps a configuration sound.
use smart_socksproxy.Base.{
  suc, inr, if-all, option-all, none, some, [], ◌∷◌, Bytes, codes, str_eq, arith,
}
use smart_socksproxy.LogFile.{find_or_create_log_file-IsRegistry}
use smart_socksproxy.Tunnel.{find_tunnel}
use smart_socksproxy.Proxy.{new_proxy_instance_from_template}
use smart_socksproxy.Config.Sections.{
  Config, Section, named_proxy, find_proxy, section_name, section_line, config_file_parse_log_file,
  config_file_parse_proxy_instance, config_file_parse_ssh_tunnel,
}
use smart_socksproxy.Config.Sound.{
  IsSound, HasSoundRules, After, AfterSome, with_tunnels, with_logs, with_proxies, All-insert_proxy,
}

abbrev pub InSound : Section × Config → Type 0
InSound (section, c) = IsSound c

log_file_section :
    (name : Bytes) (c : Config) → IsSound c → After InSound (config_file_parse_log_file name c)
unfolding config_file_parse_log_file
log_file_section [] c s = tt
log_file_section (x ∷ name) c s =
    if-all (After InSound) (str_eq (x ∷ name) (codes "default")) _ _ s (
      with_logs c _ s
        (find_or_create_log_file-IsRegistry c.log_file_list (some c.log_file_default) none
          (x ∷ name) s.log_files).0)

proxy_section :
    (name : Bytes) (c : Config)
    → IsSound c
    → After InSound (config_file_parse_proxy_instance name c)
unfolding config_file_parse_proxy_instance new_proxy_instance_from_template
proxy_section [] c s = tt
proxy_section (x ∷ name) c s = if-all (After InSound) (str_eq (x ∷ name) (codes "default")) _ _ s (
    option-all (After InSound) (find_proxy (x ∷ name) c.proxy_instance_list) _ _
      (with_proxies c _ s (
        All-insert_proxy (HasSoundRules c.ssh_tunnel_list) c.proxy_instance_list
          (named_proxy c (x ∷ name)) s.sound_rules tt))
      (λ i. s))

ssh_section :
    (name : Bytes) (c : Config) → IsSound c → After InSound (config_file_parse_ssh_tunnel name c)
unfolding config_file_parse_ssh_tunnel
ssh_section [] c s = tt
ssh_section (x ∷ name) c s = if-all (After InSound) (str_eq (x ∷ name) (codes "default")) _ _ s (
    option-all (After InSound) (find_tunnel (x ∷ name) c.ssh_tunnel_list) _ _
      (with_tunnels c _ (suc c.ssh_id_pool) s (omega arith, s.ids_below) (λ t l. inr l)) (λ ssh. s))

pub section_line-InSound :
    (line : Bytes) (c : Config) → IsSound c → AfterSome InSound (section_line line c)
unfolding section_line
section_line-InSound line c s = if-all (AfterSome InSound) (str_eq line (codes "main")) _ _ s (
    option-all (AfterSome InSound) (section_name line (codes "logfile ")) _ _
      (option-all (AfterSome InSound) (section_name line (codes "proxy ")) _ _
        (option-all (AfterSome InSound) (section_name line (codes "ssh ")) _ _ tt
          (λ name. ssh_section name c s))
        (λ name. proxy_section name c s))
      (λ name. log_file_section name c s))
