-- ===== src/Config/Sections.antt =====
-- `config_file_parse_main`, `config_file_parse_log_file`, `config_file_parse_proxy_instance` and
-- `config_file_parse_ssh_tunnel`: what a configuration file is about from a line on.
use smart_socksproxy.Base.{
  ℕ, suc, Option, none, some, List, [], ◌∷◌, Bytes, codes, drop, length, str_eq, if◌then◌else◌, ℤ,
}
use smart_socksproxy.Text.{string_starts_with}
use smart_socksproxy.Clib.{strncpy}
use smart_socksproxy.LogFile.{LogFile, find_or_create_log_file}
use smart_socksproxy.Tunnel.{SshTunnel, new_ssh_tunnel, insert_ssh_tunnel, find_tunnel}
use smart_socksproxy.Proxy.{ProxyInstance, new_proxy_instance_from_template, insert_proxy_instance}

-- What the configuration makes: the lists and the objects that hold the defaults, the settings of
-- main, and the pools of ids. The logs of tunnels are left out.
pub record Config : Type 0 where
  pub log_file_list : List LogFile
  pub log_file_default : LogFile
  pub main_log_file : Option LogFile
  pub main_log_level : ℤ
  pub ulimit : ℤ
  pub proxy_instance_list : List ProxyInstance
  pub proxy_default : ProxyInstance
  pub ssh_tunnel_list : List SshTunnel
  pub ssh_default : SshTunnel
  pub ssh_id_pool : ℕ
  pub service_id_pool : ℕ
  pub rule_id_pool : ℕ

-- The one of `main`, `log_current`, `proxy_current` and `ssh_current` that is set: a log file by its
-- name, a proxy by its place in the list and a tunnel by its id, none for the object of the defaults.
pub data Section : Type 0 where
  nowhere : Section
  in_main : Section
  in_log : Option Bytes → Section
  in_proxy : Option ℕ → Section
  in_ssh : Option ℕ → Section

-- What a line comes to: `exits` where the program ends, `crashes` where it reads NULL or writes past the
-- end of an array.
pub data Parsing {ℓ} (S : Type ℓ) : Type ℓ where
  continues : S → Parsing S
  exits : Parsing S
  crashes : Parsing S

-- A pointer to the section behind the word, if the line starts with it.
unfoldable pub section_name : Bytes → Bytes → Option Bytes
section_name line word =
    if string_starts_with line word then some (drop (length word) line) else none

unfoldable pub config_file_parse_log_file : Bytes → Config → Parsing (Section × Config)
config_file_parse_log_file [] c = exits
config_file_parse_log_file (x ∷ section) c =
    let (log, logs) =
      find_or_create_log_file c.log_file_list (some c.log_file_default) (x ∷ section) in
    if str_eq (x ∷ section) (codes "default")
    then continues (in_log none, c)
    else continues (in_log (some log.file_name), record c { log_file_list = logs })

-- The place of the first proxy of a name.
unfoldable pub find_proxy : Bytes → List ProxyInstance → Option ℕ
find_proxy name [] = none
find_proxy name (proxy ∷ rest) =
    let later = find_proxy name rest in
    if str_eq name proxy.name then some 0 else elim later [ none ↦ none | some i ↦ some (suc i) ]

abbrev pub named_proxy : Config → Bytes → ProxyInstance
named_proxy c section = record (new_proxy_instance_from_template (some c.proxy_default)) {
  name = strncpy section 1024;
}

unfoldable pub config_file_parse_proxy_instance : Bytes → Config → Parsing (Section × Config)
unfolding find_proxy
config_file_parse_proxy_instance [] c = exits
config_file_parse_proxy_instance (x ∷ section) c =
    let made = record c {
      proxy_instance_list =
          insert_proxy_instance c.proxy_instance_list (named_proxy c (x ∷ section));
    } in
    if str_eq (x ∷ section) (codes "default")
    then continues (in_proxy none, c)
    else elim (find_proxy (x ∷ section) c.proxy_instance_list) [
      | some i ↦ continues (in_proxy (some i), c)
      | none ↦ continues (in_proxy (some (length c.proxy_instance_list)), made)
    ]

-- `new_ssh_tunnel` does not look at its argument.
unfoldable pub config_file_parse_ssh_tunnel : Bytes → Config → Parsing (Section × Config)
config_file_parse_ssh_tunnel [] c = exits
config_file_parse_ssh_tunnel (x ∷ section) c =
    let id = suc c.ssh_id_pool in
    let made = record c {
      ssh_tunnel_list =
          insert_ssh_tunnel c.ssh_tunnel_list
            (record (new_ssh_tunnel id) { name = strncpy (x ∷ section) 200 });
      ssh_id_pool = id;
    } in
    if str_eq (x ∷ section) (codes "default")
    then continues (in_ssh none, c)
    else elim (find_tunnel (x ∷ section) c.ssh_tunnel_list) [
      | some ssh ↦ continues (in_ssh (some ssh.id), c)
      | none ↦ continues (in_ssh (some id), made)
    ]

-- The first part of the loop's body: the line starts a section, or none of the four functions knows
-- it.
unfoldable pub section_line : Bytes → Config → Option (Parsing (Section × Config))
unfolding section_name config_file_parse_log_file config_file_parse_proxy_instance
    config_file_parse_ssh_tunnel
section_line line c =
    if str_eq line (codes "main")
    then some (continues (in_main, c))
    else elim (section_name line (codes "logfile ")) [
      | some section ↦ some (config_file_parse_log_file section c)
      | none ↦ elim (section_name line (codes "proxy ")) [
        | some section ↦ some (config_file_parse_proxy_instance section c)
        | none ↦ elim (section_name line (codes "ssh ")) [
          | some section ↦ some (config_file_parse_ssh_tunnel section c)
          | none ↦ none
        ]
      ]
    ]
