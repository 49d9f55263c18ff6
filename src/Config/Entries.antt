-- ===== src/Config/Entries.antt =====
-- `config_file_parse_main_entry`, `config_file_parse_log_file_entry` and
-- `config_file_parse_ssh_tunnel_entry`: the lines of a section. What they return 0 for ends the
-- program.
use smart_socksproxy.Base.{
  ℕ, Option, none, some, map, Bytes, codes, str_eq, if◌then◌else◌, ℤ, pos, negsuc, eq_ℤ,
}
use smart_socksproxy.LogLevel.{log_level_from_str, log_level_invalid}
use smart_socksproxy.LogFile.{LogFile, find_or_create_log_file}
use smart_socksproxy.Tunnel.{SshTunnel}
use smart_socksproxy.Proxy.{ProxyInstance}
use smart_socksproxy.Config.Environment.{config_set_string, config_set_int}
use smart_socksproxy.Config.Sections.{Config, Parsing, continues, exits}

-- The pieces of a line's handling: the text behind a field's name, if the line sets the field.
abbrev pub set : (Bytes → Bytes) → Bytes → Bytes → Option Bytes
set beyond line field = config_set_string beyond line field 8192

-- The first that knows the line.
unfoldable pub or_else {ℓ} : {A : Type ℓ} → Option A → Option A → Option A
or_else none next = next
or_else (some a) next = some a

-- What the last `return` gives where none knows the line.
unfoldable pub or_exits {ℓ} : {S : Type ℓ} → Option (Parsing S) → Parsing S
or_exits none = exits
or_exits (some result) = result

unfoldable pub on_value {ℓ ℓ'} : {A : Type ℓ} {B : Type ℓ'} → (A → B) → Option A → Option B
on_value f none = none
on_value f (some a) = some (f a)

abbrev checked_level : (ℤ → Config) → Bytes → Parsing Config
checked_level change str =
    let level = log_level_from_str (some str) in
    if eq_ℤ level log_level_invalid then exits else continues (change level)

unfoldable pub config_file_parse_main_entry : (Bytes → Bytes) → Bytes → Config → Parsing Config
config_file_parse_main_entry beyond line c =
    let log =
      on_value
        (λ name.
          let (log, logs) =
            find_or_create_log_file c.log_file_list (some c.log_file_default) name in
          continues (record c { main_log_file = some log; log_file_list = logs }))
        (set beyond line (codes "logFilename ")) in
    let level =
      on_value (checked_level (λ level. record c { main_log_level = level }))
        (set beyond line (codes "logVerbosity ")) in
    let ulimit =
      on_value (λ n. continues (record c { ulimit = n })) (config_set_int line (codes "ulimit ")) in
    or_exits (or_else log (or_else level ulimit))

-- A negative number is as 0.
abbrev natural : ℤ → ℕ
natural (pos n) = n
natural (negsuc n) = 0

-- A log file is one object to which the list, main and the proxies point: where it is changed, so is
-- each copy of its record. It is known by its name.
unfoldable pub change_log : Bytes → (LogFile → LogFile) → Config → Config
change_log name change c =
    let there = λ (log : LogFile). if str_eq log.file_name name then change log else log in
    record c {
      log_file_list = map there c.log_file_list;
      main_log_file = on_value there c.main_log_file;
      proxy_instance_list =
          map (λ (p : ProxyInstance). record p { log_file = on_value there p.log_file })
            c.proxy_instance_list;
      proxy_default = record c.proxy_default { log_file = on_value there c.proxy_default.log_file };
    }

abbrev change_section_log : Option Bytes → (LogFile → LogFile) → Config → Config
change_section_log none change c = record c { log_file_default = change c.log_file_default }
change_section_log (some name) change c = change_log name change c

unfoldable pub config_file_parse_log_file_entry : Bytes → Option Bytes → Config → Parsing Config
unfolding change_log
config_file_parse_log_file_entry line name c =
    let most =
      on_value
        (λ n.
          continues (change_section_log name (λ log. record log { byte_count_max = natural n }) c))
        (config_set_int line (codes "byteCountMax ")) in
    let rotated =
      on_value
        (λ n.
          continues
            (change_section_log name (λ log. record log { file_rotate_count = natural n }) c))
        (config_set_int line (codes "fileRotateCount ")) in
    or_exits (or_else most rotated)

unfoldable pub config_file_parse_ssh_tunnel_entry :
    (Bytes → Bytes) → Bytes → SshTunnel → Config → Parsing (SshTunnel × Config)
config_file_parse_ssh_tunnel_entry beyond line ssh c =
    let port =
      on_value (λ n. continues (record ssh { socks_port = n }, c))
        (config_set_int line (codes "socksPort ")) in
    let command =
      on_value (λ str. continues (record ssh { command_to_run = str }, c))
        (set beyond line (codes "command ")) in
    let log =
      on_value
        (λ name.
          let (log, logs) =
            find_or_create_log_file c.log_file_list (some c.log_file_default) name in
          continues (ssh, record c { log_file_list = logs }))
        (set beyond line (codes "logFilename ")) in
    let level =
      on_value
        (λ str.
          if eq_ℤ (log_level_from_str (some str)) log_level_invalid
          then exits
          else continues (ssh, c))
        (set beyond line (codes "logVerbosity ")) in
    or_exits (or_else port (or_else command (or_else log level)))
