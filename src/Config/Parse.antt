-- ===== src/Config/Parse.antt =====
-- `config_file_parse`: a configuration file with the files that it includes.
use smart_socksproxy.Base.{
  ℕ, zero, suc, Bool, false, Option, none, some, List, [], ◌∷◌, ◌++◌, Bytes, codes, ◌==◌,
  if◌then◌else◌,
}
use smart_socksproxy.Tunnel.{SshTunnel}
use smart_socksproxy.Proxy.{ProxyInstance}
use smart_socksproxy.Config.Environment.{config_set_string}
use smart_socksproxy.Config.RuleFile.{Source, cleaned_line, on_stack, kept_line, no_line, overrun}
use smart_socksproxy.Config.Sections.{
  Config, Section, nowhere, in_main, in_log, in_proxy, in_ssh, Parsing, continues, exits, crashes,
  section_line,
}
use smart_socksproxy.Config.Entries.{
  config_file_parse_main_entry, config_file_parse_log_file_entry,
  config_file_parse_ssh_tunnel_entry,
}
use smart_socksproxy.Config.ProxyEntries.{config_file_parse_proxy_instance_entry}

abbrev pub then_config {ℓ} :
    {A : Type ℓ} → (A → Config → Config) → Parsing (A × Config) → Parsing Config
then_config put (continues (a, c)) = continues (put a c)
then_config put exits = exits
then_config put crashes = crashes

-- The proxy in a place of the list.
unfoldable pub nth_proxy : ℕ → List ProxyInstance → Option ProxyInstance
nth_proxy i [] = none
nth_proxy zero (proxy ∷ rest) = some proxy
nth_proxy (suc i) (proxy ∷ rest) = nth_proxy i rest

unfoldable pub put_proxy : ℕ → ProxyInstance → List ProxyInstance → List ProxyInstance
put_proxy i proxy [] = []
put_proxy zero proxy (old ∷ rest) = proxy ∷ rest
put_proxy (suc i) proxy (old ∷ rest) = old ∷ put_proxy i proxy rest

unfoldable pub tunnel_of : ℕ → List SshTunnel → Option SshTunnel
tunnel_of id [] = none
tunnel_of id (ssh ∷ rest) =
    let later = tunnel_of id rest in if ssh.id == id then some ssh else later

unfoldable pub put_tunnel : SshTunnel → List SshTunnel → List SshTunnel
put_tunnel ssh [] = []
put_tunnel ssh (old ∷ rest) =
    let later = put_tunnel ssh rest in if old.id == ssh.id then ssh ∷ rest else old ∷ later

-- What a file leaves: the value that is returned, and the configuration.
abbrev pub FileParsed : Type 0
FileParsed = Parsing (Bool × Config)

-- What the result of an included file is does not matter.
abbrev pub after_file : Section → FileParsed → Parsing (Section × Config)
after_file section (continues (okay, c)) = continues (section, c)
after_file section exits = exits
after_file section crashes = crashes

abbrev pub same_section : Section → Parsing Config → Parsing (Section × Config)
same_section section (continues c) = continues (section, c)
same_section section exits = exits
same_section section crashes = crashes

module _ (source : Source) (directory : Bytes → Option (List (Bytes × Bool))) where
  -- The second part of the loop's body: an entry of the section.
  unfoldable pub entry_line : Bytes → ℕ → Bytes → Section → Config → Parsing Config
  unfolding nth_proxy put_proxy tunnel_of put_tunnel
  entry_line filename line_num line nowhere c = exits
  entry_line filename line_num line in_main c = config_file_parse_main_entry source.beyond line c
  entry_line filename line_num line (in_log name) c = config_file_parse_log_file_entry line name c
  entry_line filename line_num line (in_proxy none) c =
      then_config (λ proxy c'. record c' { proxy_default = proxy })
        (config_file_parse_proxy_instance_entry source directory filename line_num line
          c.proxy_default c)
  entry_line filename line_num line (in_proxy (some i)) c =
      elim (nth_proxy i c.proxy_instance_list) [
        | none ↦ crashes
        | some proxy ↦
            then_config
              (λ proxy' c'. record c' {
                proxy_instance_list = put_proxy i proxy' c'.proxy_instance_list;
              })
              (config_file_parse_proxy_instance_entry source directory filename line_num line proxy
                c)
      ]
  entry_line filename line_num line (in_ssh none) c =
      then_config (λ ssh c'. record c' { ssh_default = ssh })
        (config_file_parse_ssh_tunnel_entry source.beyond line c.ssh_default c)
  entry_line filename line_num line (in_ssh (some id)) c = elim (tunnel_of id c.ssh_tunnel_list) [
    | none ↦ crashes
    | some ssh ↦
        then_config (λ ssh' c'. record c' { ssh_tunnel_list = put_tunnel ssh' c'.ssh_tunnel_list })
          (config_file_parse_ssh_tunnel_entry source.beyond line ssh c)
  ]

  -- `nested` reads an included file; none where the stack of files is full.
  unfoldable pub include_config :
      List Bytes
      → Option (Bytes → Config → FileParsed)
      → Bytes
      → Section
      → Config
      → Parsing (Section × Config)
  include_config stack none name section c = continues (section, c)
  include_config stack (some nested) name section c =
      if on_stack name stack then continues (section, c) else after_file section (nested name c)

  unfoldable pub config_line :
      Bytes
      → List Bytes
      → Option (Bytes → Config → FileParsed)
      → ℕ
      → Bytes
      → Section
      → Config
      → Parsing (Section × Config)
  unfolding include_config entry_line
  config_line filename stack nested line_num line section c =
      elim (config_set_string source.beyond line (codes "include ") 8192) [
        | some name ↦ include_config stack nested name section c
        | none ↦ elim (section_line line c) [
          | some result ↦ result
          | none ↦ same_section section (entry_line filename line_num line section c)
        ]
      ]

  -- The loop, with `line_num` before it is incremented.
  unfoldable pub config_lines :
      Bytes
      → List Bytes
      → Option (Bytes → Config → FileParsed)
      → Bool
      → ℕ
      → List Bytes
      → Section
      → Config
      → FileParsed
  unfolding config_line cleaned_line
  config_lines filename stack nested ended line_num [] section c = continues (ended, c)
  config_lines filename stack nested ended line_num (raw ∷ rest) section c =
      elim (cleaned_line source raw) [
        | overrun ↦ crashes
        | no_line ↦ continues (false, c)
        | kept_line [] ↦ config_lines filename stack nested ended (suc line_num) rest section c
        | kept_line (x ∷ text) ↦
            elim (config_line filename stack nested (suc line_num) (x ∷ text) section c) [
              | continues (section', c') ↦
                  config_lines filename stack nested ended (suc line_num) rest section' c'
              | exits ↦ exits
              | crashes ↦ crashes
            ]
      ]

  abbrev pub open_config :
      Bytes → List Bytes → Option (Bytes → Config → FileParsed) → Config → FileParsed
  open_config filename stack nested c = elim (source.file filename) [
    | none ↦ continues (false, c)
    | some (ended, lines) ↦ config_lines filename stack nested ended 0 lines nowhere c
  ]

  -- `room` is what is left of the stack of files behind this one.
  unfoldable pub config_file_parse : ℕ → List Bytes → Bytes → Config → FileParsed
  unfolding config_lines
  config_file_parse zero stack filename c = open_config filename (stack ++ filename ∷ []) none c
  config_file_parse (suc room) stack filename c =
      open_config filename (stack ++ filename ∷ [])
        (some (config_file_parse room (stack ++ filename ∷ []))) c
