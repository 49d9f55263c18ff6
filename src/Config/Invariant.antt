-- ===== src/Config/Invariant.antt =====
-- Reading configuration files keeps a configuration sound.
use smart_socksproxy.Base.{
  ℕ, zero, suc, Bool, if-all, option-all, Option, none, some, List, [], ◌∷◌, ◌++◌, Bytes, codes,
}
use smart_socksproxy.Rule.{WritesAddress}
use smart_socksproxy.Config.Environment.{config_set_string}
use smart_socksproxy.Config.RuleFile.{Source, cleaned_line, on_stack}
use smart_socksproxy.Config.RuleSound.{cleaned-all}
use smart_socksproxy.Config.Sections.{
  Config, Section, nowhere, in_main, in_log, in_proxy, in_ssh, Parsing, section_line,
}
use smart_socksproxy.Config.Parse.{
  nth_proxy, tunnel_of, FileParsed, entry_line, include_config, config_line, config_lines,
  open_config, config_file_parse,
}
use smart_socksproxy.Config.Sound.{
  HasSoundRules, IsSound, After, AfterSome, bind-After, with_tunnels, with_proxies, with_default,
}
use smart_socksproxy.Config.SoundSections.{InSound, section_line-InSound}
use smart_socksproxy.Config.SoundEntries.{
  main_entry-IsSound, log_file_entry-IsSound, ssh_tunnel_entry-IsSound, IsSoundTunnel, IsSoundProxy,
}
use smart_socksproxy.Config.SoundProxies.{proxy_entry-IsSound}
use smart_socksproxy.Config.Places.{
  nth_proxy-all, put_proxy-all, put_tunnel-below, put_tunnel-listed, then_config-After, with_found,
  after_file-InSound, same_section-InSound,
}

section_or_entry :
    (o : Option (Parsing (Section × Config))) (m : Parsing (Section × Config))
    → AfterSome InSound o
    → After InSound m
    → After InSound (elim o [ some result ↦ result | none ↦ m ])
section_or_entry none m h k = k
section_or_entry (some result) m h k = h

abbrev pub Read : Bool × Config → Type 0
Read (okay, c) = IsSound c

module _ (source : Source) (directory : Bytes → Option (List (Bytes × Bool)))
    (writes : WritesAddress source.pton) where
  entry_line-IsSound :
      (filename : Bytes) (line_num : ℕ) (line : Bytes) (section : Section) (c : Config)
      → IsSound c
      → After IsSound (entry_line source directory filename line_num line section c)
  unfolding entry_line
  entry_line-IsSound filename line_num line nowhere c s = tt
  entry_line-IsSound filename line_num line in_main c s = main_entry-IsSound source.beyond line c s
  entry_line-IsSound filename line_num line (in_log name) c s = log_file_entry-IsSound line name c s
  entry_line-IsSound filename line_num line (in_proxy none) c s =
      then_config-After IsSoundProxy _ _
        (proxy_entry-IsSound source directory writes filename line_num line c.proxy_default c
          (s, s.sound_default))
        (λ proxy c' h. with_default c' proxy h.0 h.1)
  entry_line-IsSound filename line_num line (in_proxy (some i)) c s =
      with_found (nth_proxy i c.proxy_instance_list) _ (λ proxy e.
        then_config-After IsSoundProxy _ _
          (proxy_entry-IsSound source directory writes filename line_num line proxy c
            (s, nth_proxy-all (HasSoundRules c.ssh_tunnel_list) i _ proxy s.sound_rules e))
          (λ proxy' c' h. with_proxies c' _ h.0 (
            put_proxy-all (HasSoundRules c'.ssh_tunnel_list) i proxy' c'.proxy_instance_list
              h.0.sound_rules h.1)))
  entry_line-IsSound filename line_num line (in_ssh none) c s =
      then_config-After IsSoundTunnel _ _
        (ssh_tunnel_entry-IsSound source.beyond line c.ssh_default c s) (λ ssh c' h. h)
  entry_line-IsSound filename line_num line (in_ssh (some id)) c s =
      option-all (After IsSound) (tunnel_of id c.ssh_tunnel_list) _ _ tt (λ ssh.
        then_config-After IsSoundTunnel _ _ (ssh_tunnel_entry-IsSound source.beyond line ssh c s)
          (λ ssh' c' h.
            with_tunnels c' _ c'.ssh_id_pool h
              (put_tunnel-below (suc c'.ssh_id_pool) ssh' c'.ssh_tunnel_list h.ids_below)
              (put_tunnel-listed ssh' c'.ssh_tunnel_list)))

  -- What reads an included file, where there is room for it.
  abbrev Reads : Option (Bytes → Config → FileParsed) → Type 0
  Reads none = Unit
  Reads (some nested) = (name : Bytes) (c : Config) → IsSound c → After Read (nested name c)

  include_config-InSound :
      (stack : List Bytes) (nested : Option (Bytes → Config → FileParsed)) (name : Bytes)
      (section : Section) (c : Config)
      → Reads nested
      → IsSound c
      → After InSound (include_config source directory stack nested name section c)
  unfolding include_config
  include_config-InSound stack none name section c reads s = s
  include_config-InSound stack (some nested) name section c reads s =
      if-all (After InSound) (on_stack name stack) _ _ s
        (after_file-InSound section (nested name c) (reads name c s))

  module _ (filename : Bytes) (stack : List Bytes) (nested : Option (Bytes → Config → FileParsed))
      (reads : Reads nested) where
    config_line-InSound :
        (line_num : ℕ) (line : Bytes) (section : Section) (c : Config)
        → IsSound c
        → After InSound (config_line source directory filename stack nested line_num line section c)
    unfolding config_line
    config_line-InSound line_num line section c s =
        option-all (After InSound) (config_set_string source.beyond line (codes "include ") 8192) _
          _
          (section_or_entry (section_line line c) _ (section_line-InSound line c s) (
            same_section-InSound section _ (entry_line-IsSound filename line_num line section c s)))
          (λ name. include_config-InSound stack nested name section c reads s)

    config_lines-Read :
        (ended : Bool) (line_num : ℕ) (lines : List Bytes) (section : Section) (c : Config)
        → IsSound c
        → After Read
            (config_lines source directory filename stack nested ended line_num lines section c)
    unfolding config_lines
    config_lines-Read ended line_num [] section c s = s
    config_lines-Read ended line_num (raw ∷ rest) section c s =
        cleaned-all (After Read) (cleaned_line source raw) _ _ _ _ tt s
          (config_lines-Read ended (suc line_num) rest section c s)
          (λ x line.
            bind-After InSound Read
              (config_line source directory filename stack nested (suc line_num) (x ∷ line) section
                c)
              (λ r.
                config_lines source directory filename stack nested ended (suc line_num) rest r.0
                  r.1)
              (config_line-InSound (suc line_num) (x ∷ line) section c s)
              (λ r. config_lines-Read ended (suc line_num) rest r.0 r.1))

    open_config-Read :
        (c : Config) → IsSound c → After Read (open_config source directory filename stack nested c)
    open_config-Read c s =
        option-all (After Read) (source.file filename) _ _ s
          (λ content. config_lines-Read content.0 0 content.1 nowhere c s)

  -- Whatever configuration files and files of rules say, where `config_file_parse` returns, for any
  -- room on the stack of files and any files on it, it leaves a sound configuration from a sound one:
  -- each rule of each proxy is well formed, its tunnels are in the list, the ids of the tunnels in the
  -- list differ, and no two log files have the same name. (`inet_pton` is taken to write addresses
  -- of 32 bits.)
  pub config_file_parse-IsSound :
      (room : ℕ) (stack : List Bytes) (filename : Bytes) (c : Config)
      → IsSound c
      → After Read (config_file_parse source directory room stack filename c)
  unfolding config_file_parse
  config_file_parse-IsSound zero stack filename c s =
      open_config-Read filename (stack ++ filename ∷ []) none tt c s
  config_file_parse-IsSound (suc room) stack filename c s =
      let inside = stack ++ filename ∷ [] in
      open_config-Read filename inside (some (config_file_parse source directory room inside))
        (λ name c' s'. config_file_parse-IsSound room inside name c' s') c s
