-- ===== src/Tests/Sections.antt =====
-- A configuration file with sections, at a concrete input.
use mathlib.Core.List.{Perm}
use smart_socksproxy.Base.{
  ◌≡◌, refl, true, false, Option, none, some, List, [], ◌∷◌, Bytes, codes, str_eq, if◌then◌else◌,
  pos, arith, Bool,
}
use smart_socksproxy.LogFile.{new_log_file, IsRegistry}
use smart_socksproxy.Proxy.{new_proxy_instance}
use smart_socksproxy.Tunnel.{ssh_tunnel_init, new_ssh_tunnel}
use smart_socksproxy.Config.{
  Source, Config, IsSound, After, Read, config_file_parse, config_file_parse-IsSound, IsInOrder,
  nothing, a_file, no_file, OnlyChanges, entry_line-OnlyChanges, entry_line, in_proxy,
  route_dir-IsInOrder, route_dir, route_files,
}

abbrev settings : Source
settings = record {
  file = λ name.
      if str_eq name (codes "c")
      then some (
        true,
        codes "main"
            ∷ codes "logVerbosity debug"
            ∷ codes "include c"
            ∷ codes "ssh s"
            ∷ codes "socksPort 4000"
            ∷ codes "proxy p"
            ∷ codes "socksServer 1080"
            ∷ codes "route endsWith x via s"
            ∷ codes "routeDir d"
            ∷ codes "logFilename l"
            ∷ codes "logfile l"
            ∷ codes "byteCountMax 5"
            ∷ [],
      )
      else if str_eq name (codes "d/r")
      then some (true, codes "port 22 via direct" ∷ [])
      else none;
  getenv = λ name. none;
  pton = λ s. none;
  beyond = λ s. [];
}

abbrev one_directory : Bytes → Option (List (Bytes × Bool))
one_directory name =
    if str_eq name (codes "d") then some ((codes ".", false) ∷ (codes "r", true) ∷ []) else none

-- The configuration that main starts with.
abbrev at_start : Config
at_start = record {
  log_file_list = [];
  log_file_default = new_log_file none;
  main_log_file = none;
  main_log_level = pos 3;
  ulimit = pos 0;
  proxy_instance_list = [];
  proxy_default = record new_proxy_instance { name = codes "default"; log_level = pos 3 };
  ssh_tunnel_list = ssh_tunnel_init [];
  ssh_default = new_ssh_tunnel 4;
  ssh_id_pool = 4;
  service_id_pool = 0;
  rule_id_pool = 0;
}

at_start-IsSound : IsSound at_start
unfolding IsRegistry
at_start-IsSound = record {
  ids_below = (omega arith, (omega arith, (omega arith, tt)));
  sound_rules = tt;
  sound_default = tt;
  log_files = tt;
}

config_file_parse-IsSound_example :
    After Read (config_file_parse settings one_directory 199 [] (codes "c") at_start)
config_file_parse-IsSound_example =
    config_file_parse-IsSound settings one_directory (λ s a e. cc) 199 [] (codes "c") at_start
      at_start-IsSound

-- Three files and a directory, not in the order of their names.
abbrev unordered : List (Bytes × Bool)
unordered = (codes "b", true) ∷ (codes ".", false) ∷ (codes "a", true) ∷ (codes "ab", true) ∷ []

route_dir-IsInOrder_example :
    (names : List Bytes) × Perm names (codes "b" ∷ codes "a" ∷ codes "ab" ∷ [])
    × IsInOrder names
    × (route_dir settings (λ name. some unordered) (codes "d") new_proxy_instance at_start
        ≡ route_files settings
            (λ name. some unordered)
            (codes "d")
            names
            new_proxy_instance
            at_start)
route_dir-IsInOrder_example =
    route_dir-IsInOrder settings (λ name. some unordered) (codes "d") unordered
      (codes "b" ∷ codes "a" ∷ codes "ab" ∷ []) new_proxy_instance at_start refl
      (a_file (omega arith) (no_file (a_file (omega arith) (a_file (omega arith) nothing))))
      (omega arith)

-- The second of two proxies gets a web server.
abbrev two_proxies : Config
two_proxies = record at_start { proxy_instance_list = new_proxy_instance ∷ new_proxy_instance ∷ [] }

entry_line-OnlyChanges_example : After (OnlyChanges 1 two_proxies) (
    entry_line settings one_directory
      (codes "c")
      3
      (codes "httpServer 80:/web")
      (in_proxy (some 1))
      two_proxies)
entry_line-OnlyChanges_example =
    entry_line-OnlyChanges settings one_directory (codes "c") 3 (codes "httpServer 80:/web") 1
      two_proxies
