-- ===== src/Config/SoundEntries.antt =====
-- The entries of a section keep a configuration sound.
use smart_socksproxy.Base.{
  ◌≡◌, ◌≢◌, refl, sym, ◌∙◌, if-all, Option, none, some, List, [], ◌∷◌, map, Bytes, All, str_eq,
  if◌then◌else◌, eq_ℤ,
}
use smart_socksproxy.LogFile.{
  LogFile, find_or_create_log_file, IsRegistry, find_or_create_log_file-IsRegistry,
}
use smart_socksproxy.LogLevel.{log_level_from_str, log_level_invalid}
use smart_socksproxy.Proxy.{ProxyInstance}
use smart_socksproxy.Tunnel.{SshTunnel}
use smart_socksproxy.Config.Sections.{Config, Parsing, continues, exits}
use smart_socksproxy.Config.Entries.{
  or_else, or_exits, on_value, change_log, config_file_parse_main_entry,
  config_file_parse_log_file_entry, config_file_parse_ssh_tunnel_entry,
}
use smart_socksproxy.Config.Sound.{IsSound, HasSoundRules, After, AfterSome, with_logs}

-- A chain of tests, each with what its line sets.
pub value-AfterSome {ℓ ℓ'} :
    {A : Type ℓ} {S : Type ℓ'} (P : S → Type 0) (f : A → Parsing S) (o : Option A)
    → ((a : A) → After P (f a))
    → AfterSome P (on_value f o)
unfolding on_value
value-AfterSome P f none h = tt
value-AfterSome P f (some a) h = h a

pub or_else-AfterSome {ℓ} :
    {S : Type ℓ} (P : S → Type 0) (a b : Option (Parsing S))
    → AfterSome P a
    → AfterSome P b
    → AfterSome P (or_else a b)
unfolding or_else
or_else-AfterSome P none b ha hb = hb
or_else-AfterSome P (some a) b ha hb = ha

-- One test, and those behind it.
pub next {ℓ ℓ'} :
    {A : Type ℓ} {S : Type ℓ'} (P : S → Type 0) (f : A → Parsing S) (o : Option A)
    (rest : Option (Parsing S))
    → ((a : A) → After P (f a))
    → AfterSome P rest
    → AfterSome P (or_else (on_value f o) rest)
next P f o rest h t = or_else-AfterSome P _ _ (value-AfterSome P _ _ h) t

pub or_exits-After {ℓ} :
    {S : Type ℓ} (P : S → Type 0) (a : Option (Parsing S)) → AfterSome P a → After P (or_exits a)
unfolding or_exits
or_exits-After P none h = tt
or_exits-After P (some a) h = h

pub level-After {ℓ} :
    {S : Type ℓ} (P : S → Type 0) (str : Bytes) (s : S)
    → P s
    → After P
        (if eq_ℤ (log_level_from_str (some str)) log_level_invalid then exits else continues s)
level-After P str s p =
    if-all (After P) (eq_ℤ (log_level_from_str (some str)) log_level_invalid) exits (continues s) tt
      p

pub logs_with :
    (c : Config) (name : Bytes)
    → IsSound c
    → IsRegistry (find_or_create_log_file c.log_file_list (some c.log_file_default) name).1
logs_with c name s =
    (find_or_create_log_file-IsRegistry c.log_file_list (some c.log_file_default) none name
      s.log_files).0

pub main_entry-IsSound :
    (beyond : Bytes → Bytes) (line : Bytes) (c : Config)
    → IsSound c
    → After IsSound (config_file_parse_main_entry beyond line c)
unfolding config_file_parse_main_entry
main_entry-IsSound beyond line c s = or_exits-After IsSound _ (
    next IsSound _ _ _ (λ name. with_logs c _ s (logs_with c name s))
      (next IsSound _ _ _ (λ str. level-After IsSound str _ s)
        (value-AfterSome IsSound _ _ (λ n. s))))

All-map {ℓ ℓ' κ κ'} :
    {A : Type ℓ} {B : Type ℓ'} (f : A → B) (P : A → Type κ) (Q : B → Type κ') (xs : List A)
    → ((x : A) → P x → Q (f x))
    → All P xs
    → All Q (map f xs)
All-map f P Q [] h all = tt
All-map f P Q (x ∷ xs) h (p, all) = (h x p, All-map f P Q xs h all)

-- A change of a log file keeps its name.
abbrev KeepsName : (LogFile → LogFile) → Type 0
KeepsName change = (log : LogFile) → (change log).file_name ≡ log.file_name

map-IsRegistry :
    (change : LogFile → LogFile) (logs : List LogFile)
    → KeepsName change
    → IsRegistry logs
    → IsRegistry (map change logs)
unfolding IsRegistry
map-IsRegistry change [] keeps r = tt
map-IsRegistry change (log ∷ rest) keeps (fits, others, r) = (
  rw (keeps log) fits,
  All-map change (λ o. o.file_name ≢ log.file_name) (λ o. o.file_name ≢ (change log).file_name) rest
      (λ o ne e. ne (sym (keeps o) ∙ e ∙ keeps log)) others,
  map-IsRegistry change rest keeps r,
)

change_log-IsSound :
    (name : Bytes) (change : LogFile → LogFile) (c : Config)
    → KeepsName change
    → IsSound c
    → IsSound (change_log name change c)
unfolding change_log
change_log-IsSound name change c keeps s = record {
  ids_below = s.ids_below;
  sound_rules =
      All-map _ (HasSoundRules c.ssh_tunnel_list) (HasSoundRules c.ssh_tunnel_list)
        c.proxy_instance_list (λ p sound. sound) s.sound_rules;
  sound_default = s.sound_default;
  log_files =
      map-IsRegistry _ c.log_file_list
        (λ log.
          if-all (λ (l : LogFile). l.file_name ≡ log.file_name) (str_eq log.file_name name) _ _
            (keeps log) refl)
        s.log_files;
}

pub log_file_entry-IsSound :
    (line : Bytes) (name : Option Bytes) (c : Config)
    → IsSound c
    → After IsSound (config_file_parse_log_file_entry line name c)
unfolding config_file_parse_log_file_entry
log_file_entry-IsSound line none c s =
    or_exits-After IsSound _ (next IsSound _ _ _ (λ n. s) (value-AfterSome IsSound _ _ (λ n. s)))
log_file_entry-IsSound line (some name) c s = or_exits-After IsSound _ (
    next IsSound _ _ _ (λ n. change_log-IsSound name _ c (λ log. refl) s)
      (value-AfterSome IsSound _ _ (λ n. change_log-IsSound name _ c (λ log. refl) s)))

-- A proxy behind an entry, and the configuration.
abbrev pub IsSoundProxy : ProxyInstance × Config → Type 0
IsSoundProxy (proxy, c) = IsSound c × HasSoundRules c.ssh_tunnel_list proxy

abbrev pub IsSoundTunnel : SshTunnel × Config → Type 0
IsSoundTunnel (ssh, c) = IsSound c

pub ssh_tunnel_entry-IsSound :
    (beyond : Bytes → Bytes) (line : Bytes) (ssh : SshTunnel) (c : Config)
    → IsSound c
    → After IsSoundTunnel (config_file_parse_ssh_tunnel_entry beyond line ssh c)
unfolding config_file_parse_ssh_tunnel_entry
ssh_tunnel_entry-IsSound beyond line ssh c s = or_exits-After IsSoundTunnel _ (
    next IsSoundTunnel _ _ _ (λ n. s)
      (next IsSoundTunnel _ _ _ (λ str. s)
        (next IsSoundTunnel _ _ _ (λ name. with_logs c _ s (logs_with c name s))
          (value-AfterSome IsSoundTunnel _ _ (λ str. level-After IsSoundTunnel str _ s)))))
