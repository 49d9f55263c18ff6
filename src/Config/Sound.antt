-- ===== src/Config/Sound.antt =====
-- What every configuration keeps to, and the changes of a configuration that keep to it.
use smart_socksproxy.Base.{ℕ, suc, ◌<◌, Option, none, some, List, [], ◌∷◌, All}
use smart_socksproxy.Tunnel.{SshTunnel}
use smart_socksproxy.Rule.{RouteRule, IsWellFormed, IsListed}
use smart_socksproxy.LogFile.{LogFile, IsRegistry}
use smart_socksproxy.Proxy.{ProxyInstance, insert_proxy_instance}
use smart_socksproxy.Config.Sections.{Config, Parsing, continues, exits, crashes}

-- The ids of the tunnels fall, and are below a bound.
abbrev pub IdsBelow : ℕ → List SshTunnel → Type 0
IdsBelow bound [] = Unit
IdsBelow bound (ssh ∷ rest) = (ssh.id < bound) × IdsBelow ssh.id rest

-- The rules of a proxy are well formed, and so name tunnels of the list only.
abbrev pub HasSoundRules : List SshTunnel → ProxyInstance → Type 0
HasSoundRules tunnels proxy = All (IsWellFormed tunnels) proxy.route_rule_list

pub record AreSoundParts (ssh_id_pool : ℕ) (tunnels : List SshTunnel) (proxies : List ProxyInstance)
    (proxy_default : ProxyInstance) (logs : List LogFile) : Type 0 where
  pub ids_below : IdsBelow (suc ssh_id_pool) tunnels
  pub sound_rules : All (HasSoundRules tunnels) proxies
  pub sound_default : HasSoundRules tunnels proxy_default
  pub log_files : IsRegistry logs

abbrev pub IsSound : Config → Type 0
IsSound c =
    AreSoundParts c.ssh_id_pool c.ssh_tunnel_list c.proxy_instance_list c.proxy_default
      c.log_file_list

-- What is kept to where the program goes on.
abbrev pub After {ℓ} : {S : Type ℓ} → (S → Type 0) → Parsing S → Type 0
After P (continues s) = P s
After P exits = Unit
After P crashes = Unit

-- What follows a step where the program goes on.
pub bind-After {ℓ ℓ'} :
    {S : Type ℓ} {T : Type ℓ'} (P : S → Type 0) (Q : T → Type 0) (m : Parsing S) (f : S → Parsing T)
    → After P m
    → ((s : S) → P s → After Q (f s))
    → After Q (elim m [ continues s ↦ f s | exits ↦ exits | crashes ↦ crashes ])
bind-After P Q (continues s) f h k = k s h
bind-After P Q exits f h k = tt
bind-After P Q crashes f h k = tt

abbrev pub AfterSome {ℓ} : {S : Type ℓ} → (S → Type 0) → Option (Parsing S) → Type 0
AfterSome P none = Unit
AfterSome P (some result) = After P result

pub All-weaken {ℓ ℓ' ℓ''} :
    {A : Type ℓ} (P : A → Type ℓ') (Q : A → Type ℓ'') (xs : List A)
    → ((x : A) → P x → Q x)
    → All P xs
    → All Q xs
All-weaken P Q [] f h = tt
All-weaken P Q (x ∷ xs) f (p, h) = (f x p, All-weaken P Q xs f h)

-- Rules stay well formed where the list of tunnels grows.
more_tunnels :
    (tunnels tunnels' : List SshTunnel)
    → ((t : ℕ) → IsListed tunnels t → IsListed tunnels' t)
    → (r : RouteRule) → IsWellFormed tunnels r
    → IsWellFormed tunnels' r
more_tunnels tunnels tunnels' grown r w = record {
  is_fits = w.is_fits;
  starts_with_fits = w.starts_with_fits;
  ends_with_fits = w.ends_with_fits;
  contains_fits = w.contains_fits;
  match_addr_fits = w.match_addr_fits;
  match_mask_fits = w.match_mask_fits;
  map_addr_fits = w.map_addr_fits;
  map_mask_fits = w.map_mask_fits;
  to_addr_fits = w.to_addr_fits;
  to_mask_fits = w.to_mask_fits;
  room = w.room;
  listed = All-weaken (IsListed tunnels) (IsListed tunnels') r.tunnel grown w.listed;
}

pub proxy_more :
    (tunnels tunnels' : List SshTunnel)
    → ((t : ℕ) → IsListed tunnels t → IsListed tunnels' t)
    → (p : ProxyInstance) → HasSoundRules tunnels p
    → HasSoundRules tunnels' p
proxy_more tunnels tunnels' grown p =
    All-weaken (IsWellFormed tunnels) (IsWellFormed tunnels') p.route_rule_list
      (more_tunnels tunnels tunnels' grown)

-- Another list of tunnels with falling ids, in which the tunnels before are.
pub with_tunnels :
    (c : Config) (tunnels : List SshTunnel) (pool : ℕ)
    → IsSound c
    → IdsBelow (suc pool) tunnels
    → ((t : ℕ) → IsListed c.ssh_tunnel_list t → IsListed tunnels t)
    → IsSound (record c { ssh_tunnel_list = tunnels; ssh_id_pool = pool })
with_tunnels c tunnels pool s below grown = record {
  ids_below = below;
  sound_rules =
      All-weaken (HasSoundRules c.ssh_tunnel_list) (HasSoundRules tunnels) c.proxy_instance_list
        (proxy_more c.ssh_tunnel_list tunnels grown) s.sound_rules;
  sound_default = proxy_more c.ssh_tunnel_list tunnels grown c.proxy_default s.sound_default;
  log_files = s.log_files;
}

pub with_logs :
    (c : Config) (logs : List LogFile)
    → IsSound c
    → IsRegistry logs
    → IsSound (record c { log_file_list = logs })
with_logs c logs s r = record {
  ids_below = s.ids_below;
  sound_rules = s.sound_rules;
  sound_default = s.sound_default;
  log_files = r;
}

pub with_proxies :
    (c : Config) (proxies : List ProxyInstance)
    → IsSound c
    → All (HasSoundRules c.ssh_tunnel_list) proxies
    → IsSound (record c { proxy_instance_list = proxies })
with_proxies c proxies s all = record {
  ids_below = s.ids_below;
  sound_rules = all;
  sound_default = s.sound_default;
  log_files = s.log_files;
}

pub with_default :
    (c : Config) (proxy : ProxyInstance)
    → IsSound c
    → HasSoundRules c.ssh_tunnel_list proxy
    → IsSound (record c { proxy_default = proxy })
with_default c proxy s sound = record {
  ids_below = s.ids_below;
  sound_rules = s.sound_rules;
  sound_default = sound;
  log_files = s.log_files;
}

pub All-insert_proxy :
    (P : ProxyInstance → Type 0) (proxies : List ProxyInstance) (p : ProxyInstance)
    → All P proxies
    → P p
    → All P (insert_proxy_instance proxies p)
unfolding insert_proxy_instance
All-insert_proxy P [] p all h = (h, tt)
All-insert_proxy P (x ∷ proxies) p (px, all) h = (px, All-insert_proxy P proxies p all h)
