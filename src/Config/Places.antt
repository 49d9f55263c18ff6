-- ===== src/Config/Places.antt =====
-- Putting a proxy or a tunnel back in its place keeps a configuration sound.
use smart_socksproxy.Base.{
  ℕ, zero, suc, ◌≡◌, refl, sym, inl, inr, Bool-cases, Option, none, some, List, [], ◌∷◌, All, ◌==◌,
  ==_iff, arith,
}
use smart_socksproxy.Tunnel.{SshTunnel}
use smart_socksproxy.Rule.{IsListed}
use smart_socksproxy.Proxy.{ProxyInstance}
use smart_socksproxy.Config.Sections.{Config, Section, Parsing, continues, exits, crashes}
use smart_socksproxy.Config.Parse.{
  then_config, nth_proxy, put_proxy, put_tunnel, FileParsed, after_file, same_section,
}
use smart_socksproxy.Config.Sound.{IdsBelow, IsSound, After}
use smart_socksproxy.Config.SoundSections.{InSound}

pub nth_proxy-all :
    (P : ProxyInstance → Type 0) (i : ℕ) (proxies : List ProxyInstance) (proxy : ProxyInstance)
    → All P proxies
    → nth_proxy i proxies ≡ some proxy
    → P proxy
unfolding nth_proxy
nth_proxy-all P i [] proxy all e = absurd (ground (arith, e))
nth_proxy-all P zero (p ∷ rest) proxy (h, all) e = let is : p ≡ proxy = cc in rw (sym is) h
nth_proxy-all P (suc i) (p ∷ rest) proxy (h, all) e = nth_proxy-all P i rest proxy all e

pub put_proxy-all :
    (P : ProxyInstance → Type 0) (i : ℕ) (proxy : ProxyInstance) (proxies : List ProxyInstance)
    → All P proxies
    → P proxy
    → All P (put_proxy i proxy proxies)
unfolding put_proxy
put_proxy-all P i proxy [] all h = tt
put_proxy-all P zero proxy (p ∷ rest) (hp, all) h = (h, all)
put_proxy-all P (suc i) proxy (p ∷ rest) (hp, all) h = (hp, put_proxy-all P i proxy rest all h)

-- A tunnel is put in the place of one with the same id.
pub put_tunnel-below :
    (bound : ℕ) (ssh : SshTunnel) (tunnels : List SshTunnel)
    → IdsBelow bound tunnels
    → IdsBelow bound (put_tunnel ssh tunnels)
unfolding put_tunnel
put_tunnel-below bound ssh [] below = tt
put_tunnel-below bound ssh (old ∷ rest) (lt, below) = elim (Bool-cases (old.id == ssh.id)) [
  | inl same ↦
      let is : old.id ≡ ssh.id = (==_iff old.id ssh.id).0 same in
      rw same (rw (sym is) lt, rw (sym is) below)
  | inr other ↦ rw other (lt, put_tunnel-below old.id ssh rest below)
]

pub put_tunnel-listed :
    (ssh : SshTunnel) (tunnels : List SshTunnel) (t : ℕ)
    → IsListed tunnels t
    → IsListed (put_tunnel ssh tunnels) t
unfolding put_tunnel
put_tunnel-listed ssh [] t l = l
put_tunnel-listed ssh (old ∷ rest) t l = elim (Bool-cases (old.id == ssh.id)) [
  | inl same ↦ let is : old.id ≡ ssh.id = (==_iff old.id ssh.id).0 same in rw (same, sym is) l
  | inr other ↦ rw other (elim l [ inl e ↦ inl e | inr k ↦ inr (put_tunnel-listed ssh rest t k) ])
]

pub then_config-After {ℓ} :
    {A : Type ℓ} (P : A × Config → Type 0) (put : A → Config → Config) (m : Parsing (A × Config))
    → After P m
    → ((a : A) (c : Config) → P (a, c) → IsSound (put a c))
    → After IsSound (then_config put m)
then_config-After P put (continues (a, c)) h k = k a c h
then_config-After P put exits h k = tt
then_config-After P put crashes h k = tt

pub with_found :
    (o : Option ProxyInstance) (f : ProxyInstance → Parsing Config)
    → ((p : ProxyInstance) → o ≡ some p → After IsSound (f p))
    → After IsSound (elim o [ none ↦ crashes | some p ↦ f p ])
with_found none f h = tt
with_found (some p) f h = h p refl

pub after_file-InSound :
    (section : Section) (parsed : FileParsed)
    → After (λ r. IsSound r.1) parsed
    → After InSound (after_file section parsed)
after_file-InSound section (continues r) h = h
after_file-InSound section exits h = tt
after_file-InSound section crashes h = tt

pub same_section-InSound :
    (section : Section) (m : Parsing Config)
    → After IsSound m
    → After InSound (same_section section m)
same_section-InSound section (continues c) h = h
same_section-InSound section exits h = tt
same_section-InSound section crashes h = tt
