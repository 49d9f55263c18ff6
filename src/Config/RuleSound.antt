-- ===== src/Config/RuleSound.antt =====
-- Files of rules leave well-formed rules.
use smart_socksproxy.Base.{
  ℕ, zero, suc, Bool, true, false, if-all, option-all, Option, none, some, List, [], ◌∷◌, ◌++◌,
  Bytes, codes, All, pos,
}
use smart_socksproxy.Tunnel.{SshTunnel}
use smart_socksproxy.Rule.{
  RouteRule, Parsed, rule, refused, undefined, exhausted, insert_route_rule, IsWellFormed, Ensures,
  WritesAddress, parse_route_rule_spec-IsWellFormed,
}
use smart_socksproxy.Config.Environment.{config_set_string}
use smart_socksproxy.Config.RuleFile.{
  Source, Rules, Result, returns, crashed, Step, goes_on, ends, cleaned_line, on_stack, add_parsed,
  after_include, include, rule_line, rule_lines, open_rules, route_rule_file_parse, Cleaned,
  kept_line, no_line, overrun,
}

-- What holds whatever the cleaning of a line gives.
pub cleaned-all {ℓ ℓ'} :
    {R : Type ℓ} (Q : R → Type ℓ') (cleaned : Cleaned) (crash stop skip : R)
    (handle : ℕ → Bytes → R)
    → Q crash
    → Q stop
    → Q skip
    → ((c : ℕ) (text : Bytes) → Q (handle c text))
    → Q (elim cleaned [
      | overrun ↦ crash
      | no_line ↦ stop
      | kept_line [] ↦ skip
      | kept_line (c ∷ text) ↦ handle c text
    ])
cleaned-all Q overrun crash stop skip handle x a b f = x
cleaned-all Q no_line crash stop skip handle x a b f = a
cleaned-all Q (kept_line []) crash stop skip handle x a b f = b
cleaned-all Q (kept_line (c ∷ text)) crash stop skip handle x a b f = f c text

pub All-insert {ℓ} :
    (P : RouteRule → Type ℓ) (rules : List RouteRule) (r : RouteRule)
    → All P rules
    → P r
    → All P (insert_route_rule rules r)
unfolding insert_route_rule
All-insert P [] r all p = (p, tt)
All-insert P (x ∷ rules) r (px, all) p = (px, All-insert P rules r all p)

module _ (source : Source) (tunnels : List SshTunnel) (writes : WritesAddress source.pton) where
  abbrev pub AreSound : Rules → Type 0
  AreSound rules = All (IsWellFormed tunnels) rules.list

  abbrev pub Returned : Result Rules → Type 0
  Returned (returns okay rules) = AreSound rules
  Returned crashed = Unit

  abbrev Stepped : Step Rules → Type 0
  Stepped (goes_on rules) = AreSound rules
  Stepped (ends result) = Returned result

  -- What reads an included file, where there is room for it.
  abbrev Reads : Option (Bytes → Rules → Result Rules) → Type 0
  Reads none = Unit
  Reads (some nested) =
      (name : Bytes) (rules : Rules) → AreSound rules → Returned (nested name rules)

  add_parsed-Stepped :
      (rules : Rules) (p : Parsed)
      → AreSound rules
      → Ensures (IsWellFormed tunnels) p
      → Stepped (add_parsed rules p)
  unfolding add_parsed
  add_parsed-Stepped rules (rule r) sound e = All-insert (IsWellFormed tunnels) rules.list r sound e
  add_parsed-Stepped rules refused sound e = sound
  add_parsed-Stepped rules undefined sound e = tt
  add_parsed-Stepped rules exhausted sound e = tt

  after_include-Stepped : (result : Result Rules) → Returned result → Stepped (after_include result)
  unfolding after_include
  after_include-Stepped (returns true rules) sound = sound
  after_include-Stepped (returns false rules) sound = sound
  after_include-Stepped crashed sound = tt

  include-Stepped :
      (stack : List Bytes) (nested : Option (Bytes → Rules → Result Rules)) (name : Bytes)
      (rules : Rules)
      → Reads nested
      → AreSound rules
      → Stepped (include source tunnels stack nested name rules)
  unfolding include
  include-Stepped stack none name rules reads sound = sound
  include-Stepped stack (some nested) name rules reads sound =
      if-all Stepped (on_stack name stack) _ _ sound
        (after_include-Stepped (nested name rules) (reads name rules sound))

  module _ (filename : Bytes) (stack : List Bytes) (nested : Option (Bytes → Rules → Result Rules))
      (reads : Reads nested) where
    rule_line-Stepped :
        (line_num : ℕ) (line : Bytes) (rules : Rules)
        → AreSound rules
        → Stepped (rule_line source tunnels filename stack nested line_num line rules)
    unfolding rule_line
    rule_line-Stepped line_num line rules sound =
        option-all Stepped (config_set_string source.beyond line (codes "routeFile ") 8192) _ _
          (add_parsed-Stepped rules _ sound (
            parse_route_rule_spec-IsWellFormed source.pton (suc rules.id_pool) line filename
              (pos line_num) tunnels writes))
          (λ name. include-Stepped stack nested name rules reads sound)

    -- A line, and the loop behind it.
    behind_step :
        (s : Step Rules) (more : Rules → Result Rules)
        → Stepped s
        → ((rules : Rules) → AreSound rules → Returned (more rules))
        → Returned (elim s [ goes_on rules ↦ more rules | ends result ↦ result ])
    behind_step (goes_on rules) more h loop = loop rules h
    behind_step (ends result) more h loop = h

    rule_lines-Returned :
        (ended : Bool) (line_num : ℕ) (lines : List Bytes) (rules : Rules)
        → AreSound rules
        → Returned (rule_lines source tunnels filename stack nested ended line_num lines rules)
    unfolding rule_lines
    rule_lines-Returned ended line_num [] rules sound = sound
    rule_lines-Returned ended line_num (raw ∷ rest) rules sound =
        cleaned-all Returned (cleaned_line source raw) _ _ _ _ tt sound
          (rule_lines-Returned ended (suc line_num) rest rules sound)
          (λ c line.
            behind_step
              (rule_line source tunnels filename stack nested (suc line_num) (c ∷ line) rules)
              (rule_lines source tunnels filename stack nested ended (suc line_num) rest)
              (rule_line-Stepped (suc line_num) (c ∷ line) rules sound)
              (λ mid. rule_lines-Returned ended (suc line_num) rest mid))

    open_rules-Returned :
        (rules : Rules)
        → AreSound rules
        → Returned (open_rules source tunnels filename stack nested rules)
    open_rules-Returned rules sound =
        option-all Returned (source.file filename) _ _ sound
          (λ content. rule_lines-Returned content.0 0 content.1 rules sound)

  pub route_rule_file_parse-Returned :
      (room : ℕ) (stack : List Bytes) (filename : Bytes) (rules : Rules)
      → AreSound rules
      → Returned (route_rule_file_parse source tunnels room stack filename rules)
  unfolding route_rule_file_parse
  route_rule_file_parse-Returned zero stack filename rules sound =
      open_rules-Returned filename (stack ++ filename ∷ []) none tt rules sound
  route_rule_file_parse-Returned (suc room) stack filename rules sound =
      let inside = stack ++ filename ∷ [] in
      open_rules-Returned filename inside (some (route_rule_file_parse source tunnels room inside))
        (λ name r s. route_rule_file_parse-Returned room inside name r s) rules sound
