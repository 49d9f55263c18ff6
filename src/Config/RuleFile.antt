-- ===== src/Config/RuleFile.antt =====
-- `route_rule_file_parse`: the rules of a file and of those that it includes.
use smart_socksproxy.Base.{
  ℕ, zero, suc, Bool, true, false, ◌||◌, Option, none, some, List, [], ◌∷◌, ◌++◌, Bytes, codes,
  str_eq, if◌then◌else◌, pos,
}
use smart_socksproxy.Tunnel.{SshTunnel}
use smart_socksproxy.Rule.{
  RouteRule, Parsed, rule, refused, undefined, exhausted, insert_route_rule, parse_route_rule_spec,
}
use smart_socksproxy.Config.Clean.{remove_extra_spaces_and_comments_from_config_line}
use smart_socksproxy.Config.Environment.{replace_environment_variables_in_string, config_set_string}

-- What files hold, as `read_lines` gives it: whether the end was reached, and the lines; none where
-- `open` fails. The environment, and `inet_pton`.
pub record Source : Type 0 where
  pub file : Bytes → Option (Bool × List Bytes)
  pub getenv : Bytes → Option Bytes
  pub pton : Bytes → Option Bytes
  pub beyond : Bytes → Bytes

-- The rules read so far, and the pool of their ids.
pub record Rules : Type 0 where
  pub list : List RouteRule
  pub id_pool : ℕ

-- What a function that reads a file returns; `crashed` where the parser of rules reads NULL or a line
-- does not fit its buffer. That it
-- runs out of fuel, which is put there too, does not happen.
pub data Result {ℓ} (S : Type ℓ) : Type ℓ where
  returns : Bool → S → Result S
  crashed : Result S

-- A line in the loop: it goes on, or the function ends.
pub data Step {ℓ} (S : Type ℓ) : Type ℓ where
  goes_on : S → Step S
  ends : Result S → Step S

-- MAX_LINE_LENGTH.
abbrev pub max_line_length : ℕ
max_line_length = 10240

-- A line without comments and with variables replaced; it is refused, or does not fit its buffer.
pub data Cleaned : Type 0 where
  kept_line : Bytes → Cleaned
  no_line : Cleaned
  overrun : Cleaned

unfoldable pub cleaned_line : Source → Bytes → Cleaned
cleaned_line source raw =
    let (ok, cleaned) = remove_extra_spaces_and_comments_from_config_line raw in
    if ok
    then elim (replace_environment_variables_in_string source.getenv max_line_length cleaned) [
      | none ↦ overrun
      | some (ok', replaced) ↦ if ok' then kept_line replaced else no_line
    ]
    else no_line

abbrev pub on_stack : Bytes → List Bytes → Bool
on_stack name [] = false
on_stack name (s ∷ stack) = str_eq s name || on_stack name stack

unfoldable pub add_parsed : Rules → Parsed → Step Rules
add_parsed rules (rule r) =
    goes_on (record { list = insert_route_rule rules.list r; id_pool = suc rules.id_pool })
add_parsed rules refused = ends (returns false (record rules { id_pool = suc rules.id_pool }))
add_parsed rules undefined = ends crashed
add_parsed rules exhausted = ends crashed

-- An included file that fails ends the loop, and the function returns 1.
unfoldable pub after_include : Result Rules → Step Rules
after_include (returns true rules) = goes_on rules
after_include (returns false rules) = ends (returns true rules)
after_include crashed = ends crashed

module _ (source : Source) (tunnels : List SshTunnel) where
  -- `nested` reads an included file; none where the stack of files is full.
  unfoldable pub include :
      List Bytes → Option (Bytes → Rules → Result Rules) → Bytes → Rules → Step Rules
  unfolding after_include
  include stack none name rules = goes_on rules
  include stack (some nested) name rules =
      if on_stack name stack then goes_on rules else after_include (nested name rules)

  unfoldable pub rule_line :
      Bytes → List Bytes → Option (Bytes → Rules → Result Rules) → ℕ → Bytes → Rules → Step Rules
  unfolding include add_parsed
  rule_line filename stack nested line_num line rules =
      elim (config_set_string source.beyond line (codes "routeFile ") 8192) [
        | some name ↦ include stack nested name rules
        | none ↦ add_parsed rules (
            parse_route_rule_spec source.pton (suc rules.id_pool) line filename (pos line_num)
              tunnels)
      ]

  -- The loop, with `line_num` before it is incremented. Empty lines are skipped.
  unfoldable pub rule_lines :
      Bytes
      → List Bytes
      → Option (Bytes → Rules → Result Rules)
      → Bool
      → ℕ
      → List Bytes
      → Rules
      → Result Rules
  unfolding rule_line cleaned_line
  rule_lines filename stack nested ended line_num [] rules = returns ended rules
  rule_lines filename stack nested ended line_num (raw ∷ rest) rules =
      elim (cleaned_line source raw) [
        | overrun ↦ crashed
        | no_line ↦ returns false rules
        | kept_line [] ↦ rule_lines filename stack nested ended (suc line_num) rest rules
        | kept_line (c ∷ text) ↦
            elim (rule_line filename stack nested (suc line_num) (c ∷ text) rules) [
              | goes_on rules' ↦ rule_lines filename stack nested ended (suc line_num) rest rules'
              | ends result ↦ result
            ]
      ]

  abbrev pub open_rules :
      Bytes → List Bytes → Option (Bytes → Rules → Result Rules) → Rules → Result Rules
  open_rules filename stack nested rules = elim (source.file filename) [
    | none ↦ returns false rules
    | some (ended, lines) ↦ rule_lines filename stack nested ended 0 lines rules
  ]

  -- `room` is what is left of the stack of files behind this one.
  unfoldable pub route_rule_file_parse : ℕ → List Bytes → Bytes → Rules → Result Rules
  unfolding rule_lines
  route_rule_file_parse zero stack filename rules =
      open_rules filename (stack ++ filename ∷ []) none rules
  route_rule_file_parse (suc room) stack filename rules =
      open_rules filename (stack ++ filename ∷ [])
        (some (route_rule_file_parse room (stack ++ filename ∷ []))) rules
