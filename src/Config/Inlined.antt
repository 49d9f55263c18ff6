-- ===== src/Config/Inlined.antt =====
-- The rules of a file and of the files that it includes, as one list of texts.
use smart_socksproxy.Base.{
  ℕ, zero, suc, Option, none, some, List, [], ◌∷◌, ◌++◌, Bytes, codes, if◌then◌else◌, pos,
}
use smart_socksproxy.Tunnel.{SshTunnel}
use smart_socksproxy.Rule.{parse_route_rule_spec}
use smart_socksproxy.Config.Environment.{config_set_string}
use smart_socksproxy.Config.RuleFile.{
  Source, Rules, Step, goes_on, ends, cleaned_line, on_stack, add_parsed, kept_line, no_line,
  overrun,
}

-- A rule's text with its file and line.
abbrev pub Placed : Type 0
Placed = Bytes × ℕ × Bytes

-- What comes behind a step that goes on.
abbrev pub go_on : Step Rules → (Rules → Option Rules) → Option Rules
go_on (goes_on rules) f = f rules
go_on (ends result) f = none

module _ (source : Source) (tunnels : List SshTunnel) where
  -- The texts of rules behind one another: each has to be a rule.
  unfoldable pub add_all : List Placed → Rules → Option Rules
  unfolding add_parsed
  add_all [] rules = some rules
  add_all ((filename, line_num, line) ∷ placed) rules =
      go_on
        (add_parsed rules (
          parse_route_rule_spec source.pton (suc rules.id_pool) line filename (pos line_num)
            tunnels))
        (add_all placed)

  abbrev pub added : Option (List Placed) → Rules → Option Rules
  added none rules = none
  added (some placed) rules = add_all placed rules

  abbrev pub joined : Option (List Placed) → Option (List Placed) → Option (List Placed)
  joined none more = none
  joined (some placed) none = none
  joined (some placed) (some more) = some (placed ++ more)

  -- The rules of a line: its own text, or those of the file that it includes, which is left out if it
  -- is being read already or there is no room.
  unfoldable pub placed_line :
      Bytes → List Bytes → Option (Bytes → Option (List Placed)) → ℕ → Bytes → Option (List Placed)
  placed_line filename stack nested line_num line =
      elim (config_set_string source.beyond line (codes "routeFile ") 8192) [
        | none ↦ some ((filename, line_num, line) ∷ [])
        | some name ↦ elim nested [
          | none ↦ some []
          | some inner ↦ if on_stack name stack then some [] else inner name
        ]
      ]

  unfoldable pub placed_lines :
      Bytes
      → List Bytes
      → Option (Bytes → Option (List Placed))
      → ℕ
      → List Bytes
      → Option (List Placed)
  unfolding placed_line cleaned_line
  placed_lines filename stack nested line_num [] = some []
  placed_lines filename stack nested line_num (raw ∷ rest) =
      let more = placed_lines filename stack nested (suc line_num) rest in
      elim (cleaned_line source raw) [
        | overrun ↦ none
        | no_line ↦ none
        | kept_line [] ↦ more
        | kept_line (c ∷ text) ↦
            joined (placed_line filename stack nested (suc line_num) (c ∷ text)) more
      ]

  -- The end of the file has to be reached.
  abbrev pub placed_file :
      Bytes → List Bytes → Option (Bytes → Option (List Placed)) → Option (List Placed)
  placed_file filename stack nested = elim (source.file filename) [
    | none ↦ none
    | some (ended, lines) ↦ if ended then placed_lines filename stack nested 0 lines else none
  ]

  -- The texts of the rules of a file, those of an included file in the place of the line.
  unfoldable pub inlined : ℕ → List Bytes → Bytes → Option (List Placed)
  unfolding placed_lines
  inlined zero stack filename = placed_file filename (stack ++ filename ∷ []) none
  inlined (suc room) stack filename =
      placed_file filename (stack ++ filename ∷ []) (some (inlined room (stack ++ filename ∷ [])))
