-- ===== src/Config/Includes.antt =====
-- A file of rules with the files that it includes is one list of rules.
use smart_socksproxy.Base.{
  ℕ, zero, suc, ◌≡◌, refl, sym, ap, ◌∙◌, inl, inr, Bool, true, false, Bool-cases, Option, none,
  some, List, [], ◌∷◌, ◌++◌, Bytes, codes, if◌then◌else◌, pos, arith,
}
use smart_socksproxy.Tunnel.{SshTunnel}
use smart_socksproxy.Rule.{parse_route_rule_spec}
use smart_socksproxy.Config.Environment.{config_set_string}
use smart_socksproxy.Config.RuleFile.{
  Source, Rules, Result, returns, Step, goes_on, ends, cleaned_line, on_stack, include, add_parsed,
  rule_line, rule_lines, route_rule_file_parse, after_include, Cleaned, kept_line, no_line, overrun,
  crashed,
}
use smart_socksproxy.Config.Inlined.{
  Placed, go_on, add_all, added, joined, placed_line, placed_lines, inlined,
}

go_on-parts :
    (s : Step Rules) (f : Rules → Option Rules) (rules' : Rules)
    → go_on s f ≡ some rules'
    → (mid : Rules) × (s ≡ goes_on mid) × (f mid ≡ some rules')
go_on-parts (goes_on mid) f rules' h = (mid, refl, h)
go_on-parts (ends result) f rules' h = absurd (ground (arith, h))

module _ (source : Source) (tunnels : List SshTunnel) where
  add_all-parts :
      (p q : List Placed) (rules rules' : Rules)
      → add_all source tunnels (p ++ q) rules ≡ some rules'
      → (mid : Rules) × (add_all source tunnels p rules ≡ some mid)
        × (add_all source tunnels q mid ≡ some rules')
  unfolding add_all
  add_all-parts [] q rules rules' h = (rules, refl, h)
  add_all-parts ((filename, line_num, line) ∷ p) q rules rules' h =
      let (next, s, h') = go_on-parts _ _ rules' h in
      let (mid, first, second) = add_all-parts p q next rules' h' in
      (mid, ap (λ t. go_on t (add_all source tunnels p)) s ∙ first, second)

  added-parts :
      (a b : Option (List Placed)) (rules rules' : Rules)
      → added source tunnels (joined source tunnels a b) rules ≡ some rules'
      → (mid : Rules) × (added source tunnels a rules ≡ some mid)
        × (added source tunnels b mid ≡ some rules')
  added-parts none b rules rules' h = absurd (ground (arith, h))
  added-parts (some p) none rules rules' h = absurd (ground (arith, h))
  added-parts (some p) (some q) rules rules' h = add_all-parts p q rules rules' h

  -- What reads an included file against its rules.
  abbrev Agrees :
      Option (Bytes → Rules → Result Rules) → Option (Bytes → Option (List Placed)) → Type 0
  Agrees none none = Unit
  Agrees none (some inner) = ⊥
  Agrees (some nested) none = ⊥
  Agrees (some nested) (some inner) =
      (name : Bytes) (rules rules' : Rules)
      → added source tunnels (inner name) rules ≡ some rules'
      → nested name rules ≡ returns true rules'

  module _ (filename : Bytes) (stack : List Bytes) where
    -- A line that includes a file.
    include_as :
        (nested : Option (Bytes → Rules → Result Rules))
        (inner : Option (Bytes → Option (List Placed)))
        → Agrees nested inner
        → (name : Bytes) (rules rules' : Rules)
        → added source tunnels
            (elim inner [
              | none ↦ some []
              | some f ↦ if on_stack name stack then some [] else f name
            ])
            rules
          ≡ some rules'
        → include source tunnels stack nested name rules ≡ goes_on rules'
    unfolding include after_include add_all
    include_as none none same name rules rules' h = ground (arith, h)
    include_as none (some inner) same name rules rules' h = absurd same
    include_as (some nested) none same name rules rules' h = absurd same
    include_as (some nested) (some inner) same name rules rules' h =
        elim (Bool-cases (on_stack name stack)) [
          | inl on ↦ ground (arith, on, h)
          | inr off ↦
              rw
                (
                  off,
                  same name rules rules' (
                      sym (
                        ap (λ b. added source tunnels (if b then some [] else inner name) rules)
                          off)
                      ∙ h),
                )
                refl
        ]

    module _ (nested : Option (Bytes → Rules → Result Rules))
        (inner : Option (Bytes → Option (List Placed))) (same : Agrees nested inner) where
      -- `set` is the name of the file that the line includes, if it does.
      line_as :
          (set : Option Bytes) (line_num : ℕ) (line : Bytes) (rules rules' : Rules)
          → added source tunnels
              (elim set [
                | none ↦ some ((filename, line_num, line) ∷ [])
                | some name ↦ elim inner [
                  | none ↦ some []
                  | some f ↦ if on_stack name stack then some [] else f name
                ]
              ])
              rules
            ≡ some rules'
          → elim set [
            | none ↦ add_parsed rules (
                parse_route_rule_spec source.pton
                  (suc rules.id_pool)
                  line
                  filename
                  (pos line_num)
                  tunnels)
            | some name ↦ include source tunnels stack nested name rules
          ]
            ≡ goes_on rules'
      unfolding add_all
      line_as none line_num line rules rules' h =
          let (mid, s, h') = go_on-parts _ some rules' h in s ∙ ground (arith, h')
      line_as (some name) line_num line rules rules' h =
          include_as nested inner same name rules rules' h

      -- `line` is the line as `cleaned_line` leaves it.
      lines_as :
          (cleaned : Cleaned) (line_num : ℕ) (rest : List Bytes) (rules rules' : Rules)
          → ((mid : Rules)
              → added source tunnels
                  (placed_lines source tunnels filename stack inner (suc line_num) rest)
                  mid
                ≡ some rules'
              → rule_lines source tunnels filename stack nested true (suc line_num) rest mid
                ≡ returns true rules')
          → added source tunnels
              (elim cleaned [
                | overrun ↦ none
                | no_line ↦ none
                | kept_line [] ↦
                    placed_lines source tunnels filename stack inner (suc line_num) rest
                | kept_line (c ∷ text) ↦
                    joined source tunnels
                      (placed_line source tunnels filename stack inner (suc line_num) (c ∷ text))
                      (placed_lines source tunnels filename stack inner (suc line_num) rest)
              ])
              rules
            ≡ some rules'
          → elim cleaned [
            | overrun ↦ crashed
            | no_line ↦ returns false rules
            | kept_line [] ↦
                rule_lines source tunnels filename stack nested true (suc line_num) rest rules
            | kept_line (c ∷ text) ↦
                elim (rule_line source tunnels filename stack nested
                  (suc line_num)
                  (c ∷ text)
                  rules) [
                    | goes_on mid ↦
                        rule_lines source tunnels filename stack nested true (suc line_num) rest mid
                    | ends result ↦ result
                  ]
          ]
            ≡ returns true rules'
      unfolding rule_line placed_line
      lines_as overrun line_num rest rules rules' behind h = absurd (ground (arith, h))
      lines_as no_line line_num rest rules rules' behind h = absurd (ground (arith, h))
      lines_as (kept_line []) line_num rest rules rules' behind h = behind rules h
      lines_as (kept_line (c ∷ text)) line_num rest rules rules' behind h =
          let (mid, first, second) = added-parts _ _ rules rules' h in
          rw
            (line_as (config_set_string source.beyond (c ∷ text) (codes "routeFile ") 8192)
              (suc line_num) (c ∷ text) rules mid first)
            (behind mid second)

      rule_lines_as :
          (line_num : ℕ) (lines : List Bytes) (rules rules' : Rules)
          → added source tunnels
              (placed_lines source tunnels filename stack inner line_num lines)
              rules
            ≡ some rules'
          → rule_lines source tunnels filename stack nested true line_num lines rules
            ≡ returns true rules'
      unfolding rule_lines placed_lines add_all
      rule_lines_as line_num [] rules rules' h = ground (arith, h)
      rule_lines_as line_num (raw ∷ rest) rules rules' h =
          lines_as (cleaned_line source raw) line_num rest rules rules'
            (λ mid. rule_lines_as (suc line_num) rest mid rules') h

      file_as :
          (content : Option (Bool × List Bytes)) (rules rules' : Rules)
          → added source tunnels
              (elim content [
                | none ↦ none
                | some (ended, lines) ↦
                    if ended then placed_lines source tunnels filename stack inner 0 lines else none
              ])
              rules
            ≡ some rules'
          → elim content [
            | none ↦ returns false rules
            | some (ended, lines) ↦
                rule_lines source tunnels filename stack nested ended 0 lines rules
          ]
            ≡ returns true rules'
      file_as none rules rules' h = absurd (ground (arith, h))
      file_as (some (true, lines)) rules rules' h = rule_lines_as 0 lines rules rules' h
      file_as (some (false, lines)) rules rules' h = absurd (ground (arith, h))

  -- Where every line of a file and of those it includes can be cleaned within its buffer, and the
  -- texts of rules that they consist of, each included file in the place of its line, are all rules,
  -- reading the file succeeds and leaves what inserting these rules one after another leaves, for any
  -- room on the stack of files and any files on it.
  pub route_rule_file_parse-inlined :
      (room : ℕ) (stack : List Bytes) (filename : Bytes) (rules rules' : Rules)
      → added source tunnels (inlined source tunnels room stack filename) rules ≡ some rules'
      → route_rule_file_parse source tunnels room stack filename rules ≡ returns true rules'
  unfolding route_rule_file_parse inlined
  route_rule_file_parse-inlined zero stack filename rules rules' h =
      file_as filename (stack ++ filename ∷ []) none none tt (source.file filename) rules rules' h
  route_rule_file_parse-inlined (suc room) stack filename rules rules' h =
      let inside = stack ++ filename ∷ [] in
      file_as filename inside (some (route_rule_file_parse source tunnels room inside))
        (some (inlined source tunnels room inside))
        (λ name r r' e. route_rule_file_parse-inlined room inside name r r' e)
        (source.file filename) rules rules' h
