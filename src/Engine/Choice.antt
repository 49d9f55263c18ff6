-- ===== src/Engine/Choice.antt =====
-- Which rule a connection takes.
use smart_socksproxy.Base.{
  ◌≡◌, refl, sym, ap, ◌∙◌, inl, inr, Bool, true, false, Option, none, some, List, [], ◌∷◌, ◌++◌,
  append-nil, Bool-cases, ℤ,
}
use smart_socksproxy.Host.{Net}
use smart_socksproxy.Rule.{RouteRule}
use smart_socksproxy.Connection.{ClientConnection}
use smart_socksproxy.Engine.Defs.{view, conditions, permute, is_final, scan, decide_applicable_rule}

module _ (net : Net) (port : ℤ) where
  -- The connection goes past all these rules, and they make `con'` of it: a rule that applies
  -- permutes the destination, and none that applies has a tunnel.
  pub data Passes : List RouteRule → ClientConnection → ClientConnection → Type 0 where
    end : {con : ClientConnection} → Passes [] con con
    skip :
        {r : RouteRule} {rs : List RouteRule} {con con' : ClientConnection}
        → conditions port (view net con.dst_host) r ≡ false
        → Passes rs con con'
        → Passes (r ∷ rs) con con'
    change :
        {r : RouteRule} {rs : List RouteRule} {con con' : ClientConnection}
        → conditions port (view net con.dst_host) r ≡ true
        → is_final r ≡ false
        → Passes rs (permute net r con) con'
        → Passes (r ∷ rs) con con'

  -- The rule `r` ends the search: what stands before it is passed, and it applies to what is then
  -- the destination, and has a tunnel.
  pub record Ends (rules : List RouteRule) (con : ClientConnection) (r : RouteRule)
      (con' : ClientConnection) : Type 0 where
    pub before : List RouteRule
    pub after : List RouteRule
    pub at : ClientConnection
    pub splits : rules ≡ before ++ r ∷ after
    pub passes : Passes before con at
    pub applies : conditions port (view net at.dst_host) r ≡ true
    pub final : is_final r ≡ true
    pub permuted : con' ≡ permute net r at

  abbrev pub Outcome :
      List RouteRule → ClientConnection → ClientConnection × Option RouteRule → Type 0
  Outcome rules con (con', none) = Passes rules con con'
  Outcome rules con (con', some r) = Ends rules con r con'

  skip-Outcome :
      (r : RouteRule) (rs : List RouteRule) (con : ClientConnection)
      (o : ClientConnection × Option RouteRule)
      → conditions port (view net con.dst_host) r ≡ false
      → Outcome rs con o
      → Outcome (r ∷ rs) con o
  skip-Outcome r rs con (con', none) e h = skip e h
  skip-Outcome r rs con (con', some s) e h = record {
    before = r ∷ h.before;
    after = h.after;
    at = h.at;
    splits = ap (◌∷◌ r) h.splits;
    passes = skip e h.passes;
    applies = h.applies;
    final = h.final;
    permuted = h.permuted;
  }

  change-Outcome :
      (r : RouteRule) (rs : List RouteRule) (con : ClientConnection)
      (o : ClientConnection × Option RouteRule)
      → conditions port (view net con.dst_host) r ≡ true
      → is_final r ≡ false
      → Outcome rs (permute net r con) o
      → Outcome (r ∷ rs) con o
  change-Outcome r rs con (con', none) e f h = change e f h
  change-Outcome r rs con (con', some s) e f h = record {
    before = r ∷ h.before;
    after = h.after;
    at = h.at;
    splits = ap (◌∷◌ r) h.splits;
    passes = change e f h.passes;
    applies = h.applies;
    final = h.final;
    permuted = h.permuted;
  }

  module _ (r : RouteRule) (rs : List RouteRule) (con : ClientConnection) where
    scan_miss :
        conditions port (view net con.dst_host) r ≡ false
        → scan net port (r ∷ rs) con ≡ scan net port rs con
    unfolding scan
    scan_miss e = rw (e, scan)

    scan_final :
        conditions port (view net con.dst_host) r ≡ true
        → is_final r ≡ true
        → scan net port (r ∷ rs) con ≡ (permute net r con, some r)
    unfolding scan
    scan_final e f = rw (e, f, scan)

    scan_change :
        conditions port (view net con.dst_host) r ≡ true
        → is_final r ≡ false
        → scan net port (r ∷ rs) con ≡ scan net port rs (permute net r con)
    unfolding scan
    scan_change e f = rw (e, f, scan)

  scan-Outcome :
      (rules : List RouteRule) (con : ClientConnection)
      → Outcome rules con (scan net port rules con)
  scan-Outcome [] con = unfold scan in end
  scan-Outcome (r ∷ rs) con = elim (Bool-cases (conditions port (view net con.dst_host) r)) [
    | inl fits ↦ elim (Bool-cases (is_final r)) [
      | inl final ↦ rw (scan_final r rs con fits final) (record {
        before = [];
        after = rs;
        at = con;
        splits = refl;
        passes = end;
        applies = fits;
        final = final;
        permuted = refl;
      })
      | inr open_end ↦
          rw (scan_change r rs con fits open_end)
            (change-Outcome r rs con _ fits open_end (scan-Outcome rs (permute net r con)))
    ]
    | inr misses ↦
        rw (scan_miss r rs con misses) (skip-Outcome r rs con _ misses (scan-Outcome rs con))
  ]

  scan_past :
      {before : List RouteRule} {con at : ClientConnection} (rest : List RouteRule)
      → Passes before con at
      → scan net port (before ++ rest) con ≡ scan net port rest at
  scan_past rest end = refl
  scan_past rest (skip {r} {rs} {con} e p) = scan_miss r (rs ++ rest) con e ∙ scan_past rest p
  scan_past rest (change {r} {rs} {con} e f p) =
      scan_change r (rs ++ rest) con e f ∙ scan_past rest p

-- What the function may do: it returns 1 and sets the route to a rule that ends the search, or it
-- returns 0 and sets it to the default rule, when all rules are passed.
abbrev pub Decided :
    Net → List RouteRule → RouteRule → ClientConnection → Bool × ClientConnection → Type 0
Decided net rules default con (true, out) =
    (r : RouteRule) × (con' : ClientConnection) × (out ≡ record con' { route = some r })
    × Ends net con.dst_host.port rules con r con'
Decided net rules default con (false, out) =
    (con' : ClientConnection) × (out ≡ record con' { route = some default })
    × Passes net con.dst_host.port rules con con'

module _ (net : Net) (rules : List RouteRule) (default : RouteRule) (con : ClientConnection) where
  -- `decide_applicable_rule` settles on the first rule that applies and has a tunnel, each rule
  -- being tried on the destination that the rules before it left; rules that apply and have no
  -- tunnel only permute the destination. It returns 0, with the default rule as the route, when
  -- there is no such rule.
  pub decide_applicable_rule-Decided :
      Decided net rules default con (decide_applicable_rule net rules default con)
  unfolding decide_applicable_rule
  decide_applicable_rule-Decided =
      decided (scan net con.dst_host.port rules con) refl
        (scan-Outcome net con.dst_host.port rules con)
    where
      decided :
          (o : ClientConnection × Option RouteRule)
          → scan net con.dst_host.port rules con ≡ o
          → Outcome net con.dst_host.port rules con o
          → Decided net rules default con (decide_applicable_rule net rules default con)
      decided (con', none) e p = rw (e, decide_applicable_rule) (con', refl, p)
      decided (con', some r) e h = rw (e, decide_applicable_rule) (r, con', refl, h)

  -- The rule that ends the search, and the destination that it leaves, are unique: where the search
  -- ends with a rule, the function returns 1 and makes it the route of the destination left.
  pub decide_applicable_rule-Ends :
      (r : RouteRule) (con' : ClientConnection)
      → Ends net con.dst_host.port rules con r con'
      → decide_applicable_rule net rules default con ≡ (true, record con' { route = some r })
  unfolding decide_applicable_rule
  decide_applicable_rule-Ends r con' h =
      let past : scan net con.dst_host.port rules con ≡ (permute net r h.at, some r) =
        ap (λ l. scan net con.dst_host.port l con) h.splits
        ∙ scan_past net con.dst_host.port (r ∷ h.after) h.passes
        ∙ scan_final net con.dst_host.port r h.after h.at h.applies h.final in
      rw (past, decide_applicable_rule, h.permuted)

  -- Where every rule is passed, the function returns 0 and makes the default rule the route.
  pub decide_applicable_rule-Passes :
      (con' : ClientConnection)
      → Passes net con.dst_host.port rules con con'
      → decide_applicable_rule net rules default con ≡ (false, record con' { route = some default })
  unfolding decide_applicable_rule
  decide_applicable_rule-Passes con' p =
      let past : scan net con.dst_host.port rules con ≡ (con', none) =
        ap (λ l. scan net con.dst_host.port l con) (sym (append-nil rules))
        ∙ scan_past net con.dst_host.port [] p
        ∙ unfold scan in refl in
      rw (past, decide_applicable_rule)
