-- ===== src/Policy/Marks.antt =====
-- What the marks mean.
use smart_socksproxy.Base.{
  ℕ, ◌+◌, ◌≡◌, refl, ap, ◌∙◌, inl, inr, List, [], ◌∷◌, ◌==◌, if◌then◌else◌, Bool-cases,
  Option-cases, arith,
}
use smart_socksproxy.Tunnel.{SshTunnel}
use smart_socksproxy.Connection.{ClientConnection}
use smart_socksproxy.Policy.Defs.{
  bump_mark, bump_use, reset, mark_each, mark_connection, mark_connections, occurrences, asks, uses,
  demand, use_of,
}

-- The tunnels with their marks and counts given by functions of their ids.
abbrev pub stamped : (ℕ → ℕ) → (ℕ → ℕ) → List SshTunnel → List SshTunnel
stamped m c [] = []
stamped m c (ssh ∷ list) =
    record ssh { mark = m ssh.id; connection_count = c ssh.id } ∷ stamped m c list

stamped-cong :
    (m m' c c' : ℕ → ℕ) (list : List SshTunnel)
    → ((id : ℕ) → m id ≡ m' id)
    → ((id : ℕ) → c id ≡ c' id)
    → stamped m c list ≡ stamped m' c' list
stamped-cong m m' c c' [] e f = refl
stamped-cong m m' c c' (ssh ∷ list) e f = rw (e ssh.id, f ssh.id, stamped-cong m m' c c' list e f)

zero_more : (n : ℕ) → n + 0 ≡ n
zero_more n = omega arith

bump_mark-stamped :
    (i : ℕ) (m c : ℕ → ℕ) (list : List SshTunnel)
    → bump_mark i (stamped m c list) ≡ stamped (λ id. m id + (if id == i then 1 else 0)) c list
unfolding bump_mark
bump_mark-stamped i m c [] = refl
bump_mark-stamped i m c (ssh ∷ list) = elim (Bool-cases (ssh.id == i)) [
  | inl same ↦ rw (same, bump_mark-stamped i m c list)
  | inr other ↦ rw (other, bump_mark-stamped i m c list, zero_more (m ssh.id))
]

bump_use-stamped :
    (i : ℕ) (m c : ℕ → ℕ) (list : List SshTunnel)
    → bump_use i (stamped m c list)
      ≡ stamped
          (λ id. m id + (if id == i then 1 else 0))
          (λ id. c id + (if id == i then 1 else 0))
          list
unfolding bump_use
bump_use-stamped i m c [] = refl
bump_use-stamped i m c (ssh ∷ list) = elim (Bool-cases (ssh.id == i)) [
  | inl same ↦ rw (same, bump_use-stamped i m c list)
  | inr other ↦ rw (other, bump_use-stamped i m c list, zero_more (m ssh.id), zero_more (c ssh.id))
]

mark_each-stamped :
    (ids : List ℕ) (m c : ℕ → ℕ) (list : List SshTunnel)
    → mark_each ids (stamped m c list) ≡ stamped (λ id. m id + occurrences id ids) c list
unfolding mark_each
mark_each-stamped [] m c list = stamped-cong m _ c c list (λ id. omega arith) (λ id. refl)
mark_each-stamped (i ∷ ids) m c list =
    ap (mark_each ids) (bump_mark-stamped i m c list)
    ∙ mark_each-stamped ids (λ id. m id + (if id == i then 1 else 0)) c list
    ∙ stamped-cong _ _ c c list (λ id. omega arith) (λ id. refl)

mark_connection-stamped :
    (con : ClientConnection) (m c : ℕ → ℕ) (list : List SshTunnel)
    → mark_connection con (stamped m c list)
      ≡ stamped (λ id. m id + asks con id) (λ id. c id + uses con id) list
unfolding mark_connection
mark_connection-stamped con m c list = elim (Option-cases con.route) [
  | inl none_is ↦
      rw (none_is, mark_connection)
        (stamped-cong _ _ _ _ list (λ id. omega arith) (λ id. omega arith))
  | inr (route, is) ↦ elim (Option-cases con.tunnel) [
    | inl unused ↦
        rw (is, unused, mark_connection)
          (mark_each-stamped route.tunnel m c list
            ∙ stamped-cong _ _ _ _ list (λ id. refl) (λ id. omega arith))
    | inr (t, used) ↦ rw (is, used, mark_connection) (bump_use-stamped t m c list)
  ]
]

mark_connections-stamped :
    (cons : List ClientConnection) (m c : ℕ → ℕ) (list : List SshTunnel)
    → mark_connections cons (stamped m c list)
      ≡ stamped (λ id. m id + demand cons id) (λ id. c id + use_of cons id) list
unfolding mark_connections
mark_connections-stamped [] m c list =
    stamped-cong _ _ _ _ list (λ id. omega arith) (λ id. omega arith)
mark_connections-stamped (con ∷ cons) m c list =
    ap (mark_connections cons) (mark_connection-stamped con m c list)
    ∙ mark_connections-stamped cons _ _ list
    ∙ stamped-cong _ _ _ _ list (λ id. omega arith) (λ id. omega arith)

reset-stamped : (list : List SshTunnel) → reset list ≡ stamped (λ id. 0) (λ id. 0) list
unfolding reset
reset-stamped [] = refl
reset-stamped (ssh ∷ list) = rw (reset-stamped list)

-- After the marking, each tunnel's mark is how much all connections ask for it, and its count the
-- number of connections that use it, whatever stood there before; nothing else has changed.
pub mark_connections-demand :
    (cons : List ClientConnection) (list : List SshTunnel)
    → mark_connections cons (reset list) ≡ stamped (demand cons) (use_of cons) list
mark_connections-demand cons list =
    ap (mark_connections cons) (reset-stamped list)
    ∙ mark_connections-stamped cons (λ id. 0) (λ id. 0) list
    ∙ stamped-cong _ _ _ _ list (λ id. omega arith) (λ id. omega arith)
