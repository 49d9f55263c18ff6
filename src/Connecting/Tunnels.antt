-- ===== src/Connecting/Tunnels.antt =====
-- How the attempts of `socks_connect` end.
use smart_socksproxy.Base.{
  ℕ, zero, suc, ◌+◌, ◌%◌, ◌≤◌, ◌≡◌, ◌⊎◌, refl, inl, inr, Bool, true, false, Option, none, some,
  List, ◌∷◌, length, Bool-cases, arith,
}
use smart_socksproxy.Rule.{RouteRule}
use smart_socksproxy.Socks.{Session}
use smart_socksproxy.Connecting.Attempts.{
  World, nth, connect_by, is_refused, given_up, judge, attempt, or_again, attempts, socks_connect,
}

-- The session with which attempt i begins, out of `t`: the tunnels are taken in turn.
abbrev pub trying : List ℕ → ℕ → Session → Session
trying route i t = record t { con = record t.con { tunnel = some (nth route (i % length route)) } }

-- How attempt i ends, out of the session `s`.
abbrev pub attempted : World → List ℕ → ℕ → Session → Option (Unit {0}) × Session
attempted w route i s = connect_by w i (nth route (i % length route)) (trying route i s)

-- The attempts from i to n - 1, each out of what the one before has left, have all failed in
-- another way than by being refused; attempt n is out of `t`.
pub data AllFailed (w : World) (route : List ℕ) : ℕ → Session → ℕ → Session → Type 0 where
  none_yet : {i : ℕ} {s : Session} → AllFailed w route i s i s
  one_more :
      {i n : ℕ} {s u t : Session}
      → attempted w route i s ≡ (none, u)
      → is_refused u.failure_type ≡ false
      → AllFailed w route (i + 1) (given_up u) n t
      → AllFailed w route i s n t

-- The last attempt, number n: it succeeds, or is refused or number 100.
pub record LastOne (w : World) (route : List ℕ) (i : ℕ) (s : Session) (result : Bool × Session)
    : Type 0 where
  pub number : ℕ
  pub before : Session
  pub bound : number ≤ 100
  pub failures : AllFailed w route i s number before
  pub ended :
      (attempted w route number before ≡ (some tt, result.1)) × (result.0 ≡ true)
      ⊎ ((u : Session) × (attempted w route number before ≡ (none, u))
          × ((is_refused u.failure_type ≡ true) ⊎ (number ≡ 100))
          × (result.0 ≡ false)
          × (result.1.con.tunnel ≡ none))

-- What `or_again` makes of an attempt.
or_again-LastOne :
    (w : World) (route : List ℕ) (i : ℕ) (s : Session) (again : Session → Bool × Session)
    (r : Option (Unit {0}) × Session)
    → i ≤ 100
    → attempted w route i s ≡ r
    → ((u : Session)
        → r ≡ (none, u)
        → is_refused u.failure_type ≡ false
        → LastOne w route i s (again (given_up u)))
    → LastOne w route i s (or_again again (judge r))
unfolding judge
or_again-LastOne w route i s again (some u, t) h e k = record {
  number = i;
  before = s;
  bound = h;
  failures = none_yet;
  ended = inl (e, refl);
}
or_again-LastOne w route i s again (none, u) h e k = elim (Bool-cases (is_refused u.failure_type)) [
  | inl away ↦
      rw (away, judge)
        (record {
          number = i;
          before = s;
          bound = h;
          failures = none_yet;
          ended = inr (u, e, inl away, refl, refl);
        })
  | inr stays ↦ rw (stays, judge) (k u refl stays)
]

attempts-LastOne :
    (w : World) (route : List ℕ) (left i : ℕ) (s : Session)
    → i + left ≡ 100
    → LastOne w route i s (attempts w route left i s)
unfolding attempts attempt
attempts-LastOne w route zero i s h =
    or_again-LastOne w route i s (λ t. (false, t)) (attempted w route i s) (omega arith) refl
      (λ u e stays. record {
        number = i;
        before = s;
        bound = omega arith;
        failures = none_yet;
        ended = inr (u, e, inr (omega arith), refl, refl);
      })
attempts-LastOne w route (suc left) i s h =
    or_again-LastOne w route i s (λ t. attempts w route left (i + 1) t) (attempted w route i s)
      (omega arith) refl
      (λ u e stays.
        let later = attempts-LastOne w route left (i + 1) (given_up u) (omega arith) in
        record {
          number = later.number;
          before = later.before;
          bound = later.bound;
          failures = one_more e stays later.failures;
          ended = later.ended;
        })

-- On a route with tunnels `socks_connect` makes attempts 0, 1 and so on up to 100 at most, each
-- with the next tunnel of the route, from the first again behind the last, and out of what the one
-- before has left. It goes on as long as attempts fail in another way than by being refused: it
-- returns 1 with what the first successful one leaves, and 0 behind one that is refused or number
-- 100, and then the connection uses no tunnel.
pub socks_connect-LastOne :
    (w : World) (route : RouteRule) (s : Session) (t : ℕ) (ts : List ℕ)
    → route.tunnel ≡ t ∷ ts
    → LastOne w (t ∷ ts) 0 s (socks_connect w route s)
unfolding socks_connect
socks_connect-LastOne w route s t ts e = rw e (attempts-LastOne w (t ∷ ts) 100 0 s (omega arith))
