-- ===== src/Server/Poll.antt =====
-- The array for `poll`: `set_pfd` and `find_pfd`. The array is the list of its descriptors; the flags
-- that `poll` reports stand apart.
use smart_socksproxy.Base.{
  ℕ, zero, suc, ◌+◌, ◌≤◌, ◌<◌, ◌≡◌, refl, sym, ap, inl, inr, Bool, true, false, ◌||◌, Bool-cases,
  Option, none, some, List, [], ◌∷◌, ◌++◌, append-nil, append_assoc, length, length-append, leb,
  if◌then◌else◌, ℤ, pos, negsuc, eq_ℤ, eq_ℤ_iff, arith,
}
use smart_socksproxy.Service.{Service}
use smart_socksproxy.Tunnel.{SshTunnel}

-- A tunnel with the pipes of its process.
pub record Piped : Type 0 where
  pub tunnel : SshTunnel
  pub parent_stdout_fd : ℤ
  pub parent_stderr_fd : ℤ

-- `none` is the exit of the program.
unfoldable pub set_pfd : ℕ → List ℤ → ℤ → Option (List ℤ)
set_pfd ulimit pfd fd = if leb ulimit (length pfd) then none else some (pfd ++ fd ∷ [])

unfoldable pub set_each : ℕ → List ℤ → List ℤ → Option (List ℤ)
unfolding set_pfd
set_each ulimit pfd [] = some pfd
set_each ulimit pfd (fd ∷ fds) = elim (set_pfd ulimit pfd fd) [
  | none ↦ none
  | some pfd' ↦ set_each ulimit pfd' fds
]

abbrev pub listening : List Service → List ℤ
listening [] = []
listening (srv ∷ srvs) = srv.fd ∷ listening srvs

abbrev pub pipes : List Piped → List ℤ
pipes [] = []
pipes (p ∷ ps) = p.parent_stdout_fd ∷ p.parent_stderr_fd ∷ pipes ps

-- The descriptors in the order of the calls: the pipe for messages, the services of all proxies, the
-- pipes of the tunnels.
abbrev pub watched : ℤ → List Service → List Piped → List ℤ
watched msg_fd srvs piped = msg_fd ∷ (listening srvs ++ pipes piped)

one_more : Option ℕ → Option ℕ
one_more none = none
one_more (some i) = some (suc i)

unfoldable pub find_from : List ℤ → ℤ → Option ℕ
unfolding one_more
find_from [] fd = none
find_from (p ∷ pfd) fd =
    let later = one_more (find_from pfd fd) in if eq_ℤ p fd then some 0 else later

-- `none` is -1.
unfoldable pub find_pfd : List ℤ → ℤ → Option ℕ
unfolding find_from
find_pfd pfd (pos n) = find_from pfd (pos n)
find_pfd pfd (negsuc n) = none

-- What `poll` reports for an entry.
pub record Revents : Type 0 where
  pub err : Bool
  pub hup : Bool
  pub nval : Bool
  pub pri : Bool
  pub rdband : Bool
  pub rdnorm : Bool

abbrev pub get_elem? : List ℤ → ℕ → Option ℤ
get_elem? [] i = none
get_elem? (x ∷ xs) zero = some x
get_elem? (x ∷ xs) (suc i) = get_elem? xs i

abbrev pub mem : ℤ → List ℤ → Bool
mem fd [] = false
mem fd (p ∷ pfd) = eq_ℤ p fd || mem fd pfd

-- `pfd[find_pfd(…)].revents`; `none` where the descriptor is not found.
abbrev pub revents_at : List ℤ → (ℕ → Revents) → ℤ → Option Revents
revents_at pfd revents fd = elim (find_pfd pfd fd) [ none ↦ none | some i ↦ some (revents i) ]

find_from-get :
    (pfd : List ℤ) (fd : ℤ)
    → mem fd pfd ≡ true
    → (i : ℕ) × (find_from pfd fd ≡ some i) × (get_elem? pfd i ≡ some fd)
unfolding find_from
find_from-get [] fd h = cc
find_from-get (p ∷ pfd) fd h = elim (Bool-cases (eq_ℤ p fd)) [
  | inl here ↦ (0, rw here refl, ap some ((eq_ℤ_iff p fd).0 here))
  | inr later ↦
      let (i, e, g) = find_from-get pfd fd (ground arith) in (suc i, rw (e, later) refl, g)
]

-- Where `poll` reports for each entry what happens on its descriptor, the flags found for a watched
-- descriptor are those of the descriptor, wherever it stands in the array.
pub revents_at_lem :
    (pfd : List ℤ) (revents : ℕ → Revents) (event : ℤ → Revents) (n : ℕ)
    → ((i : ℕ) (fd : ℤ) → get_elem? pfd i ≡ some fd → revents i ≡ event fd)
    → mem (pos n) pfd ≡ true
    → revents_at pfd revents (pos n) ≡ some (event (pos n))
unfolding find_pfd
revents_at_lem pfd revents event n reports h =
    let (i, e, g) = find_from-get pfd (pos n) h in ground (arith, e, reports i (pos n) g)

-- All descriptors are watched, in the order of the calls, if they fit the array.
pub set_each_fits :
    (ulimit : ℕ) (pfd fds : List ℤ)
    → length pfd + length fds ≤ ulimit
    → set_each ulimit pfd fds ≡ some (pfd ++ fds)
unfolding set_each
set_each_fits ulimit pfd [] h = ap some (sym (append-nil pfd))
set_each_fits ulimit pfd (fd ∷ fds) h =
    let fits : length (pfd ++ fd ∷ []) + length fds ≤ ulimit =
      omega (arith, length-append pfd (fd ∷ [])) in
    let later = set_each_fits ulimit (pfd ++ fd ∷ []) fds fits in
    let e = append_assoc pfd (fd ∷ []) fds in ground (arith, later, e)

pub set_each_full :
    (ulimit : ℕ) (pfd fds : List ℤ)
    → length pfd ≤ ulimit
    → ulimit < length pfd + length fds
    → set_each ulimit pfd fds ≡ none
unfolding set_each
set_each_full ulimit pfd [] h k = absurd (omega arith)
set_each_full ulimit pfd (fd ∷ fds) h k =
    ground (arith, length-append pfd (fd ∷ []), set_each_full ulimit (pfd ++ fd ∷ []) fds)
