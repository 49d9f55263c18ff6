-- ===== src/Server/Requests.antt =====
-- Who asks for the state gets it in the next turn that goes on.
use smart_socksproxy.Base.{
  ℕ, suc, ◌≡◌, refl, ap, subst, ◌⊎◌, inl, inr, true, false, ◌||◌, Bool-cases, Option-cases, Option,
  none, some, List, [], ◌∷◌, Bytes, ℤ, arith,
}
use smart_socksproxy.Connection.{ClientConnection}
use smart_socksproxy.Service.{Service}
use smart_socksproxy.Proxy.{ProxyInstance}
use smart_socksproxy.Pool.{kept, loitered}
use smart_socksproxy.Server.Poll.{Revents, set_each, watched, revents_at}
use smart_socksproxy.Server.Accept.{
  Turn, going, exits, ◌>>=◌, or_exit, Around, State, services, Accepting, accept_service,
  accept_connection, launch_thread, check_service, check_services, check_proxies, cleaned,
  check_pipes, check_msg,
}
use smart_socksproxy.Server.Loop.{
  is_pending, any_pending, need_json, answer, answer_each, answer_all, answer_requests,
  check_tunnels, rotate_logs, rotate_each, after_poll, server_turn, text_of, state_json,
}

-- Inversion of a part of the turn that goes on.
pub >>=-eq-going {ℓ κ} :
    {A : Type ℓ} {B : Type κ} (m : Turn A) (f : A → Turn B) {b : B}
    → (m >>= f) ≡ going b
    → (a : A) × (m ≡ going a) × (f a ≡ going b)
>>=-eq-going (going a) f h = (a, refl, h)
>>=-eq-going exits f h = cc
>>=-eq-going Turn.undefined f h = cc

abbrev pub Listed : Service × ClientConnection → List (Service × ClientConnection) → Type 0
Listed p [] = ⊥
Listed p (q ∷ cons) = (p ≡ q) ⊎ Listed p cons

-- A connection in the list of some proxy.
abbrev pub Known : Service × ClientConnection → List ProxyInstance → Type 0
Known p [] = ⊥
Known p (proxy ∷ proxies) = Listed p proxy.client_connection_list ⊎ Known p proxies

module _ (a : Around) (revents : ℤ → Option Revents) (p : Service × ClientConnection) where
  no_accept :
      (srv : Service) (acc : Accepting)
      → accept_connection a acc.1 srv ≡ none
      → accept_service a srv acc ≡ acc
  unfolding accept_service
  no_accept srv (cons, id_pool) e = rw (accept_service, e) refl

  an_accept :
      (srv : Service) (acc : Accepting) (con : ClientConnection)
      → accept_connection a acc.1 srv ≡ some con
      → accept_service a srv acc ≡ ((srv, launch_thread (a.launch srv) con) ∷ acc.0, suc acc.1)
  unfolding accept_service
  an_accept srv (cons, id_pool) con e = rw (accept_service, e) refl

  accept_service-Listed :
      (srv : Service) (acc : Accepting) → Listed p acc.0 → Listed p (accept_service a srv acc).0
  accept_service-Listed srv acc h = elim (Option-cases (accept_connection a acc.1 srv)) [
    | inl none_came ↦ rw (no_accept srv acc none_came) h
    | inr (con, came) ↦ rw (an_accept srv acc con came) (inr h)
  ]

  -- A service that does not end the turn accepts a connection or changes nothing.
  check_service_going :
      (srv : Service) (acc acc' : Accepting)
      → check_service a (revents srv.fd) srv acc ≡ going acc'
      → (acc ≡ acc') ⊎ (accept_service a srv acc ≡ acc')
  unfolding check_service
  check_service_going srv acc acc' e = elim (Option-cases (revents srv.fd)) [
    | inl unwatched ↦ absurd (ground (arith, unwatched))
    | inr (r, found) ↦ elim (Bool-cases (r.pri || r.rdband || r.rdnorm)) [
      | inl ready ↦ inr (ground (arith, found))
      | inr quiet ↦ inl (ground (arith, found))
    ]
  ]

  check_service-Listed :
      (srv : Service) (acc acc' : Accepting)
      → check_service a (revents srv.fd) srv acc ≡ going acc'
      → Listed p acc.0
      → Listed p acc'.0
  check_service-Listed srv acc acc' e h = elim (check_service_going srv acc acc' e) [
    | inl same ↦ subst (λ (x : Accepting). Listed p x.0) same h
    | inr more ↦ subst (λ (x : Accepting). Listed p x.0) more (accept_service-Listed srv acc h)
  ]

  check_services-Listed :
      (srvs : List Service) (acc acc' : Accepting)
      → check_services a revents srvs acc ≡ going acc'
      → Listed p acc.0
      → Listed p acc'.0
  unfolding check_services
  check_services-Listed [] acc acc' e h =
      let same : acc ≡ acc' = cc (e) in subst (λ x. Listed p x.0) same h
  check_services-Listed (srv ∷ srvs) acc acc' e h =
      let (acc1, e1, e2) = >>=-eq-going (check_service a (revents srv.fd) srv acc) _ e in
      check_services-Listed srvs acc1 acc' e2 (check_service-Listed srv acc acc1 e1 h)

  check_proxies-Known :
      (proxies : List ProxyInstance) (id_pool : ℕ) (result : List ProxyInstance × ℕ)
      → check_proxies a revents proxies id_pool ≡ going result
      → Known p proxies
      → Known p result.0
  unfolding check_proxies
  check_proxies-Known [] id_pool result e h = absurd h
  check_proxies-Known (proxy ∷ proxies) id_pool result e h =
      let (acc, e1, f1) =
        >>=-eq-going
          (check_services a revents proxy.service_list (proxy.client_connection_list, id_pool)) _
          e in
      let (rest, e2, f2) = >>=-eq-going (check_proxies a revents proxies acc.1) _ f1 in
      let same : (record proxy { client_connection_list = acc.0 } ∷ rest.0, rest.1) ≡ result =
        cc (f2) in
      subst (λ (x : List ProxyInstance × ℕ). Known p x.0) same
        (elim h [
          | inl here ↦ inl (check_services-Listed proxy.service_list _ acc e1 here)
          | inr later ↦ inr (check_proxies-Known proxies acc.1 rest e2 later)
        ])

kept-Listed :
    (now : ℕ) (p : Service × ClientConnection) (cons : List (Service × ClientConnection))
    → loitered now p.1 ≡ false
    → Listed p cons
    → Listed p (kept now cons)
unfolding kept
kept-Listed now p [] alive h = h
kept-Listed now p ((srv, con) ∷ cons) alive h = elim (Bool-cases (loitered now con)) [
  | inl old ↦ rw old (elim h [
    | inl here ↦
        absurd (ground (arith, ap (λ (q : Service × ClientConnection). loitered now q.1) here))
    | inr later ↦ kept-Listed now p cons alive later
  ])
  | inr new ↦
      rw new (elim h [ inl here ↦ inl here | inr later ↦ inr (kept-Listed now p cons alive later) ])
]

cleaned-Known :
    (now : ℕ) (p : Service × ClientConnection) (proxies : List ProxyInstance)
    → loitered now p.1 ≡ false
    → Known p proxies
    → Known p (cleaned now proxies)
cleaned-Known now p [] alive h = h
cleaned-Known now p (proxy ∷ proxies) alive h = elim h [
  | inl here ↦ inl (kept-Listed now p proxy.client_connection_list alive here)
  | inr later ↦ inr (cleaned-Known now p proxies alive later)
]

module _ (json : Option Bytes) where
  answer_each-Listed :
      (srv : Service) (con : ClientConnection) (cons : List (Service × ClientConnection))
      → Listed (srv, con) cons
      → Listed (srv, answer json con) (answer_each json cons)
  unfolding answer_each
  answer_each-Listed srv con [] h = h
  answer_each-Listed srv con ((srv', con') ∷ cons) h = elim h [
    | inl here ↦ inl (ap (λ (q : Service × ClientConnection). (q.0, answer json q.1)) here)
    | inr later ↦ inr (answer_each-Listed srv con cons later)
  ]

  answer_all-Known :
      (srv : Service) (con : ClientConnection) (proxies : List ProxyInstance)
      → Known (srv, con) proxies
      → Known (srv, answer json con) (answer_all json proxies)
  unfolding answer_all
  answer_all-Known srv con [] h = h
  answer_all-Known srv con (proxy ∷ proxies) h = elim h [
    | inl here ↦ inl (answer_each-Listed srv con proxy.client_connection_list here)
    | inr later ↦ inr (answer_all-Known srv con proxies later)
  ]

  answered_each :
      (cons : List (Service × ClientConnection)) → any_pending (answer_each json cons) ≡ false
  unfolding answer_each answer
  answered_each [] = refl
  answered_each ((srv, con) ∷ cons) = ground (arith, answered_each cons)

  answered_all : (proxies : List ProxyInstance) → need_json (answer_all json proxies) ≡ false
  unfolding need_json answer_all
  answered_all [] = refl
  answered_all (proxy ∷ proxies) =
      rw (answered_each proxy.client_connection_list) (answered_all proxies)

pending-any_pending :
    (p : Service × ClientConnection) (cons : List (Service × ClientConnection))
    → is_pending p.1 ≡ true
    → Listed p cons
    → any_pending cons ≡ true
pending-any_pending p [] asks h = absurd h
pending-any_pending p ((srv, con) ∷ cons) asks h = elim h [
  | inl here ↦
      let e = ap (λ (q : Service × ClientConnection). is_pending q.1) here in ground (arith, e)
  | inr later ↦ ground (arith, pending-any_pending p cons asks later)
]

pending-need_json :
    (p : Service × ClientConnection) (proxies : List ProxyInstance)
    → is_pending p.1 ≡ true
    → Known p proxies
    → need_json proxies ≡ true
unfolding need_json
pending-need_json p [] asks h = absurd h
pending-need_json p (proxy ∷ proxies) asks h = elim h [
  | inl here ↦
      let e = pending-any_pending p proxy.client_connection_list asks here in ground (arith, e)
  | inr later ↦ let e = pending-need_json p proxies asks later in ground (arith, e)
]

answer_pending :
    (json : Option Bytes) (con : ClientConnection)
    → is_pending con ≡ true
    → answer json con ≡ record con { json_status_str = json; json_status_ready = true }
unfolding answer
answer_pending json con asks = rw (answer, asks) refl

answer_requests-answered :
    (a : Around) (s : State) → need_json (answer_requests a s).proxies ≡ false
unfolding answer_requests
answer_requests-answered a s = elim (Bool-cases (need_json s.proxies)) [
  | inl asked ↦ rw asked (answered_all (text_of (state_json a s)) s.proxies)
  | inr quiet ↦ rw quiet quiet
]

answer_requests-Known :
    (a : Around) (s : State) (srv : Service) (con : ClientConnection)
    → is_pending con ≡ true
    → Known (srv, con) s.proxies
    → Known
        (srv, record con { json_status_str = text_of (state_json a s); json_status_ready = true })
        (answer_requests a s).proxies
unfolding answer_requests
answer_requests-Known a s srv con asks h =
    let json = text_of (state_json a s) in
    rw (pending-need_json (srv, con) s.proxies asks h) (
      subst (λ (c : ClientConnection). Known (srv, c) (answer_all json s.proxies))
        (answer_pending json con asks) (answer_all-Known json srv con s.proxies h))

proxies_of : Turn State → List ProxyInstance
proxies_of (going s) = s.proxies
proxies_of exits = []
proxies_of Turn.undefined = []

rotate_logs-proxies :
    (a : Around) (s s' : State) → rotate_logs a s ≡ going s' → s.proxies ≡ s'.proxies
unfolding rotate_logs proxies_of
rotate_logs-proxies a s s' e =
    let (r, e1, e2) =
      >>=-eq-going (or_exit (rotate_each a.rename_allowed a.close s.logs s.files)) _ e in
    ap proxies_of e2

-- A thread that has asked for the state and still runs gets it in the next turn that goes on: its
-- connection is kept, with the text that `build_json` makes of a state which lists the connection,
-- and marked as ready; and behind the turn no request is left open.
pub server_turn-answers :
    (a : Around) (s s' : State) (srv : Service) (con : ClientConnection)
    → server_turn a s ≡ going s'
    → Known (srv, con) s.proxies
    → is_pending con ≡ true
    → con.thread_has_exited ≡ false
    → (t : State) × Known (srv, con) t.proxies
      × Known
          (srv, record con { json_status_str = text_of (state_json a t); json_status_ready = true })
          s'.proxies
      × (need_json s'.proxies ≡ false)
unfolding server_turn after_poll check_tunnels
server_turn-answers a s s' srv con e known asks runs =
    let (pfd, e1, f1) =
      >>=-eq-going
        (or_exit (set_each a.ulimit [] (watched a.msg_fd (services s.proxies) s.tunnels))) _ e in
    let (_, e2, f2) =
      >>=-eq-going (check_pipes (revents_at pfd a.revents) a.reads s.tunnels) _ f1 in
    let (_, e3, f3) = >>=-eq-going (check_msg (revents_at pfd a.revents a.msg_fd)) _ f2 in
    let (r, e4, f4) =
      >>=-eq-going (check_proxies a (revents_at pfd a.revents) s.proxies s.id_pool) _ f3 in
    let t = check_tunnels a (record s { proxies = cleaned a.now r.0; id_pool = r.1 }) in
    let in_t : Known (srv, con) t.proxies =
      cleaned-Known a.now (srv, con) r.0 (rw runs refl)
        (check_proxies-Known a (revents_at pfd a.revents) (srv, con) s.proxies s.id_pool r e4
          known) in
    let same = rotate_logs-proxies a (answer_requests a t) s' f4 in
    (
      t,
      in_t,
      subst (Known _) same (answer_requests-Known a t srv con asks in_t),
      subst (λ ps. need_json ps ≡ false) same (answer_requests-answered a t),
    )
