-- ===== src/Server/Errors.antt =====
-- What ends the program in a turn: an error on a descriptor that it looks at.
use smart_socksproxy.Base.{
  ℕ, ◌≤◌, ◌≡◌, if◌then◌else◌, ◌⊎◌, refl, sym, ◌∙◌, ap, inl, inr, Bool, true, false, ◌||◌, not, ◌&&◌,
  some, List, [], ◌∷◌, ◌++◌, length, ℤ, pos, negsuc,
}
use smart_socksproxy.Service.{Service}
use smart_socksproxy.Proxy.{ProxyInstance}
use smart_socksproxy.Server.Poll.{Piped, Revents, watched, get_elem?}
use smart_socksproxy.Server.Accept.{
  Turn, going, exits, Around, State, services, Accepting, check_pipe, check_pipes, check_msg,
  check_service, check_services, check_proxies,
}
use smart_socksproxy.Server.Loop.{after_poll, server_turn}
use smart_socksproxy.Server.Requests.{>>=-eq-going}
use smart_socksproxy.Server.Events.{on_descriptor, server_turn-on_descriptor}

-- Nothing is wrong with a pipe of a tunnel, if it is there: no error on it, and a `read` where there
-- is something to read succeeds.
abbrev pub IsFlowing : (ℤ → Revents) → (ℤ → Bool) → ℤ → Type 0
IsFlowing event reads (negsuc n) = Unit
IsFlowing event reads (pos n) =
    ((event (pos n)).err ≡ false)
    × ((event (pos n)).nval ≡ false)
    × (((event (pos n)).rdnorm ≡ false) ⊎ (reads (pos n) ≡ true))

abbrev pub AllFlowing : (ℤ → Revents) → (ℤ → Bool) → List Piped → Type 0
AllFlowing event reads [] = Unit
AllFlowing event reads (p ∷ ps) =
    IsFlowing event reads p.parent_stdout_fd
    × IsFlowing event reads p.parent_stderr_fd
    × AllFlowing event reads ps

-- Nothing is wrong with a descriptor.
abbrev pub IsSound : (ℤ → Revents) → ℤ → Type 0
IsSound event fd = ((event fd).err ≡ false) × ((event fd).hup ≡ false) × ((event fd).nval ≡ false)

abbrev pub AllSound : (ℤ → Revents) → List Service → Type 0
AllSound event [] = Unit
AllSound event (srv ∷ srvs) =
    ((n : ℕ) × (srv.fd ≡ pos n)) × IsSound event srv.fd × AllSound event srvs

no_exit {ℓ} :
    {A : Type ℓ} (b : Bool) (m : Turn A) (x : A) → (if b then exits else m) ≡ going x → b ≡ false
no_exit true m x h = cc
no_exit false m x h = refl

or_false : (a b : Bool) → (a || b) ≡ false → (a ≡ false) × (b ≡ false)
or_false true b h = cc
or_false false b h = (refl, h)

and_false : (a b : Bool) → (a && not b) ≡ false → (a ≡ false) ⊎ (b ≡ true)
and_false false b h = inl refl
and_false true true h = inr refl
and_false true false h = cc

module _ (event : ℤ → Revents) where
  check_pipe-IsFlowing :
      (reads : ℤ → Bool) (fd : ℤ) (u : Unit {0})
      → check_pipe (on_descriptor event fd) (reads fd) ≡ going u
      → IsFlowing event reads fd
  unfolding check_pipe
  check_pipe-IsFlowing reads (negsuc n) u h = tt
  check_pipe-IsFlowing reads (pos n) u h =
      let r = event (pos n) in
      let read_on = r.rdnorm && not (reads (pos n)) in
      let (more, last) =
        or_false (r.err || r.nval) read_on (no_exit (r.err || r.nval || read_on) (going tt) u h) in
      let (e, v) = or_false r.err r.nval more in (e, v, and_false r.rdnorm (reads (pos n)) last)

  check_pipes-AllFlowing :
      (reads : ℤ → Bool) (ps : List Piped) (u : Unit {0})
      → check_pipes (on_descriptor event) reads ps ≡ going u
      → AllFlowing event reads ps
  unfolding check_pipes
  check_pipes-AllFlowing reads [] u h = tt
  check_pipes-AllFlowing reads (p ∷ ps) u h =
      let (u1, out, h1) =
        >>=-eq-going
          (check_pipe (on_descriptor event p.parent_stdout_fd) (reads p.parent_stdout_fd)) _ h in
      let (u2, err, h2) =
        >>=-eq-going
          (check_pipe (on_descriptor event p.parent_stderr_fd) (reads p.parent_stderr_fd)) _ h1 in
      (
        check_pipe-IsFlowing reads p.parent_stdout_fd u1 out,
        check_pipe-IsFlowing reads p.parent_stderr_fd u2 err,
        check_pipes-AllFlowing reads ps u h2,
      )

  check_service-IsSound :
      (a : Around) (srv : Service) (fd : ℤ) (acc acc' : Accepting)
      → check_service a (on_descriptor event fd) srv acc ≡ going acc'
      → ((n : ℕ) × (fd ≡ pos n)) × IsSound event fd
  unfolding check_service
  check_service-IsSound a srv (negsuc n) acc acc' h = cc
  check_service-IsSound a srv (pos n) acc acc' h =
      let r = event (pos n) in
      let (more, v) =
        or_false (r.err || r.hup) r.nval (no_exit (r.err || r.hup || r.nval) _ acc' h) in
      let (e, hu) = or_false r.err r.hup more in ((n, refl), (e, hu, v))

  check_services-AllSound :
      (a : Around) (srvs : List Service) (acc acc' : Accepting)
      → check_services a (on_descriptor event) srvs acc ≡ going acc'
      → AllSound event srvs
  unfolding check_services
  check_services-AllSound a [] acc acc' h = tt
  check_services-AllSound a (srv ∷ srvs) acc acc' h =
      let (mid, here, later) =
        >>=-eq-going (check_service a (on_descriptor event srv.fd) srv acc) _ h in
      let (there, sound) = check_service-IsSound a srv srv.fd acc mid here in
      (there, sound, check_services-AllSound a srvs mid acc' later)

  AllSound-append :
      (xs ys : List Service) → AllSound event xs → AllSound event ys → AllSound event (xs ++ ys)
  AllSound-append [] ys hx hy = hy
  AllSound-append (x ∷ xs) ys hx hy = (hx.0, hx.1, AllSound-append xs ys hx.2 hy)

  check_proxies-AllSound :
      (a : Around) (proxies : List ProxyInstance) (id_pool : ℕ) (r : List ProxyInstance × ℕ)
      → check_proxies a (on_descriptor event) proxies id_pool ≡ going r
      → AllSound event (services proxies)
  unfolding check_proxies
  check_proxies-AllSound a [] id_pool r h = tt
  check_proxies-AllSound a (proxy ∷ proxies) id_pool r h =
      let acc : Accepting = (proxy.client_connection_list, id_pool) in
      let (acc', here, h1) =
        >>=-eq-going (check_services a (on_descriptor event) proxy.service_list acc) _ h in
      let (rest, later, h2) =
        >>=-eq-going (check_proxies a (on_descriptor event) proxies acc'.1) _ h1 in
      AllSound-append proxy.service_list (services proxies)
        (check_services-AllSound a proxy.service_list acc acc' here)
        (check_proxies-AllSound a proxies acc'.1 rest later)

  check_msg-IsSound :
      (n : ℕ) (u : Unit {0})
      → check_msg (on_descriptor event (pos n)) ≡ going u
      → IsSound event (pos n)
  unfolding check_msg
  check_msg-IsSound n u h =
      let r = event (pos n) in
      let (more, v) =
        or_false (r.err || r.hup) r.nval (no_exit (r.err || r.hup || r.nval) (going tt) u h) in
      let (e, hu) = or_false r.err r.hup more in (e, hu, v)

-- Where the descriptors fit the array, `poll` reports for each entry what happens on its descriptor,
-- and the program goes on after the turn, there is no error on a descriptor that it looks at: what
-- happens on the standard output of each tunnel and on its standard error is no error, and `read`
-- succeeds on each of them that has something to read; nothing is wrong with the pipe of the messages;
-- and every service has a descriptor, with which nothing is wrong.
pub server_turn-IsSound :
    (a : Around) (s t : State) (event : ℤ → Revents) (msg : ℕ)
    → a.msg_fd ≡ pos msg
    → length (watched a.msg_fd (services s.proxies) s.tunnels) ≤ a.ulimit
    → ((i : ℕ) (fd : ℤ)
        → get_elem? (watched a.msg_fd (services s.proxies) s.tunnels) i ≡ some fd
        → a.revents i ≡ event fd)
    → server_turn a s ≡ going t
    → AllFlowing event a.reads s.tunnels
      × IsSound event (pos msg)
      × AllSound event (services s.proxies)
unfolding after_poll
server_turn-IsSound a s t event msg at fits reports h =
    let h0 = sym (server_turn-on_descriptor a s event fits reports) ∙ h in
    let (u1, piped, h1) = >>=-eq-going (check_pipes (on_descriptor event) a.reads s.tunnels) _ h0 in
    let (u2, messages, h2) = >>=-eq-going (check_msg (on_descriptor event a.msg_fd)) _ h1 in
    let (r, accepted, h3) =
      >>=-eq-going (check_proxies a (on_descriptor event) s.proxies s.id_pool) _ h2 in
    (
      check_pipes-AllFlowing event a.reads s.tunnels u1 piped,
      check_msg-IsSound event msg u2
          (sym (ap (λ fd. check_msg (on_descriptor event fd)) at) ∙ messages),
      check_proxies-AllSound event a s.proxies s.id_pool r accepted,
    )
