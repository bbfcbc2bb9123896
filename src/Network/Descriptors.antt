-- ===== src/Network/Descriptors.antt =====
-- Which descriptors are open behind the operations of src/network.cpp.
use nanonet.Common.{
  ℕ, ◌≡◌, refl, ap, ◌∙◌, List, ◌∷◌, ◌++◌, ==_refl, Option, none, some, Outcome, ok, throws, inl,
  inr,
}
use mathlib.Core.Path.{subst}
use nanonet.Network.{
  Calls, World, SocketEvent, listens, SocketError, NetError, logged, listen_on, close_socket,
  try_bound, bound_socket, listening, named, accepting, acceptor, initialize,
}
use nanonet.Network.Attempts.{
  Failing, none_left, next_fails, Works, BoundResult, bound_socket-BoundResult,
}
use nanonet.Network.Candidates.{
  Passed, none_passed, next_passed, candidates, InitializeResult, initialize-InitializeResult,
}
use nanonet.Network.Events.{
  remove, open_sockets, bound_events, connection_events, AttemptResult, try_bound-AttemptResult,
  attempt-AttemptResult,
}

module _ {c : Calls} where
  -- Failed attempts leave the open descriptors as they were.
  Failing-open_sockets :
      {K : Type 0} (f : K → World c → World c × Outcome (SocketError c) ℕ)
      (events : K → ℕ → List (SocketEvent c))
      → ((k : K) (w : World c) → AttemptResult (events k) w (f k w))
      → {w w2 : World c} {ks : List K} {es : List (SocketError c)} → Failing f w ks es w2
      → open_sockets w2.log ≡ open_sockets w.log
  Failing-open_sockets f events all none_left = refl
  Failing-open_sockets f events all {w = w} (next_fails {k = k} h rest) =
      Failing-open_sockets f events all rest ∙ subst (AttemptResult (events k) w) h (all k w)

  -- One more socket is open, the newest, and exactly this was done with it since it was opened.
  abbrev pub Made : World c → ℕ → List (SocketEvent c) → World c → Type 0
  Made w fd done w2 =
      (rest : List (SocketEvent c)) × (w2.log ≡ done ++ rest)
      × (open_sockets rest ≡ open_sockets w.log)

  Works-open_sockets :
      {K : Type 0} (f : K → World c → World c × Outcome (SocketError c) ℕ)
      (events : K → ℕ → List (SocketEvent c))
      → ((k : K) (w : World c) → AttemptResult (events k) w (f k w))
      → (w w2 : World c) (ks : List K) (fd : ℕ) → Works f w ks w2 fd
      → (k : K) × Made w fd (events k fd) w2
  Works-open_sockets f events all w w2 ks fd r = (
    r.chosen,
    (
      r.w1.log,
      subst (AttemptResult (events r.chosen) r.w1) r.succeeds (all r.chosen r.w1),
      Failing-open_sockets f events all r.failing,
    ),
  )

  Passed-open_sockets :
      {w w2 : World c} {ks : List (Option c.Address × c.Address)} {es : List (SocketError c)}
      → Passed w ks es w2
      → open_sockets w2.log ≡ open_sockets w.log
  Passed-open_sockets none_passed = refl
  Passed-open_sockets {w = w} (next_passed {local = local} {remote = remote} h named rest) =
      Passed-open_sockets rest
      ∙ subst (AttemptResult (λ fd. connection_events fd (local, remote)) w) h
          (attempt-AttemptResult (local, remote) w)

  abbrev pub Connected : World c → World c × Outcome (NetError c) ℕ → Type 0
  Connected w (w2, ok fd) =
      (k : Option c.Address × c.Address) × Made w fd (connection_events fd k) w2
  Connected w (w2, throws e) = open_sockets w2.log ≡ open_sockets w.log

  initialize-Connected-of :
      (ks : List (Option c.Address × c.Address)) (w : World c)
      (r : World c × Outcome (NetError c) ℕ)
      → InitializeResult ks w r
      → Connected w r
  initialize-Connected-of ks w (w2, ok fd) (local, remote, w1, reached, works) = (
    (local, remote),
    (
      w1.log,
      subst (AttemptResult (λ fd'. connection_events fd' (local, remote)) w1) works
          (attempt-AttemptResult (local, remote) w1),
      Passed-open_sockets reached.passed,
    ),
  )
  initialize-Connected-of ks w (w2, throws e) (inl (es, passed, _)) = Passed-open_sockets passed
  initialize-Connected-of ks w (w2, throws e) (inr (x, escapes, _)) =
      let (local, remote, w1, y, reached, fails, _) = escapes in
      subst (AttemptResult (λ fd. connection_events fd (local, remote)) w1) fails
        (attempt-AttemptResult (local, remote) w1)
      ∙ Passed-open_sockets reached.passed

  -- `connection::initialize` leaks no socket: when it throws, the descriptors that are open are those
  -- that were open before. When it returns, they and its result are, and with that socket nothing was
  -- done but opening, binding it where a local address is used, and connecting it.
  pub initialize-Connected :
      (ra la : List c.Address) (w : World c) → Connected w (initialize ra la w)
  initialize-Connected ra la w =
      initialize-Connected-of (candidates c ra la) w (initialize ra la w)
        (initialize-InitializeResult ra la w)

  abbrev pub Binds : World c → World c × Outcome (NetError c) ℕ → Type 0
  Binds w (w2, ok fd) = (a : c.Address) × Made w fd (bound_events fd a) w2
  Binds w (w2, throws e) = open_sockets w2.log ≡ open_sockets w.log

  bound_loop-Binds :
      (err : NetError c) (la : List c.Address) (w : World c) (r : World c × Outcome (NetError c) ℕ)
      → BoundResult err la w r
      → Binds w r
  bound_loop-Binds err la w (w2, ok fd) h =
      Works-open_sockets try_bound (λ a fd'. bound_events fd' a) try_bound-AttemptResult w w2 la fd
        h
  bound_loop-Binds err la w (w2, throws e) (es, failing, last) =
      Failing-open_sockets try_bound (λ a fd. bound_events fd a) try_bound-AttemptResult failing

  pub bound_socket-Binds : (la : List c.Address) (w : World c) → Binds w (bound_socket la w)
  bound_socket-Binds la w = elim (bound_socket-BoundResult la w) [
    | inl (none_given, e) ↦ rw e refl
    | inr h ↦ bound_loop-Binds _ la w (bound_socket la w) h
  ]

  abbrev pub Accepts : World c → World c × Outcome (NetError c) (ℕ × c.Address) → Type 0
  Accepts w (w2, ok (fd, local)) = (a : c.Address) × Made w fd (listens fd ∷ bound_events fd a) w2
  Accepts w (w2, throws e) = open_sockets w2.log ≡ open_sockets w.log

  accepting-Accepts :
      (w : World c) (r : World c × Outcome (NetError c) ℕ) → Binds w r → Accepts w (accepting r)
  unfolding accepting
  accepting-Accepts w (w2, throws e) h = h
  accepting-Accepts w (w2, ok fd) (a, (rest, log_is, same)) =
      named_lem (c.my_getsockname w2.state fd).0 (c.my_getsockname w2.state fd).1
    where
      open_now : open_sockets w2.log ≡ fd ∷ open_sockets w.log
      open_now = unfold open_sockets bound_events in ap open_sockets log_is ∙ ap (λ l. fd ∷ l) same

      closing : remove fd (open_sockets w2.log) ≡ open_sockets w.log
      closing = unfold remove in rw (open_now, ==_refl fd) refl

      listening_lem :
          (s : c.State) (local : c.Address) (o : Option c.CallError)
          → Accepts w (listening fd local (logged (listens fd) s w2.log o))
      listening_lem s local none =
          unfold listening logged in (a, (rest, ap (λ l. listens fd ∷ l) log_is, same))
      listening_lem s local (some e) = unfold listening logged close_socket open_sockets in closing

      named_lem :
          (s : c.State) (o : Outcome c.CallError c.Address) → Accepts w (named fd s w2.log o)
      named_lem s (throws e) = unfold named close_socket open_sockets in closing
      named_lem s (ok local) =
          unfold named listen_on in listening_lem (c.my_listen s fd).0 local (c.my_listen s fd).1

  -- The constructor of `acceptor` leaks no socket: when it throws, the descriptors that are open are
  -- those that were open before. When it ends, they and its own are, and that socket was opened, bound
  -- and set to listen, in this order, and nothing else was done with it.
  pub acceptor-Accepts : (la : List c.Address) (w : World c) → Accepts w (acceptor la w)
  unfolding acceptor
  acceptor-Accepts la w = accepting-Accepts w (bound_socket la w) (bound_socket-Binds la w)
