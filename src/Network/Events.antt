-- ===== src/Network/Events.antt =====
-- What an attempt of src/network.cpp does with descriptors.
use nanonet.Common.{
  ℕ, ◌≡◌, refl, ap, List, [], ◌∷◌, ◌++◌, ◌==◌, ==_refl, if◌then◌else◌, ◌||◌, Bool-cases, Option,
  none, some, Outcome, ok, throws, inl, inr,
}
use nanonet.Network.{
  Calls, World, SocketEvent, opened, bound, connected, listens, closed, SocketError, opened_as,
  make_socket, logged, bind_to, connect_to, then_call, close_socket, leave_scope, with_socket,
  try_bound, try_connect,
}
use nanonet.Network.Candidates.{attempt}

unfoldable pub remove : ℕ → List ℕ → List ℕ
remove a [] = []
remove a (b ∷ bs) = if a == b then bs else b ∷ remove a bs

module _ {c : Calls} where
  -- The descriptors that were opened and not closed again, the newest first.
  unfoldable pub open_sockets : List (SocketEvent c) → List ℕ
  unfolding remove
  open_sockets [] = []
  open_sockets (opened fd ∷ log) = fd ∷ open_sockets log
  open_sockets (closed fd ∷ log) = remove fd (open_sockets log)
  open_sockets (bound fd a ∷ log) = open_sockets log
  open_sockets (connected fd a ∷ log) = open_sockets log
  open_sockets (listens fd ∷ log) = open_sockets log

  -- What was done with a socket since it was opened.
  unfoldable pub bound_events : ℕ → c.Address → List (SocketEvent c)
  bound_events fd a = bound fd a ∷ opened fd ∷ []

  unfoldable pub connection_events : ℕ → Option c.Address × c.Address → List (SocketEvent c)
  unfolding bound_events
  connection_events fd (none, remote) = connected fd remote ∷ opened fd ∷ []
  connection_events fd (some local, remote) = connected fd remote ∷ bound_events fd local

  -- An attempt has opened a socket for the caller and done this with it, or leaves none open.
  abbrev pub AttemptResult :
      (ℕ → List (SocketEvent c)) → World c → World c × Outcome (SocketError c) ℕ → Type 0
  AttemptResult events w (w2, ok fd) = w2.log ≡ events fd ++ w.log
  AttemptResult events w (w2, throws e) = open_sockets w2.log ≡ open_sockets w.log

  -- So far: the calls succeeded, and did this; or one failed, and the socket is open.
  abbrev SoFar :
      ℕ
      → List (SocketEvent c)
      → List ℕ
      → List (SocketEvent c)
      → World c × Option (SocketError c)
      → Type 0
  SoFar fd events before log (w2, none) = w2.log ≡ events ++ log
  SoFar fd events before log (w2, some e) = open_sockets w2.log ≡ fd ∷ before

  leave_scope-AttemptResult :
      (fd : ℕ) (events : ℕ → List (SocketEvent c)) (w : World c)
      (r : World c × Option (SocketError c))
      → SoFar fd (events fd) (open_sockets w.log) w.log r
      → AttemptResult events w (leave_scope fd r)
  unfolding leave_scope close_socket open_sockets remove
  leave_scope-AttemptResult fd events w (w2, none) h = h
  leave_scope-AttemptResult fd events w (w2, some e) h = rw (h, ==_refl fd) refl

  with_socket-AttemptResult :
      (events : ℕ → List (SocketEvent c)) (family : ℕ) (w : World c)
      (body : ℕ → World c → World c × Option (SocketError c))
      → ((fd : ℕ) (w1 : World c)
          → w1.log ≡ opened fd ∷ w.log
          → SoFar fd (events fd) (open_sockets w.log) w.log (body fd w1))
      → AttemptResult events w (with_socket (make_socket family w) body)
  unfolding make_socket with_socket
  with_socket-AttemptResult events family w body h =
      elim (Bool-cases (family == c.af_inet || family == c.af_inet6)) [
        | inr wrong ↦ rw wrong refl
        | inl right ↦ rw right (of_socket (c.socket w.state family).0 (c.socket w.state family).1)
      ]
    where
      of_socket :
          (s : c.State) (r : Outcome c.CallError ℕ)
          → AttemptResult events w (with_socket (opened_as s w.log r) body)
      of_socket s (ok fd) =
          leave_scope-AttemptResult fd events w
            (body fd (record { state = s; log = opened fd ∷ w.log }))
            (h fd (record { state = s; log = opened fd ∷ w.log }) refl)
      of_socket s (throws e) = refl

  logged-SoFar :
      (fd : ℕ) (event : SocketEvent c) (events : List (SocketEvent c)) (before : List ℕ)
      (s : c.State) (log now : List (SocketEvent c)) (o : Option c.CallError)
      → now ≡ events ++ log
      → open_sockets now ≡ fd ∷ before
      → SoFar fd (event ∷ events) before log (logged event s now o)
  unfolding logged
  logged-SoFar fd event events before s log now none e h = ap (λ l. event ∷ l) e
  logged-SoFar fd event events before s log now (some x) e h = h

  then_call-SoFar :
      (fd : ℕ) (events more : List (SocketEvent c)) (before : List ℕ) (log : List (SocketEvent c))
      (r : World c × Option (SocketError c)) (call : World c → World c × Option (SocketError c))
      → SoFar fd events before log r
      → ((w : World c) → w.log ≡ events ++ log → SoFar fd more before log (call w))
      → SoFar fd more before log (then_call r call)
  unfolding then_call
  then_call-SoFar fd events more before log (w, none) call h next = next w h
  then_call-SoFar fd events more before log (w, some e) call h next = h

  bind_to-SoFar :
      (fd : ℕ) (a : c.Address) (w w1 : World c)
      → w1.log ≡ opened fd ∷ w.log
      → SoFar fd (bound_events fd a) (open_sockets w.log) w.log (bind_to fd a w1)
  unfolding bind_to bound_events open_sockets
  bind_to-SoFar fd a w w1 e =
      logged-SoFar fd (bound fd a) (opened fd ∷ []) (open_sockets w.log) (c.my_bind w1.state fd a).0
        w.log w1.log (c.my_bind w1.state fd a).1 e (ap open_sockets e)

  connect_to-SoFar :
      (fd : ℕ) (a : c.Address) (events : List (SocketEvent c)) (w w1 : World c)
      → w1.log ≡ events ++ w.log
      → open_sockets w1.log ≡ fd ∷ open_sockets w.log
      → SoFar fd (connected fd a ∷ events) (open_sockets w.log) w.log (connect_to fd a w1)
  unfolding connect_to
  connect_to-SoFar fd a events w w1 e h =
      logged-SoFar fd (connected fd a) events (open_sockets w.log) (c.my_connect w1.state fd a).0
        w.log w1.log (c.my_connect w1.state fd a).1 e h

  pub try_bound-AttemptResult :
      (a : c.Address) (w : World c) → AttemptResult (λ fd. bound_events fd a) w (try_bound a w)
  unfolding try_bound
  try_bound-AttemptResult a w =
      with_socket-AttemptResult (λ fd. bound_events fd a) (c.family_detail_ a) w
        (λ fd w'. bind_to fd a w') (λ fd w1 e. bind_to-SoFar fd a w w1 e)

  pub attempt-AttemptResult :
      (k : Option c.Address × c.Address) (w : World c)
      → AttemptResult (λ fd. connection_events fd k) w (attempt k w)
  unfolding attempt try_connect connection_events open_sockets bound_events
  attempt-AttemptResult (none, remote) w =
      with_socket-AttemptResult (λ fd. connected fd remote ∷ opened fd ∷ [])
        (c.family_detail_ remote) w (λ fd w'. connect_to fd remote w')
        (λ fd w1 e. connect_to-SoFar fd remote (opened fd ∷ []) w w1 e (ap open_sockets e))
  attempt-AttemptResult (some local, remote) w =
      with_socket-AttemptResult (λ fd. connected fd remote ∷ bound_events fd local)
        (c.family_detail_ local) w (λ fd w'. then_call (bind_to fd local w') (connect_to fd remote))
        (λ fd w1 e.
          then_call-SoFar fd (bound_events fd local) (connected fd remote ∷ bound_events fd local)
            (open_sockets w.log) w.log (bind_to fd local w1) (connect_to fd remote)
            (bind_to-SoFar fd local w w1 e)
            (λ w2 e2.
              connect_to-SoFar fd remote (bound_events fd local) w w2 e2 (ap open_sockets e2)))
