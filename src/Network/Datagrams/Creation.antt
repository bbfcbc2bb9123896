-- ===== src/Network/Datagrams/Creation.antt =====
-- What the constructors of `datagram_socket`, of src/network.cpp, leave open.
use nanonet.Common.{
  ℕ, ◌≡◌, refl, ap, true, ◌∙◌, ==_refl, Option, none, some, List, [], ◌∷◌, ◌==◌, ◌||◌, Outcome, ok,
  throws, inl, inr, Bool-cases,
}
use nanonet.Network.{
  connected, SocketError, NetError, opened_as, make_socket, logged, connect_to, close_socket,
  then_call, bound_socket,
}
use nanonet.Network.Events.{open_sockets, remove, bound_events}
use nanonet.Network.Descriptors.{Binds, bound_socket-Binds}
use nanonet.Network.LowLevel.{Kernel, CallFailure}
use nanonet.Network.Families.{AddressFamily, FamilyError}
use nanonet.Network.Address.{NameError}
use nanonet.Network.Datagrams.{
  Packets, SocketOption, so_broadcast, so_reuseaddr, udp_calls, Construction, unbound, by_service,
  by_name, listed, connected_name, connected_address, Udp, Result, option_set, bool_sockopt,
  initialize_datagram, kept, initialized, made, resolved, resolve_datagram, create_unbound,
  create_bound, connecting, of_family, create_connected, connected_first, datagram_socket,
}

module _ {k : Kernel} (p : Packets k) where
  -- One more socket is open, the newest, or as many as before.
  abbrev pub Opens : Udp p → Result p ℕ → Type 0
  Opens w (w2, ok fd) = open_sockets w2.log ≡ fd ∷ open_sockets w.log
  Opens w (w2, throws e) = open_sockets w2.log ≡ open_sockets w.log

  -- The same of what comes before the options are set.
  abbrev Opening : {E : Type 0} → Udp p → Udp p × Outcome E ℕ → Type 0
  Opening w (w2, ok fd) = open_sockets w2.log ≡ fd ∷ open_sockets w.log
  Opening w (w2, throws e) = open_sockets w2.log ≡ open_sockets w.log

  option_set-log : (w : Udp p) (r : k.State × Option ℕ) → (option_set p w r).0.log ≡ w.log
  unfolding option_set
  option_set-log w (s, none) = refl
  option_set-log w (s, some e) = refl

  bool_sockopt-log :
      (fd : ℕ) (option : SocketOption) (w : Udp p) → (bool_sockopt p fd option w).0.log ≡ w.log
  unfolding bool_sockopt
  bool_sockopt-log fd option w = option_set-log w (p.setsockopt fd option true w.state.state)

  then_call-log :
      (w : Udp p) (m : Udp p × Option (SocketError (udp_calls p)))
      (call : Udp p → Udp p × Option (SocketError (udp_calls p)))
      → m.0.log ≡ w.log
      → ((w' : Udp p) → (call w').0.log ≡ w'.log)
      → (then_call m call).0.log ≡ w.log
  unfolding then_call
  then_call-log w (w', none) call h keep = keep w' ∙ h
  then_call-log w (w', some e) call h keep = h

  pub initialize_datagram-log : (fd : ℕ) (w : Udp p) → (initialize_datagram p fd w).0.log ≡ w.log
  unfolding initialize_datagram
  initialize_datagram-log fd w =
      then_call-log w (bool_sockopt p fd so_broadcast w) (bool_sockopt p fd so_reuseaddr)
        (bool_sockopt-log fd so_broadcast w) (bool_sockopt-log fd so_reuseaddr)

  -- A call on a new socket that does not open or close one.
  kept-Opens :
      (w : Udp p) (fd : ℕ) (m : Udp p × Option (SocketError (udp_calls p)))
      → open_sockets m.0.log ≡ fd ∷ open_sockets w.log
      → Opens w (kept p fd m)
  unfolding kept close_socket open_sockets remove
  kept-Opens w fd (w', none) h = h
  kept-Opens w fd (w', some e) h = rw (h, ==_refl fd) refl

  initialized-Opens :
      (w : Udp p) (m : Udp p × Outcome (NetError (udp_calls p)) ℕ)
      → Opening w m
      → Opens w (initialized p m)
  unfolding initialized
  initialized-Opens w (w', ok fd) h =
      kept-Opens w fd (initialize_datagram p fd w')
        (ap open_sockets (initialize_datagram-log fd w') ∙ h)
  initialized-Opens w (w', throws e) h = h

  opened_as-Opening :
      (w : Udp p) (s : (udp_calls p).State) (r : Outcome CallFailure ℕ)
      → Opening w (opened_as s w.log r)
  unfolding opened_as open_sockets
  opened_as-Opening w s (ok fd) = refl
  opened_as-Opening w s (throws e) = refl

  make_socket-Opening : (family : ℕ) (w : Udp p) → Opening w (make_socket family w)
  unfolding make_socket
  make_socket-Opening family w = elim (Bool-cases (family == k.af_inet || family == k.af_inet6)) [
    | inl known ↦ rw known (opened_as-Opening w _ _)
    | inr other ↦ rw other refl
  ]

  made-Opening :
      (w : Udp p) (m : Udp p × Outcome (SocketError (udp_calls p)) ℕ)
      → Opening w m
      → Opening w (made p m)
  unfolding made
  made-Opening w (w', ok fd) h = h
  made-Opening w (w', throws e) h = h

  create_unbound-Opens : (af : AddressFamily) (w : Udp p) → Opens w (create_unbound p af w)
  unfolding create_unbound
  create_unbound-Opens af w =
      initialized-Opens w _ (made-Opening w (make_socket _ w) (make_socket-Opening _ w))

  Binds-Opening :
      (w : Udp p) (m : Udp p × Outcome (NetError (udp_calls p)) ℕ) → Binds w m → Opening w m
  unfolding bound_events open_sockets
  Binds-Opening w (w2, ok fd) (a, (rest, log_is, same)) =
      ap open_sockets log_is ∙ ap (λ l. fd ∷ l) same
  Binds-Opening w (w2, throws e) h = h

  create_bound-Opens : (la : List k.Address) (w : Udp p) → Opens w (create_bound p la w)
  unfolding create_bound
  create_bound-Opens la w =
      initialized-Opens w _ (Binds-Opening w (bound_socket la w) (bound_socket-Binds la w))

  logged-open :
      (fd : ℕ) (a : k.Address) (w : Udp p)
      → open_sockets (connect_to fd a w).0.log ≡ open_sockets w.log
  unfolding connect_to
  logged-open fd a w = go _ _
    where
      go :
          (s : (udp_calls p).State) (o : Option CallFailure)
          → open_sockets (logged {c = udp_calls p} (connected fd a) s w.log o).0.log
            ≡ open_sockets w.log
      go s none = unfold logged open_sockets in refl
      go s (some e) = unfold logged open_sockets in refl

  connecting-Opens :
      (destination : k.Address) (w : Udp p) (m : Result p ℕ)
      → Opens w m
      → Opens w (connecting p destination m)
  unfolding connecting
  connecting-Opens destination w (w', ok fd) h =
      kept-Opens w fd (connect_to fd destination w') (logged-open fd destination w' ∙ h)
  connecting-Opens destination w (w', throws e) h = h

  of_family-Opens :
      (destination : k.Address) (w : Udp p) (o : Outcome FamilyError AddressFamily)
      → Opens w (of_family p destination o w)
  unfolding of_family
  of_family-Opens destination w (ok af) =
      connecting-Opens destination w (create_unbound p af w) (create_unbound-Opens af w)
  of_family-Opens destination w (throws e) = refl

  connected_first-Opens : (la : List k.Address) (w : Udp p) → Opens w (connected_first p la w)
  unfolding connected_first create_connected
  connected_first-Opens [] w = refl
  connected_first-Opens (a ∷ la) w = of_family-Opens a w _

  resolved-Opens :
      (w : Udp p) (r : k.State × Outcome NameError (List k.Address))
      (next : List k.Address → Udp p → Result p ℕ)
      → ((la : List k.Address) (w' : Udp p) → Opens w' (next la w'))
      → Opens w (resolved p w r next)
  unfolding resolved
  resolved-Opens w (s, ok la) next h = h la _
  resolved-Opens w (s, throws e) next h = refl

  -- No constructor of `datagram_socket`, and neither `connected`, leaks a socket: when it throws, on
  -- whichever call, the descriptors that are open are those that were open before. When it ends, they
  -- and its own are.
  pub datagram_socket-Opens : (how : Construction k) (w : Udp p) → Opens w (datagram_socket p how w)
  unfolding datagram_socket create_connected
  datagram_socket-Opens (unbound af) w = create_unbound-Opens af w
  datagram_socket-Opens (by_service af ls) w =
      resolved-Opens w (resolve_datagram p none ls af w) (create_bound p) create_bound-Opens
  datagram_socket-Opens (by_name ln ls) w = resolved-Opens w _ (create_bound p) create_bound-Opens
  datagram_socket-Opens (listed la) w = create_bound-Opens la w
  datagram_socket-Opens (connected_name name service family) w =
      resolved-Opens w (resolve_datagram p (some name) service family w) (connected_first p)
        connected_first-Opens
  datagram_socket-Opens (connected_address destination) w = of_family-Opens destination w _
