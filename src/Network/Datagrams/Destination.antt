-- ===== src/Network/Datagrams/Destination.antt =====
-- Which address `datagram_socket::connected` of src/network.cpp connects to.
use nanonet.Common.{
  ℕ, ◌≡◌, ◌≢◌, refl, ==_refl, Option, none, some, List, [], ◌∷◌, ◌==◌, ◌||◌, Bytes, Outcome, ok,
  throws, inl, inr, Bool-cases,
}
use nanonet.Network.{
  SocketEvent, opened, connected, SocketError, NetError, opened_as, make_socket, logged, connect_to,
}
use nanonet.Network.LowLevel.{Kernel, CallFailure}
use nanonet.Network.Families.{AddressFamily, FamilyError}
use nanonet.Network.Address.{AddrInfo, NameError}
use nanonet.Network.Address.Resolving.{IsDocumented, Resolved, my_getaddrinfo-Resolved}
use nanonet.Network.Datagrams.{
  Packets, at_state, udp_calls, out_of_range, connected_name, Udp, Result, initialize_datagram,
  kept, initialized, made, resolved, resolve_datagram, create_unbound, connecting, of_family,
  create_connected, connected_first, datagram_socket, family_number,
}
use nanonet.Network.Datagrams.Creation.{initialize_datagram-log}

module _ {k : Kernel} (p : Packets k) where
  -- A new socket with this log, or an error that is not of `.at( 0 )`.
  abbrev Logs : (ℕ → List (SocketEvent (udp_calls p))) → Result p ℕ → Type 0
  Logs events (w2, ok fd) = w2.log ≡ events fd
  Logs events (w2, throws e) = e ≢ out_of_range

  abbrev LogsSocket :
      {E : Type 0} → (ℕ → List (SocketEvent (udp_calls p))) → Udp p × Outcome E ℕ → Type 0
  LogsSocket events (w2, ok fd) = w2.log ≡ events fd
  LogsSocket events (w2, throws e) = Unit

  abbrev LogsCall :
      List (SocketEvent (udp_calls p)) → Udp p × Option (SocketError (udp_calls p)) → Type 0
  LogsCall events (w2, none) = w2.log ≡ events
  LogsCall events (w2, some e) = Unit

  kept-Logs :
      (events : ℕ → List (SocketEvent (udp_calls p))) (fd : ℕ)
      (m : Udp p × Option (SocketError (udp_calls p)))
      → LogsCall (events fd) m
      → Logs events (kept p fd m)
  unfolding kept
  kept-Logs events fd (w', none) h = h
  kept-Logs events fd (w', some e) h = λ x. absurd (cc x)

  initialize-LogsCall :
      (fd : ℕ) (w : Udp p) (m : Udp p × Option (SocketError (udp_calls p)))
      → m.0.log ≡ w.log
      → LogsCall w.log m
  initialize-LogsCall fd w (w', none) h = h
  initialize-LogsCall fd w (w', some e) h = tt

  initialized-Logs :
      (events : ℕ → List (SocketEvent (udp_calls p)))
      (m : Udp p × Outcome (NetError (udp_calls p)) ℕ)
      → LogsSocket events m
      → Logs events (initialized p m)
  unfolding initialized
  initialized-Logs events (w', ok fd) h = kept-Logs events fd (initialize_datagram p fd w') (
      rw (← h)
        (initialize-LogsCall fd w' (initialize_datagram p fd w') (initialize_datagram-log p fd w')))
  initialized-Logs events (w', throws e) h = λ x. absurd (cc x)

  opened_as-LogsSocket :
      (w : Udp p) (s : (udp_calls p).State) (r : Outcome CallFailure ℕ)
      → LogsSocket (λ fd. opened fd ∷ w.log) (opened_as s w.log r)
  unfolding opened_as
  opened_as-LogsSocket w s (ok fd) = refl
  opened_as-LogsSocket w s (throws e) = tt

  make_socket-LogsSocket :
      (family : ℕ) (w : Udp p) → LogsSocket (λ fd. opened fd ∷ w.log) (make_socket family w)
  unfolding make_socket
  make_socket-LogsSocket family w =
      elim (Bool-cases (family == k.af_inet || family == k.af_inet6)) [
        | inl known ↦ rw known (opened_as-LogsSocket w _ _)
        | inr other ↦ rw other tt
      ]

  made-LogsSocket :
      (events : ℕ → List (SocketEvent (udp_calls p)))
      (m : Udp p × Outcome (SocketError (udp_calls p)) ℕ)
      → LogsSocket events m
      → LogsSocket events (made p m)
  unfolding made
  made-LogsSocket events (w', ok fd) h = h
  made-LogsSocket events (w', throws e) h = tt

  create_unbound-Logs :
      (af : AddressFamily) (w : Udp p) → Logs (λ fd. opened fd ∷ w.log) (create_unbound p af w)
  unfolding create_unbound
  create_unbound-Logs af w =
      let family = family_number p af in
      initialized-Logs _ _ (
        made-LogsSocket (λ fd. opened fd ∷ w.log) (make_socket family w)
          (make_socket-LogsSocket family w))

  connect_to-LogsCall :
      (fd : ℕ) (a : k.Address) (w : Udp p) → LogsCall (connected fd a ∷ w.log) (connect_to fd a w)
  unfolding connect_to
  connect_to-LogsCall fd a w = go _ _
    where
      go :
          (s : (udp_calls p).State) (o : Option CallFailure)
          → LogsCall (connected fd a ∷ w.log) (logged {c = udp_calls p} (connected fd a) s w.log o)
      go s none = unfold logged in refl
      go s (some e) = unfold logged in tt

  connecting-Logs :
      (a : k.Address) (events : ℕ → List (SocketEvent (udp_calls p))) (m : Result p ℕ)
      → Logs events m
      → Logs (λ fd. connected fd a ∷ events fd) (connecting p a m)
  unfolding connecting
  connecting-Logs a events (w', ok fd) h =
      kept-Logs (λ fd'. connected fd' a ∷ events fd') fd (connect_to fd a w')
        (rw (← h) (connect_to-LogsCall fd a w'))
  connecting-Logs a events (w', throws e) h = h

  of_family-Logs :
      (a : k.Address) (w : Udp p) (o : Outcome FamilyError AddressFamily)
      → Logs (λ fd. connected fd a ∷ opened fd ∷ w.log) (of_family p a o w)
  unfolding of_family
  of_family-Logs a w (ok af) =
      connecting-Logs a (λ fd. opened fd ∷ w.log) (create_unbound p af w) (create_unbound-Logs af w)
  of_family-Logs a w (throws e) = λ x. absurd (cc x)

  -- The name gives addresses, and with a new socket nothing was done but to connect it to the first.
  abbrev pub ConnectedFirst :
      Udp p → k.State × Outcome NameError (List k.Address) → Result p ℕ → Type 0
  ConnectedFirst w found (w2, ok fd) =
      (a : k.Address) × (others : List k.Address) × (found.1 ≡ ok (a ∷ others))
      × (w2.log ≡ connected fd a ∷ opened fd ∷ w.log)
  ConnectedFirst w found (w2, throws e) = e ≢ out_of_range

  first_of :
      (w : Udp p) (s : k.State) (a : k.Address) (others : List k.Address) (r : Result p ℕ)
      → Logs (λ fd. connected fd a ∷ opened fd ∷ w.log) r
      → ConnectedFirst w (s, ok (a ∷ others)) r
  first_of w s a others (w2, ok fd) h = (a, others, refl, h)
  first_of w s a others (w2, throws e) h = h

  resolved_first :
      (hint : ℕ) (name : Option Bytes) (service : Bytes) (w : Udp p)
      (call : k.State × (ℕ × List (AddrInfo k)))
      (found : k.State × Outcome NameError (List k.Address))
      → Resolved p.names hint name service call found
      → ConnectedFirst w found (resolved p w found (connected_first p))
  unfolding resolved connected_first create_connected
  resolved_first hint name service w (s, (e, res)) (s2, ok []) (z, all, some_left, suits, h) =
      absurd (some_left refl)
  resolved_first hint name service w (s, (e, res)) (s2, ok (a ∷ others)) h =
      first_of w s2 a others (create_connected p a (at_state p w s2))
        (of_family-Logs a (at_state p w s2) _)
  resolved_first hint name service w (s, (e, res)) (s2, throws x) h = λ y. absurd (cc y)

  -- Where `getaddrinfo` does as documented, `connected` of a name and a service gives a new socket that
  -- is connected to the first address that the name has, and with which nothing else was done, or throws
  -- what a call has thrown: it never takes the first of no addresses.
  pub connected-ConnectedFirst :
      (name service : Bytes) (family : AddressFamily) (w : Udp p)
      → IsDocumented p.names
      → ConnectedFirst w
          (resolve_datagram p (some name) service family w)
          (datagram_socket p (connected_name name service family) w)
  unfolding datagram_socket resolve_datagram
  connected-ConnectedFirst name service family w d =
      resolved_first (family_number p family) (some name) service w _ _ (
        my_getaddrinfo-Resolved p.names p.names.sock_dgram (family_number p family) (some name)
          service w.state.state (rw (==_refl p.names.sock_dgram) refl) d)
