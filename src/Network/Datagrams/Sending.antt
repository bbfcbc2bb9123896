-- ===== src/Network/Datagrams/Sending.antt =====
-- Sending and connecting by `datagram_socket` of include/nanonet/sys/network.h and src/network.cpp.
use nanonet.Common.{
  arith, ◌∙◌, ℕ, ◌≡◌, refl, true, Option, none, some, List, [], ◌∷◌, ◌==◌, if◌then◌else◌, Bytes,
  length, Outcome, ok, throws, inl, inr, Bool-cases,
}
use nanonet.Network.{SocketError, socket_failed, connect_to}
use nanonet.Network.LowLevel.{
  SystemReply, interrupted, failed, done, Kernel, always_interrupted, errno, repeat,
}
use nanonet.Network.Families.{ip_unspec}
use nanonet.Network.Address.{NameError, host, port}
use nanonet.Network.Datagrams.{
  Packets, udp_calls, unresolved, socket_error, call_error, family_mismatch, no_matching_family,
  assertion_failed, Udp, Result, at_state, resolved, resolve_datagram,
}

module _ {k : Kernel} (p : Packets k) where
  -- `local()`, and what is done with it.
  with_local :
      {A : Type 0}
      → Udp p
      → k.State × Outcome ℕ k.Address
      → (k.Address → Udp p → Result p A)
      → Result p A
  with_local w (s, ok mine) next = next mine (at_state p w s)
  with_local w (s, throws e) next = (at_state p w s, throws (call_error (errno e)))

  -- The loops of `connect` and `send` over the addresses of a name: the first of the socket's family is
  -- used.
  unfoldable pub matching_loop :
      ℕ → List k.Address → (k.Address → Udp p → Result p (Unit {0})) → Udp p → Result p (Unit {0})
  unfolding with_local
  matching_loop fd [] act w = (w, throws no_matching_family)
  matching_loop fd (adr ∷ la) act w = with_local w (k.getsockname fd w.state.state) λ mine w'.
      let later = matching_loop fd la act w' in
      if k.family mine == k.family adr then act adr w' else later

  nothing_thrown : Udp p × Option (SocketError (udp_calls p)) → Result p (Unit {0})
  nothing_thrown (w, none) = (w, ok tt)
  nothing_thrown (w, some e) = (w, throws (socket_error (socket_failed e)))

  unfoldable pub connect_address : ℕ → k.Address → Udp p → Result p (Unit {0})
  unfolding nothing_thrown connect_to
  connect_address fd destination w = nothing_thrown (connect_to fd destination w)

  -- `connect` of a name and a service.
  unfoldable pub connect_name : ℕ → Bytes → Bytes → Udp p → Result p (Unit {0})
  unfolding resolved resolve_datagram matching_loop connect_address
  connect_name fd name service w =
      resolved p w (resolve_datagram p (some name) service ip_unspec w)
        λ la. matching_loop fd la (connect_address fd)

  -- The text of the error of `sendto`, which asks for the host and the port, leaves `errno` as it is.
  port_asked : ℕ → Udp p → k.State × Outcome NameError Bytes → Result p (Unit {0})
  port_asked e w (s, ok text) = (at_state p w s, throws (call_error (errno e)))
  port_asked e w (s, throws x) = (at_state p w s, throws (unresolved x))

  host_asked : ℕ → k.Address → Udp p → k.State × Outcome NameError Bytes → Result p (Unit {0})
  unfolding port_asked port
  host_asked e a w (s, ok text) =
      port_asked e (at_state p w s) (port p.names p.names.sock_dgram a s)
  host_asked e a w (s, throws x) = (at_state p w s, throws (unresolved x))

  -- What stands behind the calls: the error that is thrown unless it is ECONNREFUSED.
  sent : ℕ → (ℕ → Udp p → Result p (Unit {0})) → Udp p → k.State × SystemReply → Result p (Unit {0})
  sent size failing w (s, interrupted) = (at_state p w s, throws (call_error always_interrupted))
  sent size failing w (s, failed e) =
      if e == p.econnrefused then (at_state p w s, ok tt) else failing e (at_state p w s)
  sent size failing w (s, done result) =
      if result == size then (at_state p w s, ok tt) else (at_state p w s, throws assertion_failed)

  my_send : ℕ → Bytes → k.State → k.State × SystemReply
  unfolding repeat
  my_send fd buffer = repeat p.rounds (p.send fd buffer)

  my_sendto : ℕ → k.Address → Bytes → k.State → k.State × SystemReply
  unfolding repeat
  my_sendto fd a buffer = repeat p.rounds (p.sendto fd a buffer)

  unfoldable pub send : ℕ → Bytes → Udp p → Result p (Unit {0})
  unfolding sent my_send
  send fd buffer w =
      sent (length buffer) (λ e w'. (w', throws (call_error (errno e)))) w
        (my_send fd buffer w.state.state)

  unfoldable pub send_address : ℕ → Bytes → k.Address → Udp p → Result p (Unit {0})
  unfolding sent my_sendto host_asked host with_local
  send_address fd buffer d w = with_local w (k.getsockname fd w.state.state) λ mine w'.
      if k.family d == k.family mine
      then sent (length buffer)
          (λ e w2. host_asked e d w2 (host p.names p.names.sock_dgram d w2.state.state)) w'
          (my_sendto fd d buffer w'.state.state)
      else (w', throws family_mismatch)

  -- `send` to a node and a service.
  unfoldable pub send_name : ℕ → Bytes → Bytes → Bytes → Udp p → Result p (Unit {0})
  unfolding resolved resolve_datagram matching_loop send_address
  send_name fd buffer nodename service w =
      resolved p w (resolve_datagram p (some nodename) service ip_unspec w)
        λ la. matching_loop fd la (send_address fd buffer)

  -- The first address of a family.
  abbrev pub first_of_family : ℕ → List k.Address → Option k.Address
  first_of_family family [] = none
  first_of_family family (a ∷ la) =
      let later = first_of_family family la in if family == k.family a then some a else later

  abbrev pub act_on :
      (k.Address → Udp p → Result p (Unit {0})) → Udp p → Option k.Address → Result p (Unit {0})
  act_on act w none = (w, throws no_matching_family)
  act_on act w (some a) = act a w

  -- In a state of the system, `getsockname` gives this address of the socket, and does nothing else.
  abbrev pub HasLocal : ℕ → k.Address → k.State → Type 0
  HasLocal fd mine s = k.getsockname fd s ≡ (s, ok mine)

  matching_loop-first :
      (fd : ℕ) (mine : k.Address) (la : List k.Address)
      (act : k.Address → Udp p → Result p (Unit {0})) (w : Udp p)
      → HasLocal fd mine w.state.state
      → matching_loop fd la act w ≡ act_on act w (first_of_family (k.family mine) la)
  unfolding matching_loop with_local
  matching_loop-first fd mine [] act w h = refl
  matching_loop-first fd mine (a ∷ la) act w h =
      let later = matching_loop-first fd mine la act w h in
      elim (Bool-cases (k.family mine == k.family a)) [
        | inl alike ↦ rw (h, alike) refl
        | inr other ↦ rw (h, other) later
      ]

  -- `send` to an address without the test of the families.
  unfoldable pub send_same_family : ℕ → Bytes → k.Address → Udp p → Result p (Unit {0})
  unfolding sent my_sendto host_asked
  send_same_family fd buffer d w =
      sent (length buffer)
        (λ e w2. host_asked e d w2 (host p.names p.names.sock_dgram d w2.state.state)) w
        (my_sendto fd d buffer w.state.state)

  send_matching :
      (fd : ℕ) (mine d : k.Address) (buffer : Bytes) (w : Udp p)
      → HasLocal fd mine w.state.state
      → (k.family mine == k.family d) ≡ true
      → send_address fd buffer d w ≡ send_same_family fd buffer d w
  unfolding send_address send_same_family with_local
  send_matching fd mine d buffer w h alike =
      let flipped : (k.family d == k.family mine) ≡ true = ground (arith, alike) in
      rw (h, flipped) refl

  send_first :
      (fd : ℕ) (mine : k.Address) (buffer : Bytes) (la : List k.Address) (w : Udp p)
      → HasLocal fd mine w.state.state
      → act_on (send_address fd buffer) w (first_of_family (k.family mine) la)
        ≡ act_on (send_same_family fd buffer) w (first_of_family (k.family mine) la)
  send_first fd mine buffer [] w h = refl
  send_first fd mine buffer (a ∷ la) w h = elim (Bool-cases (k.family mine == k.family a)) [
    | inl alike ↦ rw alike (send_matching fd mine a buffer w h alike)
    | inr other ↦ rw other (send_first fd mine buffer la w h)
  ]

  resolved-cong :
      {A : Type 0} (w : Udp p) (r : k.State × Outcome NameError (List k.Address))
      (f g : List k.Address → Udp p → Result p A)
      → ((la : List k.Address) → f la (at_state p w r.0) ≡ g la (at_state p w r.0))
      → resolved p w r f ≡ resolved p w r g
  unfolding resolved
  resolved-cong w (s, ok la) f g h = h la
  resolved-cong w (s, throws e) f g h = refl

  -- Where the socket has a local address when the name has been resolved, and asking for it does nothing
  -- else then: `connect` and `send` of a name and a service do what they do for an address to the first
  -- of the name's addresses that is of the socket's family, and to no other, and throw if there is none;
  -- `send` then never finds that the families differ.
  pub send_name-first_of_family :
      (fd : ℕ) (mine : k.Address) (buffer name service : Bytes) (w : Udp p)
      → HasLocal fd mine (resolve_datagram p (some name) service ip_unspec w).0
      → (connect_name fd name service w
          ≡ resolved p w
              (resolve_datagram p (some name) service ip_unspec w)
              (λ la w'. act_on (connect_address fd) w' (first_of_family (k.family mine) la)))
        × (send_name fd buffer name service w
            ≡ resolved p w (resolve_datagram p (some name) service ip_unspec w) (λ la w'.
              act_on (send_same_family fd buffer) w' (first_of_family (k.family mine) la)))
  unfolding connect_name send_name
  send_name-first_of_family fd mine buffer name service w h =
      let r = resolve_datagram p (some name) service ip_unspec w in
      let w1 = at_state p w r.0 in
      (
        resolved-cong w r _ _ (λ la. matching_loop-first fd mine la (connect_address fd) w1 h),
        resolved-cong w r _ _ (λ la.
            matching_loop-first fd mine la (send_address fd buffer) w1 h
            ∙ send_first fd mine buffer la w1 h),
      )
