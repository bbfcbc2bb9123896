-- ===== src/Network/LowLevel/Blocking.antt =====
-- In which mode the calls with a timeout of src/detail/network.cpp leave a descriptor.
use nanonet.Common.{
  ℕ, ◌≡◌, refl, sym, ap, ◌∙◌, Bool, true, false, some, ◌==◌, ==_refl, if◌then◌else◌, Outcome, ok,
  throws, ◌⊎◌, inl, inr, Bool-cases, ==_iff,
}
use nanonet.Network.LowLevel.{
  SystemReply, interrupted, failed, done, Kernel, CallFailure, Sockets, repeat, with_flags, setting,
  bool_fcntl_option, and_then, replied, poll_one, not_timed_out, no_socket_error, finish_connect,
  after_connect, my_connect,
}

module _ {k : Kernel} where
  -- A block that returns has returned from its first call.
  and_then_returns :
      {A B : Type 0} (m : Sockets k × Outcome CallFailure A)
      (next : Sockets k → A → Sockets k × Outcome CallFailure B) {w' : Sockets k} {b : B}
      → and_then m next ≡ (w', ok b)
      → (w : Sockets k) × (a : A) × (m ≡ (w, ok a)) × (next w a ≡ (w', ok b))
  unfolding and_then
  and_then_returns (w, ok a) next h = (w, a, refl, h)
  and_then_returns (w, throws e) next h = absurd (cc (ap (λ r. r.1) h))

  -- The mode of every descriptor when that of one was set.
  abbrev pub mode_set : ℕ → Bool → Sockets k → ℕ → Bool
  mode_set fd enable w other = if other == fd then enable else w.nonblocking other

  pub bool_fcntl_option-mode_set :
      (fd : ℕ) (enable : Bool) (w w' : Sockets k)
      → bool_fcntl_option fd enable w ≡ (w', ok tt)
      → w'.nonblocking ≡ mode_set fd enable w
  unfolding bool_fcntl_option
  bool_fcntl_option-mode_set fd enable w w' h = of_get (k.get_flags fd w.state) h
    where
      of_set :
          (r : k.State × Bool)
          → with_flags fd enable w r ≡ (w', ok tt)
          → w'.nonblocking ≡ mode_set fd enable w
      of_set (s, false) e = unfold with_flags in absurd (cc (ap (λ r. r.1) e))
      of_set (s, true) e = unfold with_flags in ap (λ r. r.0.nonblocking) (sym e)

      of_get :
          (r : k.State × Bool)
          → setting fd enable w r ≡ (w', ok tt)
          → w'.nonblocking ≡ mode_set fd enable w
      of_get (s, false) e = unfold setting in absurd (cc (ap (λ r. r.1) e))
      of_get (s, true) e = unfold setting in of_set (k.set_flags fd enable s) e

  pub set_here : (fd : ℕ) (enable : Bool) (w : Sockets k) → mode_set fd enable w fd ≡ enable
  set_here fd enable w = rw (==_refl fd) refl

  finish_connect_blocking :
      (rounds fd timeout : ℕ) (w w' : Sockets k)
      → finish_connect rounds fd timeout w ≡ (w', ok tt)
      → w'.nonblocking fd ≡ false
  unfolding finish_connect
  finish_connect_blocking rounds fd timeout w w' h =
      let (w1, polled, e1, h1) = and_then_returns (poll_one rounds fd timeout w) _ h in
      let (w2, u2, e2, h2) = and_then_returns (not_timed_out w1 polled) _ h1 in
      let (w3, err, e3, h3) =
        and_then_returns (replied w2 (k.get_sockopt_error fd w2.state)) _ h2 in
      let (w4, u4, e4, h4) = and_then_returns (no_socket_error w3 err) _ h3 in
      ap (λ f. f fd) (bool_fcntl_option-mode_set fd false w4 w' h4) ∙ set_here fd false w4

  -- What `::connect` said, and the mode that the socket is left in.
  abbrev pub Mode : ℕ → SystemReply → Sockets k → Type 0
  Mode fd r w' =
      ((n : ℕ) × (r ≡ done n) × (w'.nonblocking fd ≡ true))
      ⊎ ((r ≡ failed k.einprogress) × (w'.nonblocking fd ≡ false))

  after_connect-Mode :
      (rounds fd timeout : ℕ) (w w' : Sockets k) (r : k.State × SystemReply)
      → w.nonblocking fd ≡ true
      → after_connect rounds fd timeout w r ≡ (w', ok tt)
      → Mode fd r.1 w'
  unfolding after_connect
  after_connect-Mode rounds fd timeout w w' (s, done n) on h =
      inl (n, refl, ap (λ r. r.0.nonblocking fd) (sym h) ∙ on)
  after_connect-Mode rounds fd timeout w w' (s, interrupted) on h = absurd (cc (ap (λ r. r.1) h))
  after_connect-Mode rounds fd timeout w w' (s, failed e) on h =
      elim (Bool-cases (e == k.einprogress)) [
        | inr other ↦ absurd (cc (ap (λ r. r.1) (rw other at h)))
        | inl same ↦ inr (
          ap failed ((==_iff e k.einprogress).0 same),
          finish_connect_blocking rounds fd timeout (record w { state = s }) w' (rw same at h),
        )
      ]

  -- When `my_connect` with a timeout returns, it has set the socket to non-blocking mode. If `connect`
  -- was in progress then, the socket is in blocking mode again; if it succeeded at once, the socket is
  -- left in non-blocking mode.
  pub my_connect-Mode :
      (rounds fd timeout : ℕ) (a : k.Address) (w w' : Sockets k)
      → my_connect rounds fd a (some timeout) w ≡ (w', ok tt)
      → (w1 : Sockets k) × (bool_fcntl_option fd true w ≡ (w1, ok tt))
        × Mode fd (repeat rounds (k.connect fd a) w1.state).1 w'
  unfolding my_connect
  my_connect-Mode rounds fd timeout a w w' h =
      let (w1, u, e, h1) = and_then_returns (bool_fcntl_option fd true w) _ h in
      (
        w1,
        e,
        after_connect-Mode rounds fd timeout w1 w' (repeat rounds (k.connect fd a) w1.state)
            (ap (λ f. f fd) (bool_fcntl_option-mode_set fd true w w1 e) ∙ set_here fd true w) h1,
      )
