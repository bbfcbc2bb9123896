-- ===== src/Network/LowLevel/Accepting.antt =====
-- Which descriptors `my_accept` of src/detail/network.cpp leaves open.
use nanonet.Common.{
  ℕ, zero, suc, ◌≡◌, refl, ap, ◌∙◌, Bool, true, false, some, ◌∷◌, Outcome, ok, throws, ◌⊎◌, inl,
  inr,
}
use nanonet.Network.LowLevel.{
  SystemReply, interrupted, failed, done, Kernel, CallFailure, option_failed, Sockets, repeat,
  with_flags, setting, bool_fcntl_option, and_then, replied, poll_one, not_timed_out, accepted_as,
  accept_one, my_accept,
}
use nanonet.Network.LowLevel.Blocking.{bool_fcntl_option-mode_set, set_here}

-- Which descriptors the operating system has open: `accept` gives an open one, and `fcntl` with F_GETFL
-- and F_SETFL closes none, whether it succeeds or not.
pub record DescriptorTable (k : Kernel) : Type 1 where
  pub is_open : ℕ → k.State → Bool
  pub accept_opens :
      (fd : ℕ) (s s' : k.State) (n : ℕ) → k.accept fd s ≡ (s', done n) → is_open n s' ≡ true
  pub get_flags_keeps :
      (other fd : ℕ) (s : k.State) → is_open other (k.get_flags fd s).0 ≡ is_open other s
  pub set_flags_keeps :
      (other fd : ℕ) (enable : Bool) (s : k.State)
      → is_open other (k.set_flags fd enable s).0 ≡ is_open other s

module _ {k : Kernel} (table : DescriptorTable k) where
  -- A descriptor that `accept` gives is open, however often it was interrupted before.
  repeat-opens :
      (rounds fd : ℕ) (s s' : k.State) (n : ℕ)
      → repeat rounds (k.accept fd) s ≡ (s', done n)
      → table.is_open n s' ≡ true
  unfolding repeat
  repeat-opens zero fd s s' n h = absurd (cc (ap (λ r. r.1) h))
  repeat-opens (suc rounds) fd s s' n h =
      of_reply (λ t. repeat-opens rounds fd t s' n) (k.accept fd s) refl h
    where
      of_reply :
          (again : (t : k.State)
            → repeat rounds (k.accept fd) t ≡ (s', done n)
            → table.is_open n s' ≡ true)
          (r : k.State × SystemReply)
          → k.accept fd s ≡ r
          → elim r.1 [
            | interrupted ↦ repeat rounds (k.accept fd) r.0
            | failed e ↦ (r.0, failed e)
            | done m ↦ (r.0, done m)
          ]
            ≡ (s', done n)
          → table.is_open n s' ≡ true
      of_reply again (t, interrupted) e g = again t g
      of_reply again (t, failed x) e g = absurd (cc (ap (λ r. r.1) g))
      of_reply again (t, done m) e g = table.accept_opens fd s s' n (e ∙ g)

  -- Setting a mode closes nothing.
  bool_fcntl_option-is_open :
      (fd : ℕ) (enable : Bool) (w : Sockets k) (other : ℕ)
      → table.is_open other (bool_fcntl_option fd enable w).0.state ≡ table.is_open other w.state
  unfolding bool_fcntl_option
  bool_fcntl_option-is_open fd enable w other =
      of_get (k.get_flags fd w.state) ∙ table.get_flags_keeps other fd w.state
    where
      of_set :
          (r : k.State × Bool)
          → table.is_open other (with_flags fd enable w r).0.state ≡ table.is_open other r.0
      of_set (s, false) = unfold with_flags in refl
      of_set (s, true) = unfold with_flags in refl

      of_get :
          (r : k.State × Bool)
          → table.is_open other (setting fd enable w r).0.state ≡ table.is_open other r.0
      of_get (s, false) = unfold setting in refl
      of_get (s, true) =
          unfold setting in
          of_set (k.set_flags fd enable s) ∙ table.set_flags_keeps other fd enable s

  -- A call accepts nothing.
  abbrev Kept : {A : Type 0} → Sockets k → Sockets k × Outcome CallFailure A → Type 0
  Kept w m = m.0.accepted ≡ w.accepted

  bool_fcntl_option-Kept :
      (fd : ℕ) (enable : Bool) (w : Sockets k) → Kept w (bool_fcntl_option fd enable w)
  unfolding bool_fcntl_option
  bool_fcntl_option-Kept fd enable w = of_get (k.get_flags fd w.state)
    where
      of_set : (r : k.State × Bool) → Kept w (with_flags fd enable w r)
      of_set (s, false) = unfold with_flags in refl
      of_set (s, true) = unfold with_flags in refl

      of_get : (r : k.State × Bool) → Kept w (setting fd enable w r)
      of_get (s, false) = unfold setting in refl
      of_get (s, true) = unfold setting in of_set (k.set_flags fd enable s)

  replied-Kept : (w : Sockets k) (r : k.State × SystemReply) → Kept w (replied w r)
  unfolding replied
  replied-Kept w (s, interrupted) = refl
  replied-Kept w (s, failed e) = refl
  replied-Kept w (s, done n) = refl

  not_timed_out-Kept : (w : Sockets k) (n : ℕ) → Kept w (not_timed_out w n)
  unfolding not_timed_out
  not_timed_out-Kept w zero = refl
  not_timed_out-Kept w (suc n) = refl

  -- A descriptor that was accepted is given out open and in blocking mode. None is accepted when an
  -- exception is thrown, but for one, which is open then.
  abbrev pub AcceptResult : Sockets k → Sockets k × Outcome CallFailure ℕ → Type 0
  AcceptResult w (w', ok fd) =
      (w'.accepted ≡ fd ∷ w.accepted)
      × (w'.nonblocking fd ≡ false)
      × (table.is_open fd w'.state ≡ true)
  AcceptResult w (w', throws e) =
      (w'.accepted ≡ w.accepted)
      ⊎ ((fd : ℕ) × (w'.accepted ≡ fd ∷ w.accepted)
          × (table.is_open fd w'.state ≡ true)
          × (e ≡ option_failed))

  and_then-AcceptResult :
      {A : Type 0} (w : Sockets k) (m : Sockets k × Outcome CallFailure A)
      (next : Sockets k → A → Sockets k × Outcome CallFailure ℕ)
      → Kept w m
      → ((w1 : Sockets k) (a : A) → w1.accepted ≡ w.accepted → AcceptResult w (next w1 a))
      → AcceptResult w (and_then m next)
  unfolding and_then
  and_then-AcceptResult w (w1, ok a) next h after = after w1 a h
  and_then-AcceptResult w (w1, throws e) next h after = inl h

  -- The end of `my_accept`, behind the accept.
  made_blocking-AcceptResult :
      (w w4 : Sockets k) (fd : ℕ) (m : Sockets k × Outcome CallFailure (Unit {0}))
      → w4.accepted ≡ fd ∷ w.accepted
      → Kept w4 m
      → table.is_open fd m.0.state ≡ true
      → ((w5 : Sockets k) → m ≡ (w5, ok tt) → w5.nonblocking fd ≡ false)
      → ((e : CallFailure) → m.1 ≡ throws e → e ≡ option_failed)
      → AcceptResult w (and_then m (λ w5 _. (w5, ok fd)))
  unfolding and_then
  made_blocking-AcceptResult w w4 fd (w5, ok tt) e kept stays blocking only =
      (kept ∙ e, blocking w5 refl, stays)
  made_blocking-AcceptResult w w4 fd (w5, throws x) e kept stays blocking only =
      inr (fd, kept ∙ e, stays, only x refl)

  bool_fcntl_option_throws :
      (fd : ℕ) (enable : Bool) (w : Sockets k) (x : CallFailure)
      → (bool_fcntl_option fd enable w).1 ≡ throws x
      → x ≡ option_failed
  unfolding bool_fcntl_option
  bool_fcntl_option_throws fd enable w x h = of_get (k.get_flags fd w.state) h
    where
      of_set : (r : k.State × Bool) → (with_flags fd enable w r).1 ≡ throws x → x ≡ option_failed
      of_set (s, false) e = unfold with_flags in cc e
      of_set (s, true) e = unfold with_flags in absurd (cc e)

      of_get : (r : k.State × Bool) → (setting fd enable w r).1 ≡ throws x → x ≡ option_failed
      of_get (s, false) e = unfold setting in cc e
      of_get (s, true) e = unfold setting in of_set (k.set_flags fd enable s) e

  -- What stands behind the accept that was waited for.
  accepted_as-AcceptResult :
      (w w3 : Sockets k) (r : k.State × SystemReply)
      → w3.accepted ≡ w.accepted
      → ((n : ℕ) → r.1 ≡ done n → table.is_open n r.0 ≡ true)
      → AcceptResult w (
          and_then
            (accepted_as w3 r)
            (λ w4 ret. and_then (bool_fcntl_option ret false w4) (λ w5 _. (w5, ok ret))))
  unfolding accepted_as replied
  accepted_as-AcceptResult w w3 (s, interrupted) e opens = unfold and_then in inl e
  accepted_as-AcceptResult w w3 (s, failed x) e opens = unfold and_then in inl e
  accepted_as-AcceptResult w w3 (s, done fd) e opens =
      let w4 : Sockets k = record w3 { state = s; accepted = fd ∷ w3.accepted } in
      unfold and_then in
      made_blocking-AcceptResult w w4 fd (bool_fcntl_option fd false w4) (ap (λ l. fd ∷ l) e)
        (bool_fcntl_option-Kept fd false w4)
        (bool_fcntl_option-is_open fd false w4 fd ∙ opens fd refl)
        (λ w5 h.
          ap (λ f. f fd) (bool_fcntl_option-mode_set fd false w4 w5 h) ∙ set_here fd false w4)
        (bool_fcntl_option_throws fd false w4)

  -- Where `accept` gives an open descriptor and `fcntl` closes none, `my_accept` with a timeout gives out
  -- the descriptor that it has accepted, open and in blocking mode. When it throws it has accepted none,
  -- unless it throws because setting a mode failed: then it may have accepted one descriptor, which is
  -- still open.
  pub my_accept-AcceptResult :
      (rounds fd timeout : ℕ) (w : Sockets k)
      → AcceptResult w (my_accept rounds fd (some timeout) w)
  unfolding my_accept accept_one poll_one
  my_accept-AcceptResult rounds fd timeout w =
      and_then-AcceptResult w (bool_fcntl_option fd true w) _ (bool_fcntl_option-Kept fd true w)
        λ w1 u e1.
          and_then-AcceptResult w (poll_one rounds fd timeout w1) _
            (replied-Kept w1 (repeat rounds (k.poll fd timeout) w1.state) ∙ e1)
            λ w2 polled e2.
              and_then-AcceptResult w (not_timed_out w2 polled) _
                (not_timed_out-Kept w2 polled ∙ e2)
                λ w3 v e3.
                  accepted_as-AcceptResult w w3 (repeat rounds (k.accept fd) w3.state) e3 λ n e4.
                    repeat-opens rounds fd w3.state (repeat rounds (k.accept fd) w3.state).0 n
                      (ap (λ reply. ((repeat rounds (k.accept fd) w3.state).0, reply)) e4)
