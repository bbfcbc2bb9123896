-- ===== src/Server/Listen/Retries.antt =====
-- How often the loop of `run_server` in src/sys/server.cpp tries, and how it ends.
use nanonet.Common.{
  ℕ, zero, suc, ◌+◌, ◌≤◌, ◌<◌, ◌≡◌, refl, arith, Bool, true, false, Option, none, some, List, [],
  ◌∷◌, length, leb, leb→le, ℤ, pos, negsuc, inl, inr, Outcome, ok, throws, Bool-cases,
}
use nanonet.Server.{Thrown}
use nanonet.Server.Listen.{
  Host, Ending, not_started, started, gave_up, Parameters, try_start, retry, tried, looked,
  listen_rounds, listen,
}

module _ (host : Host) (params : Parameters) where
  open host use {State, running, sleep}

  -- From the head of the loop to its head again: each time the server was to run, and an attempt threw.
  pub data Retried : State → List Thrown → State → Type 0 where
    no_retry : {s : State} → Retried s [] s
    one_retry :
        {s s1 s2 s3 : State} {e : Thrown} {es : List Thrown}
        → running s ≡ (s1, true)
        → try_start host params s1 ≡ (s2, throws e)
        → Retried (sleep s2) es s3
        → Retried s (e ∷ es) s3

  -- So many retries are allowed, and after so many an exception ends the loop.
  abbrev pub Allowed : ℤ → ℕ → Type 0
  Allowed (pos n) retries = retries ≤ n
  Allowed (negsuc n) retries = Unit

  abbrev pub Exhausted : ℤ → ℕ → Type 0
  Exhausted (pos n) retries = retries ≡ n
  Exhausted (negsuc n) retries = ⊥

  -- The last round, from the head of the loop.
  abbrev pub Last : ℤ → State → ℕ → State × Ending → Type 0
  Last n s retries (s2, not_started) = running s ≡ (s2, false)
  Last n s retries (s2, started) =
      (s1 : State) × (running s ≡ (s1, true)) × (try_start host params s1 ≡ (s2, ok tt))
  Last n s retries (s2, gave_up e) =
      (s1 : State) × (running s ≡ (s1, true))
      × (try_start host params s1 ≡ (s2, throws e))
      × Exhausted n retries

  -- The loop from a head where it has counted some retries.
  abbrev pub LoopResult : ℤ → ℕ → ℕ → State → Option (State × Ending) → Type 0
  LoopResult n rounds count s none =
      (es : List Thrown) × (s1 : State) × Retried s es s1
      × (length es ≡ rounds)
      × Allowed n (count + length es)
  LoopResult n rounds count s (some r) =
      (es : List Thrown) × (s1 : State) × Retried s es s1
      × (length es < rounds)
      × Allowed n (count + length es)
      × Last n s1 (count + length es) r

  -- Without a limit the retries are not counted.
  abbrev Same : ℤ → ℕ → ℕ → Type 0
  Same (pos n) a b = a ≡ b
  Same (negsuc n) a b = Unit

  Same-Allowed : (n : ℤ) (a b : ℕ) → Same n a b → Allowed n a → Allowed n b
  Same-Allowed (pos n) a b same h = omega arith
  Same-Allowed (negsuc n) a b same h = tt

  Same-Exhausted : (n : ℤ) (a b : ℕ) → Same n a b → Exhausted n a → Exhausted n b
  Same-Exhausted (pos n) a b same h = omega arith
  Same-Exhausted (negsuc n) a b same h = h

  Same-Last :
      (n : ℤ) (s : State) (a b : ℕ) (r : State × Ending) → Same n a b → Last n s a r → Last n s b r
  Same-Last n s a b (s2, not_started) same h = h
  Same-Last n s a b (s2, started) same h = h
  Same-Last n s a b (s2, gave_up e) same (s1, run, failed, all) =
      (s1, run, failed, Same-Exhausted n a b same all)

  LoopResult-later :
      (n : ℤ) (rounds count count' : ℕ) (s s1 s2 : State) (e : Thrown) (o : Option (State × Ending))
      → running s ≡ (s1, true)
      → try_start host params s1 ≡ (s2, throws e)
      → ((k : ℕ) → Same n (count' + k) (count + suc k))
      → LoopResult n rounds count' (sleep s2) o
      → LoopResult n (suc rounds) count s o
  LoopResult-later n rounds count count' s s1 s2 e none run failed same (es, s3, h, l, allowed) = (
    e ∷ es,
    s3,
    one_retry run failed h,
    omega arith,
    Same-Allowed n _ _ (same (length es)) allowed,
  )
  LoopResult-later n rounds count count' s s1 s2 e (some r) run failed same
        (es, s3, h, l, allowed, last) =
      (
        e ∷ es,
        s3,
        one_retry run failed h,
        omega arith,
        Same-Allowed n _ _ (same (length es)) allowed,
        Same-Last n s3 _ _ r (same (length es)) last,
      )

  -- What is known of the recursive call.
  abbrev Recursive : ℕ → (ℕ → State → Option (State × Ending)) → Type 0
  Recursive rounds next =
      (count : ℕ) (s : State)
      → Allowed params.n_listen_retries count
      → LoopResult params.n_listen_retries rounds count s (next count s)

  ends_now :
      (n : ℤ) (rounds count : ℕ) (s : State) (r : State × Ending)
      → Allowed n count
      → Last n s count r
      → LoopResult n (suc rounds) count s (some r)
  ends_now n rounds count s r allowed last =
      let same : count + 0 ≡ count = omega arith in
      ([], s, no_retry, omega arith, rw same allowed, rw same last)

  retry-LoopResult :
      (n : ℤ) (rounds count : ℕ) (next : ℕ → State → Option (State × Ending)) (s s1 s2 : State)
      (e : Thrown)
      → running s ≡ (s1, true)
      → try_start host params s1 ≡ (s2, throws e)
      → ((count : ℕ) (s : State) → Allowed n count → LoopResult n rounds count s (next count s))
      → Allowed n count
      → LoopResult n (suc rounds) count s (retry host params next n count s2 e)
  unfolding retry
  retry-LoopResult (negsuc n) rounds count next s s1 s2 e run failed ih allowed =
      LoopResult-later (negsuc n) rounds count count s s1 s2 e _ run failed (λ k. tt)
        (ih count (sleep s2) tt)
  retry-LoopResult (pos n) rounds count next s s1 s2 e run failed ih allowed =
      elim (Bool-cases (leb (count + 1) n)) [
        | inl more ↦ rw more (
            LoopResult-later (pos n) rounds count (count + 1) s s1 s2 e _ run failed
              (λ k. omega arith) (ih (count + 1) (sleep s2) (leb→le (count + 1) n more)))
        | inr enough ↦ rw enough (
            ends_now (pos n) rounds count s (s2, gave_up e) allowed (s1, run, failed, ground arith))
      ]

  tried-LoopResult :
      (rounds count : ℕ) (next : ℕ → State → Option (State × Ending)) (s s1 : State)
      (r : State × Outcome Thrown (Unit {0}))
      → running s ≡ (s1, true)
      → try_start host params s1 ≡ r
      → Recursive rounds next
      → Allowed params.n_listen_retries count
      → LoopResult params.n_listen_retries (suc rounds) count s (tried host params next count r)
  unfolding tried
  tried-LoopResult rounds count next s s1 (s2, ok tt) run e ih allowed =
      ends_now params.n_listen_retries rounds count s (s2, started) allowed (s1, run, e)
  tried-LoopResult rounds count next s s1 (s2, throws x) run e ih allowed =
      retry-LoopResult params.n_listen_retries rounds count next s s1 s2 x run e ih allowed

  looked-LoopResult :
      (rounds count : ℕ) (next : ℕ → State → Option (State × Ending)) (s : State) (r : State × Bool)
      → running s ≡ r
      → Recursive rounds next
      → Allowed params.n_listen_retries count
      → LoopResult params.n_listen_retries (suc rounds) count s (looked host params next count r)
  unfolding looked
  looked-LoopResult rounds count next s (s1, false) e ih allowed =
      ends_now params.n_listen_retries rounds count s (s1, not_started) allowed e
  looked-LoopResult rounds count next s (s1, true) e ih allowed =
      tried-LoopResult rounds count next s s1 (try_start host params s1) e refl ih allowed

  listen_rounds-LoopResult : (rounds : ℕ) → Recursive rounds (listen_rounds host params rounds)
  unfolding listen_rounds
  listen_rounds-LoopResult zero count s allowed =
      let same : count + 0 ≡ count = omega arith in ([], s, no_retry, refl, rw same allowed)
  listen_rounds-LoopResult (suc rounds) count s allowed =
      looked-LoopResult rounds count (λ retries s'. listen_rounds host params rounds retries s') s
        (running s) refl (listen_rounds-LoopResult rounds) allowed

  none_yet : (n : ℤ) → Allowed n 0
  none_yet (pos n) = omega arith
  none_yet (negsuc n) = tt

  -- The loop of `run_server` makes attempts, asking each time first whether the server is still to run
  -- and sleeping after each that throws. It ends when the server is not to run any more; when an
  -- attempt throws nothing; or, only where a limit of 0 or more retries is given, when an attempt
  -- throws after exactly as many retries, whose exception it throws. There are never more retries
  -- than that, and without a limit it never gives up. If it has not ended in the rounds that the
  -- model gives it, each of them was a retry.
  pub listen-LoopResult :
      (rounds : ℕ) (s : State)
      → LoopResult params.n_listen_retries rounds 0 s (listen host params rounds s)
  unfolding listen
  listen-LoopResult rounds s =
      listen_rounds-LoopResult rounds 0 s (none_yet params.n_listen_retries)

  exceeded :
      (n : ℤ) (m rounds : ℕ) (s : State) (o : Option (State × Ending))
      → n ≡ pos m
      → m < rounds
      → LoopResult n rounds 0 s o
      → (r : State × Ending) × (o ≡ some r)
  exceeded (pos k) m rounds s none e h (es, s1, retried, all, allowed) =
      let same : k ≡ m = cc e in absurd (omega arith)
  exceeded (negsuc k) m rounds s none e h (es, s1, retried, all, allowed) = absurd (cc e)
  exceeded n m rounds s (some r) e h result = (r, refl)

  -- With a limit of 0 or more retries the loop of `run_server` ends, for one round more than that.
  -- What it asks and calls is assumed to return or throw.
  pub listen_ends :
      (m rounds : ℕ) (s : State)
      → params.n_listen_retries ≡ pos m
      → m < rounds
      → (r : State × Ending) × (listen host params rounds s ≡ some r)
  listen_ends m rounds s e h =
      exceeded params.n_listen_retries m rounds s (listen host params rounds s) e h
        (listen-LoopResult rounds s)
