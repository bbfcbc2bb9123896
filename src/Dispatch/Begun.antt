-- ===== src/Dispatch/Begun.antt =====
-- Which tasks the workers of dispatch.cpp have begun, when other threads may overtake one that has taken
-- a task from the queue.
use nanonet.Common.{
  ℕ, zero, suc, ◌+◌, ◌≤◌, ◌≡◌, refl, sym, ap, ◌∙◌, arith, true, false, List, [], ◌∷◌, ◌++◌,
  append_assoc, append-nil, length, replicate, inl, inr, Outcome, ok, ltb, Bool-cases, Option-cases,
  nil_of_length, ℤ, pos, negsuc, some,
}
use nanonet.Dispatch.{
  Worker, polling, stopped, holding, running, TaskAndContinue, ThreadPool, poll, poll_at, begins,
  begins_at, dispatch, work, close, Event, given, turn, run, join, thread_pool,
}
use nanonet.Dispatch.Workers.{poll_at-Step, live}
use mathlib.Core.Path.{subst}

module _ {Task : Type 0} where
  -- A measure of tasks over a list of them.
  abbrev pub total : (Task → ℕ) → List Task → ℕ
  total f [] = 0
  total f (t ∷ ts) = f t + total f ts

  pub total-append :
      (f : Task → ℕ) (ts us : List Task) → total f (ts ++ us) ≡ total f ts + total f us
  total-append f [] us = omega arith
  total-append f (t ∷ ts) us = omega (arith, total-append f ts us)

  -- The tasks that were taken and are not begun.
  abbrev pub held : List (Worker Task) → List Task
  held [] = []
  held (w ∷ ws) = begins w ++ held ws

  -- What was taken was begun or is held: by any measure, and with one worker in the same order.
  pub record IsBegun (p : ThreadPool Task) : Type 0 where
    pub same : (f : Task → ℕ) → total f p.begun + total f (held p.workers) ≡ total f p.taken
    pub in_order : length p.workers ≤ 1 → p.begun ++ held p.workers ≡ p.taken

  poll-held :
      (w : Worker Task) (queue : List (TaskAndContinue Task))
      → let (next, rest, popped) = poll w queue in begins w ++ begins next ≡ begins w ++ popped
  unfolding poll
  poll-held stopped queue = refl
  poll-held (holding t) queue = refl
  poll-held (running t) queue = refl
  poll-held polling [] = refl
  poll-held polling ((t, true) ∷ queue) = refl
  poll-held polling ((t, false) ∷ queue) = refl

  poll_at-total :
      (f : Task → ℕ) (i : ℕ) (ws : List (Worker Task)) (queue : List (TaskAndContinue Task))
      → let (next, rest, popped) = poll_at i ws queue in
        total f (begins_at i ws) + total f (held next) ≡ total f (held ws) + total f popped
  unfolding poll_at
  poll_at-total f i [] queue = refl
  poll_at-total f zero (w ∷ ws) queue =
      let (next, rest, popped) = poll w queue in
      omega (
        arith,
        total-append f (begins w) (held ws),
        total-append f (begins (poll w queue).0) (held ws),
        ap (total f) (poll-held w queue),
        total-append f (begins w) (begins (poll w queue).0),
        total-append f (begins w) ((poll w queue).2),
      )
  poll_at-total f (suc i) (w ∷ ws) queue = omega (
    arith,
    total-append f (begins w) (held ws),
    total-append f (begins w) (held (poll_at i ws queue).0),
    poll_at-total f i ws queue,
  )

  poll_at-one :
      (i : ℕ) (ws : List (Worker Task)) (queue : List (TaskAndContinue Task))
      → length ws ≤ 1
      → let (next, rest, popped) = poll_at i ws queue in
        begins_at i ws ++ held next ≡ held ws ++ popped
  unfolding poll_at
  poll_at-one i [] queue h = refl
  poll_at-one zero (w ∷ []) queue h =
      ap (λ l. begins w ++ l) (append-nil (begins (poll w queue).0))
      ∙ poll-held w queue
      ∙ ap (λ l. l ++ (poll w queue).2) (sym (append-nil (begins w)))
  poll_at-one (suc i) (w ∷ []) queue h = sym (append-nil (begins w ++ []))
  poll_at-one i (w ∷ v ∷ ws) queue h = absurd (omega (arith, h))

  pub work-IsBegun : (i : ℕ) (p : ThreadPool Task) → IsBegun p → IsBegun (work i p)
  unfolding work
  work-IsBegun i p b = elim (Option-cases p.tasks) [
    | inl moved ↦ rw moved (record { same = b.same; in_order = b.in_order })
    | inr (queue, e) ↦ rw e (record {
      same = λ f. omega (
        arith,
        b.same f,
        total-append f p.begun (begins_at i p.workers),
        total-append f p.taken ((poll_at i p.workers queue).2),
        poll_at-total f i p.workers queue,
      );
      in_order = λ h.
          let few : length p.workers ≤ 1 = omega (arith, h, poll_at-length i p.workers queue) in
          append_assoc p.begun (begins_at i p.workers) (held (poll_at i p.workers queue).0)
          ∙ ap (λ l. p.begun ++ l) (poll_at-one i p.workers queue few)
          ∙ sym (append_assoc p.begun (held p.workers) ((poll_at i p.workers queue).2))
          ∙ ap (λ l. l ++ (poll_at i p.workers queue).2) (b.in_order few);
    })
  ]
    where
      poll_at-length :
          (i : ℕ) (ws : List (Worker Task)) (queue : List (TaskAndContinue Task))
          → length (poll_at i ws queue).0 ≡ length ws
      poll_at-length i ws queue = (poll_at-Step i ws queue).1

  held-polling : (n : ℕ) → held (replicate n polling) ≡ []
  held-polling zero = refl
  held-polling (suc n) = held-polling n

  module _ {E : Type 0} (call : Task → Outcome E (Unit {0})) where
    pub thread_pool-IsBegun :
        (n : ℤ) (p : ThreadPool Task) → thread_pool {E = E} n ≡ ok p → IsBegun p
    unfolding thread_pool
    thread_pool-IsBegun (negsuc n) p e = absurd (cc e)
    thread_pool-IsBegun (pos n) p e =
        let fresh : ThreadPool Task = record {
          tasks = some [];
          workers = replicate n polling;
          dispatched = [];
          taken = [];
          begun = [];
        } in
        let made : fresh ≡ p = cc e in
        subst IsBegun made (record {
          same = λ f. omega (arith, ap (total f) (held-polling n));
          in_order = λ h. held-polling n;
        })

    pub dispatch-IsBegun :
        (p : ThreadPool Task) (t : Task) → IsBegun p → IsBegun (dispatch call p t).0
    unfolding dispatch
    dispatch-IsBegun p t b = elim (Option-cases p.tasks) [
      | inl moved ↦ rw moved (record { same = b.same; in_order = b.in_order })
      | inr (queue, e) ↦ elim (Bool-cases (ltb 0 (length p.workers))) [
        | inl some_workers ↦ rw (e, some_workers) (record { same = b.same; in_order = b.in_order })
        | inr no_workers ↦
            let none_there : p.workers ≡ [] =
              nil_of_length p.workers (ground (arith, no_workers)) in
            let nothing : held p.workers ≡ [] = ap held none_there in
            rw (e, no_workers)
              (record {
                same = λ f. omega (
                  arith,
                  b.same f,
                  ap (total f) nothing,
                  total-append f p.begun (t ∷ []),
                  total-append f p.taken (t ∷ []),
                );
                in_order = λ h.
                    ap (λ l. (p.begun ++ t ∷ []) ++ l) nothing
                    ∙ append-nil (p.begun ++ t ∷ [])
                    ∙ ap (λ l. l ++ t ∷ [])
                        (sym (append-nil p.begun)
                          ∙ ap (λ l. p.begun ++ l) (sym nothing)
                          ∙ b.in_order h);
              })
      ]
    ]

    pub run-IsBegun :
        (events : List (Event Task)) (p : ThreadPool Task) → IsBegun p → IsBegun (run call events p)
    unfolding run
    run-IsBegun [] p b = b
    run-IsBegun (turn i ∷ events) p b = run-IsBegun events (work i p) (work-IsBegun i p b)
    run-IsBegun (given t ∷ events) p b =
        run-IsBegun events (dispatch call p t).0 (dispatch-IsBegun p t b)

    close-IsBegun : (empty : Task) (p : ThreadPool Task) → IsBegun p → IsBegun (close empty p)
    unfolding close
    close-IsBegun empty p b = elim (Option-cases p.tasks) [
      | inl moved ↦ rw moved (record { same = b.same; in_order = b.in_order })
      | inr (queue, e) ↦ rw e (record { same = b.same; in_order = b.in_order })
    ]

    join-IsBegun : (turns : List ℕ) (p : ThreadPool Task) → IsBegun p → IsBegun (join turns p)
    unfolding join
    join-IsBegun [] p b = b
    join-IsBegun (i ∷ turns) p b = join-IsBegun turns (work i p) (work-IsBegun i p b)

    -- From the construction of a pool through its destructor.
    pub joined-IsBegun :
        (empty : Task) (n : ℤ) (p q : ThreadPool Task) (events : List (Event Task)) (turns : List ℕ)
        → thread_pool {E = E} n ≡ ok p
        → join turns (close empty (run call events p)) ≡ q
        → IsBegun q
    joined-IsBegun empty n p q events turns made e = subst IsBegun e (
        join-IsBegun turns (close empty (run call events p)) (
          close-IsBegun empty (run call events p)
            (run-IsBegun events p (thread_pool-IsBegun n p made))))

  -- Workers that have stopped hold nothing.
  pub held-live : (ws : List (Worker Task)) → live ws ≡ 0 → held ws ≡ []
  held-live [] e = refl
  held-live (stopped ∷ ws) e = held-live ws (omega (arith, e))
  held-live (polling ∷ ws) e = absurd (omega (arith, e))
  held-live (holding t ∷ ws) e = absurd (omega (arith, e))
  held-live (running t ∷ ws) e = absurd (omega (arith, e))
