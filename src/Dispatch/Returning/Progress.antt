-- ===== src/Dispatch/Returning/Progress.antt =====
-- A caller of dispatch_returning of include/nanonet/dispatch.h does not wait for ever: the workers can
-- always bring its task to an end.
use nanonet.Dispatch.Returning.Draining.{left, comes_to_rest, busy-runs, turns_of}
use nanonet.Common.{
  ℕ, ◌<◌, ◌≡◌, refl, sym, ap, ◌∙◌, arith, true, false, ◌==◌, some, List, [], ◌∷◌, ◌++◌, map, length,
  Outcome, Bool-cases, inl, inr, Option-cases, ltb, count, append-nil, nil_of_length, ok, ℤ,
  ==_refl, count-append, throws,
}
use nanonet.Dispatch.{
  ThreadPool, work, Event, given, turn, run, dispatch, thread_pool, tasks_of, PoolError,
}
use nanonet.Dispatch.Workers.{weight}
use nanonet.Dispatch.Shutdown.{IsOrdered, work_keeps}
use nanonet.Dispatch.Shutdown.Calls.{dispatch-IsOrdered, run-IsOrdered}
use nanonet.Dispatch.Returning.{runs, has_finished, dispatch_returning, future_value, waiting_for}
use nanonet.Dispatch.Returning.Finished.{queued, run-thread_pool}

module _ {E : Type 0} (call : ℕ → Outcome E (Unit {0})) where
  run-append :
      (first second : List (Event ℕ)) (p : ThreadPool ℕ)
      → run call (first ++ second) p ≡ run call second (run call first p)
  unfolding run
  run-append [] second p = refl
  run-append (given t ∷ first) second p = run-append first second (dispatch call p t).0
  run-append (turn i ∷ first) second p = run-append first second (work i p)

  dispatch-workers : (p : ThreadPool ℕ) (t : ℕ) → (dispatch call p t).0.workers ≡ p.workers
  unfolding dispatch
  dispatch-workers p t = elim (Option-cases p.tasks) [
    | inl moved ↦ rw moved refl
    | inr (queue, here) ↦ elim (Bool-cases (ltb 0 (length p.workers))) [
      | inl some_workers ↦ rw (here, some_workers) refl
      | inr no_workers ↦ rw (here, no_workers) refl
    ]
  ]

  run-length :
      (events : List (Event ℕ)) (p : ThreadPool ℕ)
      → length (run call events p).workers ≡ length p.workers
  unfolding run
  run-length [] p = refl
  run-length (given t ∷ events) p =
      run-length events (dispatch call p t).0 ∙ ap length (dispatch-workers p t)
  run-length (turn i ∷ events) p = run-length events (work i p) ∙ (work_keeps 0 i p).1

  -- A task that was dispatched has finished in a pool at rest.
  rest-has_finished :
      (t : ℕ) (p : ThreadPool ℕ)
      → IsOrdered 0 0 p
      → left p ≡ 0
      → 0 < count t p.dispatched
      → has_finished t p ≡ true
  unfolding left has_finished
  rest-has_finished t p o rest there =
      let nothing : weight o.queue p.workers ≡ 0 = rw o.tasks_are at rest in
      let gone : o.queue ≡ [] = nil_of_length o.queue (omega (arith, nothing)) in
      let none_pending : o.pending ≡ [] = sym (queued p o).0 ∙ ap (map (λ e. e.0)) gone in
      let all : count t p.dispatched ≡ count t p.taken =
        ap (count t) (o.in_order ∙ ap (λ l. p.taken ++ l) none_pending ∙ append-nil p.taken) in
      let idle : runs t p.workers ≡ false = busy-runs t p.workers (omega (arith, nothing)) in
      let begun : ltb 0 (count t p.taken) ≡ true = ground (arith, all, there) in
      rw (begun, idle) refl

  dispatch_ok :
      (p : ThreadPool ℕ) (t : ℕ)
      → IsOrdered 0 0 p
      → 0 < length p.workers
      → (dispatch call p t).1 ≡ ok tt
  unfolding dispatch
  dispatch_ok p t o some_workers =
      let there : ltb 0 (length p.workers) ≡ true = ground (arith, some_workers) in
      rw (o.tasks_are, there) refl

  brings_to_end :
      (p : ThreadPool ℕ) (t : ℕ) (events : List (Event ℕ))
      → IsOrdered 0 0 p
      → 0 < length p.workers
      → (turns : List ℕ) × (has_finished t
            (run call (events ++ turns_of turns) (dispatch call p t).0)
          ≡ true)
  brings_to_end p t events o some_workers =
      let first = (dispatch call p t).0 in
      let (dispatched, more) = dispatch-IsOrdered 0 call p t o in
      let (ordered, all) = run-IsOrdered 0 call events first dispatched in
      let sized = run-length events first ∙ ap length (dispatch-workers p t) in
      let (turns, rest, last, same) =
        comes_to_rest call (left (run call events first)) (run call events first) ordered
          (omega (arith, sized, some_workers)) (omega arith) in
      let one : count t (t ∷ []) ≡ 1 = rw (==_refl t) (omega arith) in
      let there : 0 < count t (run call (turns_of turns) (run call events first)).dispatched =
        omega (
          arith,
          one,
          ap (count t) (same ∙ all ∙ ap (λ l. l ++ tasks_of events) more)
              ∙ count-append t (p.dispatched ++ t ∷ []) (tasks_of events),
          count-append t p.dispatched (t ∷ []),
        ) in
      (turns, rw (run-append events (turns_of turns) first) (rest-has_finished t _ last rest there))

  module _ {T : Type 0} (invoke : ℕ → Outcome E T) (default : T) where
    waits-returns :
        (t : ℕ) (events : List (Event ℕ)) (q : ThreadPool ℕ × Outcome (PoolError E) (Unit {0}))
        → q.1 ≡ ok tt
        → has_finished t (run call events q.0) ≡ true
        → (waiting_for invoke default call t events q).1
          ≡ ok (some (future_value default (invoke t)))
    waits-returns t events (q, throws e) h finished = absurd (cc h)
    waits-returns t events (q, ok u) h finished = rw finished refl

    -- Whatever happened since a call of dispatch_returning by a thread that is no worker of the
    -- pool, there are turns of the workers after which it returns, with the value of the task or the
    -- default one: no state is reached in which the caller waits in vain.
    pub dispatch_returning-returns :
        (n : ℤ) (p : ThreadPool ℕ) (t : ℕ) (before events : List (Event ℕ))
        → thread_pool {E = E} n ≡ ok p
        → (turns : List ℕ) × ((dispatch_returning invoke default call
              (run call before p)
              t
              (events ++ turns_of turns)).1
            ≡ ok (some (future_value default (invoke t))))
    unfolding dispatch_returning
    dispatch_returning-returns n p t before events made =
        let q = run call before p in
        let (o, _) = run-thread_pool call n p before made in
        elim (Bool-cases (length q.workers == 0)) [
          | inl alone ↦ ([], rw alone refl)
          | inr some_workers ↦
              let some_there : 0 < length q.workers = ground (arith, some_workers) in
              let (turns, finished) = brings_to_end q t events o some_there in
              (
                turns,
                rw some_workers (
                    waits-returns t (events ++ turns_of turns) (dispatch call q t)
                      (dispatch_ok q t o some_there) finished),
              )
        ]
