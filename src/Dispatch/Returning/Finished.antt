-- ===== src/Dispatch/Returning/Finished.antt =====
-- When dispatch_returning of include/nanonet/dispatch.h returns, the task is over.
use mathlib.Core.Path.{subst}
use nanonet.Common.{
  ℕ, ◌<◌, ◌≡◌, refl, ap, ◌∙◌, arith, true, false, Option, none, some, List, [], ◌∷◌, ◌++◌, ◌==◌,
  length, count, count-append, map, Outcome, ok, throws, ℤ, Bool-cases, inl, inr, ==_refl,
  if◌then◌else◌,
}
use nanonet.Dispatch.{
  Worker, polling, stopped, holding, running, TaskAndContinue, ThreadPool, thread_pool, dispatch,
  Event, run, tasks_of, PoolError,
}
use nanonet.Dispatch.Begun.{
  total, held, IsBegun, run-IsBegun, dispatch-IsBegun, thread_pool-IsBegun,
}
use nanonet.Dispatch.Shutdown.{IsOrdered, waiting, live-le-length}
use nanonet.Dispatch.Shutdown.Calls.{run-IsOrdered, dispatch-IsOrdered}
use nanonet.Dispatch.Join.{thread_pool-IsOrdered}
use nanonet.Dispatch.Returning.{runs, has_finished, future_value, dispatch_returning, waiting_for}

-- A task was taken and begun once, no worker has it, and it is not in the queue.
abbrev pub IsOver : ℕ → ThreadPool ℕ → Type 0
IsOver t p =
    (count t p.taken ≡ 1)
    × (count t p.begun ≡ 1)
    × (runs t p.workers ≡ false)
    × (queue : List (TaskAndContinue ℕ)) × (p.tasks ≡ some queue)
    × (count t (map (λ e. e.0) queue) ≡ 0)

-- Before the destructor only tasks wait in the queue.
pub queued :
    (p : ThreadPool ℕ) (o : IsOrdered 0 0 p)
    → (map (λ e. e.0) o.queue ≡ o.pending) × (o.queue ≡ waiting 0 o.pending 0)
queued p o =
    let no_stops : o.stops ≡ 0 = omega (arith, o.counted, live-le-length 0 p.workers) in
    let same : o.queue ≡ waiting 0 o.pending 0 = o.queue_is ∙ ap (waiting 0 o.pending) no_stops in
    (ap (map (λ e. e.0)) same ∙ tasks o.pending, same)
  where
    tasks : (pending : List ℕ) → map (λ e. e.0) (waiting 0 pending 0) ≡ pending
    tasks [] = refl
    tasks (t ∷ pending) = ap (λ l. t ∷ l) (tasks pending)

-- How often a task is in a list, as a measure of tasks.
abbrev is_task : ℕ → ℕ → ℕ
is_task t s = if s == t then 1 else 0

count-total : (t : ℕ) (ts : List ℕ) → count t ts ≡ total (is_task t) ts
count-total t [] = refl
count-total t (s ∷ ts) = omega (arith, count-total t ts)

-- A task that no worker has is not held by one.
runs-held : (t : ℕ) (ws : List (Worker ℕ)) → runs t ws ≡ false → total (is_task t) (held ws) ≡ 0
unfolding runs
runs-held t [] e = refl
runs-held t (polling ∷ ws) e = runs-held t ws e
runs-held t (stopped ∷ ws) e = runs-held t ws e
runs-held t (running s ∷ ws) e = runs-held t ws (ground (arith, e))
runs-held t (holding s ∷ ws) e = elim (Bool-cases (s == t)) [
  | inl same ↦ absurd (cc (rw same at e))
  | inr other ↦ rw other (omega (arith, runs-held t ws (rw other at e)))
]

-- A task that was dispatched once and was taken is over when no worker has it.
pub begun-IsOver :
    (t : ℕ) (p : ThreadPool ℕ)
    → IsOrdered 0 0 p
    → IsBegun p
    → count t p.dispatched ≡ 1
    → has_finished t p ≡ true
    → IsOver t p
unfolding has_finished
begun-IsOver t p o b once finished =
    let split = ap (count t) o.in_order ∙ count-append t p.taken o.pending in
    let taken : 0 < count t p.taken = ground (arith, finished) in
    let no_worker : runs t p.workers ≡ false = ground (arith, finished) in
    (
      omega (arith, once, split, taken),
      omega (
        arith,
        once,
        split,
        taken,
        count-total t p.begun,
        count-total t p.taken,
        b.same (is_task t),
        runs-held t p.workers no_worker,
      ),
      no_worker,
      o.queue,
      o.tasks_are,
      ap (count t) ((queued p o).0) ∙ omega (arith, once, split, taken),
    )

module _ {E : Type 0} (call : ℕ → Outcome E (Unit {0})) where
  -- A pool that was constructed and is not destroyed yet.
  pub run-thread_pool :
      (n : ℤ) (p : ThreadPool ℕ) (events : List (Event ℕ))
      → thread_pool {E = E} n ≡ ok p
      → IsOrdered 0 0 (run call events p) × ((run call events p).dispatched ≡ tasks_of events)
  run-thread_pool n p events made =
      let (ordered, fresh) = thread_pool-IsOrdered 0 call n p made in
      let (ran, given) = run-IsOrdered 0 call events p ordered in
      (ran, given ∙ ap (λ l. l ++ tasks_of events) fresh)

  -- Without workers, the task is run in the calling thread.
  direct-IsOver :
      (p : ThreadPool ℕ) (t : ℕ)
      → IsOrdered 0 0 p
      → IsBegun p
      → count t p.dispatched ≡ 0
      → length p.workers ≡ 0
      → IsOver t (record p {
        dispatched = p.dispatched ++ t ∷ [];
        taken = p.taken ++ t ∷ [];
        begun = p.begun ++ t ∷ [];
      })
  direct-IsOver p t o b new alone =
      let split = ap (count t) o.in_order ∙ count-append t p.taken o.pending in
      let one : count t (t ∷ []) ≡ 1 = rw (==_refl t) (omega arith) in
      (
        count-append t p.taken (t ∷ []) ∙ omega (arith, new, split, one),
        count-append t p.begun (t ∷ [])
            ∙ omega (
              arith,
              new,
              split,
              one,
              count-total t p.begun,
              count-total t p.taken,
              b.same (is_task t),
            ),
        no_worker p.workers alone,
        o.queue,
        o.tasks_are,
        ap (λ q. count t (map (λ e. e.0) q)) (o.direct alone),
      )
    where
      no_worker : (ws : List (Worker ℕ)) → length ws ≡ 0 → runs t ws ≡ false
      no_worker [] e = unfold runs in refl
      no_worker (w ∷ ws) e = absurd (omega (arith, e))

  -- The task is the new one, and other threads dispatch others.
  waited-IsOver :
      (p : ThreadPool ℕ) (t : ℕ) (events : List (Event ℕ))
      → IsOrdered 0 0 p
      → IsBegun p
      → count t p.dispatched ≡ 0
      → count t (tasks_of events) ≡ 0
      → has_finished t (run call events (dispatch call p t).0) ≡ true
      → IsOver t (run call events (dispatch call p t).0)
  waited-IsOver p t events o b new others finished =
      let (given, more) = dispatch-IsOrdered 0 call p t o in
      let (ordered, all) = run-IsOrdered 0 call events (dispatch call p t).0 given in
      let one : count t (t ∷ []) ≡ 1 = rw (==_refl t) (omega arith) in
      begun-IsOver t _ ordered
        (run-IsBegun call events (dispatch call p t).0 (dispatch-IsBegun call p t b))
        (ap (count t) all
          ∙ count-append t (dispatch call p t).0.dispatched (tasks_of events)
          ∙ omega
              (arith, others, one, new, ap (count t) more ∙ count-append t p.dispatched (t ∷ [])))
        finished

  value_of_cases :
      {T : Type 0} (default : T) (o : Outcome E T)
      → ((v : T) → o ≡ ok v → future_value default o ≡ (v, none))
        × ((e : E) → o ≡ throws e → future_value default o ≡ (default, some e))
  unfolding future_value
  value_of_cases default o = (λ v h. rw h refl, λ e h. rw h refl)

  module _ {T : Type 0} (invoke : ℕ → Outcome E T) (default : T) where
    waited :
        (t : ℕ) (events : List (Event ℕ)) (q : ThreadPool ℕ × Outcome (PoolError E) (Unit {0}))
        (p' : ThreadPool ℕ) (r : T × Option E)
        → waiting_for invoke default call t events q ≡ (p', ok (some r))
        → (has_finished t (run call events q.0) ≡ true)
          × (p' ≡ run call events q.0)
          × (r ≡ future_value default (invoke t))
    waited t events (q, throws x) p' r e = absurd (cc e)
    waited t events (q, ok u) p' r e = elim (Bool-cases (has_finished t (run call events q))) [
      | inl finished ↦ (finished, cc (rw finished at e), cc (rw finished at e))
      | inr not_yet ↦ absurd (cc (rw not_yet at e))
    ]

    returned :
        (p p' : ThreadPool ℕ) (t : ℕ) (events : List (Event ℕ)) (r : T × Option E)
        → IsOrdered 0 0 p
        → IsBegun p
        → count t p.dispatched ≡ 0
        → count t (tasks_of events) ≡ 0
        → dispatch_returning invoke default call p t events ≡ (p', ok (some r))
        → (r ≡ future_value default (invoke t)) × IsOver t p'
    unfolding dispatch_returning
    returned p p' t events r o b new others e = elim (Bool-cases (length p.workers == 0)) [
      | inl alone ↦
          let is = rw alone at e in
          (
            cc is,
            subst (IsOver t) (ap (λ q. q.0) is) (direct-IsOver p t o b new (ground (arith, alone))),
          )
      | inr some_workers ↦
          let (finished, is, value) =
            waited t events (dispatch call p t) p' r (rw some_workers at e) in
          (value, rw is (waited-IsOver p t events o b new others finished))
    ]

    -- When dispatch_returning returns, the task was taken and begun once, is not in the queue and no
    -- worker has it, so that nothing refers to it any more. It has given its value; if it threw
    -- an exception, that is logged and the value is the default one. The pool was constructed
    -- with any number of workers, was given other tasks before and is given others meanwhile,
    -- none with the number of this one, and its workers take their turns in any order.
    pub dispatch_returning-IsOver :
        (n : ℤ) (p p' : ThreadPool ℕ) (t : ℕ) (before events : List (Event ℕ)) (r : T × Option E)
        → thread_pool {E = E} n ≡ ok p
        → count t (tasks_of before) ≡ 0
        → count t (tasks_of events) ≡ 0
        → dispatch_returning invoke default call (run call before p) t events ≡ (p', ok (some r))
        → ((v : T) → invoke t ≡ ok v → r ≡ (v, none))
          × ((e : E) → invoke t ≡ throws e → r ≡ (default, some e))
          × IsOver t p'
    dispatch_returning-IsOver n p p' t before events r made new others e =
        let (ordered, given) = run-thread_pool n p before made in
        let (value, over) =
          returned (run call before p) p' t events r ordered
            (run-IsBegun call before p (thread_pool-IsBegun call n p made))
            (ap (count t) given ∙ new) others e in
        let (gives, fails) = value_of_cases default (invoke t) in
        (λ v h. value ∙ gives v h, λ x h. value ∙ fails x h, over)
