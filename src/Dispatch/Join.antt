-- ===== src/Dispatch/Join.antt =====
-- What holds when the destructor of dispatch.cpp has joined its workers, and that they come to it.
use nanonet.Common.{
  ℕ, zero, suc, ◌≡◌, refl, sym, ap, ◌≤◌, ◌∙◌, arith, some, List, [], ◌∷◌, ◌++◌, append-nil, length,
  ◌⊎◌, inl, inr, Outcome, ok, ℤ, pos, negsuc, replicate,
}
use nanonet.Dispatch.{
  Worker, polling, TaskAndContinue, ThreadPool, thread_pool, work, close, Event, run, tasks_of,
  join,
}
use nanonet.Dispatch.Begun.{total, held, joined-IsBegun, held-live}
use nanonet.Dispatch.Workers.{live, CanMove, live-CanMove}
use nanonet.Dispatch.Shutdown.{IsOrdered, waiting_nothing, work-IsOrdered, work_keeps}
use nanonet.Dispatch.Shutdown.Calls.{run-IsOrdered, close-IsOrdered}

module _ {Task : Type 0} (empty : Task) where
  join-IsOrdered :
      (total : ℕ) (turns : List ℕ) (p : ThreadPool Task)
      → IsOrdered empty total p
      → IsOrdered empty total (join turns p)
        × ((join turns p).dispatched ≡ p.dispatched)
        × (length (join turns p).workers ≡ length p.workers)
  unfolding join
  join-IsOrdered total [] p o = (o, refl, refl)
  join-IsOrdered total (i ∷ turns) p o =
      let (kept, same, workers) =
        join-IsOrdered total turns (work i p) (work-IsOrdered empty total i p o) in
      let (dispatched, length_same) = work_keeps empty i p in
      (kept, same ∙ dispatched, workers ∙ length_same)

  abbrev fresh : ℕ → ThreadPool Task
  fresh n = record {
    tasks = some [];
    workers = replicate n polling;
    dispatched = [];
    taken = [];
    begun = [];
  }

  live-polling :
      (n : ℕ)
      → live {Task = Task} (replicate n polling) ≡ length {A = Worker Task} (replicate n polling)
  live-polling zero = refl
  live-polling (suc n) = omega (arith, live-polling n)

  module _ {E : Type 0} (call : Task → Outcome E (Unit {0})) where
    pub thread_pool-IsOrdered :
        (n : ℤ) (p : ThreadPool Task)
        → thread_pool {E = E} n ≡ ok p
        → IsOrdered empty 0 p × (p.dispatched ≡ [])
    unfolding thread_pool
    thread_pool-IsOrdered (negsuc n) p e = absurd (cc e)
    thread_pool-IsOrdered (pos n) p e =
        let made : fresh n ≡ p = cc e in
        rw (sym made) (
          record {
            queue = [];
            pending = [];
            stops = 0;
            tasks_are = refl;
            queue_is = refl;
            in_order = refl;
            counted = omega (arith, live-polling n);
            tasks_first = inl refl;
            direct = λ h. refl;
          },
          refl,
        )

    -- From the construction of a pool through its destructor, whatever its threads do.
    joined :
        (n : ℤ) (p q : ThreadPool Task) (events : List (Event Task)) (turns : List ℕ)
        → thread_pool {E = E} n ≡ ok p
        → join turns (close empty (run call events p)) ≡ q
        → IsOrdered empty (length q.workers) q × (q.dispatched ≡ tasks_of events)
    joined n p q events turns made e =
        let (ordered, fresh) = thread_pool-IsOrdered n p made in
        let (ran, given) = run-IsOrdered empty call events p ordered in
        let (closed, closed_same, closed_length) = close-IsOrdered empty (run call events p) ran in
        let (kept, same, kept_length) =
          join-IsOrdered (length (run call events p).workers) turns
            (close empty (run call events p)) closed in
        let sized : length q.workers ≡ length (run call events p).workers =
          ap (λ r. length r.workers) (sym e) ∙ kept_length ∙ closed_length in
        (
          rw (sized, sym e) kept,
          ap (λ r. r.dispatched) (sym e)
              ∙ same
              ∙ closed_same
              ∙ given
              ∙ ap (λ l. l ++ tasks_of events) fresh,
        )

    -- When the destructor has joined its workers, all of which have stopped, then the tasks that were
    -- dispatched, and no others, have been taken from the queue, each once and in the order of the
    -- calls, and the queue is empty. The calls of the same tasks have been begun, each once, so that any
    -- measure of the tasks adds up to the same; with at most one worker, also in the same order. The pool
    -- was constructed with any number of workers, `dispatch` and the workers have taken their turns in any
    -- order, and a worker that has taken a task may be overtaken before it begins to call it.
    pub join-begun :
        (n : ℤ) (p q : ThreadPool Task) (events : List (Event Task)) (turns : List ℕ)
        → thread_pool {E = E} n ≡ ok p
        → join turns (close empty (run call events p)) ≡ q
        → live q.workers ≡ 0
        → (q.taken ≡ tasks_of events)
          × (q.tasks ≡ some [])
          × ((f : Task → ℕ) → total f q.begun ≡ total f (tasks_of events))
          × (length q.workers ≤ 1 → q.begun ≡ tasks_of events)
    join-begun n p q events turns made e all_stopped =
        let (o, given) = joined n p q events turns made e in
        let no_stops : o.stops ≡ 0 = omega (arith, o.counted) in
        let nothing : o.pending ≡ [] = all_taken o in
        let b = joined-IsBegun call empty n p q events turns made e in
        let none_held : held q.workers ≡ [] = held-live q.workers all_stopped in
        let in_order : q.taken ≡ tasks_of events =
          sym (append-nil q.taken)
          ∙ ap (λ l. q.taken ++ l) (sym nothing)
          ∙ sym o.in_order
          ∙ given in
        (
          in_order,
          o.tasks_are ∙ ap some (o.queue_is ∙ rw (nothing, no_stops) refl),
          λ f. omega (arith, b.same f, ap (total f) none_held, ap (total f) in_order),
          λ few.
              sym (append-nil q.begun)
              ∙ ap (λ l. q.begun ++ l) (sym none_held)
              ∙ b.in_order few
              ∙ in_order,
        )
      where
        all_taken : (o : IsOrdered empty (length q.workers) q) → o.pending ≡ []
        all_taken o = elim o.tasks_first [
          | inl nothing ↦ nothing
          | inr none ↦
              (waiting_nothing empty o.pending o.stops (sym o.queue_is ∙ o.direct (omega arith))).0
        ]

    -- While the destructor joins its workers, either all of them have stopped, or some worker can
    -- take a step that leaves less to do.
    pub join-CanMove :
        (n : ℤ) (p q : ThreadPool Task) (events : List (Event Task)) (turns : List ℕ)
        → thread_pool {E = E} n ≡ ok p
        → join turns (close empty (run call events p)) ≡ q
        → (live q.workers ≡ 0)
          ⊎ ((queue : List (TaskAndContinue Task)) × (q.tasks ≡ some queue)
              × CanMove queue q.workers)
    join-CanMove n p q events turns made e =
        let (o, given) = joined n p q events turns made e in
        elim (live-CanMove q.workers o.queue) [
          | inl none ↦ inl none
          | inr (inr move) ↦ inr (o.queue, o.tasks_are, move)
          | inr (inl nothing) ↦
              let (_, no_stops) =
                waiting_nothing empty o.pending o.stops (sym o.queue_is ∙ nothing) in
              inl (omega (arith, o.counted, no_stops))
        ]
