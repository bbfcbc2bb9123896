-- ===== src/Dispatch/Shutdown.antt =====
-- The end of a thread pool of dispatch.cpp: the destructor waits for its workers, which stop only
-- when every task has been taken from the queue.
pub mod Calls
use nanonet.Common.{
  ℕ, zero, suc, ◌+◌, ◌≤◌, ◌≡◌, refl, sym, ap, ◌∙◌, arith, true, false, some, List, [], ◌∷◌, ◌++◌,
  append_assoc, length, replicate, ◌⊎◌, inl, inr, Option-cases,
}
use nanonet.Dispatch.{
  Worker, polling, stopped, holding, running, TaskAndContinue, ThreadPool, poll_at, work,
}
use nanonet.Dispatch.Workers.{Polled, idle, begins, ends, live, poll_at-Step}

module _ {Task : Type 0} (empty : Task) where
  -- The tasks that wait, and behind them the entries that stop a worker.
  abbrev pub waiting : List Task → ℕ → List (TaskAndContinue Task)
  waiting [] stops = replicate stops (empty, false)
  waiting (t ∷ ts) stops = (t, true) ∷ waiting ts stops

  -- `total` is the number of stopping entries that the destructor has made.
  pub record IsOrdered (total : ℕ) (p : ThreadPool Task) : Type 0 where
    pub queue : List (TaskAndContinue Task)
    pub pending : List Task
    pub stops : ℕ
    pub tasks_are : p.tasks ≡ some queue
    pub queue_is : queue ≡ waiting pending stops
    pub in_order : p.dispatched ≡ p.taken ++ pending
    pub counted : total + live p.workers ≡ stops + length p.workers
    pub tasks_first : (pending ≡ []) ⊎ (live p.workers ≡ length p.workers)
    pub direct : length p.workers ≡ 0 → queue ≡ []

  -- What a step leaves of a queue.
  record Advanced (n : ℕ) (queue rest : List (TaskAndContinue Task)) (begun pending : List Task)
      (stops : ℕ) : Type 0 where
    still_pending : List Task
    still_stops : ℕ
    rest_is : rest ≡ waiting still_pending still_stops
    order : pending ≡ begun ++ still_pending
    count : stops ≡ n + still_stops
    tasks_first : (n ≡ 0) ⊎ (still_pending ≡ [])
    stays_empty : queue ≡ [] → rest ≡ []

  advance :
      {n : ℕ} {queue rest : List (TaskAndContinue Task)} {begun : List Task}
      → Polled n queue rest begun
      → (pending : List Task) (stops : ℕ) → queue ≡ waiting pending stops
      → Advanced n queue rest begun pending stops
  advance idle pending stops e = record {
    still_pending = pending;
    still_stops = stops;
    rest_is = e;
    order = refl;
    count = omega arith;
    tasks_first = inl refl;
    stays_empty = λ h. h;
  }
  advance begins [] zero e = absurd (cc e)
  advance begins [] (suc stops) e = absurd (cc e)
  advance begins (t ∷ pending) stops e = record {
    still_pending = pending;
    still_stops = stops;
    rest_is = cc e;
    order = cc e;
    count = omega arith;
    tasks_first = inl refl;
    stays_empty = λ h. absurd (cc h);
  }
  advance ends [] zero e = absurd (cc e)
  advance ends [] (suc stops) e = record {
    still_pending = [];
    still_stops = stops;
    rest_is = cc e;
    order = refl;
    count = omega arith;
    tasks_first = inr refl;
    stays_empty = λ h. absurd (cc h);
  }
  advance ends (t ∷ pending) stops e = absurd (cc e)

  still_first :
      (n before after total : ℕ) (begun still pending : List Task)
      → (n ≡ 0) ⊎ (still ≡ [])
      → (pending ≡ []) ⊎ (before ≡ total)
      → pending ≡ begun ++ still
      → before ≡ n + after
      → (still ≡ []) ⊎ (after ≡ total)
  still_first n before after total begun still pending (inr e) _ _ _ = inl e
  still_first n before after total begun still pending (inl z) (inr all) _ c = inr (omega arith)
  still_first n before after total [] still pending (inl z) (inl e) o c = inl (sym o ∙ e)
  still_first n before after total (t ∷ ts) still pending (inl z) (inl e) o c =
      absurd (cc (sym o ∙ e))

  pub work-IsOrdered :
      (total i : ℕ) (p : ThreadPool Task) → IsOrdered total p → IsOrdered total (work i p)
  unfolding work
  work-IsOrdered total i p o =
      let ((n, polled, counted), same) = poll_at-Step i p.workers o.queue in
      let a = advance polled o.pending o.stops o.queue_is in
      let begun : List Task = (poll_at i p.workers o.queue).2 in
      rw o.tasks_are (record {
        queue = (poll_at i p.workers o.queue).1;
        pending = a.still_pending;
        stops = a.still_stops;
        tasks_are = refl;
        queue_is = a.rest_is;
        in_order =
            o.in_order
            ∙ ap (λ ts. p.taken ++ ts) a.order
            ∙ sym (append_assoc p.taken begun a.still_pending);
        counted = omega (arith, o.counted, a.count);
        tasks_first = rw (sym same) at (
            still_first n (live p.workers) (live (poll_at i p.workers o.queue).0) (length p.workers)
              begun a.still_pending o.pending a.tasks_first o.tasks_first a.order counted);
        direct = λ h. a.stays_empty (o.direct (omega arith));
      })

  pub waiting_nothing :
      (pending : List Task) (stops : ℕ) → waiting pending stops ≡ [] → (pending ≡ []) × (stops ≡ 0)
  waiting_nothing [] zero e = (refl, refl)
  waiting_nothing [] (suc stops) e = absurd (cc e)
  waiting_nothing (t ∷ pending) stops e = absurd (cc e)

  pub live-le-length : (ws : List (Worker Task)) → live ws ≤ length ws
  live-le-length [] = omega arith
  live-le-length (polling ∷ ws) = omega (arith, live-le-length ws)
  live-le-length (stopped ∷ ws) = omega (arith, live-le-length ws)
  live-le-length (holding t ∷ ws) = omega (arith, live-le-length ws)
  live-le-length (running t ∷ ws) = omega (arith, live-le-length ws)

  pub work_keeps :
      (i : ℕ) (p : ThreadPool Task)
      → ((work i p).dispatched ≡ p.dispatched) × (length (work i p).workers ≡ length p.workers)
  unfolding work
  work_keeps i p = elim (Option-cases p.tasks) [
    | inl e ↦ rw e (refl, refl)
    | inr (queue, e) ↦ rw e (refl, (poll_at-Step i p.workers queue).1)
  ]
