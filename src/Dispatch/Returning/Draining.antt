-- ===== src/Dispatch/Returning/Draining.antt =====
-- The workers of dispatch.cpp can always bring a pool to rest, before its destructor.
use nanonet.Common.{
  ℕ, zero, suc, ◌<◌, ◌≤◌, ◌≡◌, refl, ap, ◌∙◌, arith, false, ◌==◌, some, List, [], ◌∷◌, length,
  Outcome, Bool-cases, inl, inr, ==_iff, Option, none,
}
use nanonet.Dispatch.{
  Worker, polling, stopped, holding, running, TaskAndContinue, ThreadPool, poll, poll_at, work,
  Event, turn, run,
}
use nanonet.Dispatch.Workers.{busy, weight, CanMove, live-CanMove}
use nanonet.Dispatch.Shutdown.{IsOrdered, work-IsOrdered, work_keeps}
use nanonet.Dispatch.Returning.{runs}

busy-CanMove :
    (ws : List (Worker ℕ)) (queue : List (TaskAndContinue ℕ)) → 0 < busy ws → CanMove queue ws
unfolding poll_at poll
busy-CanMove [] queue h = absurd (omega (arith, h))
busy-CanMove (running t ∷ ws) queue h = (0, omega arith)
busy-CanMove (holding t ∷ ws) queue h = (0, omega arith)
busy-CanMove (polling ∷ ws) queue h =
    let (i, less) = busy-CanMove ws queue (omega (arith, h)) in (suc i, omega (arith, less))
busy-CanMove (stopped ∷ ws) queue h =
    let (i, less) = busy-CanMove ws queue (omega (arith, h)) in (suc i, omega (arith, less))

pub busy-runs : (t : ℕ) (ws : List (Worker ℕ)) → busy ws ≡ 0 → runs t ws ≡ false
unfolding runs
busy-runs t [] e = refl
busy-runs t (running s ∷ ws) e = absurd (omega (arith, e))
busy-runs t (holding s ∷ ws) e = absurd (omega (arith, e))
busy-runs t (polling ∷ ws) e = busy-runs t ws (omega (arith, e))
busy-runs t (stopped ∷ ws) e = busy-runs t ws (omega (arith, e))

abbrev pub left_of : Option (List (TaskAndContinue ℕ)) → List (Worker ℕ) → ℕ
left_of none ws = 0
left_of (some queue) ws = weight queue ws

-- What is left to do in a pool, and that a worker can do some of it.
unfoldable pub left : ThreadPool ℕ → ℕ
left p = left_of p.tasks p.workers

work-left :
    (p : ThreadPool ℕ)
    → IsOrdered 0 0 p
    → 0 < length p.workers
    → 0 < left p
    → (i : ℕ) × (left (work i p) < left p)
unfolding left work
work-left p o some_workers more = rw o.tasks_are (elim (Bool-cases (busy p.workers == 0)) [
  | inr busy_ones ↦ busy-CanMove p.workers o.queue (ground (arith, busy_ones))
  | inl idle ↦ elim (live-CanMove p.workers o.queue) [
    | inr (inr move) ↦ move
    | inr (inl nothing) ↦ absurd (
        omega
          (arith, rw o.tasks_are at more, ap length nothing, (==_iff (busy p.workers) 0).0 idle))
    | inl dead ↦ absurd (omega (arith, dead, o.counted))
  ]
])

-- The workers with these numbers take their turns.
abbrev pub turns_of : List ℕ → List (Event ℕ)
turns_of [] = []
turns_of (i ∷ turns) = turn i ∷ turns_of turns

module _ {E : Type 0} (call : ℕ → Outcome E (Unit {0})) where
  -- So many steps bring a pool to rest.
  pub comes_to_rest :
      (fuel : ℕ) (p : ThreadPool ℕ)
      → IsOrdered 0 0 p
      → 0 < length p.workers
      → left p ≤ fuel
      → (turns : List ℕ) × (left (run call (turns_of turns) p) ≡ 0)
        × IsOrdered 0 0 (run call (turns_of turns) p)
        × ((run call (turns_of turns) p).dispatched ≡ p.dispatched)
  unfolding run
  comes_to_rest zero p o some_workers enough = ([], omega (arith, enough), o, refl)
  comes_to_rest (suc fuel) p o some_workers enough = elim (Bool-cases (left p == 0)) [
    | inl at_rest ↦ ([], (==_iff (left p) 0).0 at_rest, o, refl)
    | inr more ↦
        let (i, less) = work-left p o some_workers (ground (arith, more)) in
        let (same, sized) = work_keeps 0 i p in
        let (turns, rest, ordered, kept) =
          comes_to_rest fuel (work i p) (work-IsOrdered 0 0 i p o)
            (omega (arith, sized, some_workers)) (omega (arith, less, enough)) in
        (i ∷ turns, rest, ordered, kept ∙ same)
  ]
