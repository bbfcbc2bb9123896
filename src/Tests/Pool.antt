-- ===== src/Tests/Pool.antt =====
-- A pool with one worker that is given two tasks and destroyed.
use nanonet.Dispatch.Returning.Draining.{turns_of}
use nanonet.Dispatch.Returning.Progress.{dispatch_returning-returns}
use nanonet.Dispatch.Returning.Finished.{dispatch_returning-IsOver, IsOver}
use nanonet.Dispatch.Returning.{dispatch_returning, future_value, runs}
use nanonet.Common.{
  ℕ, ◌≡◌, ◌⊎◌, refl, some, List, [], ◌∷◌, Outcome, ok, pos, none, Option, throws, ◌++◌, ◌==◌, ◌+◌,
  if◌then◌else◌, true, length, ◌≤◌,
}
use nanonet.Dispatch.{
  ThreadPool, TaskAndContinue, polling, stopped, Event, given, turn, thread_pool, dispatch, poll,
  poll_at, work, close, run, tasks_of, join,
}
use nanonet.Dispatch.Workers.{live, CanMove}
use nanonet.Dispatch.Begun.{total}
use nanonet.Dispatch.Join.{join-begun, join-CanMove}

abbrev call : ℕ → Outcome ℕ (Unit {0})
call t = ok tt

abbrev one_worker : ThreadPool ℕ
one_worker = record {
  tasks = some [];
  workers = polling ∷ [];
  dispatched = [];
  taken = [];
  begun = [];
}

abbrev two_tasks : List (Event ℕ)
two_tasks = given 1 ∷ turn 0 ∷ given 2 ∷ []

abbrev turns : List ℕ
turns = 0 ∷ 0 ∷ 0 ∷ 0 ∷ 0 ∷ 0 ∷ []

abbrev at_end : ThreadPool ℕ
at_end = record {
  tasks = some [];
  workers = stopped ∷ [];
  dispatched = 1 ∷ 2 ∷ [];
  taken = 1 ∷ 2 ∷ [];
  begun = 1 ∷ 2 ∷ [];
}

join-begun_example :
    (at_end.taken ≡ tasks_of two_tasks)
    × (at_end.tasks ≡ some [])
    × ((f : ℕ → ℕ) → total f at_end.begun ≡ total f (tasks_of two_tasks))
    × (length at_end.workers ≤ 1 → at_end.begun ≡ tasks_of two_tasks)
unfolding thread_pool join close run dispatch work poll_at poll
join-begun_example = join-begun 0 call (pos 1) one_worker at_end two_tasks turns refl refl refl

-- Of two workers that have taken a task each, the second begins its own first.
overtaken_run :
    (run call (given 1 ∷ given 2 ∷ turn 0 ∷ turn 1 ∷ turn 1 ∷ turn 0 ∷ []) (record {
      tasks = some [];
      workers = polling ∷ polling ∷ [];
      dispatched = [];
      taken = [];
      begun = [];
    })).begun
    ≡ 2 ∷ 1 ∷ []
unfolding run dispatch work poll_at poll
overtaken_run = refl

join-CanMove_example :
    (live at_end.workers ≡ 0)
    ⊎ ((queue : List (TaskAndContinue ℕ)) × (at_end.tasks ≡ some queue)
        × CanMove queue at_end.workers)
unfolding thread_pool join close run dispatch work poll_at poll
join-CanMove_example = join-CanMove 0 call (pos 1) one_worker at_end two_tasks turns refl refl

-- A task that throws an exception, for another task's value.
abbrev invoke : ℕ → Outcome ℕ ℕ
invoke t = if t == 5 then throws 9 else ok (t + 100)

-- Its worker still runs task 1 when task 5 is given.
abbrev meanwhile : List (Event ℕ)
meanwhile = given 6 ∷ turn 0 ∷ turn 0 ∷ turn 0 ∷ turn 0 ∷ turn 0 ∷ []

abbrev behind_five : ThreadPool ℕ
behind_five = record {
  tasks = some ((6, true) ∷ []);
  workers = polling ∷ [];
  dispatched = 1 ∷ 5 ∷ 6 ∷ [];
  taken = 1 ∷ 5 ∷ [];
  begun = 1 ∷ 5 ∷ [];
}

dispatch_returning-IsOver_example :
    ((v : ℕ) → invoke 5 ≡ ok v → ◌≡◌ {A = ℕ × Option ℕ} (0, some 9) (v, none))
    × ((e : ℕ) → invoke 5 ≡ throws e → ◌≡◌ {A = ℕ × Option ℕ} (0, some 9) (0, some e))
    × IsOver 5 behind_five
unfolding dispatch_returning thread_pool run dispatch work poll_at poll runs
dispatch_returning-IsOver_example =
    dispatch_returning-IsOver call invoke 0 (pos 1) one_worker behind_five 5 (given 1 ∷ turn 0 ∷ [])
      meanwhile (0, some 9) refl refl refl refl

dispatch_returning-returns_example :
    (turns : List ℕ) × ((dispatch_returning invoke 0 call
        (run call (given 1 ∷ []) one_worker)
        5
        ((given 6 ∷ []) ++ turns_of turns)).1
      ≡ ok (some (future_value 0 (invoke 5))))
unfolding thread_pool
dispatch_returning-returns_example =
    dispatch_returning-returns call invoke 0 (pos 1) one_worker 5 (given 1 ∷ []) (given 6 ∷ []) refl

still_waiting : (dispatch_returning invoke 0 call one_worker 5 (turn 0 ∷ [])).1 ≡ ok none
unfolding dispatch_returning runs poll_at poll
still_waiting = refl
