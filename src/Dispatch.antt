-- ===== src/Dispatch.antt =====
-- The thread pool of include/nanonet/dispatch.h and src/dispatch.cpp. Its queue is unbounded, so that
-- a push never waits; a worker that finds it empty waits, which here is a step that changes nothing.
-- A task and what it throws are parameters.
pub mod Workers
pub mod Shutdown
pub mod Begun
pub mod Join
pub mod Returning
use nanonet.Common.{
  ℕ, zero, suc, Bool, true, false, Option, none, some, List, [], ◌∷◌, ◌++◌, ltb, if◌then◌else◌,
  length, replicate, Outcome, ok, throws, ℤ, pos, negsuc,
}

pub data Worker (Task : Type 0) : Type 0 where
  polling stopped : Worker Task
  -- The worker has taken a task from the queue and not called it yet, or it is in the call.
  holding running : Task → Worker Task

-- A task, and whether another will follow: `task_and_continue`.
abbrev pub TaskAndContinue : Type 0 → Type 0
TaskAndContinue Task = Task × Bool

pub data PoolError (E : Type 0) : Type 0 where
  negative_workers moved_from : PoolError E
  task_threw : E → PoolError E

-- `tasks` is `none` in a pool that was moved from. `dispatched`, `taken` and `begun` are of the
-- model alone: the tasks that were given to the pool, those that were taken from the queue, and those
-- whose call was begun, in the order of the calls.
pub record ThreadPool (Task : Type 0) : Type 0 where
  pub tasks : Option (List (TaskAndContinue Task))
  pub workers : List (Worker Task)
  pub dispatched : List Task
  pub taken : List Task
  pub begun : List Task

abbrev pub direct_result : {E : Type 0} → Outcome E (Unit {0}) → Outcome (PoolError E) (Unit {0})
direct_result (ok _) = ok tt
direct_result (throws e) = throws (task_threw e)

module _ {Task E : Type 0} where
  -- The constructor.
  unfoldable pub thread_pool : ℤ → Outcome (PoolError E) (ThreadPool Task)
  thread_pool (negsuc n) = throws negative_workers
  thread_pool (pos n) = ok (record {
    tasks = some [];
    workers = replicate n polling;
    dispatched = [];
    taken = [];
    begun = [];
  })

  -- `dispatch( t )` on the tasks that wait; `call` is what the task does when it is run.
  abbrev pub dispatch_to :
      (Task → Outcome E (Unit {0}))
      → ThreadPool Task
      → Task
      → Option (List (TaskAndContinue Task))
      → ThreadPool Task × Outcome (PoolError E) (Unit {0})
  dispatch_to call p t none = (p, throws moved_from)
  dispatch_to call p t (some queue) =
      if ltb 0 (length p.workers)
      then (
        record p { tasks = some (queue ++ (t, true) ∷ []); dispatched = p.dispatched ++ t ∷ [] },
        ok tt,
      )
      else (
        record p {
          dispatched = p.dispatched ++ t ∷ [];
          taken = p.taken ++ t ∷ [];
          begun = p.begun ++ t ∷ [];
        },
        direct_result (call t),
      )

  unfoldable pub dispatch :
      (Task → Outcome E (Unit {0}))
      → ThreadPool Task
      → Task
      → ThreadPool Task × Outcome (PoolError E) (Unit {0})
  dispatch call p t = dispatch_to call p t p.tasks

module _ {Task : Type 0} where
  -- A step of `thread_function`: `tasks.pop()`, the call of the task, which other threads may overtake
  -- since it holds no lock, or the end of that call. What it gives are the worker, the queue, and the
  -- task that was taken.
  unfoldable pub poll :
      Worker Task
      → List (TaskAndContinue Task)
      → Worker Task × List (TaskAndContinue Task) × List Task
  poll stopped queue = (stopped, queue, [])
  poll (holding t) queue = (running t, queue, [])
  poll (running t) queue = (polling, queue, [])
  poll polling [] = (polling, [], [])
  poll polling ((t, true) ∷ queue) = (holding t, queue, t ∷ [])
  poll polling ((t, false) ∷ queue) = (stopped, queue, [])

  -- The same for the worker of this number.
  unfoldable pub poll_at :
      ℕ
      → List (Worker Task)
      → List (TaskAndContinue Task)
      → List (Worker Task) × List (TaskAndContinue Task) × List Task
  unfolding poll
  poll_at i [] queue = ([], queue, [])
  poll_at zero (w ∷ workers) queue =
      let (next, rest, popped) = poll w queue in (next ∷ workers, rest, popped)
  poll_at (suc i) (w ∷ workers) queue =
      let (next, rest, popped) = poll_at i workers queue in (w ∷ next, rest, popped)

  -- The task that a worker begins with its next step.
  abbrev pub begins : Worker Task → List Task
  begins (holding t) = t ∷ []
  begins _ = []

  abbrev pub begins_at : ℕ → List (Worker Task) → List Task
  begins_at i [] = []
  begins_at zero (w ∷ workers) = begins w
  begins_at (suc i) (w ∷ workers) = begins_at i workers

  abbrev pub work_on : ℕ → ThreadPool Task → Option (List (TaskAndContinue Task)) → ThreadPool Task
  work_on i p none = p
  work_on i p (some queue) =
      let (workers, rest, popped) = poll_at i p.workers queue in
      record p {
        tasks = some rest;
        workers = workers;
        taken = p.taken ++ popped;
        begun = p.begun ++ begins_at i p.workers;
      }

  unfoldable pub work : ℕ → ThreadPool Task → ThreadPool Task
  unfolding poll_at
  work i p = work_on i p p.tasks

  abbrev pub closing :
      Task → ThreadPool Task → Option (List (TaskAndContinue Task)) → ThreadPool Task
  closing empty p none = p
  closing empty p (some queue) = record p {
    tasks = some (queue ++ replicate (length p.workers) (empty, false));
  }

  -- The destructor up to the joins: one last entry for each worker.
  unfoldable pub close : Task → ThreadPool Task → ThreadPool Task
  close empty p = closing empty p p.tasks

-- What happens at a pool before its destructor: a call of `dispatch`, or a step of a worker.
pub data Event (Task : Type 0) : Type 0 where
  given : Task → Event Task
  turn : ℕ → Event Task

module _ {Task E : Type 0} (call : Task → Outcome E (Unit {0})) where
  unfoldable pub run : List (Event Task) → ThreadPool Task → ThreadPool Task
  unfolding dispatch work
  run [] p = p
  run (given t ∷ events) p = run events (dispatch call p t).0
  run (turn i ∷ events) p = run events (work i p)

-- The tasks that are dispatched, in their order.
abbrev pub tasks_of : {Task : Type 0} → List (Event Task) → List Task
tasks_of [] = []
tasks_of (given t ∷ events) = t ∷ tasks_of events
tasks_of (turn i ∷ events) = tasks_of events

-- The steps of the workers while the destructor joins them.
unfoldable pub join : {Task : Type 0} → List ℕ → ThreadPool Task → ThreadPool Task
unfolding work
join [] p = p
join (i ∷ turns) p = join turns (work i p)
