-- ===== src/Dispatch/Returning.antt =====
-- dispatch_returning of include/nanonet/dispatch.h: a task is numbered, and the caller waits until a
-- worker has run the wrapper of its task. What other threads do meanwhile is a sequence of events.
pub mod Draining
pub mod Finished
pub mod Progress
use nanonet.Common.{
  ℕ, Bool, false, not, ◌&&◌, ◌||◌, Option, none, some, List, [], ◌∷◌, ◌++◌, ◌==◌, ltb,
  if◌then◌else◌, length, count, Outcome, ok, throws,
}
use nanonet.Dispatch.{
  Worker, polling, stopped, holding, running, ThreadPool, PoolError, dispatch, Event, run,
}

is_run_by : ℕ → Worker ℕ → Bool
is_run_by t polling = false
is_run_by t stopped = false
is_run_by t (holding s) = s == t
is_run_by t (running s) = s == t

-- Whether some worker has a task: it runs it, or has taken it and will.
unfoldable pub runs : ℕ → List (Worker ℕ) → Bool
unfolding is_run_by
runs t [] = false
runs t (w ∷ ws) = is_run_by t w || runs t ws

-- Whether `wfut.get()` returns: the wrapper was taken from the queue, and no worker has it any more.
unfoldable pub has_finished : ℕ → ThreadPool ℕ → Bool
unfolding runs
has_finished t p = ltb 0 (count t p.taken) && not (runs t p.workers)

-- `tfut.get()` and its handlers: the value, and the exception that is logged. `default` is `T()`.
unfoldable pub future_value : {T E : Type 0} → T → Outcome E T → T × Option E
future_value default (ok v) = (v, none)
future_value default (throws e) = (default, some e)

-- `invoke` is what `t()` leaves in the future of `t`.
module _ {T E : Type 0} (invoke : ℕ → Outcome E T) (default : T) where
  -- Behind `dispatch( std::move( wrapper ) )`; a value of `none` means that the caller still waits.
  abbrev pub waiting_for :
      (ℕ → Outcome E (Unit {0}))
      → ℕ
      → List (Event ℕ)
      → ThreadPool ℕ × Outcome (PoolError E) (Unit {0})
      → ThreadPool ℕ × Outcome (PoolError E) (Option (T × Option E))
  waiting_for call t events (p, throws e) = (p, throws e)
  waiting_for call t events (p, ok _) =
      let after = run call events p in
      (after, ok (if has_finished t after then some (future_value default (invoke t)) else none))

  -- `call` is what the other tasks do.
  unfoldable pub dispatch_returning :
      (ℕ → Outcome E (Unit {0}))
      → ThreadPool ℕ
      → ℕ
      → List (Event ℕ)
      → ThreadPool ℕ × Outcome (PoolError E) (Option (T × Option E))
  unfolding future_value has_finished dispatch run
  dispatch_returning call p t events =
      if length p.workers == 0
      then (
        record p {
          dispatched = p.dispatched ++ t ∷ [];
          taken = p.taken ++ t ∷ [];
          begun = p.begun ++ t ∷ [];
        },
        ok (some (future_value default (invoke t))),
      )
      else waiting_for call t events (dispatch call p t)
