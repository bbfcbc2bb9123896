-- ===== src/SafeQueue/Monitor.antt =====
-- The threads at a queue of safe_queue.h, its condition variables and their notifications.
pub mod Wakeups
use nanonet.Common.{ℕ, suc, ◌-◌, Option, none, some, List, [], ◌∷◌, ◌++◌, if◌then◌else◌, ◌==◌}
use nanonet.SafeQueue.{SafeQueue, waits_for_space, append, take_front}

-- A condition variable: the threads that wait on it, those that were woken and do not yet hold the
-- mutex again, and the calls of `notify_one` that threads have still to make.
pub record Condition : Type 0 where
  pub waiting : ℕ
  pub woken : ℕ
  pub signals : ℕ

-- The queue with its condition variables. `accepted` and `delivered` are of the model alone: all
-- that was pushed and popped so far.
pub record Monitor (A : Type 0) : Type 0 where
  pub queue : SafeQueue A
  pub has_data : Condition
  pub has_space : Condition
  pub accepted : List A
  pub delivered : List A

abbrev waits : Condition → Condition
waits c = record c { waiting = suc c.waiting }

abbrev rechecks : Condition → Condition
rechecks c = record c { woken = c.woken - 1 }

abbrev owes_signal : Condition → Condition
owes_signal c = record c { signals = suc c.signals }

-- A waiting thread, if there is one, wakes up.
unfoldable pub wake_one : Condition → Condition
wake_one c = if c.waiting == 0 then c else record c { waiting = c.waiting - 1; woken = suc c.woken }

-- `notify_one()`, by a thread that has to make the call.
unfoldable pub notify_one : Condition → Condition
unfolding wake_one
notify_one c = if c.signals == 0 then c else wake_one (record c { signals = c.signals - 1 })

module _ {A : Type 0} where
  abbrev pub initial : SafeQueue A → Monitor A
  initial s = record {
    queue = s;
    has_data = record { waiting = 0; woken = 0; signals = 0 };
    has_space = record { waiting = 0; woken = 0; signals = 0 };
    accepted = s.q;
    delivered = [];
  }

  -- `push( t )` from the head of its loop.
  unfoldable pub try_push : A → Monitor A → Monitor A
  unfolding waits_for_space
  try_push t m =
      if waits_for_space m.queue then record m { has_space = waits m.has_space } else record m {
        queue = append m.queue t;
        has_data = owes_signal m.has_data;
        accepted = m.accepted ++ t ∷ [];
      }

  abbrev popped : Monitor A → Option (A × SafeQueue A) → Monitor A
  popped m none = record m { has_data = waits m.has_data }
  popped m (some (t, rest)) = record m {
    queue = rest;
    has_space = if m.queue.bounded then owes_signal m.has_space else m.has_space;
    delivered = m.delivered ++ t ∷ [];
  }

  -- `pop()` from the head of its loop.
  unfoldable pub try_pop : Monitor A → Monitor A
  try_pop m = popped m (take_front m.queue m.queue.q)

-- What one thread does at a time. The last two are spurious wake-ups.
pub data Action (A : Type 0) : Type 0 where
  push woken_push : A → Action A
  pop woken_pop signal_data signal_space wake_data wake_space : Action A

module _ {A : Type 0} where
  -- An action that no thread can take changes nothing.
  unfoldable pub perform : Action A → Monitor A → Monitor A
  unfolding try_push try_pop wake_one notify_one
  perform (push t) m = try_push t m
  perform pop m = try_pop m
  perform (woken_push t) m =
      if m.has_space.woken == 0
      then m
      else try_push t (record m { has_space = rechecks m.has_space })
  perform woken_pop m =
      if m.has_data.woken == 0 then m else try_pop (record m { has_data = rechecks m.has_data })
  perform signal_data m = record m { has_data = notify_one m.has_data }
  perform signal_space m = record m { has_space = notify_one m.has_space }
  perform wake_data m = record m { has_data = wake_one m.has_data }
  perform wake_space m = record m { has_space = wake_one m.has_space }

  unfoldable pub perform_all : List (Action A) → Monitor A → Monitor A
  unfolding perform
  perform_all [] m = m
  perform_all (a ∷ rest) m = perform_all rest (perform a m)
