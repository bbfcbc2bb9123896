-- ===== src/SafeQueue.antt =====
-- The queue between threads of include/nanonet/safe_queue.h, as a monitor: what a thread does while
-- it holds the mutex is one action, and so is each notification, which the source sends after it has
-- released the mutex. A thread that waits has released it too. A waiting thread that pushes is free
-- to push any element when it wakes, which allows more runs than the source.
pub mod Monitor
use nanonet.Common.{
  ℕ, ◌-◌, ◌^◌, Bool, false, not, ◌&&◌, Option, none, some, List, [], ◌∷◌, ◌++◌, ◌==◌, ltb,
  if◌then◌else◌, length, Outcome, ok, throws, ◌>>=◌, ◌>>◌, guard, ℤ, pos, negsuc,
}

-- What the constructor and `capacity` throw.
pub data QueueError : Type 0 where
  unbounded_with_capacity capacity_too_small no_capacity : QueueError

-- `BOUNDED` is the template's parameter; `capacity` is at least 1 and so a natural number.
pub record SafeQueue (A : Type 0) : Type 0 where
  pub bounded : Bool
  pub q : List A
  pub capacity_ : ℕ

-- `std::numeric_limits< long >::max()`
abbrev pub long_max : ℕ
long_max = 2 ^ 63 - 1

abbrev is_max : ℤ → Bool
is_max (pos n) = n == long_max
is_max (negsuc n) = false

module _ {A : Type 0} where
  abbrev with_capacity : Bool → ℤ → Outcome QueueError (SafeQueue A)
  with_capacity bounded (negsuc n) = throws capacity_too_small
  with_capacity bounded (pos n) =
      if ltb n 1
      then throws capacity_too_small
      else ok (record { bounded = bounded; q = []; capacity_ = n })

  -- The constructor.
  unfoldable pub make : Bool → ℤ → Outcome QueueError (SafeQueue A)
  make bounded capacity = do
    guard (not (not bounded && not (is_max capacity))) unbounded_with_capacity
    with_capacity bounded capacity

  unfoldable pub capacity : SafeQueue A → Outcome QueueError ℕ
  capacity s = if not s.bounded then throws no_capacity else ok s.capacity_

  unfoldable pub empty : SafeQueue A → Bool
  empty s = length s.q == 0

  unfoldable pub full : SafeQueue A → Bool
  full s = if not s.bounded then false else length s.q == s.capacity_

  -- The loop of `push`: it waits while this holds.
  unfoldable pub waits_for_space : SafeQueue A → Bool
  waits_for_space s = s.bounded && length s.q == s.capacity_

  -- `q.push( t )`, and `q.front()` with `q.pop()`; `none`: `pop` waits.
  abbrev pub append : SafeQueue A → A → SafeQueue A
  append s t = record s { q = s.q ++ t ∷ [] }

  abbrev pub take_front : SafeQueue A → List A → Option (A × SafeQueue A)
  take_front s [] = none
  take_front s (t ∷ rest) = some (t, record s { q = rest })
