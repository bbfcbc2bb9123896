-- ===== src/Tests/Queue.antt =====
-- A queue for one element, at which a second push waits until the first element is popped.
use nanonet.Common.{ℕ, ◌≤◌, ◌≡◌, ◌⊎◌, refl, true, false, List, [], ◌∷◌, ◌++◌, length, pos}
use nanonet.SafeQueue.{SafeQueue, make, empty, full}
use nanonet.SafeQueue.Monitor.{
  Monitor, Condition, initial, Action, push, pop, woken_push, signal_data, signal_space, perform,
  perform_all, try_push, try_pop, notify_one,
}
use nanonet.SafeQueue.Monitor.Wakeups.{perform_all_in_order, perform_all_quiet}

abbrev one_place : SafeQueue ℕ
one_place = record { bounded = true; q = []; capacity_ = 1 }

abbrev two_pushes : List (Action ℕ)
two_pushes = push 1 ∷ push 2 ∷ signal_data ∷ pop ∷ signal_space ∷ woken_push 2 ∷ signal_data ∷ []

abbrev no_threads : Condition
no_threads = record { waiting = 0; woken = 0; signals = 0 }

abbrev at_end : Monitor ℕ
at_end = record {
  queue = record { bounded = true; q = 2 ∷ []; capacity_ = 1 };
  has_data = no_threads;
  has_space = no_threads;
  accepted = 1 ∷ 2 ∷ [];
  delivered = 1 ∷ [];
}

perform_all_in_order_example :
    ((perform_all two_pushes (initial one_place)).accepted
      ≡ (perform_all two_pushes (initial one_place)).delivered
        ++ (perform_all two_pushes (initial one_place)).queue.q)
    × (((perform_all two_pushes (initial one_place)).queue.bounded ≡ false)
        ⊎ (length (perform_all two_pushes (initial one_place)).queue.q
            ≤ (perform_all two_pushes (initial one_place)).queue.capacity_))
unfolding make
perform_all_in_order_example = perform_all_in_order true (pos 1) one_place two_pushes refl

perform_all_quiet_example :
    ((at_end.has_data.waiting ≡ 0) ⊎ (empty at_end.queue ≡ true))
    × ((at_end.has_space.waiting ≡ 0) ⊎ (full at_end.queue ≡ true))
unfolding make perform_all perform try_push try_pop notify_one
perform_all_quiet_example =
    perform_all_quiet true (pos 1) one_place two_pushes at_end refl refl refl refl
