-- ===== src/SafeQueue/Monitor/Wakeups.antt =====
-- The queue of safe_queue.h is first in, first out, keeps to its capacity, and loses no wake-up.
use nanonet.Common.{
  ℕ, ◌+◌, ◌-◌, ◌≤◌, ◌<◌, ◌≡◌, refl, sym, ap, arith, ◌∙◌, Bool, true, false, List, [], ◌∷◌, ◌++◌,
  append_assoc, length, length-append, ◌==◌, if_cases, ◌⊎◌, inl, inr, ok, ℤ, pos, negsuc,
  Bool-cases,
}
use nanonet.SafeQueue.{SafeQueue, waits_for_space, take_front, make, empty, full}
use nanonet.SafeQueue.Monitor.{
  Condition, Monitor, initial, try_push, try_pop, popped, Action, push, pop, woken_push, woken_pop,
  signal_data, signal_space, wake_data, wake_space, perform, perform_all, wake_one, notify_one,
}

-- If threads wait on the condition variable, then at least `n` are about to look again, or will be
-- once the notifications under way are made; `extra` is 1 for a thread that is just looking.
abbrev pub Covers : ℕ → Condition → ℕ → Type 0
Covers extra c n = 0 < c.waiting → n ≤ c.signals + c.woken + extra

-- The invariant between the actions, up to a thread that is just looking for data or for space.
pub record IsSound {A : Type 0} (data_extra space_extra : ℕ) (m : Monitor A) : Type 0 where
  pub fifo : m.accepted ≡ m.delivered ++ m.queue.q
  pub room : m.queue.bounded ≡ true → length m.queue.q ≤ m.queue.capacity_
  pub positive : 1 ≤ m.queue.capacity_
  pub data_covered : Covers data_extra m.has_data (length m.queue.q)
  pub space_covered : Covers space_extra m.has_space (m.queue.capacity_ - length m.queue.q)
  pub unbounded : m.queue.bounded ≡ false → m.has_space.waiting ≡ 0

wake_one-Covers : (c : Condition) (n : ℕ) → Covers 0 c n → Covers 0 (wake_one c) n
unfolding wake_one
wake_one-Covers c n h = ground arith

notify_one-Covers : (c : Condition) (n : ℕ) → Covers 0 c n → Covers 0 (notify_one c) n
unfolding notify_one
notify_one-Covers c n h = ground arith

fewer_waiting :
    (c : Condition) → ((notify_one c).waiting ≤ c.waiting) × ((wake_one c).waiting ≤ c.waiting)
unfolding notify_one wake_one
fewer_waiting c = ground arith

module _ {A : Type 0} where
  try_push-IsSound : (t : A) (m : Monitor A) → IsSound 0 1 m → IsSound 0 0 (try_push t m)
  unfolding try_push waits_for_space
  try_push-IsSound t m s =
      if_cases (IsSound 0 0) (waits_for_space m.queue)
        (λ full. record {
          fifo = s.fifo;
          room = s.room;
          positive = s.positive;
          data_covered = s.data_covered;
          space_covered = λ h. ground arith;
          unbounded = λ h. ground arith;
        })
        (λ free. record {
          fifo = ap (λ l. l ++ t ∷ []) s.fifo ∙ append_assoc m.delivered m.queue.q (t ∷ []);
          room = λ h. ground (arith, s.room h, length-append m.queue.q (t ∷ []));
          positive = s.positive;
          data_covered = λ h. omega (arith, s.data_covered h, length-append m.queue.q (t ∷ []));
          space_covered = λ h. ground (arith, s.space_covered h, length-append m.queue.q (t ∷ []));
          unbounded = s.unbounded;
        })

  try_pop-IsSound : (m : Monitor A) → IsSound 1 0 m → IsSound 0 0 (try_pop m)
  unfolding try_pop
  try_pop-IsSound m s = go m.queue.q refl
    where
      go : (q : List A) → m.queue.q ≡ q → IsSound 0 0 (popped m (take_front m.queue q))
      go [] e = record {
        fifo = s.fifo;
        room = s.room;
        positive = s.positive;
        data_covered = λ h. omega (arith, ap length e);
        space_covered = s.space_covered;
        unbounded = s.unbounded;
      }
      go (t ∷ rest) e = record {
        fifo = s.fifo ∙ ap (λ l. m.delivered ++ l) e ∙ sym (append_assoc m.delivered (t ∷ []) rest);
        room = λ h. omega (arith, s.room h, ap length e);
        positive = s.positive;
        data_covered = λ h. omega (arith, s.data_covered h, ap length e);
        space_covered = elim (Bool-cases m.queue.bounded) [
          | inl b ↦ rw b (λ h. omega (arith, s.space_covered h, ap length e))
          | inr u ↦ rw u (λ h. absurd (omega (arith, s.unbounded u)))
        ];
        unbounded = λ u. rw u (s.unbounded u);
      }

  weaken : (d e : ℕ) (m : Monitor A) → IsSound 0 0 m → IsSound d e m
  weaken d e m s = record {
    fifo = s.fifo;
    room = s.room;
    positive = s.positive;
    data_covered = λ h. omega (arith, s.data_covered h);
    space_covered = λ h. omega (arith, s.space_covered h);
    unbounded = s.unbounded;
  }

  data_IsSound :
      (m : Monitor A) (c : Condition)
      → IsSound 0 0 m
      → Covers 0 c (length m.queue.q)
      → IsSound 0 0 (record m { has_data = c })
  data_IsSound m c s covers = record {
    fifo = s.fifo;
    room = s.room;
    positive = s.positive;
    data_covered = covers;
    space_covered = s.space_covered;
    unbounded = s.unbounded;
  }

  space_IsSound :
      (m : Monitor A) (c : Condition)
      → IsSound 0 0 m
      → Covers 0 c (m.queue.capacity_ - length m.queue.q)
      → c.waiting ≤ m.has_space.waiting
      → IsSound 0 0 (record m { has_space = c })
  space_IsSound m c s covers fewer = record {
    fifo = s.fifo;
    room = s.room;
    positive = s.positive;
    data_covered = s.data_covered;
    space_covered = covers;
    unbounded = λ u. omega (arith, s.unbounded u);
  }

  -- Every action of a thread, a spurious wake-up among them, keeps the invariant: the elements come
  -- out in the order in which they went in, a bounded queue stays within its capacity, and while a
  -- thread waits for data there are as many threads about to look as there are elements, and while
  -- one waits for space as many as there are free places.
  perform-IsSound : (a : Action A) (m : Monitor A) → IsSound 0 0 m → IsSound 0 0 (perform a m)
  unfolding perform
  perform-IsSound (push t) m s = try_push-IsSound t m (weaken 0 1 m s)
  perform-IsSound pop m s = try_pop-IsSound m (weaken 1 0 m s)
  perform-IsSound (woken_push t) m s =
      if_cases (IsSound 0 0) (m.has_space.woken == 0) (λ _. s)
        λ some_woken. try_push-IsSound t _ (record {
          fifo = s.fifo;
          room = s.room;
          positive = s.positive;
          data_covered = s.data_covered;
          space_covered = λ h. ground (arith, s.space_covered h);
          unbounded = s.unbounded;
        })
  perform-IsSound woken_pop m s =
      if_cases (IsSound 0 0) (m.has_data.woken == 0) (λ _. s)
        λ some_woken. try_pop-IsSound _ (record {
          fifo = s.fifo;
          room = s.room;
          positive = s.positive;
          data_covered = λ h. ground (arith, s.data_covered h);
          space_covered = s.space_covered;
          unbounded = s.unbounded;
        })
  perform-IsSound signal_data m s =
      data_IsSound m (notify_one m.has_data) s (notify_one-Covers m.has_data _ s.data_covered)
  perform-IsSound wake_data m s =
      data_IsSound m (wake_one m.has_data) s (wake_one-Covers m.has_data _ s.data_covered)
  perform-IsSound signal_space m s =
      space_IsSound m (notify_one m.has_space) s (notify_one-Covers m.has_space _ s.space_covered)
        (fewer_waiting m.has_space).0
  perform-IsSound wake_space m s =
      space_IsSound m (wake_one m.has_space) s (wake_one-Covers m.has_space _ s.space_covered)
        (fewer_waiting m.has_space).1

  perform_all-IsSound :
      (actions : List (Action A)) (m : Monitor A)
      → IsSound 0 0 m
      → IsSound 0 0 (perform_all actions m)
  unfolding perform_all
  perform_all-IsSound [] m s = s
  perform_all-IsSound (a ∷ rest) m s =
      perform_all-IsSound rest (perform a m) (perform-IsSound a m s)

  make-IsSound :
      (bounded : Bool) (capacity : ℤ) (s : SafeQueue A)
      → make bounded capacity ≡ ok s
      → IsSound 0 0 (initial s)
  unfolding make
  make-IsSound bounded (negsuc n) s h = absurd (ground arith)
  make-IsSound bounded (pos n) s h = record {
    fifo = refl;
    room = λ b. ground arith;
    positive = ground arith;
    data_covered = λ w. absurd (omega arith);
    space_covered = λ w. absurd (omega arith);
    unbounded = λ u. refl;
  }

  room_cases :
      (s : SafeQueue A)
      → (s.bounded ≡ true → length s.q ≤ s.capacity_)
      → (s.bounded ≡ false) ⊎ (length s.q ≤ s.capacity_)
  room_cases s room = elim (Bool-cases s.bounded) [ inl b ↦ inr (room b) | inr u ↦ inl u ]

  waiting_cases :
      (m : Monitor A)
      → IsSound 0 0 m
      → m.has_data.signals + m.has_data.woken ≡ 0
      → m.has_space.signals + m.has_space.woken ≡ 0
      → ((m.has_data.waiting ≡ 0) ⊎ (empty m.queue ≡ true))
        × ((m.has_space.waiting ≡ 0) ⊎ (full m.queue ≡ true))
  unfolding empty full
  waiting_cases m sound no_data no_space = (
    ground (arith, sound.data_covered),
    ground (arith, sound.space_covered, sound.unbounded, sound.room),
  )

  -- Whatever the threads do at a queue that was constructed, in whatever order: what was popped, and
  -- behind it what the queue holds, is what was pushed, in its order; and a bounded queue never holds
  -- more than its capacity.
  pub perform_all_in_order :
      (bounded : Bool) (capacity : ℤ) (s : SafeQueue A) (actions : List (Action A))
      → make bounded capacity ≡ ok s
      → let m = perform_all actions (initial s) in
        (m.accepted ≡ m.delivered ++ m.queue.q)
        × ((m.queue.bounded ≡ false) ⊎ (length m.queue.q ≤ m.queue.capacity_))
  perform_all_in_order bounded capacity s actions h =
      let sound = perform_all-IsSound actions (initial s) (make-IsSound bounded capacity s h) in
      (sound.fifo, room_cases _ sound.room)

  -- No wake-up is lost: when no notification is under way and no woken thread has still to look, then
  -- threads wait for data only at an empty queue, and for space only at a full one.
  pub perform_all_quiet :
      (bounded : Bool) (capacity : ℤ) (s : SafeQueue A) (actions : List (Action A)) (m : Monitor A)
      → make bounded capacity ≡ ok s
      → perform_all actions (initial s) ≡ m
      → m.has_data.signals + m.has_data.woken ≡ 0
      → m.has_space.signals + m.has_space.woken ≡ 0
      → ((m.has_data.waiting ≡ 0) ⊎ (empty m.queue ≡ true))
        × ((m.has_space.waiting ≡ 0) ⊎ (full m.queue ≡ true))
  perform_all_quiet bounded capacity s actions m h e no_data no_space =
      let sound = perform_all-IsSound actions (initial s) (make-IsSound bounded capacity s h) in
      waiting_cases m (rw e at sound) no_data no_space
