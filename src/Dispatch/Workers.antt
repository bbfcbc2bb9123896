-- ===== src/Dispatch/Workers.antt =====
-- What one step of a worker of dispatch.cpp does to the queue and to the workers.
use nanonet.Common.{
  ℕ, zero, suc, ◌+◌, ◌*◌, ◌<◌, ◌≡◌, refl, ap, arith, true, false, List, [], ◌∷◌, length, ◌⊎◌, inl,
  inr,
}
use nanonet.Dispatch.{Worker, polling, stopped, holding, running, TaskAndContinue, poll, poll_at}

module _ {Task : Type 0} where
  abbrev one_live : Worker Task → ℕ
  one_live stopped = 0
  one_live _ = 1

  -- How many workers have not stopped, and how many steps the tasks that they have need.
  abbrev pub live : List (Worker Task) → ℕ
  live [] = 0
  live (w ∷ ws) = one_live w + live ws

  abbrev one_running : Worker Task → ℕ
  one_running (running t) = 1
  one_running (holding t) = 2
  one_running _ = 0

  abbrev pub busy : List (Worker Task) → ℕ
  busy [] = 0
  busy (w ∷ ws) = one_running w + busy ws

  -- The queue is left alone, or its first entry is a task that was taken, or one that stops a worker.
  pub data Polled
      : ℕ → List (TaskAndContinue Task) → List (TaskAndContinue Task) → List Task → Type 0 where
    idle : {queue : List (TaskAndContinue Task)} → Polled 0 queue queue []
    begins :
        {t : Task} {queue : List (TaskAndContinue Task)}
        → Polled 0 ((t, true) ∷ queue) queue (t ∷ [])
    ends : {t : Task} {queue : List (TaskAndContinue Task)} → Polled 1 ((t, false) ∷ queue) queue []

  -- What a step makes of the queue and of the workers that have not stopped.
  abbrev Step :
      ℕ → List (TaskAndContinue Task) → ℕ × List (TaskAndContinue Task) × List Task → Type 0
  Step before queue (after, rest, begun) =
      (n : ℕ) × Polled n queue rest begun × (before ≡ n + after)

  poll-Step :
      (w : Worker Task) (queue : List (TaskAndContinue Task))
      → let (next, rest, begun) = poll w queue in
        Step (one_live w) queue (one_live next, rest, begun)
  unfolding poll
  poll-Step stopped queue = (0, idle, refl)
  poll-Step (running t) queue = (0, idle, refl)
  poll-Step (holding t) queue = (0, idle, refl)
  poll-Step polling [] = (0, idle, refl)
  poll-Step polling ((t, true) ∷ queue) = (0, begins, refl)
  poll-Step polling ((t, false) ∷ queue) = (1, ends, refl)

  pub poll_at-Step :
      (i : ℕ) (ws : List (Worker Task)) (queue : List (TaskAndContinue Task))
      → let (next, rest, begun) = poll_at i ws queue in
        Step (live ws) queue (live next, rest, begun) × (length next ≡ length ws)
  unfolding poll_at
  poll_at-Step i [] queue = ((0, idle, refl), refl)
  poll_at-Step zero (w ∷ ws) queue =
      let (n, polled, counted) = poll-Step w queue in ((n, polled, omega arith), refl)
  poll_at-Step (suc i) (w ∷ ws) queue =
      let ((n, polled, counted), same) = poll_at-Step i ws queue in
      ((n, polled, omega arith), ap suc same)

  abbrev pub weight : List (TaskAndContinue Task) → List (Worker Task) → ℕ
  weight queue ws = 3 * length queue + busy ws

  -- A worker whose step brings the pool nearer to its end.
  abbrev pub CanMove : List (TaskAndContinue Task) → List (Worker Task) → Type 0
  CanMove queue ws =
      (i : ℕ) × (let (next, rest, begun) = poll_at i ws queue in weight rest next < weight queue ws)

  later :
      (w : Worker Task) (ws : List (Worker Task)) (queue : List (TaskAndContinue Task))
      → (one_live w ≡ 0) ⊎ (queue ≡ [])
      → (live ws ≡ 0) ⊎ (queue ≡ []) ⊎ CanMove queue ws
      → (live (w ∷ ws) ≡ 0) ⊎ (queue ≡ []) ⊎ CanMove queue (w ∷ ws)
  unfolding poll_at
  later w ws queue h (inr (inr (i, less))) = inr (inr (suc i, omega (arith, less)))
  later w ws queue h (inr (inl e)) = inr (inl e)
  later w ws queue (inr e) (inl none) = inr (inl e)
  later w ws queue (inl e) (inl none) = inl (omega arith)

  -- Unless all have stopped or the queue is empty, some worker can move.
  pub live-CanMove :
      (ws : List (Worker Task)) (queue : List (TaskAndContinue Task))
      → (live ws ≡ 0) ⊎ (queue ≡ []) ⊎ CanMove queue ws
  unfolding poll_at poll
  live-CanMove [] queue = inl refl
  live-CanMove (running t ∷ ws) queue = inr (inr (0, omega arith))
  live-CanMove (holding t ∷ ws) queue = inr (inr (0, omega arith))
  live-CanMove (stopped ∷ ws) queue = later stopped ws queue (inl refl) (live-CanMove ws queue)
  live-CanMove (polling ∷ ws) [] = inr (inl refl)
  live-CanMove (polling ∷ ws) ((t, true) ∷ queue) = inr (inr (0, omega arith))
  live-CanMove (polling ∷ ws) ((t, false) ∷ queue) = inr (inr (0, omega arith))
