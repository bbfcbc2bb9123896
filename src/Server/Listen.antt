-- ===== src/Server/Listen.antt =====
-- `run_server` of src/sys/server.cpp: the loop that binds to the service's port and starts the server,
-- and the synchronous test mode. The acceptor and the server thread are parameters.
pub mod Retries
use nanonet.Common.{
  ℕ, zero, suc, ◌+◌, Bool, true, false, Option, none, some, ℤ, pos, negsuc, leb, Outcome, ok,
  throws, if◌then◌else◌,
}
use nanonet.Server.{Thrown}

pub record Host : Type 1 where
  pub State : Type 0
  pub Acceptor : Type 0
  pub running : State → State × Bool
  -- `acceptor acc(params.bind_address, params.service, params.backlog)`
  pub make_acceptor : State → State × Outcome Thrown Acceptor
  -- `st()`, and the start of a thread for it.
  pub serve : State → Acceptor → State × Outcome Thrown (Unit {0})
  pub start_thread : State → Acceptor → State × Outcome Thrown (Unit {0})
  -- `sleep(params.listen_retry_time)`
  pub sleep : State → State

-- How the loop ends: a shutdown was requested first; the server was started, and in the foreground has
-- run until its shutdown; or the last exception is thrown again.
pub data Ending : Type 0 where
  not_started started : Ending
  gave_up : Thrown → Ending

pub record Parameters : Type 0 where
  pub n_listen_retries : ℤ
  pub background : Bool

module _ (host : Host) (params : Parameters) where
  open host use {State, Acceptor, running, make_acceptor, serve, start_thread, sleep}

  start_service : State × Outcome Thrown Acceptor → State × Outcome Thrown (Unit {0})
  start_service (s, throws e) = (s, throws e)
  start_service (s, ok acc) = if params.background then start_thread s acc else serve s acc

  -- The `try` block.
  pub try_start : State → State × Outcome Thrown (Unit {0})
  unfolding start_service
  try_start s = start_service (make_acceptor s)

  -- The `catch` block: `params.n_listen_retries < 0 or ++listen_retries <= params.n_listen_retries`.
  retry : (ℕ → State → Option (State × Ending)) → ℤ → ℕ → State → Thrown → Option (State × Ending)
  retry next (negsuc n) listen_retries s e = next listen_retries (sleep s)
  retry next (pos n) listen_retries s e =
      if leb (listen_retries + 1) n
      then next (listen_retries + 1) (sleep s)
      else some (s, gave_up e)

  tried :
      (ℕ → State → Option (State × Ending))
      → ℕ
      → State × Outcome Thrown (Unit {0})
      → Option (State × Ending)
  unfolding retry
  tried next listen_retries (s, ok tt) = some (s, started)
  tried next listen_retries (s, throws e) = retry next params.n_listen_retries listen_retries s e

  looked : (ℕ → State → Option (State × Ending)) → ℕ → State × Bool → Option (State × Ending)
  unfolding tried try_start
  looked next listen_retries (s, false) = some (s, not_started)
  looked next listen_retries (s, true) = tried next listen_retries (try_start s)

  -- The loop, with the rounds that it is given; `none`: they do not suffice.
  listen_rounds : ℕ → ℕ → State → Option (State × Ending)
  unfolding looked
  listen_rounds zero listen_retries s = none
  listen_rounds (suc n) listen_retries s =
      looked (λ retries s'. listen_rounds n retries s') listen_retries (running s)

  unfoldable pub listen : ℕ → State → Option (State × Ending)
  unfolding listen_rounds
  listen rounds s = listen_rounds rounds 0 s
