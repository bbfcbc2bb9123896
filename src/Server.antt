-- ===== src/Server.antt =====
-- The server of src/sys/server.cpp and include/nanonet/sys/server.h. This file has a connection: its
-- loop over lines, and its thread. The handler, the welcome message and the set-up of the streams are
-- parameters, with one state that stands for all that they use and for the other threads.
pub mod Framing
pub mod Lines
pub mod Listen
pub mod Manager
pub mod Threads
pub mod Ends
use nanonet.Common.{
  ℕ, zero, suc, ◌+◌, Bool, true, false, Option, none, some, [], ◌∷◌, Bytes, length, if◌then◌else◌,
  Outcome, ok, throws,
}
use nanonet.Text.{getline}

-- What escapes from a handler.
pub data Thrown : Type 0 where
  shutdown_exception : Bytes → Thrown
  exception : Bytes → Thrown
  assertion_failure : Thrown

-- A stream for input: the characters left, and whether it is in a good state.
pub record Input : Type 0 where
  pub rest : Bytes
  pub good : Bool

pub record Service : Type 1 where
  pub State : Type 0
  -- `running.running()`, as it is when it is asked.
  pub running : State → State × Bool
  -- `running.shutdown()`
  pub shutdown : State → State
  -- The constructors of `instream` and `onstream`.
  pub set_up : State → State × Outcome Thrown (Unit {0})
  -- `none`: there is no welcome message.
  pub welcome : Option (State → State × Outcome Thrown (Unit {0}))
  -- `handler(line, is, os, sl, status)`, which may read on.
  pub handler : State → Bytes → Input → State × Input × Outcome Thrown Bool
  pub max_line_length : ℕ
  pub shutdown_wait_for_client_close : Bool

-- `getline(is, line, maxsize)`; `none`: the stream is left in a state that ends the loop.
got : Option (Bytes × Bytes × Bool) → Outcome Thrown (Input × Option Bytes)
got none = throws assertion_failure
got (some (line, rest, true)) = ok (record { rest = rest; good = false }, none)
got (some (line, rest, false)) = ok (record { rest = rest; good = true }, some line)

pub read_next : ℕ → Input → Outcome Thrown (Input × Option Bytes)
unfolding got getline
read_next zero is = throws assertion_failure
read_next (suc n) is = if is.good then got (getline (suc n) is.rest) else ok (is, none)

-- `char c = 0; while (is.get(c)) {}`
get_all : Bytes → Bytes
get_all [] = []
get_all (c ∷ cs) = get_all cs

pub drain : Input → Input
unfolding get_all
drain is = if is.good then record { rest = get_all is.rest; good = false } else is

-- How a connection's loop ends: with the streams' state, by its end or an exception. `none`: the model
-- gave it too few rounds.
abbrev pub Served : Type 0 → Type 0
Served State = Option (State × Input × Outcome Thrown (Unit {0}))

module _ (service : Service) where
  open service use {State, running, shutdown, set_up, welcome, handler, max_line_length}

  -- The body of the loop, from behind the call of the handler back to its start.
  handled : (State → Input → Served State) → State × Input × Outcome Thrown Bool → Served State
  handled next (s, is, ok true) = next s is
  handled next (s, is, ok false) = some (s, is, ok tt)
  handled next (s, is, throws e) = some (s, is, throws e)

  with_line :
      (State → Input → Served State)
      → State
      → Input
      → Outcome Thrown (Input × Option Bytes)
      → Served State
  unfolding handled
  with_line next s is (throws e) = some (s, is, throws e)
  with_line next s is (ok (is', none)) = some (s, is', ok tt)
  with_line next s is (ok (is', some line)) = handled next (handler s line is')

  tested : (State → Input → Served State) → Input → State × Bool → Served State
  unfolding with_line read_next
  tested next is (s, false) = some (s, is, ok tt)
  tested next is (s, true) = with_line next s is (read_next max_line_length is)

  pub serve_rounds : ℕ → State → Input → Served State
  unfolding tested
  serve_rounds zero s is = none
  serve_rounds (suc n) s is = tested (λ s' is'. serve_rounds n s' is') is (running s)

  welcomed : Input → State × Outcome Thrown (Unit {0}) → Served State
  unfolding serve_rounds
  welcomed is (s, ok tt) = serve_rounds (length is.rest + 2) s is
  welcomed is (s, throws e) = some (s, is, throws e)

  pub greet :
      Option (State → State × Outcome Thrown (Unit {0})) → State → State × Outcome Thrown (Unit {0})
  greet none s = (s, ok tt)
  greet (some write) s = write s

  unfoldable pub handle_connection : State → Input → Served State
  unfolding welcomed greet
  handle_connection s is = welcomed is (greet welcome s)

  -- The `catch` clauses of `connection_thread::operator()`.
  caught : State → Input → Thrown → State × Input
  unfolding drain
  caught s is (shutdown_exception what) =
      (shutdown s, if service.shutdown_wait_for_client_close then drain is else is)
  caught s is (exception what) = (s, is)
  caught s is assertion_failure = (s, is)

  after_loop : Served State → Option (State × Input)
  unfolding caught
  after_loop none = none
  after_loop (some (s, is, ok tt)) = some (s, is)
  after_loop (some (s, is, throws e)) = some (caught s is e)

  with_streams : Input → State × Outcome Thrown (Unit {0}) → Option (State × Input)
  unfolding after_loop handle_connection
  with_streams is (s, ok tt) = after_loop (handle_connection s is)
  with_streams is (s, throws e) = some (s, is)

  begun : Input → State × Bool → Option (State × Input)
  unfolding with_streams
  begun is (s, false) = some (s, is)
  begun is (s, true) = with_streams is (set_up s)

  -- `connection_thread::operator()`; no exception leaves it.
  unfoldable pub connection_thread : State → Input → Option (State × Input)
  unfolding begun
  connection_thread s is = begun is (running s)
