-- ===== src/Server/Lines.antt =====
-- What the loop of a connection in src/sys/server.cpp gives to its handler, and that it ends.
use nanonet.Common.{
  ℕ, zero, suc, ◌+◌, ◌≤◌, ◌<◌, ◌≡◌, refl, arith, Bool, true, false, some, List, [], ◌∷◌, ◌++◌,
  append_assoc, Bytes, length, length-append, All, Outcome, ok, throws,
}
use nanonet.Server.{
  Thrown, shutdown_exception, exception, assertion_failure, Input, Service, handled, with_line,
  tested, serve_rounds, welcomed, greet, handle_connection, after_loop, with_streams, begun, caught,
  connection_thread, Served,
}
use nanonet.Server.Framing.{unlines, IsLine, stream, read_next-line, read_next-partial}

module _ (service : Service) where
  open service use {State, running, shutdown, set_up, welcome, handler, max_line_length}

  -- A shutdown_exception shuts the server down, and no other does.
  unfoldable pub finished : State × Outcome Thrown (Unit {0}) → State
  finished (s, ok tt) = s
  finished (s, throws (shutdown_exception what)) = shutdown s
  finished (s, throws (exception what)) = s
  finished (s, throws assertion_failure) = s

  after_loop-finished :
      (r : State × Outcome Thrown (Unit {0})) (served : Served State) (is : Input)
      → served ≡ some (r.0, is, r.1)
      → (is' : Input) × (after_loop service served ≡ some (finished r, is'))
  unfolding after_loop finished caught
  after_loop-finished (s, ok tt) served is e = rw e (_, refl)
  after_loop-finished (s, throws (shutdown_exception what)) served is e = rw e (_, refl)
  after_loop-finished (s, throws (exception what)) served is e = rw e (_, refl)
  after_loop-finished (s, throws assertion_failure) served is e = rw e (_, refl)

  module _ (reply : State → Bytes → State × Outcome Thrown Bool) where
    answered :
        (State → State × Outcome Thrown (Unit {0}))
        → State × Outcome Thrown Bool
        → State × Outcome Thrown (Unit {0})
    answered next (s, ok true) = next s
    answered next (s, ok false) = (s, ok tt)
    answered next (s, throws e) = (s, throws e)

    asked :
        (State → State × Outcome Thrown (Unit {0}))
        → Bytes
        → State × Bool
        → State × Outcome Thrown (Unit {0})
    unfolding answered
    asked next l (s, false) = (s, ok tt)
    asked next l (s, true) = answered next (reply s l)

    -- What becomes of the state when lines are handled one after the other, until the server is to
    -- stop, the handler returns false or throws, or there are none left.
    unfoldable pub serve : List Bytes → State → State × Outcome Thrown (Unit {0})
    unfolding asked
    serve [] s = ((running s).0, ok tt)
    serve (l ∷ ls) s = asked (λ s'. serve ls s') l (running s)

    -- A loop ends with a state and an outcome, wherever its stream stands.
    abbrev pub Ends : State × Outcome Thrown (Unit {0}) → Served State → Type 0
    Ends r served = (is : Input) × (served ≡ some (r.0, is, r.1))

    -- What becomes of the state at the welcome message and behind it.
    abbrev pub greeted :
        List Bytes → State × Outcome Thrown (Unit {0}) → State × Outcome Thrown (Unit {0})
    greeted ls (s, ok tt) = serve ls s
    greeted ls (s, throws e) = (s, throws e)

    -- What becomes of the state in a thread that is to serve these lines.
    unfoldable pub thread_state :
        List Bytes → State × Bool → State × Outcome Thrown (Unit {0}) → State
    thread_state ls (s, false) set_up_result = s
    thread_state ls (s, true) (s', throws e) = s'
    thread_state ls (s, true) (s', ok tt) = finished (greeted ls (greet service welcome s'))

    module _
        (reads_nothing : (s : State) (l : Bytes) (is : Input)
          → handler s l is ≡ ((reply s l).0, is, (reply s l).1)) where
      handled-Ends :
          (next : State → Input → Served State) (after : State → State × Outcome Thrown (Unit {0}))
          (is : Input) (r : State × Outcome Thrown Bool)
          → ((s : State) → Ends (after s) (next s is))
          → Ends (answered after r) (handled service next (r.0, is, r.1))
      unfolding handled answered
      handled-Ends next after is (s, ok true) h = h s
      handled-Ends next after is (s, ok false) h = (is, refl)
      handled-Ends next after is (s, throws e) h = (is, refl)

      tested-Ends :
          (next : State → Input → Served State) (after : State → State × Outcome Thrown (Unit {0}))
          (l rest : Bytes) (r : State × Bool)
          → IsLine max_line_length l
          → ((s : State) → Ends (after s) (next s (stream rest)))
          → Ends (asked after l r) (tested service next (stream (l ++ b'\n' ∷ rest)) r)
      unfolding tested asked with_line
      tested-Ends next after l rest (s, false) line h = (_, refl)
      tested-Ends next after l rest (s, true) line h =
          rw (read_next-line max_line_length l rest line, reads_nothing s l (stream rest))
            (handled-Ends next after (stream rest) (reply s l) h)

      tested-partial :
          (next : State → Input → Served State) (l : Bytes) (r : State × Bool)
          → IsLine max_line_length l
          → Ends (r.0, ok tt) (tested service next (stream l) r)
      unfolding tested with_line
      tested-partial next l (s, false) line = (_, refl)
      tested-partial next l (s, true) line = rw (read_next-partial max_line_length l line) (_, refl)

      serve_rounds-serve :
          (n : ℕ) (ls : List Bytes) (partial : Bytes)
          → length ls < n
          → All (IsLine max_line_length) ls
          → IsLine max_line_length partial
          → (s : State)
          → Ends (serve ls s) (serve_rounds service n s (stream (unlines ls ++ partial)))
      unfolding serve_rounds serve
      serve_rounds-serve zero ls partial enough lines last s = absurd (omega arith)
      serve_rounds-serve (suc n) [] partial enough lines last s =
          tested-partial (λ s' is'. serve_rounds service n s' is') partial (running s) last
      serve_rounds-serve (suc n) (l ∷ ls) partial enough (line, lines) last s =
          rw (append_assoc l (b'\n' ∷ unlines ls) partial) (
            tested-Ends (λ s' is'. serve_rounds service n s' is') (λ s'. serve ls s') l
              (unlines ls ++ partial) (running s) line
              (serve_rounds-serve n ls partial (omega arith) lines last))

      fewer_lines : (ls : List Bytes) → length ls ≤ length (unlines ls)
      fewer_lines [] = omega arith
      fewer_lines (l ∷ ls) = omega (arith, length-append l (b'\n' ∷ unlines ls), fewer_lines ls)

      welcomed-Ends :
          (ls : List Bytes) (partial : Bytes)
          → All (IsLine max_line_length) ls
          → IsLine max_line_length partial
          → (r : State × Outcome Thrown (Unit {0}))
          → Ends (greeted ls r) (welcomed service (stream (unlines ls ++ partial)) r)
      unfolding welcomed
      welcomed-Ends ls partial lines last (s, throws e) = (_, refl)
      welcomed-Ends ls partial lines last (s, ok tt) =
          serve_rounds-serve (length (unlines ls ++ partial) + 2) ls partial
            (omega (arith, fewer_lines ls, length-append (unlines ls) partial)) lines last s

      handle_connection-Ends :
          (ls : List Bytes) (partial : Bytes)
          → All (IsLine max_line_length) ls
          → IsLine max_line_length partial
          → (s : State)
          → Ends
              (greeted ls (greet service welcome s))
              (handle_connection service s (stream (unlines ls ++ partial)))
      unfolding handle_connection
      handle_connection-Ends ls partial lines last s =
          welcomed-Ends ls partial lines last (greet service welcome s)

      with_streams-thread_state :
          (ls : List Bytes) (partial : Bytes)
          → All (IsLine max_line_length) ls
          → IsLine max_line_length partial
          → (s : State) (r : State × Outcome Thrown (Unit {0}))
          → (is : Input) × (with_streams service (stream (unlines ls ++ partial)) r
              ≡ some (thread_state ls (s, true) r, is))
      unfolding with_streams thread_state
      with_streams-thread_state ls partial lines last s (s', throws e) = (_, refl)
      with_streams-thread_state ls partial lines last s (s', ok tt) =
          let (is, served) = handle_connection-Ends ls partial lines last s' in
          after_loop-finished (greeted ls (greet service welcome s')) _ is served

      begun-thread_state :
          (ls : List Bytes) (partial : Bytes)
          → All (IsLine max_line_length) ls
          → IsLine max_line_length partial
          → (r : State × Bool)
          → (is : Input) × (begun service (stream (unlines ls ++ partial)) r
              ≡ some (thread_state ls r (set_up r.0), is))
      unfolding begun thread_state
      begun-thread_state ls partial lines last (s, false) = (_, refl)
      begun-thread_state ls partial lines last (s, true) =
          with_streams-thread_state ls partial lines last s (set_up s)

      -- The thread of a connection ends, and it has handed its handler the lines of the input, each
      -- without its newline, one after the other and nothing else, until the server was to stop or the
      -- handler returned false or threw; a text behind the last newline is not handed over. A
      -- shutdown_exception of the handler or the welcome message shuts the server down, and no other
      -- exception does. This holds of a handler that reads nothing by itself, and of lines shorter than
      -- the maximum.
      pub connection_thread-thread_state :
          (ls : List Bytes) (partial : Bytes)
          → All (IsLine max_line_length) ls
          → IsLine max_line_length partial
          → (s : State)
          → (is : Input) × (connection_thread service s (stream (unlines ls ++ partial))
              ≡ some (thread_state ls (running s) (set_up (running s).0), is))
      unfolding connection_thread
      connection_thread-thread_state ls partial lines last s =
          begun-thread_state ls partial lines last (running s)
