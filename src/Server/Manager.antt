-- ===== src/Server/Manager.antt =====
-- `run_server` of src/sys/server.cpp as a whole, and the server_manager that it returns, with the stream
-- that it logs to. A stream is that of the caller, the standard output, or the syslogger that
-- `run_server` creates and destroys when it returns.
use nanonet.Common.{
  ℕ, ◌≡◌, ◌↔◌, refl, Bool, true, false, Option, none, some, List, [], ◌∷◌, ◌++◌, Outcome, ok,
  throws, if◌then◌else◌,
}
use nanonet.Server.{Thrown}
use nanonet.Server.Listen.{Host, Parameters, Ending, not_started, started, gave_up, listen}

pub data LogStream : Type 0 where
  callers standard_output created : LogStream

pub record ServerManager : Type 0 where
  pub logstream : Option LogStream
  -- `thread_.joinable()`
  pub joinable : Bool

pub data ManagerEvent : Type 0 where
  logs_to : LogStream → ManagerEvent
  joins : ManagerEvent

if_given : Option LogStream → List ManagerEvent
if_given none = []
if_given (some stream) = logs_to stream ∷ []

-- `~server_manager()`: what it logs to, and whether it waits for the thread.
unfoldable pub finish_manager : ServerManager → List ManagerEvent
unfolding if_given
finish_manager m = if m.joinable then if_given m.logstream ++ (joins ∷ if_given m.logstream) else []

abbrev pub waits : List ManagerEvent → Bool
waits [] = false
waits (joins ∷ events) = true
waits (logs_to stream ∷ events) = waits events

-- Of the stream that `run_server` has destroyed.
abbrev pub uses_destroyed : List ManagerEvent → Bool
uses_destroyed [] = false
uses_destroyed (logs_to created ∷ events) = true
uses_destroyed (logs_to callers ∷ events) = uses_destroyed events
uses_destroyed (logs_to standard_output ∷ events) = uses_destroyed events
uses_destroyed (joins ∷ events) = uses_destroyed events

module _ (host : Host) (params : Parameters)
    (handle_stdio : host.State → host.State × Outcome Thrown (Unit {0})) where
  open host use {State}

  -- What is returned behind the loop, and from it with the thread in the background.
  managed : LogStream → State × Ending → State × Outcome Thrown ServerManager
  managed sl (s, not_started) = (s, ok (record { logstream = some sl; joinable = false }))
  managed sl (s, started) = (s, ok (record { logstream = some sl; joinable = params.background }))
  managed sl (s, gave_up e) = (s, throws e)

  listened : LogStream → Option (State × Ending) → Option (State × Outcome Thrown ServerManager)
  unfolding managed
  listened sl none = none
  listened sl (some r) = some (managed sl r)

  -- In the test mode both exceptions are logged and not thrown again.
  after_stdio :
      Bool → State × Outcome Thrown (Unit {0}) → Option (State × Outcome Thrown ServerManager)
  after_stdio has_stream (s, outcome) = some (
    s,
    ok (record {
      logstream = some (if has_stream then callers else standard_output);
      joinable = false;
    }),
  )

  -- Whether the service is `test:stdio`, whether the caller gives a stream, and the rounds of the loop;
  -- `none`: they do not suffice.
  unfoldable pub run_server :
      Bool → Bool → ℕ → State → Option (State × Outcome Thrown ServerManager)
  unfolding after_stdio listened listen
  run_server test_mode has_stream rounds s =
      let stream = if has_stream then callers else created in
      let tested = after_stdio has_stream (handle_stdio s) in
      let listening = listened stream (listen host params rounds s) in
      if test_mode then tested else listening

  -- What the destructor of the manager does.
  abbrev pub ManagerResult :
      Bool → Bool → Option (State × Ending) → Option (State × Outcome Thrown ServerManager) → Type 0
  ManagerResult test_mode has_stream ended none = ended ≡ none
  ManagerResult test_mode has_stream ended (some (s', throws e)) = ended ≡ some (s', gave_up e)
  ManagerResult test_mode has_stream ended (some (s', ok m)) =
      ((waits (finish_manager m) ≡ true)
        ↔ ((test_mode ≡ false) × (params.background ≡ true) × (ended ≡ some (s', started))))
      × ((uses_destroyed (finish_manager m) ≡ true)
          ↔ ((waits (finish_manager m) ≡ true) × (has_stream ≡ false)))

  manager_of : LogStream → Bool → ServerManager
  manager_of sl joinable = record { logstream = some sl; joinable = joinable }

  -- A manager without a thread does nothing.
  idle_result :
      (test_mode has_stream : Bool) (s : State) (ended : Option (State × Ending)) (sl : LogStream)
      → ((test_mode ≡ false) → (ended ≡ some (s, started)) → ⊥)
      → ManagerResult test_mode has_stream ended (some (s, ok (manager_of sl false)))
  unfolding finish_manager manager_of
  idle_result test_mode has_stream s ended sl never = (
    ((λ h. absurd (cc h)), (λ (t, b, e). absurd (never t e))),
    ((λ h. absurd (cc h)), (λ (w, g). absurd (cc w))),
  )

  started_result :
      (has_stream background : Bool) (s : State)
      → params.background ≡ background
      → ManagerResult false has_stream
          (some (s, started))
          (some (s, ok (manager_of (if has_stream then callers else created) background)))
  unfolding finish_manager manager_of if_given
  started_result true true s b =
      (((λ h. (refl, b, refl)), (λ h. refl)), ((λ h. absurd (cc h)), (λ (w, g). absurd (cc g))))
  started_result false true s b =
      (((λ h. (refl, b, refl)), (λ h. refl)), ((λ h. (refl, refl)), (λ h. refl)))
  started_result has_stream false s b = (
    ((λ h. absurd (cc h)), (λ (t, back, e). absurd (cc (b, back)))),
    ((λ h. absurd (cc h)), (λ (w, g). absurd (cc w))),
  )

  of_listen :
      (has_stream : Bool) (ended : Option (State × Ending))
      → ManagerResult false has_stream ended
          (listened (if has_stream then callers else created) ended)
  unfolding listened managed manager_of
  of_listen has_stream none = refl
  of_listen has_stream (some (s, gave_up e)) = refl
  of_listen has_stream (some (s, not_started)) =
      idle_result false has_stream s (some (s, not_started)) _ (λ t e. cc e)
  of_listen has_stream (some (s, started)) = started_result has_stream params.background s refl

  -- Where the loop of `run_server` has the rounds that it needs: the manager that it returns waits for a
  -- thread exactly when the server was started in the background, outside the test mode. Its destructor
  -- then logs to the syslogger that `run_server` has destroyed, exactly when the caller has given no
  -- stream to log to. `run_server` throws only what the loop has given up on.
  pub run_server-ManagerResult :
      (test_mode has_stream : Bool) (rounds : ℕ) (s : State)
      → ManagerResult test_mode has_stream
          (listen host params rounds s)
          (run_server test_mode has_stream rounds s)
  unfolding run_server after_stdio manager_of
  run_server-ManagerResult true has_stream rounds s =
      idle_result true has_stream (handle_stdio s).0 (listen host params rounds s) _ (λ t e. cc t)
  run_server-ManagerResult false has_stream rounds s =
      of_listen has_stream (listen host params rounds s)
