-- ===== src/Tests/Service.antt =====
-- A server that keeps the lines it is given, the newest first: `quit` ends a connection, `halt` shuts
-- the server down, and at `bad` the handler throws. Its port is free from the third attempt on.
use nanonet.Server.Manager.{created, run_server, ManagerResult, run_server-ManagerResult}
use nanonet.Common.{
  ℕ, ◌+◌, ◌≡◌, refl, arith, Bool, true, false, some, List, [], ◌∷◌, ◌++◌, Bytes, codes, equal, ltb,
  ◌⊎◌, ◌≤◌, if◌then◌else◌, pos, Outcome, ok, throws,
}
use nanonet.Server.{Thrown, shutdown_exception, exception, Input, Service, connection_thread}
use nanonet.Server.Framing.{unlines}
use nanonet.Server.Lines.{thread_state, connection_thread-thread_state}
use nanonet.Server.Ends.{connection_thread_ends}
use nanonet.Server.Listen.{Host, Parameters, listen}
use nanonet.Server.Listen.Retries.{LoopResult, listen-LoopResult}
use nanonet.Server.Threads.{
  ThreadEvent, server, connection, fine, timed_out, shut_down, failed, complete, new_server,
  run_threads, step, uncounted,
}
use nanonet.Server.Threads.Shutdown.{IsDown, run_threads-IsDown}
use nanonet.Server.Threads.Progress.{left, run_threads-CanEnd, SomeMoves}

abbrev reply : List Bytes × Bool → Bytes → (List Bytes × Bool) × Outcome Thrown Bool
reply (log, running) l = (
  (l ∷ log, running),
  if equal l (codes "quit")
      then ok false
      else if equal l (codes "halt")
      then throws (shutdown_exception l)
      else if equal l (codes "bad")
      then throws (exception l)
      else ok true,
)

abbrev service : Service
service = record {
  State = List Bytes × Bool;
  running = λ s. (s, s.1);
  shutdown = λ s. (s.0, false);
  set_up = λ s. (s, ok tt);
  welcome = some (λ s. (s, ok tt));
  handler = λ s l is. ((reply s l).0, is, (reply s l).1);
  max_line_length = 10;
  shutdown_wait_for_client_close = true;
}

abbrev lines : List Bytes
lines = codes "one" ∷ codes "" ∷ codes "halt" ∷ codes "two" ∷ []

shuts_down_run :
    connection_thread service
      ([], true)
      (record { rest = unlines lines ++ codes "rest"; good = true })
    ≡ some ((codes "halt" ∷ [] ∷ codes "one" ∷ [], false), record { rest = []; good = false })
unfolding connection_thread equal
shuts_down_run = refl

-- A line as long as the maximum is given to the handler with an empty line behind it.
full_line_run :
    connection_thread service ([], true) (record { rest = codes "0123456789\nx\n"; good = true })
    ≡ some ((codes "x" ∷ [] ∷ codes "0123456789" ∷ [], true), record { rest = []; good = false })
unfolding connection_thread equal
full_line_run = refl

connection_thread-thread_state_example :
    (is : Input) × (connection_thread service
        ([], true)
        (record { rest = unlines lines ++ codes "rest"; good = true })
      ≡ some (thread_state service reply lines (([], true), true) (([], true), ok tt), is))
connection_thread-thread_state_example =
    connection_thread-thread_state service reply (λ s l is. refl) lines (codes "rest") (omega arith)
      (omega arith) ([], true)

connection_thread_ends_example :
    (s : List Bytes × Bool) × (is : Input) × (connection_thread service
        ([], true)
        (record { rest = codes "0123456789ab"; good = true })
      ≡ some (s, is))
connection_thread_ends_example =
    connection_thread_ends service (λ s l is. omega arith) ([], true)
      (record { rest = codes "0123456789ab"; good = true })

abbrev host : Host
host = record {
  State = ℕ;
  Acceptor = ℕ;
  running = λ s. (s, true);
  make_acceptor = λ s. (s + 1, if ltb s 2 then throws (exception []) else ok s);
  serve = λ s a. (s, ok tt);
  start_thread = λ s a. (s, ok tt);
  sleep = λ s. s + 100;
}

abbrev two_retries : Parameters
two_retries = record { n_listen_retries = pos 2; background = false }

listen-LoopResult_example : LoopResult host two_retries (pos 2) 3 0 0 (listen host two_retries 3 0)
listen-LoopResult_example = listen-LoopResult host two_retries 3 0

-- Two connections, the second of which asks for the shutdown.
abbrev events : List ThreadEvent
events =
    server fine
    ∷ server fine
    ∷ server fine
    ∷ server fine
    ∷ server fine
    ∷ server fine
    ∷ connection 0 fine
    ∷ connection 1 fine
    ∷ server fine
    ∷ connection 1 shut_down
    ∷ server timed_out
    ∷ server fine
    ∷ connection 0 timed_out
    ∷ server fine
    ∷ []

abbrev endings : List ThreadEvent
endings =
    connection 0 fine ∷ connection 1 failed ∷ server fine ∷ connection 1 fine ∷ server fine ∷ []

counted_run : (run_threads events new_server).connections_current ≡ 2
unfolding run_threads
counted_run = refl

run_threads-IsDown_example :
    IsDown (run_threads (events ++ endings) new_server)
    × IsDown (run_threads (connection 0 fine ∷ []) (run_threads (events ++ endings) new_server))
    × ((run_threads
          (connection 0 fine ∷ [])
          (run_threads (events ++ endings) new_server)).connections_total
        ≡ (run_threads (events ++ endings) new_server).connections_total)
run_threads-IsDown_example =
    run_threads-IsDown (events ++ endings) (connection 0 fine ∷ []) (unfold run_threads in refl)

run_threads-CanEnd_example :
    (((run_threads events new_server).phase ≡ complete) ⊎ SomeMoves (run_threads events new_server))
    × ((step (connection 0 fine) (run_threads events new_server)).running ≡ false)
    × (left (step (connection 0 fine) (run_threads events new_server))
        ≤ left (run_threads events new_server))
run_threads-CanEnd_example =
    run_threads-CanEnd events (connection 0 fine) (unfold run_threads in refl)

-- The shutdown is complete, and both connections are still open.
open_at_end : (run_threads (events ++ endings) new_server).connections ≡ uncounted ∷ uncounted ∷ []
unfolding run_threads
open_at_end = refl

-- In the background, without a stream to log to.
abbrev in_background : Parameters
in_background = record { n_listen_retries = pos 2; background = true }

abbrev no_stdio : ℕ → ℕ × Outcome Thrown (Unit {0})
no_stdio s = (s, ok tt)

logs_to_destroyed :
    run_server host in_background no_stdio false false 3 0
    ≡ some (102, ok (record { logstream = some created; joinable = true }))
unfolding run_server listen
logs_to_destroyed = refl

run_server-ManagerResult_example :
    ManagerResult host in_background no_stdio false false
      (listen host in_background 3 0)
      (run_server host in_background no_stdio false false 3 0)
run_server-ManagerResult_example =
    run_server-ManagerResult host in_background no_stdio false false 3 0
