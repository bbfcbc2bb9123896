-- ===== src/Server/Threads.antt =====
-- `server_thread::operator()` of src/sys/server.cpp beside the threads of its connections, as steps in
-- any order. A step of the server thread, or of a connection's, goes from one place where it looks at
-- or changes what the threads share to the next.

pub mod Counting
pub mod Shutdown
pub mod Progress
use nanonet.Common.{
  ℕ, zero, suc, ◌+◌, ◌-◌, Bool, true, false, List, [], ◌∷◌, ◌++◌, ◌==◌, if◌then◌else◌,
}

-- Where the server thread stands: before the test of its loop, in `accept`, behind the construction of
-- the `connection_thread` with its count_sentry, before the look at the count, and at its end.
pub data Phase : Type 0 where
  checking accepting starting waiting complete : Phase

-- Where the thread of a connection stands: before its look at the flag, before the test of its loop,
-- waiting for the client to close, behind `operator()`, behind the destructor of its count_sentry, and
-- behind that of its `c`, which closes the connection: `sentry` is declared behind `c`, so it goes first.
pub data Connection : Type 0 where
  begun serving closing returned uncounted gone : Connection

-- How the call that a thread is in ends: as hoped, by a timeout or the end of the connection, by a
-- shutdown_exception, or by another.
pub data Reply : Type 0 where
  fine timed_out shut_down failed : Reply

pub data ThreadEvent : Type 0 where
  server : Reply → ThreadEvent
  connection : ℕ → Reply → ThreadEvent
  -- `shutdown()` of the flag from elsewhere.
  request_shutdown : ThreadEvent

pub record Server : Type 0 where
  pub running : Bool
  pub phase : Phase
  pub connections_current : ℕ
  pub connections_total : ℕ
  -- The detached threads, in the order of their start.
  pub connections : List Connection

abbrev pub new_server : Server
new_server = record {
  running = true;
  phase = checking;
  connections_current = 0;
  connections_total = 0;
  connections = [];
}

-- A step of the server thread. Starting the thread may fail, and then the count_sentry goes with it.
server_step : Phase → Reply → Server → Server
server_step checking r s = record s { phase = if s.running then accepting else waiting }
server_step accepting fine s = record s {
  phase = starting;
  connections_current = s.connections_current + 1;
  connections_total = s.connections_total + 1;
}
server_step accepting timed_out s = record s { phase = checking }
server_step accepting shut_down s = record s { phase = checking }
server_step accepting failed s = record s { phase = checking }
server_step starting fine s = record s {
  phase = checking;
  connections = s.connections ++ begun ∷ [];
}
server_step starting timed_out s = record s {
  phase = checking;
  connections_current = s.connections_current - 1;
}
server_step starting shut_down s = record s {
  phase = checking;
  connections_current = s.connections_current - 1;
}
server_step starting failed s = record s {
  phase = checking;
  connections_current = s.connections_current - 1;
}
server_step waiting r s = record s {
  phase = if s.connections_current == 0 then complete else waiting;
}
server_step complete r s = s

-- A step of a connection's thread: where it stands then, when the flag is as given. The end of the
-- connection, by a timeout or otherwise, and every exception end its loop.
connection_step : Bool → Reply → Connection → Connection
connection_step running r begun = if running then serving else returned
connection_step running fine serving = if running then serving else returned
connection_step running shut_down serving = closing
connection_step running timed_out serving = returned
connection_step running failed serving = returned
connection_step running fine closing = closing
connection_step running timed_out closing = returned
connection_step running shut_down closing = returned
connection_step running failed closing = returned
connection_step running r returned = uncounted
connection_step running r uncounted = gone
connection_step running r gone = gone

-- The destructor of the count_sentry is reached from here.
leaves : Connection → Bool
leaves returned = true
leaves _ = false

-- The handler throws a shutdown_exception here.
shuts_down : Reply → Connection → Bool
shuts_down shut_down serving = true
shuts_down _ _ = false

-- The thread with a number moves; there may be none.
moved : ℕ → Reply → Server → List Connection → List Connection → Server
unfolding connection_step leaves shuts_down
moved i r s before [] = s
moved zero r s before (t ∷ ts) = record s {
  running = if shuts_down r t then false else s.running;
  connections_current = if leaves t then s.connections_current - 1 else s.connections_current;
  connections = before ++ connection_step s.running r t ∷ ts;
}
moved (suc i) r s before (t ∷ ts) = moved i r s (before ++ t ∷ []) ts

unfoldable pub step : ThreadEvent → Server → Server
unfolding server_step moved
step (server r) s = server_step s.phase r s
step (connection i r) s = moved i r s [] s.connections
step request_shutdown s = record s { running = false }

-- The oldest event comes first.
unfoldable pub run_threads : List ThreadEvent → Server → Server
unfolding step
run_threads [] s = s
run_threads (e ∷ es) s = run_threads es (step e s)
