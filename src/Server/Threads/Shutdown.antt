-- ===== src/Server/Threads/Shutdown.antt =====
-- What holds when a server of src/sys/server.cpp has shut down.
use nanonet.Common.{
  ℕ, ◌≡◌, refl, ◌∙◌, arith, false, List, [], ◌∷◌, ◌++◌, All, ◌⊎◌, inl, inr, zero, suc,
}
use nanonet.Server.Threads.{
  complete, Connection, begun, serving, closing, returned, uncounted, gone, Reply, ThreadEvent,
  server, connection, request_shutdown, Server, new_server, server_step, moved, step, run_threads,
}
use nanonet.Server.Threads.Counting.{
  holds, live, Settled, IsSound, run_threads-IsSound, run_threads-IsSound_of,
}

-- A thread that has given its count_sentry back: all that is left of it is to close the connection.
abbrev pub IsPast : Connection → Type 0
IsPast t = (t ≡ uncounted) ⊎ (t ≡ gone)

only-IsPast : (ts : List Connection) → live ts ≡ 0 → All IsPast ts
unfolding live holds
only-IsPast [] h = tt
only-IsPast (begun ∷ ts) h = absurd (omega arith)
only-IsPast (serving ∷ ts) h = absurd (omega arith)
only-IsPast (closing ∷ ts) h = absurd (omega arith)
only-IsPast (returned ∷ ts) h = absurd (omega arith)
only-IsPast (uncounted ∷ ts) h = (inl refl, only-IsPast ts (omega arith))
only-IsPast (gone ∷ ts) h = (inr refl, only-IsPast ts (omega arith))

-- The server has shut down: it is not to run, its thread is at its end, the threads of all of its
-- connections have left `operator()` and given their count_sentries back, and none is counted.
pub record IsDown (s : Server) : Type 0 where
  pub off : s.running ≡ false
  pub ended : s.phase ≡ complete
  pub none_serving : All IsPast s.connections
  pub none_counted : s.connections_current ≡ 0

IsSound-IsDown : (s : Server) → s.phase ≡ complete → IsSound s → IsDown s
IsSound-IsDown s e v =
    let (off, none) : Settled complete s.running s.connections_current = rw e at v.settled in
    record {
      off = off;
      ended = e;
      none_serving = only-IsPast s.connections (omega (arith, v.counted));
      none_counted = none;
    }

-- The end of the server thread stays, and no connection is accepted behind it.
abbrev AtEnd : Server → Server → Type 0
AtEnd s s' = (s'.phase ≡ complete) × (s'.connections_total ≡ s.connections_total)

moved-AtEnd :
    (i : ℕ) (r : Reply) (s : Server) (before ts : List Connection)
    → s.phase ≡ complete
    → AtEnd s (moved i r s before ts)
unfolding moved
moved-AtEnd i r s before [] e = (e, refl)
moved-AtEnd zero r s before (t ∷ ts) e = (e, refl)
moved-AtEnd (suc i) r s before (t ∷ ts) e = moved-AtEnd i r s (before ++ t ∷ []) ts e

step-AtEnd : (e : ThreadEvent) (s : Server) → s.phase ≡ complete → AtEnd s (step e s)
unfolding step
step-AtEnd (server r) s h = rw h (unfold server_step in (refl, refl))
step-AtEnd (connection i r) s h = moved-AtEnd i r s [] s.connections h
step-AtEnd request_shutdown s h = (h, refl)

run_threads-AtEnd :
    (es : List ThreadEvent) (s : Server) → s.phase ≡ complete → AtEnd s (run_threads es s)
unfolding run_threads
run_threads-AtEnd [] s h = (h, refl)
run_threads-AtEnd (e ∷ es) s h =
    let (still, same) = step-AtEnd e s h in
    let (last, all) = run_threads-AtEnd es (step e s) still in (last, all ∙ same)

-- When the server thread has said that the shutdown is complete, then a shutdown had been requested,
-- and the threads of all connections that it has accepted have left `operator()` and given their
-- count_sentries back; one of them may still have its connection to close. That stays so, and no
-- connection is accepted any more, whatever comes. Before that the threads have taken their steps in
-- any order, and their calls have ended in any way.
pub run_threads-IsDown :
    (es more : List ThreadEvent)
    → (run_threads es new_server).phase ≡ complete
    → IsDown (run_threads es new_server)
      × IsDown (run_threads more (run_threads es new_server))
      × ((run_threads more (run_threads es new_server)).connections_total
          ≡ (run_threads es new_server).connections_total)
run_threads-IsDown es more e =
    let s = run_threads es new_server in
    let sound = run_threads-IsSound es in
    let (still, same) = run_threads-AtEnd more s e in
    (
      IsSound-IsDown s e sound,
      IsSound-IsDown (run_threads more s) still (run_threads-IsSound_of more s sound),
      same,
    )
