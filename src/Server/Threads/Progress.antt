-- ===== src/Server/Threads/Progress.antt =====
-- That a server of src/sys/server.cpp that is not to run any more comes to its end.
use nanonet.Common.{
  ℕ, zero, suc, ◌+◌, ◌≤◌, ◌<◌, ◌≡◌, refl, sym, ap, ◌∙◌, arith, false, List, [], ◌∷◌, ◌++◌,
  append_assoc, ◌==◌, ==_iff, Bool-cases, inl, inr, ◌⊎◌, get_elem?, some, ◌≢◌,
}
use nanonet.Server.Threads.{
  Phase, checking, accepting, starting, waiting, complete, Connection, begun, serving, closing,
  returned, uncounted, gone, Reply, fine, timed_out, shut_down, failed, ThreadEvent, server,
  connection, request_shutdown, Server, new_server, server_step, connection_step, moved, step,
  run_threads,
}
use nanonet.Server.Threads.Counting.{holds, live, pending, IsSound, run_threads-IsSound}

-- How many steps a thread has still before it, at most.
weight : Connection → ℕ
weight begun = 3
weight serving = 4
weight closing = 3
weight returned = 2
weight uncounted = 1
weight gone = 0

weights : List Connection → ℕ
unfolding weight
weights [] = 0
weights (t ∷ ts) = weight t + weights ts

phase_weight : Phase → ℕ
phase_weight complete = 0
phase_weight waiting = 1
phase_weight checking = 2
phase_weight starting = 6
phase_weight accepting = 7

-- What is left to do until the end, when the server is not to run.
pub left : Server → ℕ
unfolding weights phase_weight
left s = phase_weight s.phase + weights s.connections

weights-append : (xs ys : List Connection) → weights (xs ++ ys) ≡ weights xs + weights ys
unfolding weights
weights-append [] ys = omega arith
weights-append (x ∷ xs) ys = omega (arith, weights-append xs ys)

connection_step-weight :
    (r : Reply) (t : Connection) → weight (connection_step false r t) ≤ weight t
unfolding connection_step weight
connection_step-weight r begun = omega arith
connection_step-weight fine serving = omega arith
connection_step-weight shut_down serving = omega arith
connection_step-weight timed_out serving = omega arith
connection_step-weight failed serving = omega arith
connection_step-weight fine closing = omega arith
connection_step-weight shut_down closing = omega arith
connection_step-weight timed_out closing = omega arith
connection_step-weight failed closing = omega arith
connection_step-weight r returned = omega arith
connection_step-weight r uncounted = omega arith
connection_step-weight r gone = omega arith

-- What the steps leave of the flag and of what is left to do.
abbrev Nearer : Server → Server → Type 0
Nearer s s' = (s'.running ≡ false) × (left s' ≤ left s)

moved-Nearer :
    (i : ℕ) (r : Reply) (s : Server) (before ts : List Connection)
    → s.connections ≡ before ++ ts
    → s.running ≡ false
    → Nearer s (moved i r s before ts)
unfolding moved
moved-Nearer i r s before [] e off = (off, omega arith)
moved-Nearer (suc i) r s before (t ∷ ts) e off =
    moved-Nearer i r s (before ++ t ∷ []) ts (e ∙ sym (append_assoc before (t ∷ []) ts)) off
moved-Nearer zero r s before (t ∷ ts) e off = (
  ground (arith, off),
  unfold left weights in
      ground (
        arith,
        ap weights e,
        weights-append before (t ∷ ts),
        weights-append before (connection_step s.running r t ∷ ts),
        rw (sym off) at (connection_step-weight r t),
      ),
)

server_step-Nearer :
    (p : Phase) (r : Reply) (s : Server)
    → s.phase ≡ p
    → s.running ≡ false
    → Nearer s (server_step p r s)
unfolding server_step left phase_weight
server_step-Nearer checking r s e off = (off, rw off (omega (arith, ap phase_weight e)))
server_step-Nearer accepting fine s e off = (off, omega (arith, ap phase_weight e))
server_step-Nearer accepting timed_out s e off = (off, omega (arith, ap phase_weight e))
server_step-Nearer accepting shut_down s e off = (off, omega (arith, ap phase_weight e))
server_step-Nearer accepting failed s e off = (off, omega (arith, ap phase_weight e))
server_step-Nearer starting fine s e off = (
  off,
  unfold weights weight in
      omega (arith, ap phase_weight e, weights-append s.connections (begun ∷ [])),
)
server_step-Nearer starting timed_out s e off = (off, omega (arith, ap phase_weight e))
server_step-Nearer starting shut_down s e off = (off, omega (arith, ap phase_weight e))
server_step-Nearer starting failed s e off = (off, omega (arith, ap phase_weight e))
server_step-Nearer waiting r s e off = elim (Bool-cases (s.connections_current == 0)) [
  | inl none ↦ rw none (off, omega (arith, ap phase_weight e))
  | inr some_left ↦ rw some_left (off, omega (arith, ap phase_weight e))
]
server_step-Nearer complete r s e off = (off, omega arith)

step-Nearer : (e : ThreadEvent) (s : Server) → s.running ≡ false → Nearer s (step e s)
unfolding step
step-Nearer (server r) s off = server_step-Nearer s.phase r s refl off
step-Nearer (connection i r) s off = moved-Nearer i r s [] s.connections refl off
step-Nearer request_shutdown s off = (refl, unfold left in omega arith)

-- A thread that is counted moves however the call that it is in ends, unless it waits for the client, and
-- the client sends on.
connection_step-lt :
    (r : Reply) (t : Connection)
    → holds t ≡ 1
    → (t ≡ closing → r ≢ fine)
    → weight (connection_step false r t) < weight t
unfolding connection_step weight holds
connection_step-lt r begun h ends = omega arith
connection_step-lt fine serving h ends = omega arith
connection_step-lt shut_down serving h ends = omega arith
connection_step-lt timed_out serving h ends = omega arith
connection_step-lt failed serving h ends = omega arith
connection_step-lt fine closing h ends = absurd (ends refl refl)
connection_step-lt shut_down closing h ends = omega arith
connection_step-lt timed_out closing h ends = omega arith
connection_step-lt failed closing h ends = omega arith
connection_step-lt r returned h ends = omega arith
connection_step-lt r uncounted h ends = absurd (omega arith)
connection_step-lt r gone h ends = absurd (omega arith)

holds-cases : (t : Connection) → (holds t ≡ 0) ⊎ (holds t ≡ 1)
unfolding holds
holds-cases begun = inr refl
holds-cases serving = inr refl
holds-cases closing = inr refl
holds-cases returned = inr refl
holds-cases uncounted = inl refl
holds-cases gone = inl refl

-- A call of this connection's thread may end so: it is not a client that sends on while its close is
-- awaited.
abbrev pub MayEnd : ℕ → List Connection → Reply → Type 0
MayEnd i ts r = get_elem? ts i ≡ some closing → r ≢ fine

-- None of the threads is counted, or one of them moves.
some_moves :
    (s : Server) (before ts : List Connection)
    → s.connections ≡ before ++ ts
    → s.running ≡ false
    → (live ts ≡ 0)
      ⊎ ((i : ℕ) × ((r : Reply) → MayEnd i ts r → left (moved i r s before ts) < left s))
unfolding moved live
some_moves s before [] e off = inl refl
some_moves s before (t ∷ ts) e off = elim (holds-cases t) [
  | inr here ↦ inr (
    0,
    λ r ends.
        unfold left weights in
        omega (
          arith,
          ap weights e,
          weights-append before (t ∷ ts),
          weights-append before (connection_step s.running r t ∷ ts),
          rw (sym off) at (connection_step-lt r t here (λ c. ends (ap some c))),
        ),
  )
  | inl none ↦
      elim (some_moves s (before ++ t ∷ []) ts (e ∙ sym (append_assoc before (t ∷ []) ts)) off) [
        | inl all ↦ inl (omega arith)
        | inr (i, less) ↦ inr (suc i, less)
      ]
]

-- One thread leaves less to do by its next step, however its call ends.
abbrev pub SomeMoves : Server → Type 0
SomeMoves s =
    ((r : Reply) → left (step (server r) s) < left s)
    ⊎ ((i : ℕ) × ((r : Reply) → MayEnd i s.connections r → left (step (connection i r) s) < left s))

server_moves :
    (p : Phase) (s : Server)
    → s.phase ≡ p
    → s.running ≡ false
    → IsSound s
    → (p ≡ complete)
      ⊎ (((r : Reply) → left (server_step p r s) < left s)
          ⊎ ((i : ℕ) × ((r : Reply)
                → MayEnd i s.connections r
                → left (moved i r s [] s.connections) < left s)))
unfolding server_step left phase_weight pending
server_moves complete s e off v = inl refl
server_moves checking s e off v = inr (inl (λ r. rw off (omega (arith, ap phase_weight e))))
server_moves accepting s e off v = inr (inl (λ r. from_accepting r))
  where
    from_accepting : (r : Reply) → left (server_step accepting r s) < left s
    from_accepting fine = omega (arith, ap phase_weight e)
    from_accepting timed_out = omega (arith, ap phase_weight e)
    from_accepting shut_down = omega (arith, ap phase_weight e)
    from_accepting failed = omega (arith, ap phase_weight e)
server_moves starting s e off v = inr (inl (λ r. from_starting r))
  where
    from_starting : (r : Reply) → left (server_step starting r s) < left s
    from_starting fine =
        unfold weights weight in
        omega (arith, ap phase_weight e, weights-append s.connections (begun ∷ []))
    from_starting timed_out = omega (arith, ap phase_weight e)
    from_starting shut_down = omega (arith, ap phase_weight e)
    from_starting failed = omega (arith, ap phase_weight e)
server_moves waiting s e off v = inr (elim (some_moves s [] s.connections refl off) [
  | inr (i, less) ↦ inr (i, less)
  | inl none ↦
      let zero_left : s.connections_current ≡ 0 = omega (arith, v.counted, ap pending e) in
      inl
        (λ r. rw ((==_iff s.connections_current 0).1 zero_left) (omega (arith, ap phase_weight e)))
])

step_moves : (s : Server) → s.running ≡ false → IsSound s → (s.phase ≡ complete) ⊎ SomeMoves s
unfolding step
step_moves s off v = elim (server_moves s.phase s refl off v) [
  | inl ended ↦ inl ended
  | inr (inl less) ↦ inr (inl less)
  | inr (inr (i, less)) ↦ inr (inr (i, less))
]

-- When a shutdown has been requested, then it stays so, and no step of any thread makes more to do. As
-- long as the server thread has not said that the shutdown is complete, there is a thread whose next
-- step leaves less to do however the call that it is in ends: a connection that serves stops behind
-- the line that it has, also when all goes well. Only where a thread waits for its client to close the
-- connection does that take an end of what the client sends. The threads have taken their steps in any
-- order before.
pub run_threads-CanEnd :
    (es : List ThreadEvent) (e : ThreadEvent)
    → (run_threads es new_server).running ≡ false
    → (((run_threads es new_server).phase ≡ complete) ⊎ SomeMoves (run_threads es new_server))
      × ((step e (run_threads es new_server)).running ≡ false)
      × (left (step e (run_threads es new_server)) ≤ left (run_threads es new_server))
run_threads-CanEnd es e off =
    let (still, no_more) = step-Nearer e (run_threads es new_server) off in
    (step_moves (run_threads es new_server) off (run_threads-IsSound es), still, no_more)
