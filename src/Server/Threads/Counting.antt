-- ===== src/Server/Threads/Counting.antt =====
-- The count of connections in src/sys/server.cpp.
use nanonet.Common.{
  ℕ, zero, suc, ◌+◌, ◌-◌, ◌≤◌, ◌≡◌, refl, sym, ap, ◌∙◌, arith, Bool, true, false, List, [], ◌∷◌,
  ◌++◌, append_assoc, ◌==◌, ==_iff, if◌then◌else◌, Bool-cases, inl, inr, ◌⊎◌,
}
use nanonet.Server.Threads.{
  Phase, checking, accepting, starting, waiting, complete, Connection, begun, serving, closing,
  returned, uncounted, gone, Reply, fine, timed_out, shut_down, failed, ThreadEvent, server,
  connection, request_shutdown, Server, new_server, server_step, connection_step, leaves,
  shuts_down, moved, step, run_threads,
}

-- How many count_sentries the threads hold.
unfoldable pub holds : Connection → ℕ
holds gone = 0
holds uncounted = 0
holds begun = 1
holds serving = 1
holds closing = 1
holds returned = 1

unfoldable pub live : List Connection → ℕ
unfolding holds
live [] = 0
live (t ∷ ts) = holds t + live ts

-- How many the server thread holds.
unfoldable pub pending : Phase → ℕ
pending starting = 1
pending checking = 0
pending accepting = 0
pending waiting = 0
pending complete = 0

abbrev pub Settled : Phase → Bool → ℕ → Type 0
Settled waiting running n = running ≡ false
Settled complete running n = (running ≡ false) × (n ≡ 0)
Settled checking running n = Unit
Settled accepting running n = Unit
Settled starting running n = Unit

pub record IsSound (s : Server) : Type 0 where
  pub counted : s.connections_current ≡ live s.connections + pending s.phase
  pub settled : Settled s.phase s.running s.connections_current

live-append : (xs ys : List Connection) → live (xs ++ ys) ≡ live xs + live ys
unfolding live
live-append [] ys = omega arith
live-append (x ∷ xs) ys = omega (arith, live-append xs ys)

Settled-less :
    (p : Phase) (a b : Bool) (m n : ℕ)
    → (a ≡ b) ⊎ (b ≡ false)
    → n ≤ m
    → Settled p a m
    → Settled p b n
Settled-less checking a b m n same h settled = tt
Settled-less accepting a b m n same h settled = tt
Settled-less starting a b m n same h settled = tt
Settled-less waiting a b m n (inl e) h settled = sym e ∙ settled
Settled-less waiting a b m n (inr e) h settled = e
Settled-less complete a b m n (inl e) h (off, none) = (sym e ∙ off, omega arith)
Settled-less complete a b m n (inr e) h (off, none) = (e, omega arith)

-- A thread gives its count_sentry back with the step to `uncounted`.
connection_step-holds :
    (b : Bool) (r : Reply) (t : Connection)
    → holds t ≡ holds (connection_step b r t) + (if leaves t then 1 else 0)
unfolding connection_step holds leaves
connection_step-holds b r begun = ground arith
connection_step-holds b fine serving = ground arith
connection_step-holds b shut_down serving = refl
connection_step-holds b timed_out serving = refl
connection_step-holds b failed serving = refl
connection_step-holds b fine closing = refl
connection_step-holds b shut_down closing = refl
connection_step-holds b timed_out closing = refl
connection_step-holds b failed closing = refl
connection_step-holds b r returned = refl
connection_step-holds b r uncounted = refl
connection_step-holds b r gone = refl

off_or_same :
    (off running : Bool)
    → (running ≡ (if off then false else running)) ⊎ ((if off then false else running) ≡ false)
off_or_same true running = inr refl
off_or_same false running = inl refl

moved-IsSound :
    (i : ℕ) (r : Reply) (s : Server) (before ts : List Connection)
    → s.connections ≡ before ++ ts
    → IsSound s
    → IsSound (moved i r s before ts)
unfolding moved
moved-IsSound i r s before [] e v = v
moved-IsSound (suc i) r s before (t ∷ ts) e v =
    moved-IsSound i r s (before ++ t ∷ []) ts (e ∙ sym (append_assoc before (t ∷ []) ts)) v
moved-IsSound zero r s before (t ∷ ts) e v = record {
  counted = counted_lem;
  settled =
      Settled-less s.phase s.running _ s.connections_current _
        (off_or_same (shuts_down r t) s.running) (ground arith) v.settled;
}
  where
    counted_lem :
        (if leaves t then s.connections_current - 1 else s.connections_current)
        ≡ live (before ++ connection_step s.running r t ∷ ts) + pending s.phase
    counted_lem =
        unfold live in
        ground (
          arith,
          v.counted,
          ap live e,
          live-append before (t ∷ ts),
          live-append before (connection_step s.running r t ∷ ts),
          connection_step-holds s.running r t,
        )

server_step-IsSound :
    (p : Phase) (r : Reply) (s : Server) → s.phase ≡ p → IsSound s → IsSound (server_step p r s)
unfolding server_step pending
server_step-IsSound checking r s e v = elim (Bool-cases s.running) [
  | inl on ↦ rw on (record { counted = rw e at v.counted; settled = tt })
  | inr off ↦ rw off (record { counted = rw e at v.counted; settled = refl })
]
server_step-IsSound accepting fine s e v = record {
  counted = omega (arith, rw e at v.counted);
  settled = tt;
}
server_step-IsSound accepting timed_out s e v = record { counted = rw e at v.counted; settled = tt }
server_step-IsSound accepting shut_down s e v = record { counted = rw e at v.counted; settled = tt }
server_step-IsSound accepting failed s e v = record { counted = rw e at v.counted; settled = tt }
server_step-IsSound starting fine s e v = record {
  counted =
      unfold live holds in omega (arith, rw e at v.counted, live-append s.connections (begun ∷ []));
  settled = tt;
}
server_step-IsSound starting timed_out s e v = record {
  counted = omega (arith, rw e at v.counted);
  settled = tt;
}
server_step-IsSound starting shut_down s e v = record {
  counted = omega (arith, rw e at v.counted);
  settled = tt;
}
server_step-IsSound starting failed s e v = record {
  counted = omega (arith, rw e at v.counted);
  settled = tt;
}
server_step-IsSound waiting r s e v =
    let off : s.running ≡ false = rw e at v.settled in
    elim (Bool-cases (s.connections_current == 0)) [
      | inl none ↦ rw none (record {
        counted = rw e at v.counted;
        settled = (off, (==_iff s.connections_current 0).0 none);
      })
      | inr some_left ↦ rw some_left (record { counted = rw e at v.counted; settled = off })
    ]
server_step-IsSound complete r s e v = v

step-IsSound : (e : ThreadEvent) (s : Server) → IsSound s → IsSound (step e s)
unfolding step
step-IsSound (server r) s v = server_step-IsSound s.phase r s refl v
step-IsSound (connection i r) s v = moved-IsSound i r s [] s.connections refl v
step-IsSound request_shutdown s v = record {
  counted = v.counted;
  settled = Settled-less s.phase s.running false _ _ (inr refl) (omega arith) v.settled;
}

pub run_threads-IsSound_of :
    (es : List ThreadEvent) (s : Server) → IsSound s → IsSound (run_threads es s)
unfolding run_threads
run_threads-IsSound_of [] s v = v
run_threads-IsSound_of (e ∷ es) s v = run_threads-IsSound_of es (step e s) (step-IsSound e s v)

pub run_threads-IsSound : (es : List ThreadEvent) → IsSound (run_threads es new_server)
run_threads-IsSound es =
    run_threads-IsSound_of es new_server
      (unfold live pending in record { counted = refl; settled = tt })
