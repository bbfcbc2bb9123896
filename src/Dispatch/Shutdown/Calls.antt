-- ===== src/Dispatch/Shutdown/Calls.antt =====
-- The calls of dispatch at a thread pool of dispatch.cpp, and what its destructor adds, keep the
-- queue in order.
use nanonet.Common.{
  ℕ, ◌≡◌, refl, sym, ap, ◌∙◌, arith, true, false, List, [], ◌∷◌, ◌++◌, append_assoc, append-nil,
  length, replicate, inl, inr, Outcome, ltb, Bool-cases,
}
use nanonet.Dispatch.{ThreadPool, dispatch, work, close, Event, given, turn, run, tasks_of}
use nanonet.Dispatch.Shutdown.{
  waiting, IsOrdered, work-IsOrdered, work_keeps, waiting_nothing, live-le-length,
}

module _ {Task : Type 0} (empty : Task) where
  waiting-append :
      (pending : List Task) (t : Task)
      → waiting empty pending 0 ++ (t, true) ∷ [] ≡ waiting empty (pending ++ t ∷ []) 0
  waiting-append [] t = refl
  waiting-append (s ∷ pending) t = ap (λ l. (s, true) ∷ l) (waiting-append pending t)

  waiting-close :
      (pending : List Task) (n : ℕ)
      → waiting empty pending 0 ++ replicate n (empty, false) ≡ waiting empty pending n
  waiting-close [] n = refl
  waiting-close (s ∷ pending) n = ap (λ l. (s, true) ∷ l) (waiting-close pending n)

  module _ {E : Type 0} (call : Task → Outcome E (Unit {0})) where
    pub dispatch-IsOrdered :
        (p : ThreadPool Task) (t : Task)
        → IsOrdered empty 0 p
        → IsOrdered empty 0 (dispatch call p t).0
          × ((dispatch call p t).0.dispatched ≡ p.dispatched ++ t ∷ [])
    unfolding dispatch
    dispatch-IsOrdered p t o =
        let no_stops : o.stops ≡ 0 = omega (arith, o.counted, live-le-length empty p.workers) in
        elim (Bool-cases (ltb 0 (length p.workers))) [
          | inl some_workers ↦
              rw (o.tasks_are, some_workers)
                (
                  record {
                    queue = o.queue ++ (t, true) ∷ [];
                    pending = o.pending ++ t ∷ [];
                    stops = 0;
                    tasks_are = refl;
                    queue_is =
                        ap (λ l. l ++ (t, true) ∷ [])
                          (o.queue_is ∙ ap (waiting empty o.pending) no_stops)
                        ∙ waiting-append o.pending t;
                    in_order =
                        ap (λ l. l ++ t ∷ []) o.in_order ∙ append_assoc p.taken o.pending (t ∷ []);
                    counted = omega (arith, o.counted);
                    tasks_first = inr (omega (arith, o.counted));
                    direct = λ h. absurd (ground arith);
                  },
                  refl,
                )
          | inr no_workers ↦
              let (nothing, _) =
                waiting_nothing empty o.pending o.stops
                  (sym o.queue_is ∙ o.direct (ground arith)) in
              rw (o.tasks_are, no_workers)
                (
                  record {
                    queue = o.queue;
                    pending = [];
                    stops = 0;
                    tasks_are = refl;
                    queue_is = o.direct (ground arith);
                    in_order =
                        ap (λ l. l ++ t ∷ [])
                          (o.in_order ∙ ap (λ l. p.taken ++ l) nothing ∙ append-nil p.taken)
                        ∙ sym (append-nil (p.taken ++ t ∷ []));
                    counted = omega (arith, o.counted);
                    tasks_first = inl refl;
                    direct = o.direct;
                  },
                  refl,
                )
        ]

    pub run-IsOrdered :
        (events : List (Event Task)) (p : ThreadPool Task)
        → IsOrdered empty 0 p
        → IsOrdered empty 0 (run call events p)
          × ((run call events p).dispatched ≡ p.dispatched ++ tasks_of events)
    unfolding run
    run-IsOrdered [] p o = (o, sym (append-nil p.dispatched))
    run-IsOrdered (turn i ∷ events) p o =
        let (kept, same) = run-IsOrdered events (work i p) (work-IsOrdered empty 0 i p o) in
        (kept, same ∙ ap (λ l. l ++ tasks_of events) ((work_keeps empty i p).0))
    run-IsOrdered (given t ∷ events) p o =
        let (ordered, more) = dispatch-IsOrdered p t o in
        let (kept, same) = run-IsOrdered events (dispatch call p t).0 ordered in
        (
          kept,
          same
              ∙ ap (λ l. l ++ tasks_of events) more
              ∙ append_assoc p.dispatched (t ∷ []) (tasks_of events),
        )

  pub close-IsOrdered :
      (p : ThreadPool Task)
      → IsOrdered empty 0 p
      → IsOrdered empty (length p.workers) (close empty p)
        × ((close empty p).dispatched ≡ p.dispatched)
        × (length (close empty p).workers ≡ length p.workers)
  unfolding close
  close-IsOrdered p o =
      let no_stops : o.stops ≡ 0 = omega (arith, o.counted, live-le-length empty p.workers) in
      rw o.tasks_are (
        record {
          queue = o.queue ++ replicate (length p.workers) (empty, false);
          pending = o.pending;
          stops = length p.workers;
          tasks_are = refl;
          queue_is =
              ap (λ l. l ++ replicate (length p.workers) (empty, false))
                (o.queue_is ∙ ap (waiting empty o.pending) no_stops)
              ∙ waiting-close o.pending (length p.workers);
          in_order = o.in_order;
          counted = omega (arith, o.counted);
          tasks_first = o.tasks_first;
          direct = λ h. rw (h, o.direct h) refl;
        },
        refl,
        refl,
      )
