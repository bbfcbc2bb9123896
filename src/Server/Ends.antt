-- ===== src/Server/Ends.antt =====
-- That the thread of a connection in src/sys/server.cpp ends with its input.
use nanonet.Common.{
  ℕ, zero, suc, ◌+◌, ◌≤◌, ◌<◌, ◌≡◌, refl, ap, arith, Bool, true, false, Option, none, some, ◌∷◌,
  Bytes, length, length-append, inl, inr, Outcome, ok, throws, Bool-cases,
}
use nanonet.Text.{getline}
use nanonet.Text.Lines.{GetlineResult, getline-GetlineResult}
use nanonet.Server.{
  Thrown, Input, Service, got, read_next, handled, with_line, tested, serve_rounds, welcomed, greet,
  handle_connection, after_loop, caught, with_streams, begun, connection_thread, Served,
}

-- A line that was read leaves less behind it.
abbrev Shorter : Input → Outcome Thrown (Input × Option Bytes) → Type 0
Shorter is (throws e) = Unit
Shorter is (ok (is', none)) = Unit
Shorter is (ok (is', some line)) = length is'.rest < length is.rest

got-Shorter :
    (maxsize : ℕ) (is : Input) (r : Option (Bytes × Bytes × Bool))
    → 0 < maxsize
    → GetlineResult maxsize is.rest r
    → Shorter is (got r)
unfolding got
got-Shorter maxsize is none h line = tt
got-Shorter maxsize is (some (l, rest, true)) h line = tt
got-Shorter maxsize is (some (l, rest, false)) h (free, inl (e, short)) =
    omega (arith, ap length e, length-append l (b'\n' ∷ rest))
got-Shorter maxsize is (some (l, rest, false)) h (free, inr (e, full)) =
    omega (arith, ap length e, length-append l rest)

read_next-Shorter : (maxsize : ℕ) (is : Input) → Shorter is (read_next maxsize is)
unfolding read_next
read_next-Shorter zero is = tt
read_next-Shorter (suc n) is = elim (Bool-cases is.good) [
  | inl good ↦ rw good (
      got-Shorter (suc n) is (getline (suc n) is.rest) (omega arith)
        (getline-GetlineResult (suc n) is.rest))
  | inr bad ↦ rw bad tt
]

module _ (service : Service) where
  open service use {State, running, shutdown, set_up, welcome, handler, max_line_length}

  -- The loop has ended.
  abbrev Over : Served State → Type 0
  Over served =
      (s : State) × (is : Input) × (outcome : Outcome Thrown (Unit {0})) × (served
        ≡ some (s, is, outcome))

  module _
      (reads_on : (s : State) (l : Bytes) (is : Input)
        → length (handler s l is).1.rest ≤ length is.rest) where
    handled-Over :
        (next : State → Input → Served State) (bound : ℕ) (r : State × Input × Outcome Thrown Bool)
        → length r.1.rest ≤ bound
        → ((s : State) (is : Input) → length is.rest ≤ bound → Over (next s is))
        → Over (handled service next r)
    unfolding handled
    handled-Over next bound (s, is, ok true) h k = k s is h
    handled-Over next bound (s, is, ok false) h k = (s, is, ok tt, refl)
    handled-Over next bound (s, is, throws e) h k = (s, is, throws e, refl)

    with_line-Over :
        (next : State → Input → Served State) (s : State) (is : Input)
        (r : Outcome Thrown (Input × Option Bytes))
        → Shorter is r
        → ((s' : State) (is' : Input) → length is'.rest < length is.rest → Over (next s' is'))
        → Over (with_line service next s is r)
    unfolding with_line
    with_line-Over next s is (throws e) h k = (s, is, throws e, refl)
    with_line-Over next s is (ok (is', none)) h k = (s, is', ok tt, refl)
    with_line-Over next s is (ok (is', some l)) h k =
        handled-Over next (length is'.rest) (handler s l is') (reads_on s l is')
          (λ s' is'' below. k s' is'' (omega arith))

    tested-Over :
        (next : State → Input → Served State) (is : Input) (r : State × Bool)
        → ((s : State) (is' : Input) → length is'.rest < length is.rest → Over (next s is'))
        → Over (tested service next is r)
    unfolding tested
    tested-Over next is (s, false) k = (s, is, ok tt, refl)
    tested-Over next is (s, true) k =
        with_line-Over next s is (read_next max_line_length is)
          (read_next-Shorter max_line_length is) k

    serve_rounds-Over :
        (n : ℕ) (s : State) (is : Input) → length is.rest < n → Over (serve_rounds service n s is)
    unfolding serve_rounds
    serve_rounds-Over zero s is h = absurd (omega arith)
    serve_rounds-Over (suc n) s is h =
        tested-Over (λ s' is'. serve_rounds service n s' is') is (running s)
          (λ s' is' below. serve_rounds-Over n s' is' (omega arith))

    welcomed-Over :
        (is : Input) (r : State × Outcome Thrown (Unit {0})) → Over (welcomed service is r)
    unfolding welcomed
    welcomed-Over is (s, throws e) = (s, is, throws e, refl)
    welcomed-Over is (s, ok tt) = serve_rounds-Over (length is.rest + 2) s is (omega arith)

    after_loop-Over :
        (served : Served State)
        → Over served
        → (s : State) × (is : Input) × (after_loop service served ≡ some (s, is))
    unfolding after_loop
    after_loop-Over none (s, is, outcome, e) = absurd (cc e)
    after_loop-Over (some (s, is, ok tt)) h = (s, is, refl)
    after_loop-Over (some (s, is, throws e)) h =
        ((caught service s is e).0, (caught service s is e).1, refl)

    begun-Over :
        (is : Input) (r : State × Bool)
        → (s' : State) × (is' : Input) × (begun service is r ≡ some (s', is'))
    unfolding begun
    begun-Over is (s, false) = (s, is, refl)
    begun-Over is (s, true) = streams (set_up s)
      where
        streams :
            (r : State × Outcome Thrown (Unit {0}))
            → (s' : State) × (is' : Input) × (with_streams service is r ≡ some (s', is'))
        streams (s', throws e) = unfold with_streams in (s', is, refl)
        streams (s', ok tt) =
            unfold with_streams handle_connection in
            after_loop-Over (welcomed service is (greet service welcome s'))
              (welcomed-Over is (greet service welcome s'))

    -- The thread of a connection ends in every case, whatever the state of its stream and however long
    -- the lines, within the rounds that the model gives it. This holds of a handler that returns and
    -- puts no characters back into the stream.
    pub connection_thread_ends :
        (s : State) (is : Input)
        → (s' : State) × (is' : Input) × (connection_thread service s is ≡ some (s', is'))
    unfolding connection_thread
    connection_thread_ends s is = begun-Over is (running s)
