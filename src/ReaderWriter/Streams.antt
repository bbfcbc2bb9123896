-- ===== src/ReaderWriter/Streams.antt =====
-- The sockets and files of ReaderWriter below the buffers of StreamBuf.
use nanonet.Common.{
  ℕ, zero, suc, ◌≤◌, ◌≡◌, refl, sym, ◌∙◌, arith, true, Option, none, some, ◌++◌, ◌==◌, leb, Bytes,
  length, take, Bool-cases, inl, inr, ap, ==_iff, ◌≢◌, take-length,
}
use nanonet.StreamBuf.{Writer, WritesAll}
use nanonet.StreamBuf.Source.{Reader, Reads}
use nanonet.ReaderWriter.{
  CallReply, interrupted, failed, done, StreamCalls, OfReceive, OfSend, Documented, eintr_repeat,
  Returned, asserts, minus_one, gives, read_result, socket_write_result, socket_read, socket_write,
}

-- The number that is returned; where an assertion fails there is none.
abbrev pub number_of : {A : Type 0} → Returned A → Option A
number_of asserts = none
number_of minus_one = none
number_of (gives a) = some a

module _ (c : StreamCalls) (rounds : ℕ) (fd : ℕ) where
  abbrev pub socket_reader : Reader
  socket_reader = record {
    State = c.State;
    read = λ s n. ((socket_read c rounds fd n s).0, number_of (socket_read c rounds fd n s).1);
    given = c.received fd;
  }

  abbrev pub socket_writer : Writer
  socket_writer = record {
    State = c.State;
    write =
        λ s buf. ((socket_write c rounds fd buf s).0, number_of (socket_write c rounds fd buf s).1);
    accepted = c.taken fd;
  }

-- What holds of each round holds of the loop, where an interrupted round leaves what is looked at.
module _ {S A : Type 0} (view : S → Bytes) (P : Bytes → Bytes → CallReply A → Type 0)
    (call : S → S × CallReply A) (start : (v : Bytes) → P v v interrupted)
    (stays : (u v : Bytes) → P u v interrupted → v ≡ u)
    (each : (s : S) → P (view s) (view (call s).0) (call s).1) where
  Repeated : ℕ → S → Type 0
  Repeated rounds s =
      P (view s) (view (eintr_repeat rounds call s).0) (eintr_repeat rounds call s).1

  next_round :
      (rounds : ℕ) (s s' : S) (reply : CallReply A)
      → P (view s) (view s') reply
      → Repeated rounds s'
      → let p : S × CallReply A = elim reply [
        | interrupted ↦ eintr_repeat rounds call s'
        | failed e ↦ (s', failed e)
        | done a ↦ (s', done a)
      ] in
        P (view s) (view p.0) p.1
  unfolding Repeated
  next_round rounds s s' interrupted h again = rw (stays (view s) (view s') h) at again
  next_round rounds s s' (failed e) h again = h
  next_round rounds s s' (done a) h again = h

  eintr_repeat_lem : (rounds : ℕ) (s : S) → Repeated rounds s
  unfolding Repeated eintr_repeat
  eintr_repeat_lem zero s = start (view s)
  eintr_repeat_lem (suc rounds) s =
      next_round rounds s (call s).0 (call s).1 (each s) (eintr_repeat_lem rounds (call s).0)

module _ {c : StreamCalls} (d : Documented c) (rounds fd : ℕ) where
  pub receive_again :
      (n : ℕ) (s : c.State)
      → let (s', reply) = eintr_repeat rounds (c.receive fd n) s in
        OfReceive n (c.received fd s) (c.received fd s') reply
  unfolding Repeated
  receive_again n s =
      eintr_repeat_lem (c.received fd) (OfReceive n) (c.receive fd n) (λ v. refl) (λ u v h. h)
        (d.receives fd n) rounds s

  pub send_again :
      (bytes : Bytes) (s : c.State)
      → let (s', reply) = eintr_repeat rounds (c.send fd bytes) s in
        OfSend bytes (c.taken fd s) (c.taken fd s') reply
  unfolding Repeated
  send_again bytes s =
      eintr_repeat_lem (c.taken fd) (OfSend bytes) (c.send fd bytes) (λ v. refl) (λ u v h. h)
        (d.sends fd bytes) rounds s

  read_number :
      (n : ℕ) (before after : Bytes) (reply : CallReply Bytes)
      → OfReceive n before after reply
      → (read_result n reply ≢ asserts)
        × ((bytes : Bytes)
            → number_of (read_result n reply) ≡ some bytes
            → (length bytes ≤ n) × (after ≡ before ++ bytes))
        × (number_of (read_result n reply) ≡ none → after ≡ before)
  read_number n before after interrupted h = (λ e. cc e, λ bytes e. absurd (cc e), λ e. h)
  read_number n before after (failed x) h = (λ e. cc e, λ bytes e. absurd (cc e), λ e. h)
  read_number n before after (done got) (fits, more) =
      let small : leb (length got) n ≡ true = ground (arith, fits) in
      rw small (
        λ e. cc e,
        λ bytes e. let same : got ≡ bytes = cc e in rw (sym same) (fits, more),
        λ e. absurd (cc e),
      )

  -- A socket is read as an istreambuf wants it: each read gives at most what was asked for, and one
  -- that returns -1 gives nothing.
  pub socket_reader-Reads : Reads (socket_reader c rounds fd)
  unfolding socket_read
  socket_reader-Reads = record {
    gives = λ s n. (read_number n _ _ _ (receive_again n s)).1;
    fails = λ s n. (read_number n _ _ _ (receive_again n s)).2;
  }

  -- No assertion of `read` fails.
  pub socket_read_asserts : (n : ℕ) (s : c.State) → (socket_read c rounds fd n s).1 ≢ asserts
  unfolding socket_read
  socket_read_asserts n s = (read_number n _ _ _ (receive_again n s)).0

  write_number :
      (bytes before after : Bytes) (reply : CallReply ℕ)
      → OfSend bytes before after reply
      → (n : ℕ) → number_of (socket_write_result (length bytes) reply) ≡ some n
      → (n ≡ length bytes) × (after ≡ before ++ bytes)
  write_number bytes before after interrupted h n e = absurd (cc e)
  write_number bytes before after (failed x) h n e = absurd (cc e)
  write_number bytes before after (done ret) (fits, more) n e =
      elim (Bool-cases (length bytes == ret)) [
        | inl all ↦
            let whole : length bytes ≡ ret = (==_iff _ _).0 all in
            let same : ret ≡ n = cc (rw all at e) in
            (
              sym (whole ∙ same),
              more ∙ ap (λ l. before ++ l) (ap (λ m. take m bytes) (sym whole) ∙ take-length bytes),
            )
        | inr part ↦ absurd (cc (rw part at e))
      ]

  -- A write to a socket that returns a number has sent all bytes that it was given.
  pub socket_writer-WritesAll : WritesAll (socket_writer c rounds fd)
  unfolding socket_write
  socket_writer-WritesAll = record {
    complete = λ s bytes n. write_number bytes _ _ _ (send_again bytes s) n;
  }
