-- ===== src/ReaderWriter/Resending.antt =====
-- What a stream on a socket sends again: `ostreambuf` of include/nanonet/util.h over `socket::write` of
-- include/nanonet/detail/socket.h.
use nanonet.Common.{
  ℕ, ◌≡◌, refl, sym, ap, ◌∙◌, arith, true, false, Option, none, some, [], ◌++◌, ◌==◌, Bytes, length,
  take, Bool-cases, inl, inr, append-nil,
}
use nanonet.StreamBuf.{Writer, WritesAll, OutBuffer, written, flush}
use nanonet.ReaderWriter.{
  CallReply, interrupted, failed, done, StreamCalls, OfSend, Documented, eintr_repeat, socket_write,
}
use nanonet.ReaderWriter.Streams.{socket_writer, socket_writer-WritesAll, send_again}

module _ {w : Writer} (b : OutBuffer w) (s : w.State) where
  -- What the writer makes of the pending characters.
  pub wrote : w.State × Option ℕ
  wrote = w.write s b.pending

  failed_write :
      (first : OutBuffer w) (r : Option ℕ)
      → written b wrote.0 r ≡ some (first, false)
      → first ≡ record b { rw = some wrote.0 }
  failed_write first none e = cc e
  failed_write first (some n) e = elim (Bool-cases (n == length b.pending)) [
    | inl all ↦ absurd (cc (rw all at e))
    | inr part ↦ absurd (cc (rw part at e))
  ]

  good_write :
      (second : OutBuffer w) (r : Option ℕ)
      → written b wrote.0 r ≡ some (second, true)
      → (second ≡ record b { rw = some wrote.0; pending = [] }) × (r ≡ some (length b.pending))
  good_write second none e = absurd (cc e)
  good_write second (some n) e = elim (Bool-cases (n == length b.pending)) [
    | inl all ↦ (cc (rw all at e), ground (arith, all))
    | inr part ↦ absurd (cc (rw part at e))
  ]

  failed_flush :
      (first : OutBuffer w)
      → b.rw ≡ some s
      → flush b ≡ some (first, false)
      → ((length b.pending == 0) ≡ false) × (first ≡ record b { rw = some wrote.0 })
  unfolding flush wrote
  failed_flush first here e = elim (Bool-cases (length b.pending == 0)) [
    | inl nothing ↦ absurd (cc (rw (here, nothing) at e))
    | inr pending ↦ (pending, failed_write first _ (rw (here, pending) at e))
  ]

  pub good_flush :
      (second : OutBuffer w)
      → WritesAll w
      → b.rw ≡ some s
      → (length b.pending == 0) ≡ false
      → flush b ≡ some (second, true)
      → (second ≡ record b { rw = some wrote.0; pending = [] })
        × (w.accepted wrote.0 ≡ w.accepted s ++ b.pending)
  unfolding flush wrote
  good_flush second writes here pending e =
      let (same, all) = good_write second _ (rw (here, pending) at e) in
      (same, (writes.complete s b.pending (length b.pending) all).1)

-- How many bytes a call has taken.
abbrev pub amount : CallReply ℕ → ℕ
amount (done n) = n
amount _ = 0

taken_amount :
    (bytes before after : Bytes) (reply : CallReply ℕ)
    → OfSend bytes before after reply
    → after ≡ before ++ take (amount reply) bytes
taken_amount bytes before after interrupted h = h ∙ sym (append-nil before)
taken_amount bytes before after (failed e) h = h ∙ sym (append-nil before)
taken_amount bytes before after (done n) (fits, more) = more

-- When a flush of an ostreambuf on a socket fails and the next one succeeds, and the calls do what
-- Documented says, then nothing is pending, and the socket has taken all that was pending, and in
-- front of it once more the part that was sent when the first flush failed.
pub flush-Resends :
    {c : StreamCalls} (d : Documented c) (rounds fd : ℕ)
    (b first second : OutBuffer (socket_writer c rounds fd)) (s : c.State)
    → b.rw ≡ some s
    → flush b ≡ some (first, false)
    → flush first ≡ some (second, true)
    → (s' : c.State) × (second.rw ≡ some s')
      × (second.pending ≡ [])
      × (c.taken fd s'
          ≡ c.taken fd s
            ++ take (amount (eintr_repeat rounds (c.send fd b.pending) s).1) b.pending
            ++ b.pending)
unfolding wrote socket_write
flush-Resends {c} d rounds fd b first second s here fails succeeds =
    let s1 = (eintr_repeat rounds (c.send fd b.pending) s).0 in
    let stopped : OutBuffer (socket_writer c rounds fd) = record b { rw = some s1 } in
    let (pending, kept) = failed_flush b s first here fails in
    let (after, all) =
      good_flush stopped s1 second (socket_writer-WritesAll d rounds fd) refl pending
        (rw kept at succeeds) in
    (
      (eintr_repeat rounds (c.send fd b.pending) s1).0,
      ap (λ o. o.rw) after,
      ap (λ o. o.pending) after,
      all
          ∙ ap (λ l. l ++ b.pending)
              (taken_amount b.pending _ _ _ (send_again d rounds fd b.pending s)),
    )
