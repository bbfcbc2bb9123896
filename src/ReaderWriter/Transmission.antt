-- ===== src/ReaderWriter/Transmission.antt =====
-- A text from the ostreambuf of one end of a connection to the istreambuf of the other.
use nanonet.StreamBuf.Source.Memory.{slice}
use nanonet.Common.{
  ℕ, ◌<◌, ◌≡◌, sym, ap, ◌∙◌, true, some, [], ◌++◌, ◌==◌, ◌⊎◌, append-nil, append_assoc, Bytes,
  length, Bool-cases, inl, inr, arith, ◌-◌, nil_of_length,
}
use mathlib.Core.Path.{subst}
use nanonet.StreamBuf.{Writer, WritesAll, OutBuffer, flush, put_all}
use nanonet.StreamBuf.Delivery.{text, PutResult, put_all-PutResult}
use nanonet.StreamBuf.Source.{InBuffer, istreambuf, sgetn}
use nanonet.StreamBuf.Source.InOrder.{sgetn-GetResult}
use nanonet.ReaderWriter.{StreamCalls, Documented}
use nanonet.ReaderWriter.Streams.{
  socket_reader, socket_writer, socket_reader-Reads, socket_writer-WritesAll,
}
use nanonet.ReaderWriter.Resending.{good_flush, wrote}

-- What a connection does between two descriptors: it gives the bytes that it has taken, in order.
abbrev pub Carries : StreamCalls → ℕ → ℕ → Type 0
Carries c from to = (s : c.State) → (rest : Bytes) × (c.taken from s ≡ c.received to s ++ rest)

module _ {w : Writer} (writes : WritesAll w) where
  flush-text :
      (b after : OutBuffer w) (s s' : w.State)
      → b.rw ≡ some s
      → flush b ≡ some (after, true)
      → after.rw ≡ some s'
      → w.accepted s' ≡ text b s
  unfolding flush
  flush-text b after s s' here e there = elim (Bool-cases (length b.pending == 0)) [
    | inl nothing ↦
        let kept : b ≡ after = cc (rw (here, nothing) at e) in
        let same : s ≡ s' = cc (sym here ∙ ap (λ o. o.rw) kept ∙ there) in
        ap w.accepted (sym same)
        ∙ sym (append-nil (w.accepted s))
        ∙ ap (λ l. w.accepted s ++ l) (sym (nil_of_length b.pending (ground (arith, nothing))))
    | inr pending ↦
        let (made, all) = good_flush b s after writes here pending e in
        let same : (wrote b s).0 ≡ s' = cc (sym (ap (λ o. o.rw) made) ∙ there) in
        ap w.accepted (sym same) ∙ all
  ]

  -- What the writer has at the end, when all characters were put and the last flush succeeded.
  put_all-flush :
      (cs : Bytes) (b full after : OutBuffer w) (s s' : w.State)
      → b.rw ≡ some s
      → length b.pending < b.size
      → put_all cs b ≡ some (full, true)
      → flush full ≡ some (after, true)
      → after.rw ≡ some s'
      → w.accepted s' ≡ text b s ++ cs
  put_all-flush cs b full after s s' here free put e there =
      let (s1, at_s1, _, _, same) =
        subst (PutResult b.size (text b s) cs) put (put_all-PutResult cs b s writes here free) in
      flush-text full after s1 s' at_s1 e there ∙ same

beginning :
    (whole got out more left : Bytes)
    → whole ≡ got ++ left
    → got ≡ out ++ more
    → (rest : Bytes) × (whole ≡ out ++ rest)
beginning whole got out more left e h =
    (more ++ left, e ∙ ap (λ l. l ++ left) h ∙ append_assoc out more left)

-- A text that is put into an ostreambuf on a socket, before which nothing was sent, and flushed,
-- both with success, arrives at the other end of the connection: what an istreambuf there gives
-- out, that was made when nothing had been received, is a beginning of the text, as long as
-- nothing else is sent. It has as many characters as were asked for, or all that were received.
-- The sizes of the buffers, how the calls split the text and which of them are interrupted do not
-- matter; the calls do what Documented says, and the connection what Carries says.
pub sgetn-put_all :
    {c : StreamCalls} (d : Documented c) (rounds from to : ℕ)
    → Carries c from to
    → (cs : Bytes) (b full after : OutBuffer (socket_writer c rounds from)) (s s' : c.State)
    → b.rw ≡ some s
    → length b.pending < b.size
    → text b s ≡ []
    → put_all cs b ≡ some (full, true)
    → flush full ≡ some (after, true)
    → after.rw ≡ some s'
    → (size size_pb n : ℕ) (reader : InBuffer (socket_reader c rounds to)) (t : c.State)
    → c.received to t ≡ []
    → istreambuf t size size_pb ≡ some reader
    → c.taken from (sgetn n reader).0.rw ≡ c.taken from s'
    → (rest : Bytes) × (cs ≡ (sgetn n reader).1 ++ rest)
      × ((length (sgetn n reader).1 ≡ n)
          ⊎ (c.received to (sgetn n reader).0.rw ≡ (sgetn n reader).1))
sgetn-put_all {c} d rounds from to carries cs b full after s s' here free fresh put e there size
      size_pb n reader t nothing made same =
    let sent : c.taken from s' ≡ cs =
      put_all-flush (socket_writer-WritesAll d rounds from) cs b full after s s' here free put e
        there
      ∙ ap (λ l. l ++ cs) fresh in
    let (left, arrived) = carries (sgetn n reader).0.rw in
    let whole : cs ≡ c.received to (sgetn n reader).0.rw ++ left = sym sent ∙ sym same ∙ arrived in
    elim (sgetn-GetResult (socket_reader-Reads d rounds to) t size size_pb n reader nothing made) [
      | inl (all, sound) ↦
          let ib = (sgetn n reader).0 in
          let (rest, e) =
            beginning cs (c.received to ib.rw) (sgetn n reader).1
              (slice ib.memory ib.gptr (ib.egptr - ib.gptr)) left whole sound.ahead in
          (rest, e, inl all)
      | inr (fewer, end) ↦ (left, whole ∙ ap (λ l. l ++ left) end, inr end)
    ]
