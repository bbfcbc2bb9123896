-- ===== src/Network/Datagrams/Receiving/Results.antt =====
-- What `receive` of include/nanonet/sys/network.h gives.
use nanonet.Common.{
  ℕ, zero, suc, ◌≤◌, ◌<◌, ◌≡◌, ◌≢◌, refl, ◌∙◌, true, arith, ◌⊎◌, inl, inr, Option, none, some, [],
  Bytes, length, leb, ok, throws,
}
use nanonet.Network.LowLevel.{SystemReply, interrupted, failed, done, Kernel, repeat}
use nanonet.Network.Datagrams.{PacketReply, Packets, assertion_failed, Udp, at_state}
use nanonet.Network.Datagrams.Receiving.{
  timeout_size, Received, fill, repeated, recvfrom_loop, copied, packet, receive_now, selected,
  receive_internal,
}

module _ {k : Kernel} (p : Packets k) where
  -- `recvfrom` returns the number of the bytes that it has written into the buffer, which are no more
  -- than it has room for.
  abbrev pub Fits : ℕ → PacketReply k → SystemReply → Type 0
  Fits max r (done n) = (n ≡ length r.bytes) × (n ≤ max)
  Fits max r _ = Unit

  pub record FitsBuffer : Type 0 where
    pub fits :
        (fd max : ℕ) (s : k.State) → Fits max (p.recvfrom fd max s).1 (p.recvfrom fd max s).1.reply

  -- What is received by a call of `recvfrom`, with its source if that is asked for.
  abbrev Delivered : ℕ → ℕ → Option k.Address → Option k.Address → ℕ × Bytes → Type 0
  Delivered fd max source_ret filled (n, bytes) =
      (s : k.State) × ((p.recvfrom fd max s).1.reply ≡ done n)
      × ((p.recvfrom fd max s).1.bytes ≡ bytes)
      × (filled ≡ fill source_ret (p.recvfrom fd max s).1.source)
      × (n ≡ length bytes)
      × (n ≤ max)

  -- `select` was called with the time that is given, and has ended by it.
  abbrev TimedOut : ℕ → Option ℕ → k.State → Type 0
  TimedOut fd t s = (tm : ℕ) × (t ≡ some tm) × ((repeat p.rounds (p.select fd tm) s).1 ≡ done 0)

  -- A timeout where there is one, with nothing written; or a packet, whose size is not `timeout()`; or
  -- an error of a call.
  abbrev pub ReceiveResult : ℕ → Option k.Address → Option ℕ → ℕ → k.State → Received p → Type 0
  ReceiveResult fd source_ret t max s (w2, (filled, ok (n, bytes))) =
      ((n ≡ timeout_size) × (bytes ≡ []) × (filled ≡ source_ret) × TimedOut fd t s)
      ⊎ ((n < timeout_size) × Delivered fd max source_ret filled (n, bytes))
  ReceiveResult fd source_ret t max s (w2, (filled, throws e)) = e ≢ assertion_failed

  fill_again :
      (source_ret : Option k.Address) (a b : k.Address)
      → fill (fill source_ret a) b ≡ fill source_ret b
  fill_again none a b = refl
  fill_again (some old) a b = refl

  -- The reply that the loop ends with is that of a call, and its source is what is filled.
  abbrev Looped :
      ℕ → ℕ → Option k.Address → k.State × (Option k.Address × Option (PacketReply k)) → Type 0
  Looped fd max source_ret (s2, (filled, none)) = Unit
  Looped fd max source_ret (s2, (filled, some r)) =
      (s : k.State) × ((p.recvfrom fd max s).1 ≡ r) × (filled ≡ fill source_ret r.source)

  Looped-again :
      (fd max : ℕ) (source_ret : Option k.Address) (a : k.Address)
      (m : k.State × (Option k.Address × Option (PacketReply k)))
      → Looped fd max (fill source_ret a) m
      → Looped fd max source_ret m
  Looped-again fd max source_ret a (s2, (filled, none)) h = tt
  Looped-again fd max source_ret a (s2, (filled, some r)) (s, same, e) =
      (s, same, e ∙ fill_again source_ret a r.source)

  repeated_lem :
      {A : Type 0} (reply : SystemReply) (P : A → Type 0) (again now : A)
      → P again
      → P now
      → P (repeated reply again now)
  unfolding repeated
  repeated_lem interrupted P again now h g = h
  repeated_lem (failed e) P again now h g = g
  repeated_lem (done n) P again now h g = g

  recvfrom_loop-Looped :
      (rounds fd max : ℕ) (source_ret : Option k.Address) (s : k.State)
      → Looped fd max source_ret (recvfrom_loop p rounds fd max source_ret s)
  unfolding recvfrom_loop
  recvfrom_loop-Looped zero fd max source_ret s = tt
  recvfrom_loop-Looped (suc rounds) fd max source_ret s =
      let (s', r) = p.recvfrom fd max s in
      let filled = fill source_ret r.source in
      let again = recvfrom_loop p rounds fd max filled s' in
      let next = recvfrom_loop-Looped rounds fd max filled s' in
      repeated_lem r.reply (Looped fd max source_ret) again (s', (filled, some r))
        (Looped-again fd max source_ret r.source again next) (s, refl, refl)

  copied-ReceiveResult :
      (fd max : ℕ) (source_ret filled : Option k.Address) (t : Option ℕ) (w : Udp p)
      (s0 s : k.State) (reply : SystemReply)
      → (p.recvfrom fd max s).1.reply ≡ reply
      → filled ≡ fill source_ret (p.recvfrom fd max s).1.source
      → Fits max (p.recvfrom fd max s).1 reply
      → max < timeout_size
      → ReceiveResult fd source_ret t max s0
          (w, (filled, copied p max (p.recvfrom fd max s).1 reply))
  unfolding copied
  copied-ReceiveResult fd max source_ret filled t w s0 s interrupted e d h m = λ x. absurd (cc x)
  copied-ReceiveResult fd max source_ret filled t w s0 s (failed x) e d h m = λ y. absurd (cc y)
  copied-ReceiveResult fd max source_ret filled t w s0 s (done n) e d (same, small) m =
      let within : leb n max ≡ true = ground (arith, small) in
      rw within (inr (omega (arith, small, m), (s, e, refl, d, same, small)))

  packet-ReceiveResult :
      (fd max : ℕ) (source_ret : Option k.Address) (t : Option ℕ) (s0 : k.State) (w : Udp p)
      (m : k.State × (Option k.Address × Option (PacketReply k)))
      → Looped fd max source_ret m
      → FitsBuffer
      → max < timeout_size
      → ReceiveResult fd source_ret t max s0 (packet p max w m)
  unfolding packet
  packet-ReceiveResult fd max source_ret t s0 w (s2, (filled, none)) h f m = λ x. absurd (cc x)
  packet-ReceiveResult fd max source_ret t s0 w (s2, (filled, some r)) (s, same, e) f m =
      rw (← same) (
        copied-ReceiveResult fd max source_ret filled t (at_state p w s2) s0 s
          (p.recvfrom fd max s).1.reply refl (rw same e) (f.fits fd max s) m)

  receive_now-ReceiveResult :
      (fd max : ℕ) (source_ret : Option k.Address) (t : Option ℕ) (s0 : k.State) (w : Udp p)
      → FitsBuffer
      → max < timeout_size
      → ReceiveResult fd source_ret t max s0 (receive_now p fd source_ret max w)
  unfolding receive_now
  receive_now-ReceiveResult fd max source_ret t s0 w f m =
      packet-ReceiveResult fd max source_ret t s0 w _
        (recvfrom_loop-Looped p.rounds fd max source_ret w.state.state) f m

  selected-ReceiveResult :
      (fd max t : ℕ) (source_ret : Option k.Address) (s0 : k.State) (w : Udp p)
      (r : k.State × SystemReply)
      → (repeat p.rounds (p.select fd t) s0).1 ≡ r.1
      → FitsBuffer
      → max < timeout_size
      → ReceiveResult fd source_ret (some t) max s0 (selected p fd source_ret max w r)
  unfolding selected
  selected-ReceiveResult fd max t source_ret s0 w (s, interrupted) reply f m = λ x. absurd (cc x)
  selected-ReceiveResult fd max t source_ret s0 w (s, failed e) reply f m = λ x. absurd (cc x)
  selected-ReceiveResult fd max t source_ret s0 w (s, done zero) reply f m =
      inl (refl, refl, refl, (t, refl, reply))
  selected-ReceiveResult fd max t source_ret s0 w (s, done (suc n)) reply f m =
      receive_now-ReceiveResult fd max source_ret (some t) s0 (at_state p w s) f m

  -- Where `recvfrom` writes no more than the buffer has room for, and says how much, and the room is
  -- less than the largest number: `receive` gives `timeout()` only where a time is given and
  -- `select` has ended without a packet, and has then written nothing. Otherwise it gives another
  -- number, of the bytes of a packet, all of which it has written, and its source if that was asked
  -- for. Or it throws the error of a call; its assertion does not fail.
  pub receive_internal-ReceiveResult :
      (fd max : ℕ) (source_ret : Option k.Address) (t : Option ℕ) (w : Udp p)
      → FitsBuffer
      → max < timeout_size
      → ReceiveResult fd source_ret t max w.state.state (receive_internal p fd source_ret t max w)
  unfolding receive_internal
  receive_internal-ReceiveResult fd max source_ret none w f m =
      receive_now-ReceiveResult fd max source_ret none w.state.state w f m
  receive_internal-ReceiveResult fd max source_ret (some t) w f m =
      selected-ReceiveResult fd max t source_ret w.state.state w _ refl f m
