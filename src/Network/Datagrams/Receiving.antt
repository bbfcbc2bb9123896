-- ===== src/Network/Datagrams/Receiving.antt =====
-- Receiving by `datagram_socket` of include/nanonet/sys/network.h.
pub mod Results
use nanonet.Common.{
  ℕ, zero, suc, Option, none, some, [], Bytes, leb, if◌then◌else◌, Outcome, ok, throws,
}
use nanonet.Network.LowLevel.{
  SystemReply, interrupted, failed, done, Kernel, always_interrupted, errno, repeat,
}
use nanonet.Network.Datagrams.{
  PacketReply, Packets, udp_calls, DatagramError, call_error, assertion_failed, Udp, at_state,
}

-- `timeout()`, the largest `size_type`.
abbrev pub timeout_size : ℕ
timeout_size = 18446744073709551615

-- `while( EINTR_repeat( err ) )`: what the next round gives, or what this one does.
repeated : {A : Type 0} → SystemReply → A → A → A
repeated interrupted again now = again
repeated (failed e) again now = now
repeated (done n) again now = now

-- `if( nullptr != source_ret ) { *source_ret = source ; }`
abbrev pub fill : {A : Type 0} → Option A → A → Option A
fill none source = none
fill (some old) source = some source

module _ {k : Kernel} (p : Packets k) where
  -- What is received: `*source`, unless it is null, and the size and what is written behind `begin`.
  abbrev pub Received : Type 0
  Received = Udp p × (Option k.Address × Outcome (DatagramError (udp_calls p)) (ℕ × Bytes))

  -- The loop around `::recvfrom`, with the source that it has filled.
  recvfrom_loop :
      ℕ → ℕ → ℕ → Option k.Address → k.State → k.State × (Option k.Address × Option (PacketReply k))
  unfolding repeated
  recvfrom_loop zero fd max source_ret s = (s, (source_ret, none))
  recvfrom_loop (suc rounds) fd max source_ret s =
      let (s', r) = p.recvfrom fd max s in
      let filled = fill source_ret r.source in
      let again = recvfrom_loop rounds fd max filled s' in
      repeated r.reply again (s', (filled, some r))

  -- What stands behind it.
  copied : ℕ → PacketReply k → SystemReply → Outcome (DatagramError (udp_calls p)) (ℕ × Bytes)
  copied max r interrupted = throws (call_error always_interrupted)
  copied max r (failed e) = throws (call_error (errno e))
  copied max r (done n) = if leb n max then ok (n, r.bytes) else throws assertion_failed

  packet : ℕ → Udp p → k.State × (Option k.Address × Option (PacketReply k)) → Received
  unfolding copied
  packet max w (s, (source_ret, none)) =
      (at_state p w s, (source_ret, throws (call_error always_interrupted)))
  packet max w (s, (source_ret, some r)) = (at_state p w s, (source_ret, copied max r r.reply))

  receive_now : ℕ → Option k.Address → ℕ → Udp p → Received
  unfolding packet recvfrom_loop
  receive_now fd source_ret max w =
      packet max w (recvfrom_loop p.rounds fd max source_ret w.state.state)

  -- Behind `::select`.
  selected : ℕ → Option k.Address → ℕ → Udp p → k.State × SystemReply → Received
  unfolding receive_now
  selected fd source_ret max w (s, interrupted) =
      (at_state p w s, (source_ret, throws (call_error always_interrupted)))
  selected fd source_ret max w (s, failed e) =
      (at_state p w s, (source_ret, throws (call_error (errno e))))
  selected fd source_ret max w (s, done zero) =
      (at_state p w s, (source_ret, ok (timeout_size, [])))
  selected fd source_ret max w (s, done (suc n)) = receive_now fd source_ret max (at_state p w s)

  -- `none` for `t`: it is negative.
  unfoldable pub receive_internal : ℕ → Option k.Address → Option ℕ → ℕ → Udp p → Received
  unfolding selected receive_now repeat
  receive_internal fd source_ret none max w = receive_now fd source_ret max w
  receive_internal fd source_ret (some t) max w =
      selected fd source_ret max w (repeat p.rounds (p.select fd t) w.state.state)
