-- ===== src/ReaderWriter.antt =====
-- The reader_writers below the streams: `socket` of include/nanonet/detail/socket.h, and
-- posix_reader_writer of src/posix/wrappers.cpp. The operating system's calls are a parameter. A loop
-- that repeats an interrupted call is given a number of rounds, as in Network/LowLevel.
pub mod Streams
pub mod Resending
pub mod Transmission
use nanonet.Common.{
  ℕ, zero, suc, ◌≤◌, ◌≡◌, Option, none, some, ◌++◌, ◌==◌, leb, if◌then◌else◌, Bytes, length, take,
}

-- What a call returns: -1 with EINTR, -1 with another `errno`, or what it has done.
pub data CallReply (A : Type 0) : Type 0 where
  interrupted : CallReply A
  failed : ℕ → CallReply A
  done : A → CallReply A

-- `recv` or `read`, and `send` or `write`, on a descriptor. `received` and `taken` are all the bytes
-- that the calls on a descriptor have given and taken.
pub record StreamCalls : Type 1 where
  pub State : Type 0
  pub receive : ℕ → ℕ → State → State × CallReply Bytes
  pub send : ℕ → Bytes → State → State × CallReply ℕ
  pub received : ℕ → State → Bytes
  pub taken : ℕ → State → Bytes

-- What a call that may give so many bytes makes of those received.
abbrev pub OfReceive : ℕ → Bytes → Bytes → CallReply Bytes → Type 0
OfReceive n before after (done bytes) = (length bytes ≤ n) × (after ≡ before ++ bytes)
OfReceive n before after _ = after ≡ before

-- What a call makes of the bytes taken: it takes the first ones of those it is given.
abbrev pub OfSend : Bytes → Bytes → Bytes → CallReply ℕ → Type 0
OfSend bytes before after (done n) = (n ≤ length bytes) × (after ≡ before ++ take n bytes)
OfSend bytes before after _ = after ≡ before

-- The manual of the calls.
pub record Documented (c : StreamCalls) : Type 0 where
  pub receives :
      (fd n : ℕ) (s : c.State)
      → let (s', reply) = c.receive fd n s in OfReceive n (c.received fd s) (c.received fd s') reply
  pub sends :
      (fd : ℕ) (bytes : Bytes) (s : c.State)
      → let (s', reply) = c.send fd bytes s in OfSend bytes (c.taken fd s) (c.taken fd s') reply

-- `do { ret = ... ; } while( EINTR_repeat( ret ) ) ;`
unfoldable pub eintr_repeat : {S A : Type 0} → ℕ → (S → S × CallReply A) → S → S × CallReply A
eintr_repeat zero call s = (s, interrupted)
eintr_repeat (suc rounds) call s =
    let (s', reply) = call s in
    let more = eintr_repeat rounds call s' in
    elim reply [ interrupted ↦ more | failed e ↦ (s', failed e) | done a ↦ (s', done a) ]

-- How a member function ends: an assertion fails, or it returns -1 or a number.
pub data Returned (A : Type 0) : Type 0 where
  asserts minus_one : Returned A
  gives : A → Returned A

-- The assertions of `read`; the bytes stand for their number.
abbrev pub read_result : ℕ → CallReply Bytes → Returned Bytes
read_result n (done bytes) = if leb (length bytes) n then gives bytes else asserts
read_result n _ = minus_one

abbrev pub socket_write_result : ℕ → CallReply ℕ → Returned ℕ
socket_write_result n (done ret) = if n == ret then gives ret else minus_one
socket_write_result n _ = minus_one

abbrev pub posix_write_result : ℕ → CallReply ℕ → Returned ℕ
posix_write_result n (done ret) = if n == ret then gives ret else asserts
posix_write_result n _ = minus_one

module _ (c : StreamCalls) (rounds : ℕ) (fd : ℕ) where
  unfoldable pub socket_read : ℕ → c.State → c.State × Returned Bytes
  unfolding eintr_repeat
  socket_read n s =
      let (s', reply) = eintr_repeat rounds (c.receive fd n) s in (s', read_result n reply)

  unfoldable pub socket_write : Bytes → c.State → c.State × Returned ℕ
  unfolding eintr_repeat
  socket_write buf s =
      let (s', reply) = eintr_repeat rounds (c.send fd buf) s in
      (s', socket_write_result (length buf) reply)

  unfoldable pub posix_read : ℕ → c.State → c.State × Returned Bytes
  unfolding eintr_repeat
  posix_read n s =
      let (s', reply) = eintr_repeat rounds (c.receive fd n) s in (s', read_result n reply)

  unfoldable pub posix_write : Bytes → c.State → c.State × Returned ℕ
  unfolding eintr_repeat
  posix_write buf s =
      let (s', reply) = eintr_repeat rounds (c.send fd buf) s in
      (s', posix_write_result (length buf) reply)
