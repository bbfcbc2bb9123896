-- ===== src/Tests/Connections.antt =====
-- A connection that is interrupted, then takes one byte, and then all; it gives one byte at a time.
use nanonet.Common.{
  ℕ, zero, suc, ◌≡◌, ◌⊎◌, refl, sym, arith, some, false, [], ◌∷◌, ◌++◌, append_assoc, append-nil,
  Bytes, length, codes, take, take-length,
}
use nanonet.StreamBuf.{OutBuffer, flush, put_all}
use nanonet.StreamBuf.Source.{InBuffer, istreambuf, sgetn}
use nanonet.ReaderWriter.{
  CallReply, interrupted, done, StreamCalls, OfReceive, OfSend, Documented, eintr_repeat,
  socket_read, socket_write, posix_write, posix_read, asserts, gives,
}
use nanonet.ReaderWriter.Streams.{socket_reader, socket_writer}
use nanonet.ReaderWriter.Resending.{amount, flush-Resends}
use nanonet.ReaderWriter.Transmission.{Carries, sgetn-put_all}

-- The mood of the next call, what was received, and what is on the way.
abbrev Pipe : Type 0
Pipe = ℕ × Bytes × Bytes

receive_pipe : ℕ → Pipe → Pipe × CallReply Bytes
receive_pipe zero (k, r, l) = ((k, r, l), done [])
receive_pipe (suc n) (k, r, []) = ((k, r, []), done [])
receive_pipe (suc n) (k, r, b ∷ l) = ((k, r ++ b ∷ [], l), done (b ∷ []))

send_pipe : Bytes → Pipe → Pipe × CallReply ℕ
send_pipe bytes (suc (suc k), r, l) = ((suc k, r, l), interrupted)
send_pipe [] (suc zero, r, l) = ((0, r, l), done 0)
send_pipe (b ∷ bytes) (suc zero, r, l) = ((0, r, l ++ b ∷ []), done 1)
send_pipe bytes (zero, r, l) = ((0, r, l ++ bytes), done (length bytes))

abbrev pipe : StreamCalls
pipe = record {
  State = Pipe;
  receive = λ fd n s. receive_pipe n s;
  send = λ fd bytes s. send_pipe bytes s;
  received = λ fd s. s.1;
  taken = λ fd s. s.1 ++ s.2;
}

receive_pipe_lem : (n : ℕ) (s : Pipe) → OfReceive n s.1 (receive_pipe n s).0.1 (receive_pipe n s).1
unfolding receive_pipe
receive_pipe_lem zero (k, r, l) = (omega arith, sym (append-nil r))
receive_pipe_lem (suc n) (k, r, []) = (omega arith, sym (append-nil r))
receive_pipe_lem (suc n) (k, r, b ∷ l) = (omega arith, refl)

send_pipe_lem :
    (bytes : Bytes) (s : Pipe)
    → let (s', reply) = send_pipe bytes s in OfSend bytes (s.1 ++ s.2) (s'.1 ++ s'.2) reply
unfolding send_pipe
send_pipe_lem bytes (suc (suc k), r, l) = refl
send_pipe_lem [] (suc zero, r, l) = (omega arith, sym (append-nil (r ++ l)))
send_pipe_lem (b ∷ bytes) (suc zero, r, l) = (omega arith, sym (append_assoc r l (b ∷ [])))
send_pipe_lem [] (zero, r, l) = (omega arith, sym (append_assoc r l []))
send_pipe_lem (b ∷ bytes) (zero, r, l) =
    (omega arith, rw (take-length bytes) (sym (append_assoc r l (b ∷ bytes))))

pipe-Documented : Documented pipe
pipe-Documented = record {
  receives = λ fd n s. receive_pipe_lem n s;
  sends = λ fd bytes s. send_pipe_lem bytes s;
}

pipe-Carries : Carries pipe 3 4
pipe-Carries s = (s.2, refl)

-- A buffer of three places, on a connection that is interrupted once.
abbrev sending : Pipe → Bytes → OutBuffer (socket_writer pipe 5 3)
sending s pending = record { rw = some s; pending = pending; size = 3 }

resent_run :
    flush (sending (1, [], 7 ∷ 8 ∷ []) (7 ∷ 8 ∷ []))
    ≡ some (sending (0, [], 7 ∷ 8 ∷ 7 ∷ []) (7 ∷ 8 ∷ []), false)
unfolding flush socket_write send_pipe
resent_run = refl

flush-Resends_example :
    (s' : Pipe) × ((sending (0, [], 7 ∷ 7 ∷ 8 ∷ []) []).rw ≡ some s')
    × ((sending (0, [], 7 ∷ 7 ∷ 8 ∷ []) []).pending ≡ [])
    × (pipe.taken 3 s'
        ≡ pipe.taken 3 (2, [], [])
          ++ take (amount (eintr_repeat 5 (pipe.send 3 (7 ∷ 8 ∷ [])) (2, [], [])).1) (7 ∷ 8 ∷ [])
          ++ 7 ∷ 8 ∷ [])
unfolding flush socket_write send_pipe
flush-Resends_example =
    flush-Resends pipe-Documented 5 3 (sending (2, [], []) (7 ∷ 8 ∷ []))
      (sending (0, [], 7 ∷ []) (7 ∷ 8 ∷ [])) (sending (0, [], 7 ∷ 7 ∷ 8 ∷ []) []) (2, [], []) refl
      refl refl

partial_write_asserts : (posix_write pipe 5 3 (7 ∷ 8 ∷ []) (2, [], [])).1 ≡ asserts
unfolding posix_write send_pipe
partial_write_asserts = refl

posix_read_run : (posix_read pipe 5 3 9 (0, [], 7 ∷ 8 ∷ [])).1 ≡ gives (7 ∷ [])
unfolding posix_read receive_pipe
posix_read_run = refl

abbrev receiving : InBuffer (socket_reader pipe 5 4)
receiving = record {
  rw = (0, [], codes "hello");
  size_pb = 4;
  memory = λ i. 0;
  size = 14;
  eback = 4;
  gptr = 4;
  egptr = 4;
}

sgetn-put_all_example :
    (rest : Bytes) × (codes "hello" ≡ (sgetn 4 receiving).1 ++ rest)
    × ((length (sgetn 4 receiving).1 ≡ 4)
        ⊎ (pipe.received 4 (sgetn 4 receiving).0.rw ≡ (sgetn 4 receiving).1))
unfolding flush socket_write send_pipe put_all istreambuf sgetn socket_read receive_pipe
sgetn-put_all_example =
    sgetn-put_all pipe-Documented 5 3 4 pipe-Carries (codes "hello") (sending (0, [], []) [])
      (sending (0, [], codes "hel") (codes "lo")) (sending (0, [], codes "hello") []) (0, [], [])
      (0, [], codes "hello") refl (omega arith) refl refl refl refl 10 4 4 receiving
      (0, [], codes "hello") refl refl refl
