-- ===== src/Network/System.antt =====
-- The calls of src/detail/network.cpp as those that the sockets of src/network.cpp are built on, for an
-- operating system, what `to_string` throws, a number of rounds for interrupted calls, and the timeout of a connection.
use nanonet.Common.{ℕ, Option, none, some, Outcome, ok, throws}
use nanonet.Network.{Calls}
use nanonet.Network.LowLevel.{
  SystemReply, interrupted, failed, done, Kernel, CallFailure, always_interrupted, errno, Sockets,
  my_bind, my_listen, my_connect,
}

module _ {k : Kernel} where
  -- A call that gives nothing but an exception.
  abbrev without_value : Sockets k × Outcome CallFailure (Unit {0}) → Sockets k × Option CallFailure
  without_value (w, ok tt) = (w, none)
  without_value (w, throws e) = (w, some e)

  -- A call that is not repeated.
  abbrev called_once : Sockets k → k.State × SystemReply → Sockets k × Outcome CallFailure ℕ
  called_once w (s, interrupted) = (record w { state = s }, throws always_interrupted)
  called_once w (s, failed e) = (record w { state = s }, throws (errno e))
  called_once w (s, done fd) = (record w { state = s }, ok fd)

  abbrev address_reply :
      Sockets k → k.State × Outcome ℕ k.Address → Sockets k × Outcome CallFailure k.Address
  address_reply w (s, ok a) = (record w { state = s }, ok a)
  address_reply w (s, throws e) = (record w { state = s }, throws (errno e))

abbrev pub system_calls :
    (k : Kernel) → (Sockets k → k.Address → Option CallFailure) → ℕ → Option ℕ → Calls
system_calls k texts rounds timeout = record {
  State = Sockets k;
  Address = k.Address;
  CallError = CallFailure;
  family_detail_ = k.family;
  af_inet = k.af_inet;
  af_inet6 = k.af_inet6;
  socket = λ w family. called_once w (k.socket family w.state);
  my_bind = λ w fd a. without_value (my_bind rounds fd a w);
  my_connect = λ w fd a. without_value (my_connect rounds fd a timeout w);
  my_listen = λ w fd. without_value (my_listen rounds fd w);
  to_string = texts;
  my_getsockname = λ w fd. address_reply w (k.getsockname fd w.state);
  socketclose = λ w fd. record w { state = k.close fd w.state };
}
