-- ===== src/Network/Datagrams.antt =====
-- `datagram_socket` of include/nanonet/sys/network.h and src/network.cpp, over the calls of System and
-- the resolution of names of Address. What it calls beyond these is a parameter.
pub mod Creation
pub mod Destination
pub mod Sending
pub mod Receiving
use nanonet.Common.{ℕ, Bool, true, Option, none, some, List, [], ◌∷◌, Bytes, Outcome, ok, throws}
use nanonet.Network.{
  Calls, then_call, World, SocketError, call_failed, NetError, socket_failed, make_socket,
  close_socket, connect_to, bound_socket,
}
use nanonet.Network.LowLevel.{SystemReply, Kernel, CallFailure, errno}
use nanonet.Network.System.{system_calls}
use nanonet.Network.Families.{
  AddressFamily, ip_unspec, int_address_family, from_int_address_family, FamilyError,
}
use nanonet.Network.Address.{Names, NameError, my_getaddrinfo}

pub data SocketOption : Type 0 where
  so_broadcast so_reuseaddr : SocketOption

-- What `::recvfrom` returns, and what is then the address that it fills.
pub record PacketReply (k : Kernel) : Type 0 where
  pub source : k.Address
  pub reply : SystemReply
  -- The bytes of `buffer` up to the number that is returned.
  pub bytes : Bytes

pub record Packets (k : Kernel) : Type 0 where
  pub names : Names k
  -- `setsockopt`: the error, if there is one.
  pub setsockopt : ℕ → SocketOption → Bool → k.State → k.State × Option ℕ
  -- `::select` for one descriptor to be read; `done 0` is a timeout.
  pub select : ℕ → ℕ → k.State → k.State × SystemReply
  -- Into a buffer of this size.
  pub recvfrom : ℕ → ℕ → k.State → k.State × PacketReply k
  pub send : ℕ → Bytes → k.State → k.State × SystemReply
  pub sendto : ℕ → k.Address → Bytes → k.State → k.State × SystemReply
  pub econnrefused : ℕ
  -- Of the model alone: how often an interrupted call is made again.
  pub rounds : ℕ

-- Connecting without a timeout. No handler of these sockets calls `to_string`.
abbrev pub udp_calls : {k : Kernel} → Packets k → Calls
udp_calls {k = k} p = system_calls k (λ w a. none) p.rounds none

pub data DatagramError (c : Calls) : Type 0 where
  unresolved : NameError → DatagramError c
  socket_error : NetError c → DatagramError c
  call_error : CallFailure → DatagramError c
  family_error : FamilyError → DatagramError c
  family_mismatch no_matching_family assertion_failed out_of_range : DatagramError c

-- The constructors of `datagram_socket`, by what they are given.
pub data Construction (k : Kernel) : Type 0 where
  unbound : AddressFamily → Construction k
  by_service : AddressFamily → Bytes → Construction k
  by_name : Bytes → Bytes → Construction k
  listed : List k.Address → Construction k
  -- `connected`
  connected_name : Bytes → Bytes → AddressFamily → Construction k
  connected_address : k.Address → Construction k

module _ {k : Kernel} (p : Packets k) where
  abbrev pub Udp : Type 0
  Udp = World (udp_calls p)

  abbrev pub Result : Type 0 → Type 0
  Result A = Udp × Outcome (DatagramError (udp_calls p)) A

  abbrev pub at_state : Udp → k.State → Udp
  at_state w s = record w { state = record w.state { state = s } }

  option_set : Udp → k.State × Option ℕ → Udp × Option (SocketError (udp_calls p))
  option_set w (s, none) = (at_state w s, none)
  option_set w (s, some e) = (at_state w s, some (call_failed (errno e)))

  bool_sockopt : ℕ → SocketOption → Udp → Udp × Option (SocketError (udp_calls p))
  unfolding option_set
  bool_sockopt fd option w = option_set w (p.setsockopt fd option true w.state.state)

  pub initialize_datagram : ℕ → Udp → Udp × Option (SocketError (udp_calls p))
  unfolding bool_sockopt then_call
  initialize_datagram fd w =
      then_call (bool_sockopt fd so_broadcast w) (bool_sockopt fd so_reuseaddr)

  -- A socket is given out, or closed where the scope that holds it is left by an exception.
  kept : ℕ → Udp × Option (SocketError (udp_calls p)) → Result ℕ
  unfolding close_socket
  kept fd (w, none) = (w, ok fd)
  kept fd (w, some e) = (close_socket fd w, throws (socket_error (socket_failed e)))

  -- The body of a constructor, behind `s`.
  initialized : Udp × Outcome (NetError (udp_calls p)) ℕ → Result ℕ
  unfolding kept initialize_datagram
  initialized (w, ok fd) = kept fd (initialize_datagram fd w)
  initialized (w, throws e) = (w, throws (socket_error e))

  made : Udp × Outcome (SocketError (udp_calls p)) ℕ → Udp × Outcome (NetError (udp_calls p)) ℕ
  made (w, ok fd) = (w, ok fd)
  made (w, throws e) = (w, throws (socket_failed e))

  -- What is done with the addresses of a name, unless it is not resolved.
  pub resolved :
      {A : Type 0}
      → Udp
      → k.State × Outcome NameError (List k.Address)
      → (List k.Address → Udp → Result A)
      → Result A
  resolved w (s, ok la) next = next la (at_state w s)
  resolved w (s, throws e) next = (at_state w s, throws (unresolved e))

  abbrev family_number : AddressFamily → ℕ
  family_number = int_address_family k.af_inet k.af_inet6 p.names.af_unspec

  -- `nanonet::detail_::resolve< SOCK_DGRAM >`
  unfoldable pub resolve_datagram :
      Option Bytes → Bytes → AddressFamily → Udp → k.State × Outcome NameError (List k.Address)
  unfolding int_address_family
  resolve_datagram name service hint w =
      my_getaddrinfo p.names p.names.sock_dgram name (some service) (family_number hint)
        w.state.state

  create_unbound : AddressFamily → Udp → Result ℕ
  unfolding initialized made make_socket int_address_family
  create_unbound af w = initialized (made (make_socket (family_number af) w))

  create_bound : List k.Address → Udp → Result ℕ
  unfolding initialized bound_socket
  create_bound la w = initialized (bound_socket la w)

  -- `ret.connect( destination )`, in the scope of `ret`.
  connecting : k.Address → Result ℕ → Result ℕ
  unfolding kept connect_to
  connecting destination (w, ok fd) = kept fd (connect_to fd destination w)
  connecting destination (w, throws e) = (w, throws e)

  of_family : k.Address → Outcome FamilyError AddressFamily → Udp → Result ℕ
  unfolding connecting create_unbound
  of_family destination (ok af) w = connecting destination (create_unbound af w)
  of_family destination (throws e) w = (w, throws (family_error e))

  create_connected : k.Address → Udp → Result ℕ
  unfolding of_family from_int_address_family
  create_connected destination w =
      of_family destination
        (from_int_address_family k.af_inet k.af_inet6 p.names.af_unspec (k.family destination)) w

  -- `.at( 0 )`
  connected_first : List k.Address → Udp → Result ℕ
  unfolding create_connected
  connected_first [] w = (w, throws out_of_range)
  connected_first (a ∷ la) w = create_connected a w

  unfoldable pub datagram_socket : Construction k → Udp → Result ℕ
  unfolding create_unbound create_bound create_connected connected_first resolved resolve_datagram
  datagram_socket (unbound af) w = create_unbound af w
  datagram_socket (by_service af ls) w = resolved w (resolve_datagram none ls af w) create_bound
  datagram_socket (by_name ln ls) w =
      resolved w (resolve_datagram (some ln) ls ip_unspec w) create_bound
  datagram_socket (listed la) w = create_bound la w
  datagram_socket (connected_name name service family) w =
      resolved w (resolve_datagram (some name) service family w) connected_first
  datagram_socket (connected_address destination) w = create_connected destination w
