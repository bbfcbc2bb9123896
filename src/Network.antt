-- ===== src/Network.antt =====
-- The sockets of src/network.cpp and include/nanonet/detail/socket.h: how a socket is opened, bound,
-- set to listen and connected, over lists of addresses. The calls of detail/network.cpp are a
-- record of operations, which System fills, and errors are values where the code joins their texts. The log of what was done with
-- descriptors is of the model alone.
pub mod Attempts
pub mod Candidates
pub mod Events
pub mod Descriptors
pub mod LowLevel
pub mod System
pub mod Families
pub mod Address
pub mod Datagrams
use nanonet.Common.{
  ℕ, ◌||◌, Option, none, some, List, [], ◌∷◌, ◌++◌, ◌==◌, not, if◌then◌else◌, Outcome, ok, throws,
}

-- `my_bind`, `my_connect` and `my_listen` end with `none`, or with the error that they throw.
pub record Calls : Type 1 where
  pub State : Type 0
  pub Address : Type 0
  pub CallError : Type 0
  -- `family_detail_()`, and the constants of the two families.
  pub family_detail_ : Address → ℕ
  pub af_inet : ℕ
  pub af_inet6 : ℕ
  -- `::socket(family, type, 0)`; an error for an invalid descriptor.
  pub socket : State → ℕ → State × Outcome CallError ℕ
  pub my_bind : State → ℕ → Address → State × Option CallError
  pub my_connect : State → ℕ → Address → State × Option CallError
  pub my_listen : State → ℕ → State × Option CallError
  -- `to_string( address )`, which gives its text, or throws an error of `check_family` or `getnameinfo`.
  pub to_string : State → Address → Option CallError
  pub my_getsockname : State → ℕ → State × Outcome CallError Address
  pub socketclose : State → ℕ → State

-- What was done with a descriptor.
pub data SocketEvent (c : Calls) : Type 0 where
  opened : ℕ → SocketEvent c
  bound : ℕ → c.Address → SocketEvent c
  connected : ℕ → c.Address → SocketEvent c
  listens : ℕ → SocketEvent c
  closed : ℕ → SocketEvent c

-- The newest event comes first.
pub record World (c : Calls) : Type 0 where
  pub state : c.State
  pub log : List (SocketEvent c)

pub data SocketError (c : Calls) : Type 0 where
  wrong_family : SocketError c
  call_failed : c.CallError → SocketError c

-- A failed attempt to connect: the local address, if one is used, the remote one, and the error.
pub record Failure (c : Calls) : Type 0 where
  pub local : Option c.Address
  pub remote : c.Address
  pub error : SocketError c

-- How a loop of `connection::initialize` ends: at the end of its list, with what `err` has collected, or
-- by an exception that `to_string` throws in a handler.
pub data LoopEnd (c : Calls) : Type 0 where
  collected : List (Failure c) → LoopEnd c
  escaped : c.CallError → LoopEnd c

pub data NetError (c : Calls) : Type 0 where
  no_local_address families_differ : NetError c
  socket_failed : SocketError c → NetError c
  -- "Failed to connect: ", with the failures in their order.
  all_failed : List (Failure c) → NetError c
  text_failed : c.CallError → NetError c

module _ {c : Calls} where
  opened_as :
      c.State → List (SocketEvent c) → Outcome c.CallError ℕ → World c × Outcome (SocketError c) ℕ
  opened_as s log (ok fd) = (record { state = s; log = opened fd ∷ log }, ok fd)
  opened_as s log (throws e) = (record { state = s; log = log }, throws (call_failed e))

  -- The constructor of `socket`: `check_family`, `::socket` and `setup`, which on Linux does nothing
  -- with a valid descriptor.
  pub make_socket : ℕ → World c → World c × Outcome (SocketError c) ℕ
  unfolding opened_as
  make_socket family w =
      if family == c.af_inet || family == c.af_inet6
      then opened_as (c.socket w.state family).0 w.log (c.socket w.state family).1
      else (w, throws wrong_family)

  -- A call that was made, with what it did if it threw nothing.
  logged :
      SocketEvent c
      → c.State
      → List (SocketEvent c)
      → Option c.CallError
      → World c × Option (SocketError c)
  logged event s log none = (record { state = s; log = event ∷ log }, none)
  logged event s log (some e) = (record { state = s; log = log }, some (call_failed e))

  pub bind_to : ℕ → c.Address → World c → World c × Option (SocketError c)
  unfolding logged
  bind_to fd a w = logged (bound fd a) (c.my_bind w.state fd a).0 w.log (c.my_bind w.state fd a).1

  pub connect_to : ℕ → c.Address → World c → World c × Option (SocketError c)
  unfolding logged
  connect_to fd a w =
      logged (connected fd a) (c.my_connect w.state fd a).0 w.log (c.my_connect w.state fd a).1

  pub listen_on : ℕ → World c → World c × Option (SocketError c)
  unfolding logged
  listen_on fd w = logged (listens fd) (c.my_listen w.state fd).0 w.log (c.my_listen w.state fd).1

  -- Two calls, the second unless the first throws.
  then_call :
      World c × Option (SocketError c)
      → (World c → World c × Option (SocketError c))
      → World c × Option (SocketError c)
  then_call (w, none) call = call w
  then_call (w, some e) call = (w, some e)

  -- The destructor of `socket`.
  pub close_socket : ℕ → World c → World c
  close_socket fd w = record { state = c.socketclose w.state fd; log = closed fd ∷ w.log }

  -- A scope that holds a socket: it is given out, or closed where the scope is left by an exception.
  leave_scope : ℕ → World c × Option (SocketError c) → World c × Outcome (SocketError c) ℕ
  unfolding close_socket
  leave_scope fd (w, none) = (w, ok fd)
  leave_scope fd (w, some e) = (close_socket fd w, throws e)

  pub with_socket :
      World c × Outcome (SocketError c) ℕ
      → (ℕ → World c → World c × Option (SocketError c))
      → World c × Outcome (SocketError c) ℕ
  unfolding leave_scope
  with_socket (w, ok fd) body = leave_scope fd (body fd w)
  with_socket (w, throws e) body = (w, throws e)

  -- The body of the loop of `bound_socket`.
  pub try_bound : c.Address → World c → World c × Outcome (SocketError c) ℕ
  unfolding make_socket with_socket bind_to
  try_bound a w = with_socket (make_socket (c.family_detail_ a) w) (λ fd w'. bind_to fd a w')

  -- The bodies of the loops of `connection::initialize`, without and with a local address.
  pub try_connect : Option c.Address → c.Address → World c → World c × Outcome (SocketError c) ℕ
  unfolding make_socket with_socket bind_to connect_to then_call
  try_connect none remote w =
      with_socket (make_socket (c.family_detail_ remote) w) (λ fd w'. connect_to fd remote w')
  try_connect (some local) remote w =
      with_socket (make_socket (c.family_detail_ local) w)
        (λ fd w'. then_call (bind_to fd local w') (connect_to fd remote))

  -- `try { … return … } catch (std::exception const& e) { … }`
  pub catching :
      {E F A : Type 0}
      → World c × Outcome E A
      → (World c → E → World c × Outcome F A)
      → World c × Outcome F A
  catching (w, ok a) handler = (w, ok a)
  catching (w, throws e) handler = handler w e

  -- The loop of `bound_socket`, with the error that is left to throw.
  bound_loop : NetError c → List c.Address → World c → World c × Outcome (NetError c) ℕ
  unfolding try_bound catching
  bound_loop err [] w = (w, throws err)
  bound_loop err (adr ∷ la) w =
      catching (try_bound adr w) (λ w' e. bound_loop (socket_failed e) la w')

  -- `err` starts empty, but the list is not, so that it is set before it is thrown.
  unfoldable pub bound_socket : List c.Address → World c → World c × Outcome (NetError c) ℕ
  unfolding bound_loop
  bound_socket [] w = (w, throws no_local_address)
  bound_socket (adr ∷ la) w = bound_loop no_local_address (adr ∷ la) w

  -- The constructor of `acceptor` from a list: `s`, `local_`, and then its body.
  listening :
      ℕ
      → c.Address
      → World c × Option (SocketError c)
      → World c × Outcome (NetError c) (ℕ × c.Address)
  unfolding close_socket
  listening fd local (w, none) = (w, ok (fd, local))
  listening fd local (w, some e) = (close_socket fd w, throws (socket_failed e))

  named :
      ℕ
      → c.State
      → List (SocketEvent c)
      → Outcome c.CallError c.Address
      → World c × Outcome (NetError c) (ℕ × c.Address)
  unfolding close_socket listening listen_on
  named fd s log (throws e) =
      (close_socket fd (record { state = s; log = log }), throws (socket_failed (call_failed e)))
  named fd s log (ok local) = listening fd local (listen_on fd (record { state = s; log = log }))

  accepting : World c × Outcome (NetError c) ℕ → World c × Outcome (NetError c) (ℕ × c.Address)
  unfolding named
  accepting (w, ok fd) =
      named fd (c.my_getsockname w.state fd).0 w.log (c.my_getsockname w.state fd).1
  accepting (w, throws e) = (w, throws e)

  unfoldable pub acceptor :
      List c.Address → World c → World c × Outcome (NetError c) (ℕ × c.Address)
  unfolding bound_socket accepting
  acceptor la w = accepting (bound_socket la w)

  -- What the calls of `to_string` in a handler throw, if anything, the local address first.
  pub text_error : World c → Option c.Address → c.Address → Option c.CallError
  text_error w none remote = c.to_string w.state remote
  text_error w (some local) remote = elim (c.to_string w.state local) [
    | some x ↦ some x
    | none ↦ c.to_string w.state remote
  ]

  -- The end of a handler: the loop goes on, unless a text could not be made.
  pub after_text :
      Option c.CallError
      → World c
      → World c × Outcome (LoopEnd c) ℕ
      → World c × Outcome (LoopEnd c) ℕ
  after_text none w rest = rest
  after_text (some x) w rest = (w, throws (escaped x))

  -- The loops of `connection::initialize` end by `return s`, or as `LoopEnd` says.
  -- The loop over the remote addresses, with an unbound socket.
  pub unbound_loop : List (Failure c) → List c.Address → World c → World c × Outcome (LoopEnd c) ℕ
  unfolding try_connect catching text_error after_text
  unbound_loop err [] w = (w, throws (collected err))
  unbound_loop err (remote ∷ ra) w = catching (try_connect none remote w) (λ w' e.
      after_text (text_error w' none remote) w'
        (unbound_loop (err ++ record { local = none; remote = remote; error = e } ∷ []) ra w'))

  -- The inner loop, for one local address.
  pub remote_loop :
      c.Address → List (Failure c) → List c.Address → World c → World c × Outcome (LoopEnd c) ℕ
  unfolding try_connect catching text_error after_text
  remote_loop local err [] w = (w, throws (collected err))
  remote_loop local err (remote ∷ ra) w =
      let skipped = remote_loop local err ra w in
      let tried = catching (try_connect (some local) remote w) (λ w' e.
        after_text (text_error w' (some local) remote) w' (
          remote_loop local (err ++ record { local = some local; remote = remote; error = e } ∷ [])
            ra w')) in
      if not (c.family_detail_ local == c.family_detail_ remote) then skipped else tried

  -- The next loop behind one that has come to its end.
  pub continuing :
      (List (Failure c) → World c → World c × Outcome (LoopEnd c) ℕ)
      → World c
      → LoopEnd c
      → World c × Outcome (LoopEnd c) ℕ
  continuing next w (collected err) = next err w
  continuing next w (escaped x) = (w, throws (escaped x))

  -- The outer loop.
  pub local_loop :
      List (Failure c) → List c.Address → List c.Address → World c → World c × Outcome (LoopEnd c) ℕ
  unfolding remote_loop catching continuing
  local_loop err [] ra w = (w, throws (collected err))
  local_loop err (local ∷ la) ra w =
      catching (remote_loop local err ra w) (continuing (λ err' w'. local_loop err' la ra w'))

  pub loops : List c.Address → List c.Address → World c → World c × Outcome (LoopEnd c) ℕ
  unfolding unbound_loop local_loop
  loops ra [] w = unbound_loop [] ra w
  loops ra (local ∷ la) w = local_loop [] (local ∷ la) ra w

  -- What stands behind the loops.
  pub finish : World c × Outcome (LoopEnd c) ℕ → World c × Outcome (NetError c) ℕ
  finish (w, ok s) = (w, ok s)
  finish (w, throws (collected [])) = (w, throws families_differ)
  finish (w, throws (collected (f ∷ failures))) = (w, throws (all_failed (f ∷ failures)))
  finish (w, throws (escaped x)) = (w, throws (text_failed x))

  -- `connection::initialize`
  unfoldable pub initialize :
      List c.Address → List c.Address → World c → World c × Outcome (NetError c) ℕ
  unfolding loops finish
  initialize ra la w = finish (loops ra la w)
