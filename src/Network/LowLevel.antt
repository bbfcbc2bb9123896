-- ===== src/Network/LowLevel.antt =====
-- The calls with a timeout of src/detail/network.cpp, and bool_fcntl_option of
-- src/detail/socket_lowlevel.cpp. The operating system's calls are a parameter. A loop that repeats an
-- interrupted call is given a number of rounds; after that the call counts as interrupted for good.
pub mod Blocking
pub mod Accepting
use nanonet.Common.{
  ℕ, zero, suc, Bool, true, false, Option, none, some, List, ◌∷◌, ◌==◌, if◌then◌else◌, Outcome, ok,
  throws,
}

-- What a call returns: -1 with EINTR, -1 with another `errno`, or a number that is not negative.
pub data SystemReply : Type 0 where
  interrupted : SystemReply
  failed : ℕ → SystemReply
  done : ℕ → SystemReply

pub record Kernel : Type 1 where
  pub State : Type 0
  pub Address : Type 0
  pub family : Address → ℕ
  pub af_inet : ℕ
  pub af_inet6 : ℕ
  -- `socket` of a family gives a descriptor.
  pub socket : ℕ → State → State × SystemReply
  pub bind : ℕ → Address → State → State × SystemReply
  pub listen : ℕ → State → State × SystemReply
  pub getsockname : ℕ → State → State × Outcome ℕ Address
  pub close : ℕ → State → State
  pub connect : ℕ → Address → State → State × SystemReply
  pub accept : ℕ → State → State × SystemReply
  -- `::poll` for one descriptor; `done 0` is a timeout.
  pub poll : ℕ → ℕ → State → State × SystemReply
  -- `getsockopt` for SO_ERROR: the error is `done`.
  pub get_sockopt_error : ℕ → State → State × SystemReply
  -- `fcntl` with F_GETFL and F_SETFL: whether it succeeds.
  pub get_flags : ℕ → State → State × Bool
  pub set_flags : ℕ → Bool → State → State × Bool
  pub einprogress : ℕ

pub data CallFailure : Type 0 where
  timeout_exception option_failed always_interrupted : CallFailure
  errno : ℕ → CallFailure

-- `nonblocking` is O_NONBLOCK of each descriptor, and `accepted` those that `accept` gave.
pub record Sockets (k : Kernel) : Type 0 where
  pub state : k.State
  pub nonblocking : ℕ → Bool
  pub accepted : List ℕ

-- `do { ret = ... ; } while( EINTR_repeat( ret ) ) ;`
unfoldable pub repeat : {S : Type 0} → ℕ → (S → S × SystemReply) → S → S × SystemReply
repeat zero call s = (s, interrupted)
repeat (suc rounds) call s =
    let (s', reply) = call s in
    let again = repeat rounds call s' in
    elim reply [ interrupted ↦ again | failed e ↦ (s', failed e) | done n ↦ (s', done n) ]

module _ {k : Kernel} where
  with_flags : ℕ → Bool → Sockets k → k.State × Bool → Sockets k × Outcome CallFailure (Unit {0})
  with_flags fd enable w (s, false) = (record w { state = s }, throws option_failed)
  with_flags fd enable w (s, true) = (
    record w {
      state = s;
      nonblocking = λ other. if other == fd then enable else w.nonblocking other;
    },
    ok tt,
  )

  setting : ℕ → Bool → Sockets k → k.State × Bool → Sockets k × Outcome CallFailure (Unit {0})
  unfolding with_flags
  setting fd enable w (s, false) = (record w { state = s }, throws option_failed)
  setting fd enable w (s, true) = with_flags fd enable w (k.set_flags fd enable s)

  -- With O_NONBLOCK for the option.
  pub bool_fcntl_option : ℕ → Bool → Sockets k → Sockets k × Outcome CallFailure (Unit {0})
  unfolding setting
  bool_fcntl_option fd enable w = setting fd enable w (k.get_flags fd w.state)

  -- A call that is followed by more unless it throws.
  pub and_then :
      {A B : Type 0}
      → Sockets k × Outcome CallFailure A
      → (Sockets k → A → Sockets k × Outcome CallFailure B)
      → Sockets k × Outcome CallFailure B
  and_then (w, ok a) next = next w a
  and_then (w, throws e) next = (w, throws e)

  -- A call's number, or its error as an exception.
  replied : Sockets k → k.State × SystemReply → Sockets k × Outcome CallFailure ℕ
  replied w (s, interrupted) = (record w { state = s }, throws always_interrupted)
  replied w (s, failed e) = (record w { state = s }, throws (errno e))
  replied w (s, done n) = (record w { state = s }, ok n)

  pub poll_one : ℕ → ℕ → ℕ → Sockets k → Sockets k × Outcome CallFailure ℕ
  unfolding replied repeat
  poll_one rounds fd timeout w = replied w (repeat rounds (k.poll fd timeout) w.state)

  -- `if (0 == poll_res) throw_timeout_exception(...)`
  pub not_timed_out : Sockets k → ℕ → Sockets k × Outcome CallFailure (Unit {0})
  not_timed_out w zero = (w, throws timeout_exception)
  not_timed_out w (suc n) = (w, ok tt)

  -- `if (0 != err) strerror_exception(...)`
  pub no_socket_error : Sockets k → ℕ → Sockets k × Outcome CallFailure (Unit {0})
  no_socket_error w zero = (w, ok tt)
  no_socket_error w (suc e) = (w, throws (errno (suc e)))

  -- `my_connect` from behind a `connect` that is in progress.
  pub finish_connect : ℕ → ℕ → ℕ → Sockets k → Sockets k × Outcome CallFailure (Unit {0})
  unfolding and_then poll_one not_timed_out replied no_socket_error bool_fcntl_option
  finish_connect rounds fd timeout w = and_then (poll_one rounds fd timeout w) λ w1 poll_res.
      and_then (not_timed_out w1 poll_res) λ w2 _.
        and_then (replied w2 (k.get_sockopt_error fd w2.state))
          λ w3 err. and_then (no_socket_error w3 err) λ w4 _. bool_fcntl_option fd false w4

  after_connect :
      ℕ → ℕ → ℕ → Sockets k → k.State × SystemReply → Sockets k × Outcome CallFailure (Unit {0})
  unfolding finish_connect
  after_connect rounds fd timeout w (s, done n) = (record w { state = s }, ok tt)
  after_connect rounds fd timeout w (s, interrupted) =
      (record w { state = s }, throws always_interrupted)
  after_connect rounds fd timeout w (s, failed e) =
      if e == k.einprogress
      then finish_connect rounds fd timeout (record w { state = s })
      else (record w { state = s }, throws (errno e))

  -- `my_connect` without a timeout.
  pub connect_blocking : ℕ → ℕ → k.Address → Sockets k → Sockets k × Outcome CallFailure (Unit {0})
  unfolding and_then replied repeat
  connect_blocking rounds fd a w =
      and_then (replied w (repeat rounds (k.connect fd a) w.state)) λ w' _. (w', ok tt)

  -- `none`: the timeout is negative.
  unfoldable pub my_connect :
      ℕ → ℕ → k.Address → Option ℕ → Sockets k → Sockets k × Outcome CallFailure (Unit {0})
  unfolding connect_blocking and_then bool_fcntl_option after_connect repeat
  my_connect rounds fd a none w = connect_blocking rounds fd a w
  my_connect rounds fd a (some timeout) w =
      and_then (bool_fcntl_option fd true w)
        λ w1 _. after_connect rounds fd timeout w1 (repeat rounds (k.connect fd a) w1.state)

  unfoldable pub my_bind :
      ℕ → ℕ → k.Address → Sockets k → Sockets k × Outcome CallFailure (Unit {0})
  unfolding and_then replied repeat
  my_bind rounds fd a w =
      and_then (replied w (repeat rounds (k.bind fd a) w.state)) λ w' _. (w', ok tt)

  unfoldable pub my_listen : ℕ → ℕ → Sockets k → Sockets k × Outcome CallFailure (Unit {0})
  unfolding and_then replied repeat
  my_listen rounds fd w =
      and_then (replied w (repeat rounds (k.listen fd) w.state)) λ w' _. (w', ok tt)

  accepted_as : Sockets k → k.State × SystemReply → Sockets k × Outcome CallFailure ℕ
  unfolding replied
  accepted_as w (s, done n) = (record w { state = s; accepted = n ∷ w.accepted }, ok n)
  accepted_as w (s, interrupted) = replied w (s, interrupted)
  accepted_as w (s, failed e) = replied w (s, failed e)

  -- `my_accept` without a timeout.
  pub accept_one : ℕ → ℕ → Sockets k → Sockets k × Outcome CallFailure ℕ
  unfolding accepted_as repeat
  accept_one rounds fd w = accepted_as w (repeat rounds (k.accept fd) w.state)

  -- `none`: the timeout is negative.
  unfoldable pub my_accept : ℕ → ℕ → Option ℕ → Sockets k → Sockets k × Outcome CallFailure ℕ
  unfolding accept_one and_then bool_fcntl_option poll_one not_timed_out
  my_accept rounds fd none w = accept_one rounds fd w
  my_accept rounds fd (some timeout) w = and_then (bool_fcntl_option fd true w) λ w1 _.
      and_then (poll_one rounds fd timeout w1) λ w2 poll_res.
        and_then (not_timed_out w2 poll_res) λ w3 _.
          and_then (accept_one rounds fd w3)
            λ w4 ret. and_then (bool_fcntl_option ret false w4) λ w5 _. (w5, ok ret)
