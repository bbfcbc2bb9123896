-- ===== src/Tests/Calls.antt =====
-- A kernel whose state counts the calls: the first of each kind is interrupted, address 0 answers at
-- once, 1 after a while, and flags can be set until call 9.
use nanonet.Common.{
  ℕ, ◌+◌, ◌≡◌, refl, true, false, some, [], ◌==◌, ltb, if◌then◌else◌, ok, throws, ◌∷◌, List, Bool,
  sym, ap, ◌∙◌, none,
}
use nanonet.Network.LowLevel.{
  SystemReply, interrupted, failed, done, Kernel, option_failed, Sockets, repeat, bool_fcntl_option,
  my_connect, my_accept,
}
use nanonet.Network.{initialize}
use nanonet.Network.System.{system_calls}
use nanonet.Network.LowLevel.Blocking.{Mode, my_connect-Mode}
use nanonet.Network.LowLevel.Accepting.{DescriptorTable, AcceptResult, my_accept-AcceptResult}

abbrev is_among : ℕ → List ℕ → Bool
is_among n [] = false
is_among n (m ∷ ns) = if n == m then true else is_among n ns

abbrev without : ℕ → List ℕ → List ℕ
without n [] = []
without n (m ∷ ns) = let rest = without n ns in if n == m then rest else m ∷ rest

-- The number of calls, and the descriptors that are open.
abbrev Calls : Type 0
Calls = ℕ × List ℕ

abbrev called : Calls → Calls
called (calls, descriptors) = (calls + 1, descriptors)

abbrev accept_call : Calls → Bool → Calls × SystemReply
accept_call s true = (called s, interrupted)
accept_call (calls, descriptors) false = ((calls + 1, 7 ∷ descriptors), done 7)

abbrev kernel : Kernel
kernel = record {
  State = Calls;
  Address = ℕ;
  family = λ a. 2;
  af_inet = 2;
  af_inet6 = 10;
  socket = λ family s. ((s.0 + 1, s.0 ∷ s.1), done s.0);
  bind = λ fd a s. (called s, done 0);
  listen = λ fd s. (called s, done 0);
  getsockname = λ fd s. (called s, ok 0);
  close = λ fd s. (s.0 + 1, without fd s.1);
  connect = λ fd a s.
      (called s, if ltb s.0 3 then interrupted else if a == 0 then done 0 else failed 115);
  accept = λ fd s. accept_call s (ltb s.0 5);
  poll = λ fd t s. (called s, done 1);
  get_sockopt_error = λ fd s. (called s, done 0);
  get_flags = λ fd s. (called s, true);
  set_flags = λ fd enable s. (called s, ltb s.0 9);
  einprogress = 115;
}

accept_call_opens :
    (s s' : Calls) (early : Bool) (n : ℕ)
    → accept_call s early ≡ (s', done n)
    → is_among n s'.1 ≡ true
accept_call_opens s s' true n h = absurd (cc (ap (λ r. r.1) h))
accept_call_opens s (calls, descriptors) false n h =
    let fd : 7 ≡ n = cc (ap (λ r. r.1) h) in
    ap (is_among n) (sym (ap (λ r. r.0.1) h)) ∙ ap (λ m. is_among m (7 ∷ s.1)) (sym fd)

abbrev table : DescriptorTable kernel
table = record {
  is_open = λ fd s. is_among fd s.1;
  accept_opens = λ fd s s' n h. accept_call_opens s s' (ltb s.0 5) n h;
  get_flags_keeps = λ other fd s. refl;
  set_flags_keeps = λ other fd enable s. refl;
}

abbrev from_call : ℕ → Sockets kernel
from_call n = record { state = (n, []); nonblocking = λ fd. false; accepted = [] }

at_once : (my_connect {k = kernel} 5 3 0 (some 10) (from_call 0)).0.nonblocking 3 ≡ true
unfolding my_connect
at_once = refl

after_a_while : (my_connect {k = kernel} 5 3 1 (some 10) (from_call 0)).0.nonblocking 3 ≡ false
unfolding my_connect
after_a_while = refl

left_open : (my_accept {k = kernel} 5 3 (some 10) (from_call 5)).1 ≡ throws option_failed
unfolding my_accept
left_open = refl

abbrev connected : Sockets kernel
connected = (my_connect {k = kernel} 5 3 1 (some 10) (from_call 0)).0

my_connect-Mode_example :
    (w1 : Sockets kernel) × (bool_fcntl_option 3 true (from_call 0) ≡ (w1, ok tt))
    × Mode 3 (repeat 5 (kernel.connect 3 1) w1.state).1 connected
my_connect-Mode_example =
    my_connect-Mode {k = kernel} 5 3 10 1 (from_call 0) connected (unfold my_connect in refl)

my_accept-AcceptResult_example :
    AcceptResult table (from_call 5) (my_accept {k = kernel} 5 3 (some 10) (from_call 5))
my_accept-AcceptResult_example = my_accept-AcceptResult table 5 3 10 (from_call 5)

-- `connection::initialize` over these calls, with an answer after a while.
connected_run :
    (initialize {c = system_calls kernel (λ w a. none) 5 (some 10)}
      (9 ∷ 0 ∷ [])
      []
      (record { state = from_call 0; log = [] })).1
    ≡ ok 0
unfolding initialize my_connect
connected_run = refl
