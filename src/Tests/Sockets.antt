-- ===== src/Tests/Sockets.antt =====
-- Sockets of a system that numbers descriptors from 3 on, where an address is a family and a number.
-- Nothing can be bound to number 0, nothing connects to number 1, and nothing listens on descriptor 9.
use nanonet.Common.{ℕ, ◌+◌, ◌≡◌, refl, none, some, List, [], ◌∷◌, ◌==◌, if◌then◌else◌, ok, throws}
use nanonet.Network.{
  Calls, World, opened, bound, closed, call_failed, families_differ, text_failed, all_failed,
  bound_socket, acceptor, initialize,
}
use nanonet.Network.Candidates.{candidates, InitializeResult, initialize-InitializeResult}
use nanonet.Network.Descriptors.{Connected, initialize-Connected}

abbrev calls : Calls
calls = record {
  State = ℕ;
  Address = ℕ × ℕ;
  CallError = ℕ;
  family_detail_ = λ a. a.0;
  af_inet = 2;
  af_inet6 = 10;
  socket = λ s family. (s + 1, ok s);
  my_bind = λ s fd a. (s, if a.1 == 0 then some 98 else none);
  my_connect = λ s fd a. (s, if a.1 == 1 then some 111 else none);
  my_listen = λ s fd. (s, if fd == 9 then some 95 else none);
  to_string = λ s a. if a.1 == 8 then some 5 else none;
  my_getsockname = λ s fd. (s, ok (2, fd));
  socketclose = λ s fd. s;
}

abbrev start : World calls
start = record { state = 3; log = [] }

abbrev locals : List (ℕ × ℕ)
locals = (2, 0) ∷ (10, 5) ∷ (2, 5) ∷ []

abbrev remotes : List (ℕ × ℕ)
remotes = (2, 1) ∷ (2, 7) ∷ []

bound_run :
    bound_socket {c = calls} locals start
    ≡ (record { state = 5; log = bound 4 (10, 5) ∷ opened 4 ∷ closed 3 ∷ opened 3 ∷ [] }, ok 4)
unfolding bound_socket
bound_run = refl

initialize_run : (initialize {c = calls} remotes locals start).1 ≡ ok 6
unfolding initialize
initialize_run = refl

initialize_refused :
    (initialize {c = calls} ((2, 1) ∷ []) [] start).1
    ≡ throws (all_failed (record { local = none; remote = (2, 1); error = call_failed 111 } ∷ []))
unfolding initialize
initialize_refused = refl

initialize_differ :
    (initialize {c = calls} ((10, 7) ∷ []) ((2, 5) ∷ []) start).1 ≡ throws families_differ
unfolding initialize
initialize_differ = refl

-- Nothing listens at an address of no known family, and its text cannot be made, so that the second
-- address is not tried.
initialize_escapes :
    initialize {c = calls} ((1, 8) ∷ (2, 7) ∷ []) [] start ≡ (start, throws (text_failed 5))
unfolding initialize
initialize_escapes = refl

acceptor_run :
    (acceptor {c = calls} locals (record { state = 8; log = [] })).0.log
    ≡ closed 9 ∷ bound 9 (10, 5) ∷ opened 9 ∷ closed 8 ∷ opened 8 ∷ []
unfolding acceptor
acceptor_run = refl

initialize-InitializeResult_example :
    InitializeResult
      (candidates calls remotes locals)
      start
      (initialize {c = calls} remotes locals start)
initialize-InitializeResult_example = initialize-InitializeResult {c = calls} remotes locals start

initialize-Connected_example : Connected start (initialize {c = calls} remotes locals start)
initialize-Connected_example = initialize-Connected {c = calls} remotes locals start
