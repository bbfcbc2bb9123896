-- ===== src/Network/Candidates.antt =====
-- What `connection::initialize` of src/network.cpp tries, in which order, and how it ends.
use nanonet.Common.{
  ℕ, ◌≡◌, refl, ap, sym, ◌∙◌, Bool-cases, Option, none, some, List, [], ◌∷◌, ◌++◌, map, append-nil,
  append_assoc, ◌==◌, if◌then◌else◌, Outcome, ok, throws, inl, inr, Option-cases, ◌⊎◌,
}
use nanonet.Network.{
  Calls, World, SocketError, Failure, NetError, families_differ, all_failed, catching, try_connect,
  unbound_loop, remote_loop, local_loop, loops, finish, initialize, LoopEnd, collected, escaped,
  text_error, after_text, continuing, text_failed,
}
use mathlib.Core.Path.{fun_ext}
use nanonet.Network.Attempts.{Outcome-cases}

-- A candidate is a local address, if one is used, and a remote one.
module _ (c : Calls) where
  -- The remote addresses of a local one's family.
  pub matching : c.Address → List c.Address → List (Option c.Address × c.Address)
  matching local [] = []
  matching local (remote ∷ ra) =
      if c.family_detail_ local == c.family_detail_ remote
      then (some local, remote) ∷ matching local ra
      else matching local ra

  pub pairs : List c.Address → List c.Address → List (Option c.Address × c.Address)
  pairs [] ra = []
  pairs (local ∷ la) ra = matching local ra ++ pairs la ra

  -- With no local address the remote ones, and otherwise all pairs of one family, by the local one.
  pub candidates : List c.Address → List c.Address → List (Option c.Address × c.Address)
  unfolding matching pairs
  candidates ra [] = map (λ remote. (none, remote)) ra
  candidates ra (local ∷ la) = pairs (local ∷ la) ra

module _ {c : Calls} where
  unfoldable pub attempt :
      Option c.Address × c.Address → World c → World c × Outcome (SocketError c) ℕ
  attempt (local, remote) w = try_connect local remote w

  -- One loop over candidates.
  one_loop :
      List (Failure c)
      → List (Option c.Address × c.Address)
      → World c
      → World c × Outcome (LoopEnd c) ℕ
  one_loop err [] w = (w, throws (collected err))
  one_loop err ((local, remote) ∷ ks) w = catching (try_connect local remote w) (λ w' e.
      after_text (text_error w' local remote) w'
        (one_loop (err ++ record { local = local; remote = remote; error = e } ∷ []) ks w'))

  one_loop-append :
      (err : List (Failure c)) (ks ls : List (Option c.Address × c.Address)) (w : World c)
      → one_loop err (ks ++ ls) w
        ≡ catching (one_loop err ks w) (continuing (λ err' w'. one_loop err' ls w'))
  unfolding one_loop catching continuing after_text
  one_loop-append err [] ls w = refl
  one_loop-append err ((local, remote) ∷ ks) ls w =
      elim (Outcome-cases (try_connect local remote w)) [
        | inl (w2, fd, e) ↦ rw e refl
        | inr (w1, x, e) ↦ elim (Option-cases (text_error w1 local remote)) [
          | inr (y, h) ↦ rw (e, h) refl
          | inl h ↦
              rw (e, h)
                (one_loop-append (err ++ record { local = local; remote = remote; error = x } ∷ [])
                  ks ls w1)
        ]
      ]

  unbound_loop-one_loop :
      (err : List (Failure c)) (ra : List c.Address) (w : World c)
      → unbound_loop err ra w ≡ one_loop err (map (λ remote. (none, remote)) ra) w
  unfolding unbound_loop one_loop catching
  unbound_loop-one_loop err [] w = refl
  unbound_loop-one_loop err (remote ∷ ra) w = elim (Outcome-cases (try_connect none remote w)) [
    | inl (w2, fd, e) ↦ rw e refl
    | inr (w1, x, e) ↦ rw e (
        ap (after_text (text_error w1 none remote) w1) (
          unbound_loop-one_loop (err ++ record { local = none; remote = remote; error = x } ∷ []) ra
            w1))
  ]

  remote_loop-one_loop :
      (local : c.Address) (err : List (Failure c)) (ra : List c.Address) (w : World c)
      → remote_loop local err ra w ≡ one_loop err (matching c local ra) w
  unfolding remote_loop one_loop matching catching
  remote_loop-one_loop local err [] w = refl
  remote_loop-one_loop local err (remote ∷ ra) w =
      elim (Bool-cases (c.family_detail_ local == c.family_detail_ remote)) [
        | inr other ↦ rw other (remote_loop-one_loop local err ra w)
        | inl same ↦ rw same (elim (Outcome-cases (try_connect (some local) remote w)) [
          | inl (w2, fd, e) ↦ rw e refl
          | inr (w1, x, e) ↦ rw e (
              ap (after_text (text_error w1 (some local) remote) w1) (
                remote_loop-one_loop local
                  (err ++ record { local = some local; remote = remote; error = x } ∷ []) ra w1))
        ])
      ]

  local_loop-one_loop :
      (err : List (Failure c)) (la ra : List c.Address) (w : World c)
      → local_loop err la ra w ≡ one_loop err (pairs c la ra) w
  unfolding local_loop pairs
  local_loop-one_loop err [] ra w = unfold one_loop in refl
  local_loop-one_loop err (local ∷ la) ra w =
      ap (λ r. catching r (continuing (λ err' w'. local_loop err' la ra w')))
        (remote_loop-one_loop local err ra w)
      ∙ ap (λ next. catching (one_loop err (matching c local ra) w) (continuing next))
          (fun_ext λ err'. fun_ext λ w'. local_loop-one_loop err' la ra w')
      ∙ sym (one_loop-append err (matching c local ra) (pairs c la ra) w)

  loops-one_loop :
      (ra la : List c.Address) (w : World c) → loops ra la w ≡ one_loop [] (candidates c ra la) w
  unfolding loops candidates
  loops-one_loop ra [] w = unbound_loop-one_loop [] ra w
  loops-one_loop ra (local ∷ la) w = local_loop-one_loop [] (local ∷ la) ra w

  -- Errors with the candidates that they belong to.
  pub failures : List (Option c.Address × c.Address) → List (SocketError c) → List (Failure c)
  failures ((local, remote) ∷ ks) (e ∷ es) =
      record { local = local; remote = remote; error = e } ∷ failures ks es
  failures _ _ = []

  -- The attempts at all of a list, one after the other, fail with these errors, and the texts of the
  -- addresses can be made each time.
  pub data Passed
      : World c
        → List (Option c.Address × c.Address)
        → List (SocketError c)
        → World c
        → Type 0 where
    none_passed : {w : World c} → Passed w [] [] w
    next_passed :
        {w w1 w2 : World c} {local : Option c.Address} {remote : c.Address}
        {ks : List (Option c.Address × c.Address)} {e : SocketError c} {es : List (SocketError c)}
        → attempt (local, remote) w ≡ (w1, throws e)
        → text_error w1 local remote ≡ none
        → Passed w1 ks es w2
        → Passed w ((local, remote) ∷ ks) (e ∷ es) w2

  -- All before one candidate of a list have been passed.
  pub record Reached (w : World c) (ks : List (Option c.Address × c.Address)) (w1 : World c)
      (local : Option c.Address) (remote : c.Address) : Type 0 where
    pub before : List (Option c.Address × c.Address)
    pub after : List (Option c.Address × c.Address)
    pub errors : List (SocketError c)
    pub parts : ks ≡ before ++ (local, remote) ∷ after
    pub passed : Passed w before errors w1

  Reached-now :
      (w : World c) (ks : List (Option c.Address × c.Address)) (local : Option c.Address)
      (remote : c.Address)
      → Reached w ((local, remote) ∷ ks) w local remote
  Reached-now w ks local remote = record {
    before = [];
    after = ks;
    errors = [];
    parts = refl;
    passed = none_passed;
  }

  -- A candidate was reached, with this socket.
  abbrev pub Connects : List (Option c.Address × c.Address) → World c → World c → ℕ → Type 0
  Connects ks w w2 fd =
      (local : Option c.Address) × (remote : c.Address) × (w1 : World c) × Reached w ks w1 local
        remote
      × (attempt (local, remote) w1 ≡ (w2, ok fd))

  -- A candidate was reached and failed, and its text could not be made.
  abbrev pub Escapes :
      List (Option c.Address × c.Address) → World c → World c → c.CallError → Type 0
  Escapes ks w w2 x =
      (local : Option c.Address) × (remote : c.Address) × (w1 : World c) × (e : SocketError c)
      × Reached w ks w1 local remote
      × (attempt (local, remote) w1 ≡ (w2, throws e))
      × (text_error w2 local remote ≡ some x)

  abbrev LoopResult :
      List (Failure c)
      → List (Option c.Address × c.Address)
      → World c
      → World c × Outcome (LoopEnd c) ℕ
      → Type 0
  LoopResult err ks w (w2, ok fd) = Connects ks w w2 fd
  LoopResult err ks w (w2, throws (collected fs)) =
      (es : List (SocketError c)) × Passed w ks es w2 × (fs ≡ err ++ failures ks es)
  LoopResult err ks w (w2, throws (escaped x)) = Escapes ks w w2 x

  module _ (local : Option c.Address) (remote : c.Address)
      (ks : List (Option c.Address × c.Address)) (w w1 : World c) (e : SocketError c)
      (h : attempt (local, remote) w ≡ (w1, throws e))
      (named : text_error w1 local remote ≡ none) where
    Reached-later :
        {w3 : World c} {local2 : Option c.Address} {remote2 : c.Address}
        → Reached w1 ks w3 local2 remote2
        → Reached w ((local, remote) ∷ ks) w3 local2 remote2
    Reached-later r = record {
      before = (local, remote) ∷ r.before;
      after = r.after;
      errors = e ∷ r.errors;
      parts = ap (λ l. (local, remote) ∷ l) r.parts;
      passed = next_passed h named r.passed;
    }

    later :
        (err : List (Failure c)) (r : World c × Outcome (LoopEnd c) ℕ)
        → LoopResult (err ++ record { local = local; remote = remote; error = e } ∷ []) ks w1 r
        → LoopResult err ((local, remote) ∷ ks) w r
    unfolding failures
    later err (w2, ok fd) (l, a, w3, reached, works) = (l, a, w3, Reached-later reached, works)
    later err (w2, throws (collected fs)) (es, passed, all) =
        (e ∷ es, next_passed h named passed, all ∙ append_assoc err _ (failures ks es))
    later err (w2, throws (escaped x)) (l, a, w3, y, reached, fails, text) =
        (l, a, w3, y, Reached-later reached, fails, text)

  one_loop-LoopResult :
      (err : List (Failure c)) (ks : List (Option c.Address × c.Address)) (w : World c)
      → LoopResult err ks w (one_loop err ks w)
  unfolding one_loop catching attempt failures after_text
  one_loop-LoopResult err [] w = ([], none_passed, sym (append-nil err))
  one_loop-LoopResult err ((local, remote) ∷ ks) w =
      elim (Outcome-cases (try_connect local remote w)) [
        | inl (w2, fd, e) ↦ rw e (local, remote, w, Reached-now w ks local remote, e)
        | inr (w1, x, e) ↦ elim (Option-cases (text_error w1 local remote)) [
          | inr (y, h) ↦ rw (e, h) (local, remote, w, x, Reached-now w ks local remote, e, h)
          | inl h ↦
              let all = err ++ record { local = local; remote = remote; error = x } ∷ [] in
              rw (e, h)
                (later local remote ks w w1 x e h err (one_loop all ks w1)
                  (one_loop-LoopResult all ks w1))
        ]
      ]

  -- The error of `initialize` for the failures that it has collected.
  pub error_of : List (Failure c) → NetError c
  error_of [] = families_differ
  error_of (f ∷ fs) = all_failed (f ∷ fs)

  abbrev pub InitializeResult :
      List (Option c.Address × c.Address) → World c → World c × Outcome (NetError c) ℕ → Type 0
  InitializeResult ks w (w2, ok fd) = Connects ks w w2 fd
  InitializeResult ks w (w2, throws e) =
      ((es : List (SocketError c)) × Passed w ks es w2 × (e ≡ error_of (failures ks es)))
      ⊎ ((x : c.CallError) × Escapes ks w w2 x × (e ≡ text_failed x))

  finish-InitializeResult :
      (ks : List (Option c.Address × c.Address)) (w : World c) (r : World c × Outcome (LoopEnd c) ℕ)
      → LoopResult [] ks w r
      → InitializeResult ks w (finish r)
  unfolding finish error_of
  finish-InitializeResult ks w (w2, ok fd) h = h
  finish-InitializeResult ks w (w2, throws (collected [])) (es, passed, all) =
      inl (es, passed, ap error_of all)
  finish-InitializeResult ks w (w2, throws (collected (f ∷ fs))) (es, passed, all) =
      inl (es, passed, ap error_of all)
  finish-InitializeResult ks w (w2, throws (escaped x)) h = inr (x, h, refl)

  -- `connection::initialize` tries candidates in their order: with no local
  -- address every remote one, and otherwise every pair of a local and a remote address of one family,
  -- by the local address first. It gives the socket of the first that works, all before it having
  -- failed, and tries none behind it. When all fail it throws all of their errors, each with its
  -- addresses, in their order; and when there is no candidate, that the families differ. If the text
  -- of an address of a candidate that has failed cannot be made, it throws that error in place of
  -- those collected, and tries no candidate behind that one either.
  pub initialize-InitializeResult :
      (ra la : List c.Address) (w : World c)
      → InitializeResult (candidates c ra la) w (initialize ra la w)
  unfolding initialize
  initialize-InitializeResult ra la w = rw (loops-one_loop ra la w) (
      finish-InitializeResult (candidates c ra la) w (one_loop [] (candidates c ra la) w)
        (one_loop-LoopResult [] (candidates c ra la) w))
