-- ===== src/Network/Attempts.antt =====
-- What it is that the first attempt that succeeds counts, for the loops of src/network.cpp, and that
-- `bound_socket` is such a loop.
use nanonet.Common.{ℕ, ◌≡◌, refl, ap, List, [], ◌∷◌, ◌++◌, Outcome, ok, throws, ◌⊎◌, inl, inr}
use nanonet.Network.{
  Calls, World, SocketError, NetError, no_local_address, socket_failed, catching, try_bound,
  bound_loop, bound_socket,
}

pub Outcome-cases {ℓ} :
    {W : Type ℓ} {E A : Type 0} (r : W × Outcome E A)
    → ((w : W) × (a : A) × (r ≡ (w, ok a))) ⊎ ((w : W) × (e : E) × (r ≡ (w, throws e)))
Outcome-cases (w, ok a) = inl (w, a, refl)
Outcome-cases (w, throws e) = inr (w, e, refl)

module _ {c : Calls} {K : Type 0}
    (attempt : K → World c → World c × Outcome (SocketError c) ℕ) where
  -- The attempts at all of a list, one after the other, fail with these errors.
  pub data Failing : World c → List K → List (SocketError c) → World c → Type 0 where
    none_left : {w : World c} → Failing w [] [] w
    next_fails :
        {w w1 w2 : World c} {k : K} {ks : List K} {e : SocketError c} {es : List (SocketError c)}
        → attempt k w ≡ (w1, throws e)
        → Failing w1 ks es w2
        → Failing w (k ∷ ks) (e ∷ es) w2

  -- One attempt of the list gives a socket, all before it have failed, and none behind it is made.
  pub record Works (w : World c) (ks : List K) (w2 : World c) (fd : ℕ) : Type 0 where
    pub before : List K
    pub chosen : K
    pub after : List K
    pub errors : List (SocketError c)
    pub w1 : World c
    pub parts : ks ≡ before ++ chosen ∷ after
    pub failing : Failing w before errors w1
    pub succeeds : attempt chosen w1 ≡ (w2, ok fd)

  pub Works-now :
      (k : K) (ks : List K) (w w2 : World c) (fd : ℕ)
      → attempt k w ≡ (w2, ok fd)
      → Works w (k ∷ ks) w2 fd
  Works-now k ks w w2 fd h = record {
    before = [];
    chosen = k;
    after = ks;
    errors = [];
    w1 = w;
    parts = refl;
    failing = none_left;
    succeeds = h;
  }

  pub Works-later :
      (k : K) (ks : List K) (w w1 w2 : World c) (e : SocketError c) (fd : ℕ)
      → attempt k w ≡ (w1, throws e)
      → Works w1 ks w2 fd
      → Works w (k ∷ ks) w2 fd
  Works-later k ks w w1 w2 e fd h r = record {
    before = k ∷ r.before;
    chosen = r.chosen;
    after = r.after;
    errors = e ∷ r.errors;
    w1 = r.w1;
    parts = ap (λ l. k ∷ l) r.parts;
    failing = next_fails h r.failing;
    succeeds = r.succeeds;
  }

module _ {c : Calls} where
  -- The error that is left when one after the other has been stored.
  abbrev pub last_error : NetError c → List (SocketError c) → NetError c
  last_error err [] = err
  last_error err (e ∷ es) = last_error (socket_failed e) es

  abbrev pub BoundResult :
      NetError c → List c.Address → World c → World c × Outcome (NetError c) ℕ → Type 0
  BoundResult err la w (w2, ok fd) = Works try_bound w la w2 fd
  BoundResult err la w (w2, throws e) =
      (es : List (SocketError c)) × Failing try_bound w la es w2 × (e ≡ last_error err es)

  later :
      (err : NetError c) (a : c.Address) (la : List c.Address) (w w1 : World c) (e : SocketError c)
      (r : World c × Outcome (NetError c) ℕ)
      → try_bound a w ≡ (w1, throws e)
      → BoundResult (socket_failed e) la w1 r
      → BoundResult err (a ∷ la) w r
  later err a la w w1 e (w2, ok fd) h r = Works-later try_bound a la w w1 w2 e fd h r
  later err a la w w1 e (w2, throws e') h (es, failing, last) = (e ∷ es, next_fails h failing, last)

  bound_loop-BoundResult :
      (err : NetError c) (la : List c.Address) (w : World c)
      → BoundResult err la w (bound_loop err la w)
  unfolding bound_loop catching
  bound_loop-BoundResult err [] w = ([], none_left, refl)
  bound_loop-BoundResult err (a ∷ la) w = elim (Outcome-cases (try_bound a w)) [
    | inl (w2, fd, e) ↦ rw e (Works-now try_bound a la w w2 fd e)
    | inr (w1, x, e) ↦ rw e (
        later err a la w w1 x (bound_loop (socket_failed x) la w1) e
          (bound_loop-BoundResult (socket_failed x) la w1))
  ]

  -- With addresses given, `bound_socket` gives the socket of the first address at which one can be
  -- opened and bound, when all before it have failed, and tries none behind it; when all fail, it
  -- throws the error of the last. With no address it throws that it needs one, and does nothing.
  pub bound_socket-BoundResult :
      (la : List c.Address) (w : World c)
      → ((la ≡ []) × (bound_socket la w ≡ (w, throws no_local_address)))
        ⊎ BoundResult no_local_address la w (bound_socket la w)
  unfolding bound_socket
  bound_socket-BoundResult [] w = inl (refl, refl)
  bound_socket-BoundResult (a ∷ la) w = inr (bound_loop-BoundResult no_local_address (a ∷ la) w)
