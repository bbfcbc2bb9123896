-- ===== src/Network/Address/Resolving.antt =====
-- What the resolution of names of include/nanonet/detail/net-address.h gives, over a `getaddrinfo` as
-- documented.
use nanonet.Common.{
  ltb, length, arith, ℕ, zero, suc, ◌≡◌, ◌≢◌, refl, ◌⊎◌, Option, none, some, List, [], ◌∷◌, Bytes,
  map, All, ◌==◌, ==_refl, ◌||◌, true, Outcome, ok, throws,
}
use nanonet.Network.LowLevel.{Kernel}
use nanonet.Network.Address.{
  AddrInfo, Names, Hints, NameError, cannot_resolve, collect, give, answered, hints_for,
  my_getaddrinfo, is_given, resolve_error,
}

nonempty : (m : ℕ) → ltb 0 (suc m) ≡ true
nonempty m = ground arith

module _ {k : Kernel} (n : Names k) where
  -- The family that was asked for, if one was.
  abbrev pub Suits : ℕ → k.Address → Type 0
  Suits family_hint a = (family_hint ≡ n.af_unspec) ⊎ (k.family a ≡ family_hint)

  -- An error comes with no list. Without one there is a list, and all in it are of the type and of the
  -- family that the hints ask for.
  abbrev pub Answers : Hints → ℕ × List (AddrInfo k) → Type 0
  Answers hints (zero, []) = ⊥
  Answers hints (zero, p ∷ ps) =
      All (λ q. (hints.ai_socktype ≡ q.ai_socktype) × Suits hints.ai_family q.ai_addr) (p ∷ ps)
  Answers hints (suc e, res) = res ≡ []

  pub record IsDocumented : Type 0 where
    pub answers :
        (name service : Option Bytes) (hints : Hints) (s : k.State)
        → Answers hints (n.getaddrinfo name service hints s).1

  -- The addresses of a list, which is freed; or the error of a call that gave none.
  abbrev pub Resolved :
      ℕ
      → Option Bytes
      → Bytes
      → k.State × (ℕ × List (AddrInfo k))
      → k.State × Outcome NameError (List k.Address)
      → Type 0
  Resolved hint name service (s, (e, res)) (s2, ok la) =
      (e ≡ 0)
      × (la ≡ map (λ p. p.ai_addr) res)
      × (la ≢ [])
      × All (Suits hint) la
      × (s2 ≡ n.freeaddrinfo res s)
  Resolved hint name service (s, (e, res)) (s2, throws x) =
      (e ≢ 0) × (res ≡ []) × (x ≡ cannot_resolve name service e) × (s2 ≡ s)

  collect_lem :
      (type hint : ℕ) (ps : List (AddrInfo k))
      → All (λ q. (type ≡ q.ai_socktype) × Suits hint q.ai_addr) ps
      → (collect n type ps ≡ ok (map (λ p. p.ai_addr) ps))
        × All (Suits hint) (map (λ p. p.ai_addr) ps)
  unfolding collect
  collect_lem type hint [] h = (refl, tt)
  collect_lem type hint (p ∷ ps) ((t, f), rest) =
      let (same, all) = collect_lem type hint ps rest in
      let test : (type == p.ai_socktype) ≡ true = rw (← t) (==_refl type) in
      (rw (test, same) refl, (f, all))

  answered_lem :
      (name : Option Bytes) (service : Bytes) (hints : Hints)
      (r : k.State × (ℕ × List (AddrInfo k)))
      → Answers hints r.1
      → Resolved hints.ai_family name service r (answered n hints.ai_socktype name (some service) r)
  unfolding answered give resolve_error
  answered_lem name service hints (s, (zero, [])) h = absurd h
  answered_lem name service hints (s, (zero, p ∷ ps)) h =
      let (same, all) = collect_lem hints.ai_socktype hints.ai_family (p ∷ ps) h in
      rw (same, nonempty (length (map {A = AddrInfo k} (λ q. q.ai_addr) ps)))
        (refl, refl, (λ e. absurd (cc e)), all, refl)
  answered_lem name service hints (s, (suc e, [])) h = ((λ x. absurd (cc x)), refl, refl, refl)
  answered_lem name service hints (s, (suc e, p ∷ ps)) h = absurd (cc h)

  -- For a type of sockets and a service, with or without the name of a host, where `getaddrinfo` does
  -- as documented: `my_getaddrinfo` returns at least one address, those of the list in its order, all of the
  -- family that was asked for, if one was, and frees the list; or `getaddrinfo` has failed, and it
  -- throws that error. None of its assertions fails.
  pub my_getaddrinfo-Resolved :
      (type hint : ℕ) (name : Option Bytes) (service : Bytes) (s : k.State)
      → (n.sock_dgram == type || n.sock_stream == type) ≡ true
      → IsDocumented
      → Resolved hint name service
          (n.getaddrinfo name (some service) (hints_for n type name hint) s)
          (my_getaddrinfo n type name (some service) hint s)
  unfolding my_getaddrinfo hints_for
  my_getaddrinfo-Resolved type hint name service s socket_type d =
      rw (socket_type, given name)
        (answered_lem name service (hints_for n type name hint)
          (n.getaddrinfo name (some service) (hints_for n type name hint) s)
          (d.answers name (some service) (hints_for n type name hint) s))
    where
      given : (name : Option Bytes) → (is_given n name || is_given n (some service)) ≡ true
      given none = unfold is_given in refl
      given (some text) = unfold is_given in refl
