-- ===== src/Containers/Capped.antt =====
-- The vector of a fixed capacity of container-util.h, seen as the list of its elements.
use nanonet.Common.{
  ℕ, zero, suc, ◌+◌, ◌-◌, ◌≤◌, ◌<◌, ◌≡◌, refl, ap, arith, false, Option, none, some, List, [], ◌∷◌,
  ◌++◌, length, take, Bool-cases, inl, inr, ◌==◌,
}
use nanonet.Containers.{CappedVector, put_at, is_full, is_empty, push_back, pop_back}

module _ {A : Type 0} where
  -- The elements, and that there are no more than slots.
  abbrev pub contents : CappedVector A → List A
  contents c = take c.size c.v

  abbrev pub IsCapped : CappedVector A → Type 0
  IsCapped c = c.size ≤ length c.v

  put_at-take :
      (v : List A) (i : ℕ) (t : A)
      → i < length v
      → (take (i + 1) (put_at v i t) ≡ take i v ++ t ∷ []) × (length (put_at v i t) ≡ length v)
  unfolding put_at
  put_at-take [] i t h = absurd (omega arith)
  put_at-take (x ∷ v) zero t h = (refl, refl)
  put_at-take (x ∷ v) (suc i) t h =
      let (same, sized) = put_at-take v i t (omega arith) in
      let next : suc i + 1 ≡ suc (i + 1) = omega arith in
      (rw next (ap (λ l. x ∷ l) same), ap suc sized)

  take-last : (v : List A) (n : ℕ) → n < length v → (t : A) × (take (suc n) v ≡ take n v ++ t ∷ [])
  take-last [] n h = absurd (omega arith)
  take-last (x ∷ v) zero h = (x, refl)
  take-last (x ∷ v) (suc n) h =
      let (t, same) = take-last v n (omega arith) in (t, ap (λ l. x ∷ l) same)

  -- What `push_back` and `pop_back` give, on a vector with so many elements and slots.
  abbrev pub Pushed : CappedVector A → A → Option (CappedVector A) → Type 0
  Pushed c t none = c.size ≡ length c.v
  Pushed c t (some next) =
      (contents next ≡ contents c ++ t ∷ []) × (length next.v ≡ length c.v) × IsCapped next

  abbrev pub Popped : CappedVector A → Option (CappedVector A) → Type 0
  Popped c none = contents c ≡ []
  Popped c (some next) =
      ((t : A) × (contents c ≡ contents next ++ t ∷ []))
      × (length next.v ≡ length c.v)
      × IsCapped next

  -- On a vector with no more elements than slots, `push_back` fails exactly when all slots are taken,
  -- and otherwise adds the element behind the others; `pop_back` fails when there is none, and
  -- otherwise takes the last away. Both keep the capacity and that there are no more elements.
  pub push_back-Pushed :
      (c : CappedVector A) (t : A) → IsCapped c → Pushed c t (push_back c t) × Popped c (pop_back c)
  unfolding push_back is_full pop_back is_empty
  push_back-Pushed c t h = (
    elim (Bool-cases (is_full c)) [
      | inl full ↦ rw full (ground arith)
      | inr free ↦
          let (same, sized) = put_at-take c.v c.size t (ground arith) in
          rw free (same, sized, ground (arith, sized))
    ],
    go c.size refl,
  )
    where
      go : (n : ℕ) → c.size ≡ n → Popped c (pop_back c)
      go zero e = rw e refl
      go (suc n) e =
          let (last, same) = take-last c.v n (omega arith) in
          let back : suc n - 1 ≡ n = omega arith in
          let some_left : (0 == suc n) ≡ false = ground arith in
          rw (e, some_left, back) ((last, same), refl, omega arith)
