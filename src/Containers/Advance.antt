-- ===== src/Containers/Advance.antt =====
-- The algorithms of container-util.h against their descriptions.
use nanonet.Common.{
  ℕ, zero, suc, ◌≤◌, ◌≡◌, ◌↔◌, refl, sym, ◌∙◌, arith, Bool, true, false, List, [], ◌∷◌, ◌++◌,
  append-nil, append_assoc, if◌then◌else◌, length, drop, ltb, Bool-cases, inl, inr, All,
}
use nanonet.Containers.{
  safe_advance_random, safe_advance_forward, erase_loop, erase_if, check_strictly_ascending,
}

module _ {A : Type 0} where
  drop_beyond : (i : List A) (d : ℕ) → length i ≤ d → drop d i ≡ []
  drop_beyond [] zero h = refl
  drop_beyond [] (suc d) h = refl
  drop_beyond (x ∷ i) zero h = absurd (omega arith)
  drop_beyond (x ∷ i) (suc d) h = drop_beyond i d (omega arith)

  pub forward-drop : (i : List A) (d : ℕ) → safe_advance_forward i d ≡ drop d i
  unfolding safe_advance_forward
  forward-drop i zero = refl
  forward-drop [] (suc d) = refl
  forward-drop (x ∷ i) (suc d) = forward-drop i d

  -- `safe_advance` does the same for a random access iterator, in one step, as for a forward
  -- iterator, one element at a time: it moves by `d` or else to the end.
  pub safe_advance_random-safe_advance_forward :
      (i : List A) (d : ℕ) → safe_advance_random i d ≡ safe_advance_forward i d
  unfolding safe_advance_random
  safe_advance_random-safe_advance_forward i d = elim (Bool-cases (ltb d (length i))) [
    | inl there ↦ rw there (sym (forward-drop i d))
    | inr beyond ↦ rw (beyond, forward-drop) (sym (drop_beyond i d (ground arith)))
  ]

  -- The elements that a test does not hold of, in their order.
  pub without : (A → Bool) → List A → List A
  without predicate [] = []
  without predicate (x ∷ xs) =
      let rest = without predicate xs in if predicate x then rest else x ∷ rest

  erase_loop-without :
      (predicate : A → Bool) (passed items : List A)
      → erase_loop predicate passed items ≡ passed ++ without predicate items
  unfolding erase_loop without
  erase_loop-without predicate passed [] = sym (append-nil passed)
  erase_loop-without predicate passed (x ∷ rest) = elim (Bool-cases (predicate x)) [
    | inl gone ↦ rw gone (erase_loop-without predicate passed rest)
    | inr kept ↦ rw kept (
        erase_loop-without predicate (passed ++ x ∷ []) rest
        ∙ append_assoc passed (x ∷ []) (without predicate rest))
  ]

  -- `erase_if` leaves exactly the elements that the predicate does not hold of, in their order.
  pub erase_if-without :
      (predicate : A → Bool) (items : List A) → erase_if predicate items ≡ without predicate items
  unfolding erase_if
  erase_if-without predicate items = erase_loop-without predicate [] items

  -- Each element is before all that follow it.
  abbrev pub IsAscending : (A → A → Bool) → List A → Type 0
  IsAscending ge [] = Unit
  IsAscending ge (x ∷ xs) = All (λ y. ge x y ≡ false) xs × IsAscending ge xs

  module _ (ge : A → A → Bool)
      (trans : (x y z : A) → ge x y ≡ false → ge y z ≡ false → ge x z ≡ false) where
    ahead_of :
        (x y : A) (zs : List A)
        → ge x y ≡ false
        → All (λ z. ge y z ≡ false) zs
        → All (λ z. ge x z ≡ false) zs
    ahead_of x y [] h k = tt
    ahead_of x y (z ∷ zs) h (k, ks) = (trans x y z h k, ahead_of x y zs h ks)

    -- `check_strictly_ascending`, in steps of one, passes exactly when each element is before all
    -- that follow it, where `<`, the negation of `>=`, is transitive.
    pub check_strictly_ascending-IsAscending :
        (xs : List A) → (check_strictly_ascending ge xs ≡ true) ↔ IsAscending ge xs
    unfolding check_strictly_ascending
    check_strictly_ascending-IsAscending [] = (λ _. tt, λ _. refl)
    check_strictly_ascending-IsAscending (x ∷ []) = (λ _. (tt, tt), λ _. refl)
    check_strictly_ascending-IsAscending (x ∷ y ∷ rest) =
        let (sound, complete) = check_strictly_ascending-IsAscending (y ∷ rest) in
        elim (Bool-cases (ge x y)) [
          | inl bad ↦ (λ h. absurd (cc (rw bad at h)), λ h. absurd (cc (bad, h.0.0)))
          | inr good ↦ (
            λ h.
                let (all, ascending) = sound (rw good at h) in
                ((good, ahead_of x y rest good all), (all, ascending)),
            λ h. rw good (complete h.1),
          )
        ]
