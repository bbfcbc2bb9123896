-- ===== src/Containers/Sequences/Strides.antt =====
-- `check_strictly_ascending` of container-util.h with a stride.
use nanonet.Common.{
  ℕ, zero, suc, ◌+◌, ◌≤◌, ◌<◌, ◌≡◌, ◌↔◌, refl, sym, ap, ◌∙◌, arith, Bool, true, false, some, List,
  [], ◌∷◌, length, drop, Bool-cases, inl, inr,
}
use nanonet.Containers.{check_strictly_ascending}
use nanonet.Containers.Advance.{
  forward-drop, safe_advance_random-safe_advance_forward, IsAscending,
  check_strictly_ascending-IsAscending,
}
use nanonet.Containers.Sequences.{
  Category, random_access, forward, by_category, safe_advance, stride_test, stride_loop,
  check_strictly_ascending_stride,
}

module _ {A : Type 0} where
  -- Behind so many elements, one of each `skipped + 1`.
  pub picked : ℕ → ℕ → List A → List A
  picked skipped n [] = []
  picked skipped zero (x ∷ xs) = x ∷ picked skipped skipped xs
  picked skipped (suc n) (x ∷ xs) = picked skipped n xs

  picked-drop : (skipped n : ℕ) (xs : List A) → picked skipped n xs ≡ picked skipped 0 (drop n xs)
  unfolding picked
  picked-drop skipped zero xs = refl
  picked-drop skipped (suc n) [] = refl
  picked-drop skipped (suc n) (x ∷ xs) = picked-drop skipped n xs

  by_category-drop :
      (category : Category) (i : List A) (d : ℕ) → by_category category i d ≡ drop d i
  unfolding by_category
  by_category-drop random_access i d =
      safe_advance_random-safe_advance_forward i d ∙ forward-drop i d
  by_category-drop forward i d = forward-drop i d

  length-drop : (xs : List A) (d : ℕ) → length (drop d xs) ≤ length xs
  length-drop xs zero = omega arith
  length-drop [] (suc d) = omega arith
  length-drop (x ∷ xs) (suc d) = omega (arith, length-drop xs d)

  stride_loop-picked :
      (rounds : ℕ) (category : Category) (ge : A → A → Bool) (skipped : ℕ) (x : A) (rest : List A)
      → length rest < rounds
      → stride_loop rounds category ge (suc skipped) x rest
        ≡ some (check_strictly_ascending ge (x ∷ picked skipped 0 (drop skipped rest)))
  unfolding stride_loop safe_advance
  stride_loop-picked zero category ge skipped x rest h = absurd (omega arith)
  stride_loop-picked (suc rounds) category ge skipped x rest h =
      rw (by_category-drop category (x ∷ rest) (suc skipped)) (
        going (drop skipped rest) (length-drop rest skipped)
          (λ y ys k. stride_loop-picked rounds category ge skipped y ys k))
    where
      going :
          (ys : List A)
          → length ys ≤ length rest
          → ((y : A) (zs : List A)
              → length zs < rounds
              → stride_loop rounds category ge (suc skipped) y zs
                ≡ some (check_strictly_ascending ge (y ∷ picked skipped 0 (drop skipped zs))))
          → stride_test ge x (some ys) (stride_loop rounds category ge (suc skipped))
            ≡ some (check_strictly_ascending ge (x ∷ picked skipped 0 ys))
      going [] k later = unfold stride_test picked check_strictly_ascending in refl
      going (y ∷ ys) k later =
          unfold stride_test picked check_strictly_ascending in
          elim (Bool-cases (ge x y)) [
            | inl bad ↦ rw bad refl
            | inr good ↦
                rw (good, picked-drop skipped skipped ys) (later y ys (omega (arith, h, k)))
          ]

  stride-picked :
      (category : Category) (ge : A → A → Bool) (skipped : ℕ) (xs : List A)
      → check_strictly_ascending_stride category ge (suc skipped) xs
        ≡ some (check_strictly_ascending ge (picked skipped 0 xs))
  unfolding check_strictly_ascending_stride picked
  stride-picked category ge skipped [] = unfold check_strictly_ascending in refl
  stride-picked category ge skipped (x ∷ rest) =
      stride_loop-picked (length rest + 1) category ge skipped x rest (omega arith)
      ∙ ap (λ l. some (check_strictly_ascending ge (x ∷ l)))
          (sym (picked-drop skipped skipped rest))

  module _ (ge : A → A → Bool)
      (trans : (x y z : A) → ge x y ≡ false → ge y z ≡ false → ge x z ≡ false) where
    -- With a stride of at least one, on iterators of either kind: `check_strictly_ascending` ends, and
    -- passes exactly when, of the first element and those that are a multiple of the stride behind it,
    -- each is before all that follow it, where `<`, the negation of `>=`, is transitive.
    pub check_strictly_ascending_stride-IsAscending :
        (category : Category) (skipped : ℕ) (xs : List A)
        → ((result : Bool) × (check_strictly_ascending_stride category ge (suc skipped) xs
              ≡ some result))
          × ((check_strictly_ascending_stride category ge (suc skipped) xs ≡ some true)
              ↔ IsAscending ge (picked skipped 0 xs))
    check_strictly_ascending_stride-IsAscending category skipped xs =
        let same = stride-picked category ge skipped xs in
        let (sound, complete) =
          check_strictly_ascending-IsAscending ge trans (picked skipped 0 xs) in
        (
          (check_strictly_ascending ge (picked skipped 0 xs), same),
          ((λ h. sound (cc (same, h))), (λ h. same ∙ ap some (complete h))),
        )
