-- ===== src/Convert/Shape.antt =====
-- What `convert` of registry.h and registry.cpp promises of the vectors and matrices it gives.
use nanonet.Common.{
  ℕ, ◌+◌, ◌≡◌, ◌↔◌, inl, inr, refl, true, List, [], ◌∷◌, arith, if◌then◌else◌, length, Outcome, ok,
  throws, ℤ, pos, negsuc, Bool-cases,
}
use nanonet.Double.{Floats}
use nanonet.Error.{Error, should_have, elements}
use nanonet.Parser.{Term, Terms, nil, cons, number, text, list, expression}
use nanonet.Convert.{size, convert_list, wrong_size, is_count, convert_each, convert_vector}

-- The number of elements that a count asks for; a negative one asks for none.
abbrev pub HasSize : ℕ → ℤ → Type 0
HasSize n (pos m) = n ≡ m
HasSize n (negsuc m) = Unit

module _ {fl : Floats} {A : Type 0} (convert : Term fl → Outcome Error A) where
  -- The elements of `xs` convert to those of `values`, one by one.
  abbrev pub Converts : Terms fl → List A → Type 0
  Converts nil [] = Unit
  Converts (cons x xs) (v ∷ vs) = (convert x ≡ ok v) × Converts xs vs
  Converts _ _ = ⊥

  convert_each-Converts :
      (xs : Terms fl) (i : ℕ) (vs : List A) → (convert_each convert i xs ≡ ok vs) ↔ Converts xs vs
  unfolding convert_each
  convert_each-Converts nil i [] = (λ _. tt, λ _. refl)
  convert_each-Converts nil i (v ∷ vs) = (λ h. cc, λ h. absurd h)
  convert_each-Converts (cons x xs) i [] = ground (arith)
  convert_each-Converts (cons x xs) i (v ∷ vs) = ground (arith, convert_each-Converts xs (i + 1) vs)

  Converts-size : (xs : Terms fl) (vs : List A) → Converts xs vs → size xs ≡ length vs
  unfolding size
  Converts-size nil [] h = refl
  Converts-size (cons x xs) (v ∷ vs) (h, t) = omega (arith, Converts-size xs vs t)
  Converts-size nil (v ∷ vs) h = absurd h
  Converts-size (cons x xs) [] h = absurd h

  sized-Converts :
      (xs : Terms fl) (n : ℤ) (vs : List A) (e : Error)
      → ((if wrong_size (size xs) n then throws e else convert_each convert 1 xs) ≡ ok vs)
        ↔ (Converts xs vs × HasSize (length vs) n)
  sized-Converts xs (pos m) vs e = (
    λ h. ground (arith, convert_each-Converts xs 1 vs, Converts-size xs vs),
    λ h. ground (arith, convert_each-Converts xs 1 vs, Converts-size xs vs),
  )
  sized-Converts xs (negsuc m) vs e =
      (λ h. ((convert_each-Converts xs 1 vs).0 h, tt), λ h. (convert_each-Converts xs 1 vs).1 h.0)

  abbrev pub VectorOf : Term fl → ℤ → List A → Type 0
  VectorOf a n vs =
      (is_count n ≡ true)
      × ((xs : Terms fl) × (a ≡ list xs) × Converts xs vs)
      × HasSize (length vs) n

  convert_vector_sound :
      (a : Term fl) (n : ℤ) (vs : List A) → convert_vector convert a n ≡ ok vs → VectorOf a n vs
  unfolding convert_vector convert_list
  convert_vector_sound (list xs) n vs h = elim (Bool-cases (is_count n)) [
    | inl c ↦
        let (each, sized) = (sized-Converts xs n vs (should_have n elements)).0 (rw c at h) in
        (c, (xs, refl, each), sized)
    | inr c ↦ absurd (cc (rw c at h))
  ]
  convert_vector_sound (number x) n vs h = ground arith
  convert_vector_sound (text x) n vs h = ground arith
  convert_vector_sound (expression x xs) n vs h = ground arith

  convert_vector_complete :
      (a : Term fl) (n : ℤ) (vs : List A) → VectorOf a n vs → convert_vector convert a n ≡ ok vs
  unfolding convert_vector convert_list
  convert_vector_complete a n vs (c, (xs, is_list, each), sized) =
      rw (is_list, c) ((sized-Converts xs n vs (should_have n elements)).1 (each, sized))

  -- `convert` to a vector gives `vs` exactly when the value is a list whose elements convert to
  -- those of `vs`, in their order, the count is at least -1, and a count of 0 or more is their number.
  pub convert_vector_iff :
      (a : Term fl) (n : ℤ) (vs : List A) → (convert_vector convert a n ≡ ok vs) ↔ VectorOf a n vs
  convert_vector_iff a n vs = (convert_vector_sound a n vs, convert_vector_complete a n vs)
