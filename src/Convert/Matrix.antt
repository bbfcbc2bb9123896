-- ===== src/Convert/Matrix.antt =====
-- What `convert` of registry.cpp promises of a matrix of doubles.
use nanonet.Common.{
  ℕ, zero, suc, ◌+◌, ◌≡◌, inl, inr, refl, false, Option, none, some, List, [], ◌∷◌, arith, length,
  All, Outcome, ok, throws, ◌>>=◌, bind_returns, rethrow, ℤ, pos, negsuc, Bool-cases, Option-cases,
  ap,
}
use nanonet.Double.{Floats}
use nanonet.Error.{Error, in_row}
use nanonet.Parser.{Term, Terms, nil, cons, number, text, list, expression}
use nanonet.Convert.{
  size, convert_number, convert_list, wrong_size, convert_vector, wrong_columns, check_columns,
  convert_rows, convert_matrix, or_else,
}
use nanonet.Convert.Shape.{HasSize, VectorOf, convert_vector_iff}

right_size : (k l : ℕ) (n : ℤ) → wrong_size k n ≡ false → k ≡ l → HasSize l n
right_size k l (pos i) h e = ground arith
right_size k l (negsuc i) h e = tt

module _ {A : Type 0} where
  -- The columns that a matrix was asked for: a number of them, -2 for rows of one length, or any.
  abbrev pub IsShaped : ℤ → List (List A) → Type 0
  IsShaped (pos n) rows = All (λ row. length row ≡ n) rows
  IsShaped (negsuc (suc zero)) (first ∷ rows) = All (λ row. length row ≡ length first) rows
  IsShaped (negsuc _) rows = Unit

  -- The same behind a first row of the length given, if there is one.
  abbrev Fits : ℤ → Option ℕ → List (List A) → Type 0
  Fits (pos n) front rows = All (λ row. length row ≡ n) rows
  Fits (negsuc (suc zero)) none rows = IsShaped (negsuc 1) rows
  Fits (negsuc (suc zero)) (some k) rows = All (λ row. length row ≡ k) rows
  Fits (negsuc _) front rows = Unit

  Fits-cons :
      (m : ℤ) (front : Option ℕ) (row : List A) (rows : List (List A))
      → wrong_columns m front (length row) ≡ none
      → Fits m (or_else front (length row)) rows
      → Fits m front (row ∷ rows)
  unfolding wrong_columns
  Fits-cons (pos n) front row rows h f = ground arith
  Fits-cons (negsuc zero) front row rows h f = tt
  Fits-cons (negsuc (suc zero)) none row rows h f = f
  Fits-cons (negsuc (suc zero)) (some k) row rows h f = ground arith
  Fits-cons (negsuc (suc (suc k))) front row rows h f = tt

  IsShaped-of_Fits : (m : ℤ) (rows : List (List A)) → Fits m none rows → IsShaped m rows
  IsShaped-of_Fits (pos n) rows f = f
  IsShaped-of_Fits (negsuc zero) rows f = tt
  IsShaped-of_Fits (negsuc (suc zero)) rows f = f
  IsShaped-of_Fits (negsuc (suc (suc k))) rows f = tt

  checked_row :
      (m : ℤ) (front : Option ℕ) (i : ℕ) (r : Outcome Error (List A)) (row : List A)
      → rethrow (in_row i) (r >>= check_columns m front) ≡ ok row
      → (r ≡ ok row) × (wrong_columns m front (length row) ≡ none)
  unfolding check_columns
  checked_row m front i (throws e) row h = cc
  checked_row m front i (ok v) row h = elim (Option-cases (wrong_columns m front (length v))) [
    | inl good ↦
        let same : v ≡ row = cc (rw (good, check_columns) at h) in (ap ok same, rw (← same) good)
    | inr (k, bad) ↦ absurd (cc (rw (bad, check_columns) at h))
  ]

module _ (A : Type 0) where
  Fits-nil : (m : ℤ) (front : Option ℕ) → Fits {A = A} m front []
  Fits-nil (pos n) front = tt
  Fits-nil (negsuc zero) front = tt
  Fits-nil (negsuc (suc zero)) none = tt
  Fits-nil (negsuc (suc zero)) (some k) = tt
  Fits-nil (negsuc (suc (suc k))) front = tt

module _ {fl : Floats} where
  -- The rows are the lists of numbers that the values are.
  abbrev pub RowsOf : Terms fl → List (List fl.Double) → Type 0
  RowsOf nil [] = Unit
  RowsOf (cons x xs) (row ∷ rows) = VectorOf convert_number x (negsuc 0) row × RowsOf xs rows
  RowsOf _ _ = ⊥

  convert_rows_sound :
      (m : ℤ) (front : Option ℕ) (i : ℕ) (xs : Terms fl) (rows : List (List fl.Double))
      → convert_rows m front i xs ≡ ok rows
      → RowsOf xs rows × Fits m front rows × (size xs ≡ length rows)
  unfolding convert_rows size
  convert_rows_sound m front i nil [] h = (tt, Fits-nil fl.Double m front, refl)
  convert_rows_sound m front i nil (row ∷ rows) h = absurd (cc h)
  convert_rows_sound m front i (cons x xs) rows h =
      let (row, first, later) =
        bind_returns
          (rethrow (in_row i)
            (convert_vector convert_number x (negsuc 0) >>= check_columns m front))
          _ h in
      let (rest, others, whole) =
        bind_returns (convert_rows m (or_else front (length row)) (i + 1) xs) _ later in
      let (vector, fits) =
        checked_row m front i (convert_vector convert_number x (negsuc 0)) row first in
      let (rows_of, all_fit, sized) =
        convert_rows_sound m (or_else front (length row)) (i + 1) xs rest others in
      let same : row ∷ rest ≡ rows = cc whole in
      rw (← same) (
        ((convert_vector_iff convert_number x (negsuc 0) row).0 vector, rows_of),
        Fits-cons m front row rest fits all_fit,
        ap suc sized,
      )

  -- A matrix that `convert` gives has the rows of the list that the value is, each a list of
  -- numbers; as many rows as were asked for, and rows of the length asked for: of the number of
  -- columns given, or of the first row's length for -2.
  pub convert_matrix_sound :
      (a : Term fl) (n m : ℤ) (rows : List (List fl.Double))
      → convert_matrix a n m ≡ ok rows
      → ((xs : Terms fl) × (a ≡ list xs) × RowsOf xs rows)
        × HasSize (length rows) n
        × IsShaped m rows
  unfolding convert_matrix convert_list
  convert_matrix_sound (list xs) n m rows h = elim (Bool-cases (wrong_size (size xs) n)) [
    | inl bad ↦ absurd (cc (rw bad at h))
    | inr good ↦
        let (rows_of, fits, sized) = convert_rows_sound m none 1 xs rows (rw good at h) in
        (
          (xs, refl, rows_of),
          right_size (size xs) (length rows) n good sized,
          IsShaped-of_Fits m rows fits,
        )
  ]
  convert_matrix_sound (number x) n m rows h = ground arith
  convert_matrix_sound (text x) n m rows h = ground arith
  convert_matrix_sound (expression x xs) n m rows h = ground arith
