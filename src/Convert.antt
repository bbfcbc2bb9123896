-- ===== src/Convert.antt =====
-- `convert` of registry.h and registry.cpp: a value of the registry as a number, a string, a list,
-- a vector or a matrix. And `check_long` of util.cpp.
pub mod Shape
pub mod Matrix
use nanonet.Common.{
  ℕ, zero, suc, ◌+◌, Bool, true, false, not, ◌||◌, Option, none, some, List, [], ◌∷◌, ◌==◌,
  if◌then◌else◌, Bytes, length, Outcome, ok, throws, ◌>>=◌, rethrow, ℤ, pos, negsuc,
}
use nanonet.Double.{Floats}
use nanonet.Error.{
  Error, should_be, should_have, should_be_between, should_be_integer, assertion_failure,
  in_element, in_row, number_kind, string_kind, list_kind, expression_kind, elements, rows, columns,
}
use nanonet.Parser.{Term, Terms, nil, cons, number, text, list, expression}

-- `n >= 0 && v.size() != n`
abbrev pub wrong_size : ℕ → ℤ → Bool
wrong_size n (pos m) = not (n == m)
wrong_size n (negsuc m) = false

-- `always_assert( n >= -1 )`
abbrev pub is_count : ℤ → Bool
is_count (pos n) = true
is_count (negsuc n) = n == 0

-- The test on the length of a row: the number of columns asked for, where it is another. The
-- first row's length is given behind the first row; -2 asks that all be as long.
unfoldable pub wrong_columns : ℤ → Option ℕ → ℕ → Option ℤ
wrong_columns (pos n) front m = if not (m == n) then some (pos n) else none
wrong_columns (negsuc zero) front m = none
wrong_columns (negsuc (suc zero)) none m = none
wrong_columns (negsuc (suc zero)) (some n) m = if not (m == n) then some (pos n) else none
wrong_columns (negsuc (suc (suc _))) front m = none

unfoldable pub check_columns {ℓ} : {A : Type ℓ} → ℤ → Option ℕ → List A → Outcome Error (List A)
unfolding wrong_columns
check_columns n front row = elim (wrong_columns n front (length row)) [
  | none ↦ ok row
  | some m ↦ throws (should_have m columns)
]

abbrev or_else : Option ℕ → ℕ → Option ℕ
or_else none n = some n
or_else (some m) n = some m

module _ {fl : Floats} where
  -- `v.size()`
  unfoldable pub size : Terms fl → ℕ
  size nil = 0
  size (cons x xs) = suc (size xs)

  -- `convert< T >( a )` for the types that a value may have.
  unfoldable pub convert_number : Term fl → Outcome Error fl.Double
  convert_number (number x) = ok x
  convert_number _ = throws (should_be number_kind)

  unfoldable pub convert_string : Term fl → Outcome Error Bytes
  convert_string (text s) = ok s
  convert_string _ = throws (should_be string_kind)

  unfoldable pub convert_list : Term fl → Outcome Error (Terms fl)
  convert_list (list xs) = ok xs
  convert_list _ = throws (should_be list_kind)

  unfoldable pub convert_expression : Term fl → Outcome Error (Bytes × Terms fl)
  convert_expression (expression head tail) = ok (head, tail)
  convert_expression _ = throws (should_be expression_kind)

  -- The loop of `convert` over the elements; `i` is the number of the first of them.
  unfoldable pub convert_each {ℓ} :
      {A : Type ℓ} → (Term fl → Outcome Error A) → ℕ → Terms fl → Outcome Error (List A)
  convert_each convert i nil = ok []
  convert_each convert i (cons x xs) = do
    value ← rethrow (in_element i) (convert x)
    values ← convert_each convert (i + 1) xs
    ok (value ∷ values)

  unfoldable pub convert_vector {ℓ} :
      {A : Type ℓ} → (Term fl → Outcome Error A) → Term fl → ℤ → Outcome Error (List A)
  unfolding convert_each
  convert_vector convert a n = if not (is_count n) then throws assertion_failure else do
    v ← convert_list a
    if wrong_size (size v) n then throws (should_have n elements) else convert_each convert 1 v

  unfoldable pub convert_rows : ℤ → Option ℕ → ℕ → Terms fl → Outcome Error (List (List fl.Double))
  unfolding check_columns convert_vector
  convert_rows n front i nil = ok []
  convert_rows n front i (cons x xs) = do
    row ←
        rethrow (in_row i)
          (do v ← convert_vector convert_number x (negsuc 0); check_columns n front v)
    rest ← convert_rows n (or_else front (length row)) (i + 1) xs
    ok (row ∷ rest)

  -- The matrix of doubles; its asserts on `rows` and `columns` are the caller's duty.
  unfoldable pub convert_matrix : Term fl → ℤ → ℤ → Outcome Error (List (List fl.Double))
  unfolding convert_rows
  convert_matrix a n m = do
    v ← convert_list a
    if wrong_size (size v) n then throws (should_have n rows) else convert_rows m none 1 v

module _ (fl : Floats) where
  unfoldable pub check_long : fl.Double → fl.Double → fl.Double → Outcome Error ℤ
  check_long x min max =
      if fl.lt x min || fl.lt max x
      then throws should_be_between
      else if not (fl.eq (fl.of_long (fl.to_long x)) x)
      then throws should_be_integer
      else ok (fl.to_long x)
