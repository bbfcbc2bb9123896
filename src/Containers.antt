-- ===== src/Containers.antt =====
-- The containers of include/nanonet/container-util.h: the vector of a fixed capacity, and algorithms
-- on iterators. An iterator is what is left between it and the end. A failed `assert` is `none`.
pub mod Capped
pub mod Advance
pub mod Sequences
use nanonet.Common.{
  ℕ, zero, suc, ◌+◌, ◌-◌, Bool, true, false, Option, none, some, List, [], ◌∷◌, ◌++◌, ◌==◌, ltb,
  leb, if◌then◌else◌, length, get_elem?, drop,
}

-- `v` is the array of all slots, which is `max_size` long.
pub record CappedVector (A : Type 0) : Type 0 where
  pub v : List A
  pub size : ℕ

module _ {A : Type 0} where
  -- `v[ i ] = t`
  unfoldable pub put_at : List A → ℕ → A → List A
  put_at [] i t = []
  put_at (x ∷ xs) zero t = t ∷ xs
  put_at (x ∷ xs) (suc i) t = x ∷ put_at xs i t

  unfoldable pub is_full : CappedVector A → Bool
  is_full c = leb (length c.v) c.size

  unfoldable pub is_empty : CappedVector A → Bool
  is_empty c = 0 == c.size

  unfoldable pub push_back : CappedVector A → A → Option (CappedVector A)
  unfolding is_full put_at
  push_back c t =
      if is_full c then none else some (record { v = put_at c.v c.size t; size = c.size + 1 })

  unfoldable pub pop_back : CappedVector A → Option (CappedVector A)
  unfolding is_empty
  pop_back c = if is_empty c then none else some (record c { size = c.size - 1 })

  -- `operator[]`
  unfoldable pub element : CappedVector A → ℕ → Option A
  element c i = if ltb i c.size then get_elem? c.v i else none

  -- `safe_advance` for a random access iterator, and for a forward iterator.
  unfoldable pub safe_advance_random : List A → ℕ → List A
  safe_advance_random i d = if ltb d (length i) then drop d i else []

  unfoldable pub safe_advance_forward : List A → ℕ → List A
  safe_advance_forward i zero = i
  safe_advance_forward [] (suc d) = []
  safe_advance_forward (x ∷ i) (suc d) = safe_advance_forward i d

  -- The loop of `erase_if`, with the elements that it has passed.
  unfoldable pub erase_loop : (A → Bool) → List A → List A → List A
  erase_loop predicate passed [] = passed
  erase_loop predicate passed (x ∷ rest) =
      let erased = erase_loop predicate passed rest in
      let kept = erase_loop predicate (passed ++ x ∷ []) rest in
      if predicate x then erased else kept

  unfoldable pub erase_if : (A → Bool) → List A → List A
  unfolding erase_loop
  erase_if predicate items = erase_loop predicate [] items

  -- `check_strictly_ascending` with steps of one; false: it throws. `ge` is `>=`.
  unfoldable pub check_strictly_ascending : (A → A → Bool) → List A → Bool
  check_strictly_ascending ge [] = true
  check_strictly_ascending ge (x ∷ []) = true
  check_strictly_ascending ge (x ∷ y ∷ rest) =
      let later = check_strictly_ascending ge (y ∷ rest) in if ge x y then false else later
