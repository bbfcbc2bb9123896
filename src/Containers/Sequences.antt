-- ===== src/Containers/Sequences.antt =====
-- The algorithms of include/nanonet/container-util.h on whole sequences, and those with a stride. An
-- iterator is what is left between it and the end. A failed `assert` is `none`.
pub mod Printing
pub mod Strides
use nanonet.Common.{
  ℕ, zero, suc, ◌+◌, Bool, true, false, Option, none, some, List, [], ◌∷◌, ◌++◌, ◌==◌,
  if◌then◌else◌, Bytes, length, ℤ, pos, leb_ℤ,
}
use nanonet.Containers.{safe_advance_random, safe_advance_forward}

-- `iterator_category()`
pub data Category : Type 0 where
  random_access forward : Category

-- The loop of `write_sequence`, with `os << *current` for elements.
pub write_elements : {A : Type 0} → (A → Bytes) → Bytes → List A → Bytes
write_elements show separator [] = []
write_elements show separator (x ∷ []) = show x
write_elements show separator (x ∷ y ∷ rest) =
    show x ++ separator ++ write_elements show separator (y ∷ rest)

pub closing_bracket : ℕ → Bytes
closing_bracket bracket =
    if bracket == b'{'
    then b'}' ∷ []
    else if bracket == b'['
    then b']' ∷ []
    else if bracket == b'('
    then b')' ∷ []
    else if bracket == b'<'
    then b'>' ∷ []
    else []

-- `bracket` is 0 for none.
unfoldable pub write_sequence : {A : Type 0} → (A → Bytes) → List A → ℕ → Bytes → Bytes
unfolding write_elements closing_bracket
write_sequence show items bracket separator =
    (if bracket == 0 then [] else bracket ∷ [])
    ++ write_elements show separator items
    ++ closing_bracket bracket

module _ {A : Type 0} where
  unfoldable pub append_to : List A → List A → List A
  append_to c1 c2 = c1 ++ c2

  flatten_loop : List A → List (List A) → List A
  unfolding append_to
  flatten_loop ret [] = ret
  flatten_loop ret (i ∷ rest) = flatten_loop (append_to ret i) rest

  unfoldable pub flatten : List (List A) → List A
  unfolding flatten_loop
  flatten c = flatten_loop [] c

  -- `distance_at_least` for random access iterators, and for others.
  unfoldable pub distance_at_least_random : List A → ℤ → Bool
  distance_at_least_random i dist = leb_ℤ dist (pos (length i))

  distance_loop : ℕ → List A → ℤ → Bool
  distance_loop d [] dist = false
  distance_loop d (x ∷ i) dist =
      let later = distance_loop (d + 1) i dist in if leb_ℤ dist (pos (d + 1)) then true else later

  unfoldable pub distance_at_least_input : List A → ℤ → Bool
  unfolding distance_loop
  distance_at_least_input i dist = distance_loop 0 i dist

  unfoldable pub next_is_end : List A → Bool
  next_is_end [] = false
  next_is_end (x ∷ []) = true
  next_is_end (x ∷ y ∷ rest) = false

  -- `==` of elements is a parameter.
  unfoldable pub all_equal : (A → A → Bool) → List A → A → Bool
  all_equal eq [] t = true
  all_equal eq (x ∷ rest) t = let later = all_equal eq rest t in if eq x t then later else false

  by_category : Category → List A → ℕ → List A
  unfolding safe_advance_random safe_advance_forward
  by_category random_access i d = safe_advance_random i d
  by_category forward i d = safe_advance_forward i d

  unfoldable pub safe_advance : Category → List A → ℕ → Option (List A)
  unfolding by_category
  safe_advance category i zero = none
  safe_advance category i (suc d) = some (by_category category i (suc d))

  -- The loop of `check_strictly_ascending`, with the number of its rounds, from an element on; false: it
  -- throws, and `none` also: too few rounds. `ge` is `>=`.
  stride_test : (A → A → Bool) → A → Option (List A) → (A → List A → Option Bool) → Option Bool
  stride_test ge i none later = none
  stride_test ge i (some []) later = some true
  stride_test ge i (some (j ∷ rest)) later =
      let next = later j rest in if ge i j then some false else next

  stride_loop : ℕ → Category → (A → A → Bool) → ℕ → A → List A → Option Bool
  unfolding safe_advance stride_test
  stride_loop zero category ge d i rest = none
  stride_loop (suc rounds) category ge d i rest =
      stride_test ge i (safe_advance category (i ∷ rest) d) (stride_loop rounds category ge d)

  unfoldable pub check_strictly_ascending_stride :
      Category → (A → A → Bool) → ℕ → List A → Option Bool
  unfolding stride_loop
  check_strictly_ascending_stride category ge d [] = some true
  check_strictly_ascending_stride category ge d (x ∷ rest) =
      stride_loop (length rest + 1) category ge d x rest
