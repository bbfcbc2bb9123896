-- ===== src/Containers/Sequences/Printing.antt =====
-- `write_sequence` of include/nanonet/container-util.h against `split` of src/util.cpp, and the search
-- for elements against descriptions.
use nanonet.Common.{
  ℕ, ◌+◌, ◌≡◌, ◌≢◌, refl, sym, ap, ◌∙◌, arith, not, ◌&&◌, some, List, [], ◌∷◌, ◌++◌, append-nil,
  append_assoc, map, All, Bytes, count, length, leb, ℤ, pos, leb_ℤ,
}
use nanonet.Text.{split}
use nanonet.Text.Split.{joined, split_iff}
use nanonet.Containers.Sequences.{
  write_elements, closing_bracket, write_sequence, distance_at_least_random, distance_loop,
  distance_at_least_input,
}

write_elements-joined :
    {A : Type 0} (show : A → Bytes) (separator : ℕ) (items : List A)
    → write_elements show (separator ∷ []) items ≡ joined separator (map show items)
unfolding write_elements
write_elements-joined show separator [] = refl
write_elements-joined show separator (x ∷ []) = refl
write_elements-joined show separator (x ∷ y ∷ rest) =
    simp append_assoc
      (ap (λ l. show x ++ (separator ∷ l)) (write_elements-joined show separator (y ∷ rest)))

-- What `write_sequence` writes of a sequence that is not empty, without brackets and with a separator
-- of one character that is in the text of no element, `split` takes apart again into the texts of the
-- elements.
pub split-write_sequence :
    {A : Type 0} (show : A → Bytes) (separator : ℕ) (items : List A)
    → items ≢ []
    → All (λ part. count separator part ≡ 0) (map show items)
    → split (write_sequence show items 0 (separator ∷ [])) separator ≡ some (map show items)
unfolding write_sequence closing_bracket
split-write_sequence {A = A} show separator items given free =
    (split_iff (write_sequence show items 0 (separator ∷ [])) separator (map show items)).1
      (record {
        some_part = not_empty items given;
        none_inside = free;
        joins = sym (append-nil _ ∙ write_elements-joined show separator items);
      })
  where
    not_empty : (l : List A) → l ≢ [] → map show l ≢ []
    not_empty [] h e = h refl
    not_empty (x ∷ l) h e = cc e

module _ {A : Type 0} where
  distance_loop-random :
      (d : ℕ) (x : A) (i : List A) (dist : ℤ)
      → distance_loop d (x ∷ i) dist ≡ leb_ℤ dist (pos (d + length (x ∷ i)))
  unfolding distance_loop
  distance_loop-random d x [] dist = ground arith
  distance_loop-random d x (y ∷ i) dist = ground (arith, distance_loop-random (d + 1) y i dist)

  -- `distance_at_least` for iterators that are not of random access tells the same as for those that
  -- are, except of an empty sequence: of that it says no for every distance, and so also for 0 and
  -- below.
  pub distance_at_least_input-random :
      (i : List A) (dist : ℤ)
      → distance_at_least_input i dist ≡ (distance_at_least_random i dist && not (leb (length i) 0))
  unfolding distance_at_least_input distance_at_least_random
  distance_at_least_input-random [] dist = ground arith
  distance_at_least_input-random (x ∷ i) dist = ground (arith, distance_loop-random 0 x i dist)
