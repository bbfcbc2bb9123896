-- ===== src/Tests/Sequences.antt =====
-- A vector of two slots, and sequences of numbers.
use nanonet.Containers.Sequences.{
  forward, write_sequence, flatten, distance_at_least_input, distance_at_least_random,
  check_strictly_ascending_stride,
}
use nanonet.Common.{
  ◌+◌, not, none, codes, pos, ℕ, ◌≡◌, refl, Bool, false, List, [], ◌∷◌, leb, arith, ◌==◌,
}
use nanonet.Containers.{CappedVector, push_back, pop_back, erase_if}
use nanonet.Containers.Capped.{Pushed, Popped, push_back-Pushed}

abbrev one_of_two : CappedVector ℕ
one_of_two = record { v = 7 ∷ 0 ∷ []; size = 1 }

abbrev numbers : List ℕ
numbers = 1 ∷ 2 ∷ 3 ∷ []

abbrev ge : ℕ → ℕ → Bool
ge x y = leb y x

ge_trans : (x y z : ℕ) → ge x y ≡ false → ge y z ≡ false → ge x z ≡ false
ge_trans x y z h k = ground arith

push_back-Pushed_example :
    Pushed one_of_two 8 (push_back one_of_two 8) × Popped one_of_two (pop_back one_of_two)
push_back-Pushed_example = push_back-Pushed one_of_two 8 (omega arith)

erase_if_run : erase_if (λ x. x == 2) numbers ≡ 1 ∷ 3 ∷ []
unfolding erase_if
erase_if_run = refl

sequence_run : write_sequence (λ x. (b'0' + x) ∷ []) numbers b'{' (codes ", ") ≡ codes "{1, 2, 3}"
unfolding write_sequence
sequence_run = refl

flatten_run : flatten (numbers ∷ [] ∷ (4 ∷ []) ∷ []) ≡ 1 ∷ 2 ∷ 3 ∷ 4 ∷ []
unfolding flatten
flatten_run = refl

distance_of_nothing :
    distance_at_least_input {A = ℕ} [] (pos 0) ≡ not (distance_at_least_random {A = ℕ} [] (pos 0))
unfolding distance_at_least_input distance_at_least_random
distance_of_nothing = refl

stride_of_nothing : check_strictly_ascending_stride forward ge 0 numbers ≡ none
unfolding check_strictly_ascending_stride
stride_of_nothing = refl
