-- ===== src/Tests/Estimates.antt =====
-- An estimator of rates over whole numbers, with `none` for what is not a number.
use nanonet.Common.{
  ◌≡◌, refl, Bool, false, not, ◌&&◌, Option, some, none, List, [], ◌∷◌, ℤ, pos, negsuc, leb_ℤ, ◌-◌,
  leb, if◌then◌else◌,
}
use nanonet.Double.{Floats}
use nanonet.Rates.{Arithmetic, RateEstimator, isnan, round_to_integer}
use nanonet.Rates.Accepted.{taken_behind, update_all, taken, state_of, update_all-state_of}

abbrev on_both : (ℤ → ℤ → Bool) → Option ℤ → Option ℤ → Bool
on_both f (some a) (some b) = f a b
on_both f _ _ = false

abbrev difference : ℤ → ℤ → ℤ
difference (pos a) (pos b) = if leb b a then pos (a - b) else negsuc (b - a - 1)
difference a b = a

abbrev minus_of : Option ℤ → Option ℤ → Option ℤ
minus_of (some a) (some b) = some (difference a b)
minus_of _ _ = none

-- `none` is not a number.
abbrev numbers : Floats
numbers = record {
  Double = Option ℤ;
  origin = some (pos 0);
  lt = λ a b. on_both (λ x y. not (leb_ℤ y x)) a b;
  le = λ a b. on_both leb_ℤ a b;
  eq = λ a b. on_both (λ x y. leb_ℤ x y && leb_ℤ y x) a b;
  of_long = λ a. some a;
  to_long = λ a. pos 0;
  read = λ s. none;
}

-- A moving average that is the last difference.
abbrev last_difference : Arithmetic numbers
last_difference = record {
  not_a_number = none;
  one = some (pos 1);
  plus = λ a b. b;
  minus = minus_of;
  times = λ a b. b;
  over = λ a b. b;
  round = λ a. a;
  llround = λ a. elim a [ none ↦ pos 0 | some n ↦ n ];
}

abbrev start : RateEstimator numbers
start = record { factor = some (pos 1); dt_estimate = some (pos 1); last_update = none }

abbrev times : List (Option ℤ)
times = none ∷ some (pos 5) ∷ some (pos 9) ∷ some (pos 7) ∷ none ∷ some (pos 12) ∷ []

update_all-state_of_example :
    update_all last_difference times start
    ≡ state_of last_difference start (taken last_difference times)
update_all-state_of_example = update_all-state_of last_difference times start (unfold isnan in refl)

taken_run : taken last_difference times ≡ some (pos 5) ∷ some (pos 9) ∷ some (pos 12) ∷ []
unfolding taken taken_behind isnan
taken_run = refl

rounded : round_to_integer last_difference (negsuc 127) (pos 127) (some (pos 128)) ≡ none
unfolding round_to_integer
rounded = refl
