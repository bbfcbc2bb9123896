-- ===== src/Error.antt =====
-- What the configuration reader throws: each `std::runtime_error` of registry.cpp and registry.h,
-- and those of `check_long` and `verify` of util.cpp, by the values that its text names.
use nanonet.Common.{ℕ, Bytes, ℤ, ◌≢◌, Outcome, ok, throws, ◌>>=◌}
use nanonet.Token.{Token}

-- `<file name>:<line number>: `, and `(line <number> in <file name>)`.
pub record Location : Type 0 where
  pub filename : Bytes
  pub line : ℕ

-- The types that `hr_type` names.
pub data Kind : Type 0 where
  number_kind string_kind expression_kind list_kind : Kind

-- The things that `throw_should_have` counts.
pub data Thing : Type 0 where
  elements rows columns : Thing

pub data Error : Type 0 where
  unknown_input_char : ℕ → Error
  invalid_comment_start : Location → Error
  unterminated_string : Location → Error
  bad_escape : Location → Error
  bad_float : Location → Error
  bad_char : Location → ℕ → Error
  expected : Location → Token → Error
  identifier_expected : Location → Bytes → Error
  term_expected : Location → Error
  nonnegative_expected : Location → Error
  positive_expected : Location → Error
  redefined : Bytes → Location → Error
  not_defined : Bytes → Error
  should_be : Kind → Error
  should_have : ℤ → Thing → Error
  should_be_between : Error
  should_be_integer : Error
  should_be_positive : Error
  should_be_nonnegative : Error
  should_be_true_or_false : Error
  in_element : ℕ → Error → Error
  in_row : ℕ → Error → Error
  at_key : Bytes → Location → Error → Error
  invalid_port : Bytes → Location → Error → Error
  at_location : Location → Error → Error
  could_not_open : Bytes → Error
  -- `always_assert`
  assertion_failure : Error
  -- Of the model alone: a loop was given too few rounds.
  out_of_fuel : Error

-- A call returns a value with `P`, or throws one of the program's exceptions.
abbrev pub Ensures {ℓ} : {A : Type ℓ} → (A → Type 0) → Outcome Error A → Type 0
Ensures P (ok a) = P a
Ensures P (throws e) = e ≢ out_of_fuel

module _ {ℓ κ} {A : Type ℓ} {B : Type κ} where
  pub Ensures-bind :
      (P : A → Type 0) (Q : B → Type 0) (m : Outcome Error A) (f : A → Outcome Error B)
      → Ensures P m
      → ((a : A) → P a → Ensures Q (f a))
      → Ensures Q (m >>= f)
  Ensures-bind P Q (ok a) f h k = k a h
  Ensures-bind P Q (throws e) f h k = h

pub Ensures-weaken {ℓ} :
    {A : Type ℓ} (P Q : A → Type 0) (m : Outcome Error A)
    → Ensures P m
    → ((a : A) → P a → Q a)
    → Ensures Q m
Ensures-weaken P Q (ok a) h k = k a h
Ensures-weaken P Q (throws e) h k = h
