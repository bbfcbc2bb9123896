-- ===== src/Double.antt =====
-- `double`, which the library takes from the processor and the C++ runtime: a parameter.
use nanonet.Common.{ℕ, ◌<◌, ◌∷◌, ◌≡◌, ◌≢◌, Bool, Option, some, [], ◌++◌, Bytes, count, ℤ}

pub record Floats : Type 1 where
  pub Double : Type 0
  -- The constant 0.
  pub origin : Double
  -- `<`, `<=` and `==`.
  pub lt : Double → Double → Bool
  pub le : Double → Double → Bool
  pub eq : Double → Double → Bool
  -- The conversions from and to `long`.
  pub of_long : ℤ → Double
  pub to_long : Double → ℤ
  -- `is >> x` on a stream that holds these bytes: the value and the bytes left, or a failure.
  pub read : Bytes → Option (Double × Bytes)

-- `is >> x` on a stream whose first character is no white space or control character reads at least
-- one character if it does not fail, and no newline.
pub record ReadsPrefix (fl : Floats) : Type 0 where
  pub used :
      (c : ℕ) (input : Bytes) (x : fl.Double) (rest : Bytes)
      → b' ' < c
      → fl.read (c ∷ input) ≡ some (x, rest)
      → (text : Bytes) × (c ∷ input ≡ text ++ rest) × (text ≢ []) × (count b'\n' text ≡ 0)
