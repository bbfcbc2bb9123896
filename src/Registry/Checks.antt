-- ===== src/Registry/Checks.antt =====
-- The checked getters of the registry of registry.cpp: each throws with the key and the place of its
-- definition if the value is not as asked for.
use nanonet.Common.{
  Bool, true, false, not, List, if◌then◌else◌, Bytes, codes, equal, Outcome, ok, throws, ◌>>=◌, ℤ,
  pos,
}
use nanonet.Double.{Floats}
use nanonet.Error.{
  Error, invalid_port, should_be_positive, should_be_nonnegative, should_be_true_or_false,
  should_have, elements,
}
use nanonet.Parser.{Terms}
use nanonet.Convert.{
  convert_number, convert_string, convert_list, convert_vector, convert_matrix, wrong_size, size,
  check_long,
}
use nanonet.Registry.{Registry, get, get_any, naming_key, defined_at, is_defined}

module _ {fl : Floats} where
  unfoldable pub check_positive : Registry fl → Bytes → Outcome Error fl.Double
  unfolding get
  check_positive r key = do
    ret ← get convert_number r key
    naming_key r key (if fl.le ret fl.origin then throws should_be_positive else ok ret)

  unfoldable pub check_nonneg : Registry fl → Bytes → Outcome Error fl.Double
  unfolding get
  check_nonneg r key = do
    ret ← get convert_number r key
    naming_key r key (if fl.lt ret fl.origin then throws should_be_nonnegative else ok ret)

  unfoldable pub check_long_at : Registry fl → Bytes → fl.Double → fl.Double → Outcome Error ℤ
  unfolding get check_long
  check_long_at r key min max = do
    d ← get convert_number r key
    naming_key r key (check_long fl d min max)

  -- What `check_port` throws says besides that the value is no port.
  unfoldable pub naming_port {ℓ} :
      {A : Type ℓ} → Registry fl → Bytes → Outcome Error A → Outcome Error A
  unfolding defined_at
  naming_port r key (ok a) = ok a
  naming_port r key (throws e) = do at ← defined_at r key; throws (invalid_port key at e)

  unfoldable pub check_port : Registry fl → Bytes → Outcome Error ℤ
  unfolding get check_long naming_port
  check_port r key = do
    d ← get convert_number r key
    naming_port r key (check_long fl d (fl.of_long (pos 0)) (fl.of_long (pos 65535)))

  unfoldable pub check_vector_vector_double :
      Registry fl → Bytes → ℤ → ℤ → Outcome Error (List (List fl.Double))
  unfolding get_any naming_key convert_matrix
  check_vector_vector_double r key n m = do
    a ← get_any r key
    naming_key r key (convert_matrix a n m)

  unfoldable pub check_vector_string : Registry fl → Bytes → ℤ → Outcome Error (List Bytes)
  unfolding get_any naming_key convert_vector
  check_vector_string r key n = do
    a ← get_any r key
    naming_key r key (convert_vector convert_string a n)

  unfoldable pub check_vector_double : Registry fl → Bytes → ℤ → Outcome Error (List fl.Double)
  unfolding get_any naming_key convert_vector
  check_vector_double r key n = do
    a ← get_any r key
    naming_key r key (convert_vector convert_number a n)

  -- `get_any` stands inside the `try` block here, so `defined_at` is asked for a missing key too.
  unfoldable pub check_vector_any : Registry fl → Bytes → ℤ → Outcome Error (Terms fl)
  unfolding get_any naming_key
  check_vector_any r key n = naming_key r key (do
    a ← get_any r key
    ret ← convert_list a
    if wrong_size (size ret) n then throws (should_have n elements) else ok ret)

  unfoldable pub check_bool : Registry fl → Bytes → Outcome Error Bool
  unfolding get
  check_bool r key = do
    s ← get convert_string r key
    naming_key r key (
        if equal s (codes "true")
        then ok true
        else if equal s (codes "false")
        then ok false
        else throws should_be_true_or_false)

  unfoldable pub get_default_bool : Registry fl → Bytes → Bool → Outcome Error Bool
  unfolding check_bool is_defined
  get_default_bool r key default_value =
      if not (is_defined r key) then ok default_value else check_bool r key

  unfoldable pub get_default_long :
      Registry fl → Bytes → ℤ → fl.Double → fl.Double → Outcome Error ℤ
  unfolding check_long_at is_defined
  get_default_long r key default_value min max =
      if not (is_defined r key) then ok default_value else check_long_at r key min max

  unfoldable pub is_set_and_true : Registry fl → Bytes → Outcome Error Bool
  unfolding check_bool is_defined
  is_set_and_true r key = if is_defined r key then check_bool r key else ok false
