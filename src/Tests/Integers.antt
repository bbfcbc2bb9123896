-- ===== src/Tests/Integers.antt =====
-- Whole numbers in place of the processor's `double`: they are read by their decimal digits.
use nanonet.Common.{
  ℕ, ◌+◌, ◌*◌, ◌-◌, ◌≡◌, ◌≢◌, refl, true, ◌&&◌, Option, none, some, [], ◌∷◌, ◌++◌, ap, arith,
  if◌then◌else◌, Bytes, count, ℤ, pos, leb_ℤ, not, Bool-cases, inl, inr,
}
use nanonet.Double.{Floats, ReadsPrefix}
use nanonet.Lexer.{is_digit}

-- The digits of a number, behind the value of those before.
read_digits : ℕ → Bytes → ℕ × Bytes
unfolding is_digit
read_digits value [] = (value, [])
read_digits value (c ∷ cs) =
    let rest = read_digits (value * 10 + (c - b'0')) cs in
    if is_digit c then rest else (value, c ∷ cs)

unfoldable pub read_integer : Bytes → Option (ℤ × Bytes)
unfolding read_digits
read_integer [] = none
read_integer (c ∷ cs) =
    let (value, rest) = read_digits (c - b'0') cs in
    if is_digit c then some (pos value, rest) else none

abbrev pub integers : Floats
integers = record {
  Double = ℤ;
  origin = pos 0;
  lt = λ a b. not (leb_ℤ b a);
  le = leb_ℤ;
  eq = λ a b. leb_ℤ a b && leb_ℤ b a;
  of_long = λ a. a;
  to_long = λ a. a;
  read = read_integer;
}

digit_line :
    (c : ℕ) (text : Bytes) → is_digit c ≡ true → count b'\n' text ≡ 0 → count b'\n' (c ∷ text) ≡ 0
unfolding is_digit
digit_line c text digit e = ground arith

digits_split :
    (value : ℕ) (cs : Bytes)
    → (text : Bytes) × (cs ≡ text ++ (read_digits value cs).1) × (count b'\n' text ≡ 0)
unfolding read_digits
digits_split value [] = ([], refl, refl)
digits_split value (c ∷ cs) = elim (Bool-cases (is_digit c)) [
  | inr other ↦ rw other ([], refl, refl)
  | inl digit ↦
      let (text, split, no_lines) = digits_split (value * 10 + (c - b'0')) cs in
      rw digit (c ∷ text, ap (λ t. c ∷ t) split, digit_line c text digit no_lines)
]

integer_split :
    (c : ℕ) (input : Bytes) (x : ℤ) (rest : Bytes)
    → read_integer (c ∷ input) ≡ some (x, rest)
    → (text : Bytes) × (c ∷ input ≡ text ++ rest) × (text ≢ []) × (count b'\n' text ≡ 0)
unfolding read_integer
integer_split c input x rest e = elim (Bool-cases (is_digit c)) [
  | inr other ↦ absurd (cc (rw other at e))
  | inl digit ↦
      let (text, split, no_lines) = digits_split (c - b'0') input in
      let end : (read_digits (c - b'0') input).1 ≡ rest = cc (rw digit at e) in
      (c ∷ text, ap (λ t. c ∷ t) (rw end at split), λ h. cc h, digit_line c text digit no_lines)
]

pub integers-ReadsPrefix : ReadsPrefix integers
integers-ReadsPrefix = record { used = λ c input x rest g e. integer_split c input x rest e }
