-- ===== src/Xdr/RoundTrip.antt =====
-- What is written by `write` of xdr.h is read back by `read_integer` and `read_string`.
use Prim.Native.Nat.{bit_and, bit_or}
use native.Mathlib.Nat.{
  mod-eq_of_lt, div-eq_of_lt, div-mul-le_self, pow-suc, div-div-eq-div-mul, mul_comm,
  mul-lt-mul_of_pos_right, mul_assoc, mul-le-mul_right,
}
use nanonet.Common.{
  ℕ, zero, suc, ◌+◌, ◌-◌, ◌*◌, ◌/◌, ◌%◌, ◌^◌, ◌≤◌, ◌<◌, ◌≡◌, ◌∙◌, refl, sym, ap, arith, some, [],
  ◌∷◌, ◌++◌, append_assoc, append-nil, length, length-append, replicate, Option, Bytes, ℤ, pos,
  negsuc, All,
}
use nanonet.Common.Bits.{bit_or-shifted, bit_and-byte}
use nanonet.Xdr.{
  padsize, skip, pad, to_unsigned, to_signed, write_unsigned, write_signed, read_bytes,
  read_unsigned, read_signed, signed, write_string, read_chars, read_string,
}

-- What `digits` in base 256 stand for, the most significant first.
pub big_endian : ℕ → Bytes → ℕ
big_endian value [] = value
big_endian value (c ∷ cs) = big_endian (value * 256 + c) cs

four_bits : (n : ℕ) → 2 ^ suc (suc (suc (suc n))) ≡ 16 * 2 ^ n
four_bits n =
    omega (
      arith,
      pow-suc 2 n,
      pow-suc 2 (suc n),
      pow-suc 2 (suc (suc n)),
      pow-suc 2 (suc (suc (suc n))),
    )

-- The range of a signed integer of so many bits.
abbrev pub IsSigned : ℕ → ℤ → Type 0
IsSigned bits (pos n) = n * 2 < 2 ^ bits
IsSigned bits (negsuc n) = n * 2 < 2 ^ bits

next_power : (i : ℕ) → 2 ^ (8 * suc i) ≡ 256 * 2 ^ (8 * i)
next_power i =
    let e : 8 * suc i ≡ suc (suc (suc (suc (suc (suc (suc (suc (8 * i)))))))) = omega arith in
    rw e (omega (arith, four_bits (suc (suc (suc (suc (8 * i))))), four_bits (8 * i)))

power_pos : (i : ℕ) → 0 < 2 ^ (8 * i)
power_pos zero = omega arith
power_pos (suc i) = omega (arith, next_power i, power_pos i)

-- A number in base 256 before a power of it.
digits_join : (q r p x : ℕ) → x ≡ q * 256 + r → q * (256 * p) + r * p ≡ x * p
digits_join q r p x e = rw e (grind arith)

digit_fits : (r p : ℕ) → r < 256 → 0 < p → r * p < 256 * p
digit_fits r p h k = mul-lt-mul_of_pos_right h k

below_next : (x p m : ℕ) → 0 < p → (x + 1) * p ≤ m → x * p < m
below_next x p m some_p h = grind arith

next_fits : (a c p m : ℕ) → c < 256 → (a + 1) * (256 * p) ≤ m → (a * 256 + c + 1) * p ≤ m
next_fits a c p m byte fits =
    let whole : (a + 1) * 256 * p ≤ m = rw mul_assoc fits in
    let grown : (a * 256 + c + 1) * p ≤ (a + 1) * 256 * p = mul-le-mul_right p (omega arith) in
    omega arith

-- One more byte of `v`.
join_byte :
    (i v : ℕ)
    → bit_or (v / 2 ^ (8 * suc i) * 2 ^ (8 * suc i)) (bit_and (v / 2 ^ (8 * i)) 0xff * 2 ^ (8 * i))
      ≡ v / 2 ^ (8 * i) * 2 ^ (8 * i)
join_byte i v =
    let p : ℕ = 2 ^ (8 * i) in
    let x : ℕ = v / p in
    let high : v / 2 ^ (8 * suc i) ≡ x / 256 =
      rw (next_power i, mul_comm 256 p) (sym (div-div-eq-div-mul v p 256)) in
    let fits : x % 256 * p < 2 ^ (8 * suc i) =
      rw (next_power i) (digit_fits (x % 256) p (omega arith) (power_pos i)) in
    let joined : bit_or (x / 256 * 2 ^ (8 * suc i)) (x % 256 * p)
        ≡ x / 256 * 2 ^ (8 * suc i) + x % 256 * p =
      bit_or-shifted (8 * suc i) (x / 256) (x % 256 * p) fits in
    rw (high, bit_and-byte x)
      (joined ∙ rw (next_power i) (digits_join (x / 256) (x % 256) p x (omega arith)))

read_bytes-big_endian :
    (bits a : ℕ) (bs rest : Bytes)
    → All (λ c. c < 256) bs
    → (a + 1) * 2 ^ (8 * length bs) ≤ 2 ^ bits
    → read_bytes bits (length bs) (a * 2 ^ (8 * length bs)) (bs ++ rest)
      ≡ some (big_endian a bs, rest)
unfolding read_bytes big_endian
read_bytes-big_endian bits a [] rest small fits = ap (λ n. some (n, rest)) (omega arith)
read_bytes-big_endian bits a (c ∷ cs) rest (byte, bytes) fits =
    let i : ℕ = length cs in
    let p : ℕ = 2 ^ (8 * i) in
    let digit : c * p < 2 ^ (8 * suc i) = rw (next_power i) (digit_fits c p byte (power_pos i)) in
    let joined : bit_or (a * 2 ^ (8 * suc i)) (c * p) ≡ (a * 256 + c) * p =
      bit_or-shifted (8 * suc i) a (c * p) digit
      ∙ rw (next_power i) (digits_join a c p (a * 256 + c) refl) in
    let next : (a * 256 + c + 1) * p ≤ 2 ^ bits =
      next_fits a c p (2 ^ bits) byte (rw (next_power i) at fits) in
    let below : (a * 256 + c) * p < 2 ^ bits =
      below_next (a * 256 + c) p (2 ^ bits) (power_pos i) next in
    rw (joined, mod-eq_of_lt below) (read_bytes-big_endian bits (a * 256 + c) cs rest bytes next)

-- Reading an unsigned integer is reading its bytes, each below 256, as digits in base 256, the most significant
-- first.
pub read_unsigned-big_endian :
    (bs rest : Bytes)
    → All (λ c. c < 256) bs
    → read_unsigned (length bs) (bs ++ rest) ≡ some (big_endian 0 bs, rest)
unfolding read_unsigned
read_unsigned-big_endian bs rest bytes =
    let none_yet : 0 * 2 ^ (8 * length bs) ≡ 0 = omega arith in
    rw none_yet at (read_bytes-big_endian (8 * length bs) 0 bs rest bytes (omega arith))

read_bytes-write_unsigned :
    (bits i v : ℕ) (rest : Bytes)
    → v < 2 ^ bits
    → read_bytes bits i (v / 2 ^ (8 * i) * 2 ^ (8 * i)) (write_unsigned i v ++ rest)
      ≡ some (v, rest)
unfolding read_bytes write_unsigned
read_bytes-write_unsigned bits zero v rest h = ap (λ n. some (n, rest)) (omega arith)
read_bytes-write_unsigned bits (suc i) v rest h =
    let small : v / 2 ^ (8 * i) * 2 ^ (8 * i) < 2 ^ bits =
      omega (arith, div-mul-le_self v (2 ^ (8 * i))) in
    rw (join_byte i v, mod-eq_of_lt small) (read_bytes-write_unsigned bits i v rest h)

-- An unsigned integer that fits in its bytes is read back as it was, and nothing behind it is read.
pub read_unsigned-write_unsigned :
    (size v : ℕ) (rest : Bytes)
    → v < 2 ^ (8 * size)
    → read_unsigned size (write_unsigned size v ++ rest) ≡ some (v, rest)
unfolding read_unsigned
read_unsigned-write_unsigned size v rest h =
    let none_yet : v / 2 ^ (8 * size) * 2 ^ (8 * size) ≡ 0 = rw (div-eq_of_lt h) (omega arith) in
    rw none_yet at (read_bytes-write_unsigned (8 * size) size v rest h)

-- In two's complement, `static_cast` to the unsigned integer and back gives the integer again.
to_signed-to_unsigned :
    (bits : ℕ) (v : ℤ)
    → 2 ^ bits % 2 ≡ 0
    → IsSigned bits v
    → (to_signed bits (to_unsigned bits v) ≡ v) × (to_unsigned bits v < 2 ^ bits)
unfolding to_signed to_unsigned
to_signed-to_unsigned bits (pos n) even h =
    let small : n < 2 ^ bits = omega arith in rw (mod-eq_of_lt small) (ground arith, small)
to_signed-to_unsigned bits (negsuc n) even h =
    let small : n < 2 ^ bits = omega arith in
    let back : 2 ^ bits - 1 - (2 ^ bits - 1 - n) ≡ n = omega arith in
    rw (mod-eq_of_lt small, back) (ground arith, omega arith)

-- A signed integer that fits in its bytes, of which there is at least one, is read back as it was, and nothing behind it is read.
pub read_signed-write_signed :
    (size : ℕ) (v : ℤ) (rest : Bytes)
    → 0 < size
    → IsSigned (8 * size) v
    → read_signed size (write_signed size v ++ rest) ≡ some (v, rest)
unfolding read_signed write_signed
read_signed-write_signed zero v rest some_bytes h = absurd (omega arith)
read_signed-write_signed (suc size) v rest some_bytes h =
    let (back, small) = to_signed-to_unsigned (8 * suc size) v (omega (arith, next_power size)) h in
    let read = read_unsigned-write_unsigned (suc size) (to_unsigned (8 * suc size) v) rest small in
    go _ _ read back
  where
    go :
        (r : Option (ℕ × Bytes)) (us : ℕ)
        → r ≡ some (us, rest)
        → to_signed (8 * suc size) us ≡ v
        → signed (8 * suc size) r ≡ some (v, rest)
    go r us e back = rw (e, back) refl

padsize-lt : (n : ℕ) → (padsize n < 4) × ((n + padsize n) % 4 ≡ 0)
unfolding padsize
padsize-lt n = ground arith

length-replicate : (n : ℕ) → length {A = ℕ} (replicate n 0) ≡ n
length-replicate zero = refl
length-replicate (suc n) = ap suc (length-replicate n)

skip-pad : (n : ℕ) (rest : Bytes) → skip n (pad n ++ rest) ≡ some rest
unfolding skip
skip-pad zero rest = refl
skip-pad (suc n) rest = skip-pad n rest

pub read_chars-append :
    (s ret rest : Bytes) → read_chars (length s) ret (s ++ rest) ≡ some (ret ++ s, rest)
unfolding read_chars
read_chars-append [] ret rest = rw append-nil refl
read_chars-append (c ∷ s) ret rest = read_chars-append s (ret ++ c ∷ []) rest ∙ rw append_assoc refl

-- A string takes a multiple of 4 bytes, fewer than 4 of them padding, and a reader that is given its
-- length reads it back as it was and stands behind the padding.
pub read_string-write_string :
    (s rest : Bytes)
    → (read_string (length s) (write_string s ++ rest) ≡ some (s, rest))
      × (length (write_string s) % 4 ≡ 0)
      × (length (write_string s) < length s + 4)
unfolding read_string write_string
read_string-write_string s rest =
    let (few, whole) = padsize-lt (length s) in
    let total : length (s ++ pad (padsize (length s))) ≡ length s + padsize (length s) =
      rw (length-append, length-replicate) refl in
    (
      rw (append_assoc, read_chars-append) (rw skip-pad refl),
      omega (arith, total),
      omega (arith, total),
    )
