-- ===== src/Xdr.antt =====
-- The external data representation of include/nanonet/xdr.h: integers of 16, 32 and 64 bits, given by
-- their number of bytes, and strings padded to multiples of four bytes. An output iterator appends to
-- the bytes written; an input iterator that is moved beyond its input is undefined in the source and
-- `none` here.
pub mod Raw
pub mod RoundTrip
use Prim.Native.Nat.{bit_and, bit_or}
use nanonet.Common.{
  ℕ, zero, suc, ◌-◌, ◌*◌, ◌/◌, ◌%◌, ◌^◌, Option, none, some, [], ◌∷◌, ◌++◌, ◌==◌, ltb, length,
  replicate, if◌then◌else◌, Bytes, ℤ, pos, negsuc,
}

-- How many bytes follow `n` bytes up to the next multiple of 4.
unfoldable pub padsize : ℕ → ℕ
padsize n = if 0 == n % 4 then 0 else 4 - n % 4

-- `pad( it , n )`
abbrev pub pad : ℕ → Bytes
pad n = replicate n 0

-- `skip( it , n )`
unfoldable pub skip : ℕ → Bytes → Option Bytes
skip zero input = some input
skip (suc n) [] = none
skip (suc n) (c ∷ cs) = skip n cs

-- `static_cast` from a signed integer of so many bits to the unsigned one, and back.
unfoldable pub to_unsigned : ℕ → ℤ → ℕ
to_unsigned bits (pos n) = n % 2 ^ bits
to_unsigned bits (negsuc n) = 2 ^ bits - 1 - n % 2 ^ bits

unfoldable pub to_signed : ℕ → ℕ → ℤ
to_signed bits n = if ltb (n * 2) (2 ^ bits) then pos n else negsuc (2 ^ bits - 1 - n)

-- The loop of `write` from `i - 1` down to 0: the most significant byte comes first.
unfoldable pub write_unsigned : ℕ → ℕ → Bytes
write_unsigned zero v = []
write_unsigned (suc i) v = bit_and (v / 2 ^ (8 * i)) 0xff ∷ write_unsigned i v

unfoldable pub write_signed : ℕ → ℤ → Bytes
unfolding write_unsigned to_unsigned
write_signed size v = write_unsigned size (to_unsigned (8 * size) v)

-- The loop of `read_integer` from `i - 1` down to 0, with the value read so far.
unfoldable pub read_bytes : ℕ → ℕ → ℕ → Bytes → Option (ℕ × Bytes)
read_bytes bits zero us input = some (us, input)
read_bytes bits (suc i) us [] = none
read_bytes bits (suc i) us (c ∷ cs) = read_bytes bits i (bit_or us (c * 2 ^ (8 * i)) % 2 ^ bits) cs

unfoldable pub read_unsigned : ℕ → Bytes → Option (ℕ × Bytes)
unfolding read_bytes
read_unsigned size input = read_bytes (8 * size) size 0 input

abbrev signed : ℕ → Option (ℕ × Bytes) → Option (ℤ × Bytes)
signed bits none = none
signed bits (some (us, rest)) = some (to_signed bits us, rest)

unfoldable pub read_signed : ℕ → Bytes → Option (ℤ × Bytes)
unfolding read_unsigned
read_signed size input = signed (8 * size) (read_unsigned size input)

unfoldable pub write_string : Bytes → Bytes
unfolding padsize
write_string s = s ++ pad (padsize (length s))

-- The loop of `read_string` over the characters.
unfoldable pub read_chars : ℕ → Bytes → Bytes → Option (Bytes × Bytes)
read_chars zero ret input = some (ret, input)
read_chars (suc n) ret [] = none
read_chars (suc n) ret (c ∷ cs) = read_chars n (ret ++ c ∷ []) cs

abbrev skipped : Bytes → Option Bytes → Option (Bytes × Bytes)
skipped ret none = none
skipped ret (some rest) = some (ret, rest)

abbrev pub skip_padding : ℕ → Option (Bytes × Bytes) → Option (Bytes × Bytes)
skip_padding size none = none
skip_padding size (some (ret, rest)) = skipped ret (skip (padsize size) rest)

unfoldable pub read_string : ℕ → Bytes → Option (Bytes × Bytes)
unfolding read_chars
read_string size input = skip_padding size (read_chars size [] input)
