-- ===== src/Tests/Encoding.antt =====
-- Integers and strings in the external data representation.
use nanonet.Xdr.Raw.{read_raw, write_raw}
use nanonet.Common.{
  ◌≡◌, some, [], ◌∷◌, ◌++◌, ◌%◌, negsuc, arith, refl, ℕ, zero, suc, Bytes, ◌+◌, ◌*◌, ◌/◌,
}
use nanonet.Xdr.{read_signed, write_signed}
use nanonet.Xdr.RoundTrip.{read_signed-write_signed}

read_signed-write_signed_example :
    read_signed 2 (write_signed 2 (negsuc 299) ++ 7 ∷ []) ≡ some (negsuc 299, 7 ∷ [])
read_signed-write_signed_example =
    read_signed-write_signed 2 (negsuc 299) (7 ∷ []) (omega arith) (omega arith)

-- A value of two bytes, the first of them the least significant one.
abbrev memory : ℕ → ℕ → ℕ
memory v zero = v % 256
memory v (suc i) = v / 256

abbrev of_memory : Bytes → ℕ
of_memory [] = 0
of_memory (c ∷ cs) = c + 256 * of_memory cs

read_raw_run :
    read_raw 2 memory of_memory (write_raw 2 memory of_memory 1000 ++ 7 ∷ []) ≡ some (1000, 7 ∷ [])
unfolding read_raw write_raw
read_raw_run = refl
