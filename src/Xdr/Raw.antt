-- ===== src/Xdr/Raw.antt =====
-- The values of floating point of include/nanonet/xdr.h, which go as they are in memory: how they are
-- represented belongs to the processor and is a parameter.
use nanonet.Common.{
  ℕ, zero, suc, Option, none, some, [], ◌∷◌, ◌++◌, ◌≡◌, refl, sym, ap, ◌∙◌, length, Bytes,
}
use nanonet.Xdr.{read_chars}
use nanonet.Xdr.RoundTrip.{read_chars-append}

-- The characters from `c[ 0 ]` on, as the loop of `write_raw` copies them.
unfoldable pub memory_bytes : ℕ → (ℕ → ℕ) → Bytes
memory_bytes zero c = []
memory_bytes (suc n) c = c 0 ∷ memory_bytes n (λ i. c (suc i))

length-memory_bytes : (n : ℕ) (c : ℕ → ℕ) → length (memory_bytes n c) ≡ n
unfolding memory_bytes
length-memory_bytes zero c = refl
length-memory_bytes (suc n) c = ap suc (length-memory_bytes n (λ i. c (suc i)))

-- `T`, `sizeof(T)`, the bytes of a value in memory, and the value that bytes in memory are.
module _ {T : Type 0} (size : ℕ) (memory : T → ℕ → ℕ) (of_memory : Bytes → T) where
  unfoldable pub write_raw : T → Bytes
  unfolding memory_bytes
  write_raw v = memory_bytes size (memory v)

  abbrev pub reinterpreted : Option (Bytes × Bytes) → Option (T × Bytes)
  reinterpreted none = none
  reinterpreted (some (buf, rest)) = some (of_memory buf, rest)

  -- The loop fills `buf` as that of `read_string` fills its result.
  unfoldable pub read_raw : Bytes → Option (T × Bytes)
  unfolding read_chars
  read_raw input = reinterpreted (read_chars size [] input)

  -- Where the bytes of a value in memory give the value back, it is read as it was written, and the
  -- reader stands behind it.
  pub read_raw-write_raw :
      ((v : T) → of_memory (write_raw v) ≡ v)
      → (v : T) (rest : Bytes) → read_raw (write_raw v ++ rest) ≡ some (v, rest)
  unfolding read_raw write_raw
  read_raw-write_raw same v rest =
      ap (λ n. reinterpreted (read_chars n [] (write_raw v ++ rest)))
        (sym (length-memory_bytes size (memory v)))
      ∙ ap reinterpreted (read_chars-append (write_raw v) [] rest)
      ∙ ap (λ u. some (u, rest)) (same v)
