-- ===== src/StreamBuf.antt =====
-- The output buffer `ostreambuf` of include/nanonet/util.h. What it writes to is a parameter: its
-- state, and its `write`, which gives the number of bytes written or, as `none`, a negative number.
-- `none` of a function here is a failed assertion or a store beyond the end of the buffer.
pub mod Delivery
pub mod Source
use nanonet.Common.{
  ℕ, ◌-◌, ◌≡◌, Bool, true, false, Option, none, some, [], ◌∷◌, ◌++◌, ◌==◌, ltb, if◌then◌else◌,
  Bytes, length,
}

-- `accepted` is what the writer has taken so far.
pub record Writer : Type 1 where
  pub State : Type 0
  pub write : State → Bytes → State × Option ℕ
  pub accepted : State → Bytes

-- A write that succeeds takes all bytes that it is given.
pub record WritesAll (w : Writer) : Type 0 where
  pub complete :
      (s : w.State) (bytes : Bytes) (n : ℕ)
      → (w.write s bytes).1 ≡ some n
      → (n ≡ length bytes) × (w.accepted (w.write s bytes).0 ≡ w.accepted s ++ bytes)

-- `pending` is from `pbase()` to `pptr()`, and `size` is that of `buffer`.
pub record OutBuffer (w : Writer) : Type 0 where
  pub rw : Option w.State
  pub pending : Bytes
  pub size : ℕ

module _ {w : Writer} where
  abbrev pub written : OutBuffer w → w.State → Option ℕ → Option (OutBuffer w × Bool)
  written b s none = some (record b { rw = some s }, false)
  written b s (some n) =
      if n == length b.pending then some (record b { rw = some s; pending = [] }, true) else none

  abbrev pub flush_to : OutBuffer w → Option w.State → Option (OutBuffer w × Bool)
  flush_to b none = some (b, true)
  flush_to b (some s) =
      let (next, result) = w.write s b.pending in
      if length b.pending == 0 then some (b, true) else written b next result

  unfoldable pub flush : OutBuffer w → Option (OutBuffer w × Bool)
  flush b = flush_to b b.rw

  -- `overflow( c )` for a character.
  unfoldable pub overflow : OutBuffer w → ℕ → Option (OutBuffer w × Bool)
  unfolding flush
  overflow b c =
      if ltb (length b.pending) b.size
      then flush (record b { pending = b.pending ++ c ∷ [] })
      else none

  -- `sputc( c )` of the standard library, where `epptr()` is the last place of the buffer.
  unfoldable pub sputc : OutBuffer w → ℕ → Option (OutBuffer w × Bool)
  unfolding overflow
  sputc b c =
      if ltb (length b.pending) (b.size - 1)
      then some (record b { pending = b.pending ++ c ∷ [] }, true)
      else overflow b c

  -- One character after the other, until one fails.
  unfoldable pub put_all : Bytes → OutBuffer w → Option (OutBuffer w × Bool)
  unfolding sputc
  put_all [] b = some (b, true)
  put_all (c ∷ cs) b = elim (sputc b c) [
    | none ↦ none
    | some (next, false) ↦ some (next, false)
    | some (next, true) ↦ put_all cs next
  ]
