-- ===== src/StreamBuf/Source.antt =====
-- The input buffer `istreambuf` of include/nanonet/util.h: its memory, and pointers into it as the
-- numbers of places. What it reads from is a parameter: its state, and its `read`, which gives at most
-- as many bytes as asked for or, as `none`, a negative number.

pub mod Memory
pub mod Refill
pub mod InOrder
use nanonet.Common.{
  ℕ, zero, suc, ◌+◌, ◌-◌, ◌≤◌, ◌≡◌, Option, none, some, [], ◌∷◌, ◌++◌, ◌==◌, ltb, leb, ◌&&◌,
  if◌then◌else◌, Bytes, length,
}

-- `given` is all that the reader has given so far.
pub record Reader : Type 1 where
  pub State : Type 0
  pub read : State → ℕ → State × Option Bytes
  pub given : State → Bytes

-- A read that succeeds gives at most what was asked for, and one that fails gives nothing.
pub record Reads (r : Reader) : Type 0 where
  pub gives :
      (s : r.State) (n : ℕ) (bytes : Bytes)
      → (r.read s n).1 ≡ some bytes
      → (length bytes ≤ n) × (r.given (r.read s n).0 ≡ r.given s ++ bytes)
  pub fails : (s : r.State) (n : ℕ) → (r.read s n).1 ≡ none → r.given (r.read s n).0 ≡ r.given s

pub record InBuffer (r : Reader) : Type 0 where
  pub rw : r.State
  pub size_pb : ℕ
  -- `buffer`, and `buffer.size()`.
  pub memory : ℕ → ℕ
  pub size : ℕ
  pub eback : ℕ
  pub gptr : ℕ
  pub egptr : ℕ

-- `std::memmove( to , from , n )`
abbrev pub memmove : ℕ → ℕ → ℕ → (ℕ → ℕ) → ℕ → ℕ
memmove to from n memory i = if leb to i && ltb i (to + n) then memory (i - to + from) else memory i

-- Bytes are stored from a place on.
pub store : ℕ → Bytes → (ℕ → ℕ) → ℕ → ℕ
store to [] memory i = memory i
store to (c ∷ cs) memory i = if i == to then c else store (suc to) cs memory i

abbrev pub min_of : ℕ → ℕ → ℕ
min_of a b = if leb a b then a else b

module _ {r : Reader} where
  -- `istreambuf( rw , size , size_pb )`; `none`: an assertion fails.
  unfoldable pub istreambuf : r.State → ℕ → ℕ → Option (InBuffer r)
  istreambuf rw size size_pb =
      if leb 1 size && leb 1 size_pb
      then some (record {
        rw = rw;
        size_pb = size_pb;
        memory = λ i. 0;
        size = size + size_pb;
        eback = size_pb;
        gptr = size_pb;
        egptr = size_pb;
      })
      else none

  -- What stands behind the call of `read`, into a memory that was moved before. `none`: the end.
  refilled : InBuffer r → ℕ → r.State → Option Bytes → InBuffer r × Option ℕ
  unfolding store
  refilled b n_pb rw none = (record b { rw = rw }, none)
  refilled b n_pb rw (some []) = (record b { rw = rw }, none)
  refilled b n_pb rw (some (c ∷ cs)) = (
    record b {
      rw = rw;
      memory = store b.size_pb (c ∷ cs) b.memory;
      eback = b.size_pb - n_pb;
      gptr = b.size_pb;
      egptr = b.size_pb + length (c ∷ cs);
    },
    some (store b.size_pb (c ∷ cs) b.memory b.size_pb),
  )

  unfoldable pub underflow : InBuffer r → InBuffer r × Option ℕ
  unfolding refilled
  underflow b =
      let n_pb = min_of (b.gptr - b.eback) b.size_pb in
      let (rw, got) = r.read b.rw (b.size - b.size_pb) in
      if ltb b.gptr b.egptr
      then (b, some (b.memory b.gptr))
      else refilled (record b { memory = memmove (b.size_pb - n_pb) (b.gptr - n_pb) n_pb b.memory })
          n_pb rw got

  -- `sbumpc()` of the standard library: the next character, behind which the pointer moves.
  bumped : InBuffer r × Option ℕ → InBuffer r × Option ℕ
  bumped (b, none) = (b, none)
  bumped (b, some c) = (record b { gptr = b.gptr + 1 }, some c)

  unfoldable pub sbumpc : InBuffer r → InBuffer r × Option ℕ
  unfolding bumped underflow
  sbumpc b = bumped (underflow b)

  -- `sungetc()` of the standard library: a step back, if there is room for it.
  unfoldable pub sungetc : InBuffer r → InBuffer r × Option ℕ
  sungetc b =
      if ltb b.eback b.gptr
      then (record b { gptr = b.gptr - 1 }, some (b.memory (b.gptr - 1)))
      else (b, none)

  -- So many characters, or fewer at the end.
  before : ℕ → InBuffer r × Option ℕ → (InBuffer r → InBuffer r × Bytes) → InBuffer r × Bytes
  before n (b, none) rest = (b, [])
  before n (b, some c) rest = ((rest b).0, c ∷ (rest b).1)

  unfoldable pub sgetn : ℕ → InBuffer r → InBuffer r × Bytes
  unfolding sbumpc before
  sgetn zero b = (b, [])
  sgetn (suc n) b = before n (sbumpc b) (λ b'. sgetn n b')
