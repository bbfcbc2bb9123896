-- ===== src/StreamBuf/Source/InOrder.antt =====
-- What `istreambuf` of include/nanonet/util.h gives out, and what may be put back.
use nanonet.Common.{
  ℕ, zero, suc, ◌+◌, ◌-◌, ◌<◌, ◌≡◌, refl, sym, ◌∙◌, arith, Option, none, some, [], ◌∷◌, ◌++◌,
  append-nil, append_assoc, leb, Bytes, length, Bool-cases, inl, inr, ◌&&◌, ◌⊎◌,
}
use mathlib.Core.Path.{subst}
use mathlib.Core.Option.{some-injective}
use nanonet.StreamBuf.Source.{
  Reader, Reads, InBuffer, istreambuf, underflow, bumped, sbumpc, before, sgetn,
}
use nanonet.StreamBuf.Source.Refill.{IsSound, Ready, underflow-Ready, taken-IsSound}

module _ {r : Reader} where
  -- As many characters were given out as were asked for, or all that the reader has given.
  abbrev pub GetResult : ℕ → Bytes → InBuffer r × Bytes → Type 0
  GetResult n delivered (b, cs) =
      ((length cs ≡ n) × IsSound b (delivered ++ cs))
      ⊎ ((length cs < n) × (r.given b.rw ≡ delivered ++ cs))

  before-GetResult :
      (n : ℕ) (delivered : Bytes) (p : InBuffer r × Option ℕ)
      (rest : InBuffer r → InBuffer r × Bytes)
      → Ready delivered p
      → ((b : InBuffer r) (c : ℕ)
          → IsSound b (delivered ++ c ∷ [])
          → GetResult n (delivered ++ c ∷ []) (rest b))
      → GetResult (suc n) delivered (before n (bumped p) rest)
  unfolding before bumped
  before-GetResult n delivered (b, none) rest h ih =
      inr (omega arith, h ∙ sym (append-nil delivered))
  before-GetResult n delivered (b, some c) rest (v, some_left, here) ih =
      let b' = record b { gptr = b.gptr + 1 } in
      elim (ih b' c (taken-IsSound b delivered c v some_left here)) [
        | inl (all, sound) ↦ inl (
          omega arith,
          subst (IsSound (rest b').0) (append_assoc delivered (c ∷ []) (rest b').1) sound,
        )
        | inr (fewer, end) ↦ inr (omega arith, end ∙ append_assoc delivered (c ∷ []) (rest b').1)
      ]

  sgetn-GetResult_of :
      (reads : Reads r) (n : ℕ) (b : InBuffer r) (delivered : Bytes)
      → IsSound b delivered
      → GetResult n delivered (sgetn n b)
  unfolding sgetn sbumpc
  sgetn-GetResult_of reads zero b delivered v =
      inl (refl, subst (IsSound b) (sym (append-nil delivered)) v)
  sgetn-GetResult_of reads (suc n) b delivered v =
      before-GetResult n delivered (underflow b) (λ b'. sgetn n b')
        (underflow-Ready reads b delivered v)
        (λ b' c v'. sgetn-GetResult_of reads n b' (delivered ++ c ∷ []) v')

  istreambuf-IsSound :
      (state : r.State) (size size_pb : ℕ) (b : InBuffer r)
      → r.given state ≡ []
      → istreambuf state size size_pb ≡ some b
      → IsSound b []
  unfolding istreambuf
  istreambuf-IsSound state size size_pb b nothing e =
      elim (Bool-cases (leb 1 size && leb 1 size_pb)) [
        | inr refused ↦ absurd (cc (rw refused at e))
        | inl taken ↦
            subst (λ b'. IsSound b' []) (some-injective _ _ (rw taken at e)) (new (ground arith))
      ]
    where
      new :
          0 < size
          → IsSound {r = r}
              (record {
                rw = state;
                size_pb = size_pb;
                memory = λ i. 0;
                size = size + size_pb;
                eback = size_pb;
                gptr = size_pb;
                egptr = size_pb;
              })
              []
      new h =
          let none : size_pb - size_pb ≡ 0 = omega arith in
          record {
            room = omega arith;
            lower = omega arith;
            upper = omega arith;
            within = omega arith;
            front = [];
            behind = rw none refl;
            ahead = nothing ∙ rw none refl;
          }

  -- An istreambuf that was constructed on a reader that has given nothing yet gives its bytes out in
  -- their order, none twice and none left out: as many as were asked for, or all that the reader gives
  -- until it gives none or fails. Where they are as many, its pointers stay within its buffer, and
  -- what can be put back is the end of what was given out. A read of the reader gives at most as many
  -- bytes as it is asked for, and nothing if it fails.
  pub sgetn-GetResult :
      (reads : Reads r) (state : r.State) (size size_pb n : ℕ) (b : InBuffer r)
      → r.given state ≡ []
      → istreambuf state size size_pb ≡ some b
      → GetResult n [] (sgetn n b)
  sgetn-GetResult reads state size size_pb n b nothing made =
      sgetn-GetResult_of reads n b [] (istreambuf-IsSound state size size_pb b nothing made)
