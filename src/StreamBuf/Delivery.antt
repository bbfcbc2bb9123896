-- ===== src/StreamBuf/Delivery.antt =====
-- What `ostreambuf` of util.h does with the characters that are put into it.
use nanonet.Common.{
  ℕ, ◌-◌, ◌≤◌, ◌<◌, ◌≡◌, refl, sym, ap, ◌∙◌, arith, Bool, true, false, Option, none, some, [], ◌∷◌,
  ◌++◌, ◌==◌, ==_refl, ltb, Bytes, length, length-append, append_assoc, append-nil, Bool-cases, inl,
  inr,
}
use mathlib.Core.Path.{subst}
use nanonet.StreamBuf.{Writer, WritesAll, OutBuffer, written, flush, overflow, sputc, put_all}

module _ {w : Writer} where
  -- All that was put into a buffer on the writer: what it has taken, and what is pending.
  abbrev pub text : OutBuffer w → w.State → Bytes
  text b s = w.accepted s ++ b.pending

  -- A buffer on a writer with a free place, after `cs` was put into one that held `before`.
  abbrev pub PutResult : ℕ → Bytes → Bytes → Option (OutBuffer w × Bool) → Type 0
  PutResult size before cs none = ⊥
  PutResult size before cs (some (b, true)) =
      (s : w.State) × (b.rw ≡ some s)
      × (b.size ≡ size)
      × (length b.pending < size)
      × (text b s ≡ before ++ cs)
  PutResult size before cs (some (b, false)) =
      (taken : Bytes) × (left : Bytes) × (s : w.State) × (length b.pending ≤ size)
      × (cs ≡ taken ++ left)
      × (w.accepted s ++ b.pending ≡ before ++ taken)
      × ((w.write s b.pending).1 ≡ none)
      × (b.rw ≡ some (w.write s b.pending).0)

  written-PutResult :
      (writes : WritesAll w) (b : OutBuffer w) (s : w.State) (before : Bytes) (c : ℕ) (r : Option ℕ)
      → (w.write s b.pending).1 ≡ r
      → 0 < b.size
      → length b.pending ≤ b.size
      → text b s ≡ before ++ c ∷ []
      → PutResult b.size before (c ∷ []) (written b (w.write s b.pending).0 r)
  written-PutResult writes b s before c none e some_size fits same =
      (c ∷ [], [], s, fits, refl, same, e, refl)
  written-PutResult writes b s before c (some n) e some_size fits same =
      let (all, taken) = writes.complete s b.pending n e in
      let whole : (n == length b.pending) ≡ true = rw all (==_refl (length b.pending)) in
      rw whole (_, refl, refl, some_size, append-nil _ ∙ taken ∙ same)

  sputc-PutResult :
      (writes : WritesAll w) (b : OutBuffer w) (s : w.State) (c : ℕ)
      → b.rw ≡ some s
      → length b.pending < b.size
      → PutResult b.size (text b s) (c ∷ []) (sputc b c)
  unfolding sputc overflow flush
  sputc-PutResult writes b s c e free =
      let size = length-append b.pending (c ∷ []) in
      let same = sym (append_assoc (w.accepted s) b.pending (c ∷ [])) in
      elim (Bool-cases (ltb (length b.pending) (b.size - 1))) [
        | inl room ↦ rw room (s, e, refl, ground (arith, size), same)
        | inr last ↦
            let there : ltb (length b.pending) b.size ≡ true = ground arith in
            let some_pending : (length (b.pending ++ c ∷ []) == 0) ≡ false = ground (arith, size) in
            rw (last, there, e, some_pending)
              (written-PutResult writes (record b { pending = b.pending ++ c ∷ []; rw = some s }) s
                (text b s) c _ refl (omega arith) (omega (arith, size)) same)
      ]

  put_more :
      (size : ℕ) (before : Bytes) (c : ℕ) (cs : Bytes) (r : Option (OutBuffer w × Bool))
      → PutResult size (before ++ c ∷ []) cs r
      → PutResult size before (c ∷ cs) r
  put_more size before c cs none h = absurd h
  put_more size before c cs (some (b, true)) (s, e, sized, fits, same) =
      (s, e, sized, fits, same ∙ append_assoc before (c ∷ []) cs)
  put_more size before c cs (some (b, false)) (taken, left, s, fits, split, same, failed, here) = (
    c ∷ taken,
    left,
    s,
    fits,
    ap (λ l. c ∷ l) split,
    same ∙ append_assoc before (c ∷ []) taken,
    failed,
    here,
  )

  put_next :
      (size : ℕ) (before : Bytes) (c : ℕ) (cs : Bytes) (r : Option (OutBuffer w × Bool))
      → PutResult size before (c ∷ []) r
      → ((next : OutBuffer w) (s : w.State)
          → next.rw ≡ some s
          → next.size ≡ size
          → length next.pending < size
          → PutResult size (text next s) cs (put_all cs next))
      → PutResult size before (c ∷ cs) (elim r [
        | none ↦ none
        | some (next, false) ↦ some (next, false)
        | some (next, true) ↦ put_all cs next
      ])
  put_next size before c cs none h again = absurd h
  put_next size before c cs (some (next, true)) (s, e, sized, fits, same) again =
      put_more size before c cs (put_all cs next) (rw same at (again next s e sized fits))
  put_next size before c cs (some (next, false)) (taken, left, s, fits, split, same, failed, here)
        again =
      (
        taken,
        left ++ cs,
        s,
        fits,
        ap (λ l. l ++ cs) split ∙ append_assoc taken left cs,
        same,
        failed,
        here,
      )

  -- Characters put into a buffer that is on a writer and has a free place never go beyond its end.
  -- If all of them are taken, there is a free place again, and what the writer has taken with what is
  -- pending has grown by exactly those characters. Otherwise a write has failed behind some of them:
  -- it was given all that the writer had not taken before, and all of that is still pending.
  pub put_all-PutResult :
      (cs : Bytes) (b : OutBuffer w) (s : w.State)
      → WritesAll w
      → b.rw ≡ some s
      → length b.pending < b.size
      → PutResult b.size (text b s) cs (put_all cs b)
  unfolding put_all
  put_all-PutResult [] b s writes e free = (s, e, refl, free, sym (append-nil (text b s)))
  put_all-PutResult (c ∷ cs) b s writes e free =
      put_next b.size (text b s) c cs (sputc b c) (sputc-PutResult writes b s c e free)
        (λ next s' e' sized free'.
          subst (λ n. PutResult n (text next s') cs (put_all cs next)) sized
            (put_all-PutResult cs next s' writes e' (rw sized free')))
