-- ===== src/StreamBuf/Source/Refill.antt =====
-- The pointers of an `istreambuf` of include/nanonet/util.h, when it is refilled and read.
use nanonet.Common.{
  ℕ, suc, ◌+◌, ◌-◌, ◌≤◌, ◌<◌, ◌≡◌, refl, sym, ap, ◌∙◌, arith, false, Option, none, some, [], ◌∷◌,
  ◌++◌, append-nil, append_assoc, ltb, ltb→lt, Bytes, length, Bool-cases, inl, inr,
}
use nanonet.StreamBuf.Source.{Reader, Reads, InBuffer, memmove, min_of, refilled, underflow}
use nanonet.StreamBuf.Source.Memory.{
  slice, slice-append, slice-memmove, slice-store_below, slice-store,
}

-- The end of what was given out, moved to stand before the new characters.
moved_back :
    (m : ℕ → ℕ) (eback gptr to n : ℕ) (front delivered : Bytes)
    → n ≤ gptr - eback
    → eback ≤ gptr
    → delivered ≡ front ++ slice m eback (gptr - eback)
    → delivered
      ≡ (front ++ slice m eback (gptr - eback - n)) ++ slice (memmove to (gptr - n) n m) to n
moved_back m eback gptr to n front delivered fits order back =
    let parts : gptr - eback ≡ (gptr - eback - n) + n = omega arith in
    let place : eback + (gptr - eback - n) ≡ gptr - n = omega arith in
    let split : slice m eback (gptr - eback)
        ≡ slice m eback (gptr - eback - n) ++ slice m (gptr - n) n =
      ap (slice m eback) parts
      ∙ slice-append m eback (gptr - eback - n) n
      ∙ ap (λ a. slice m eback (gptr - eback - n) ++ slice m a n) place in
    back
    ∙ ap (λ l. front ++ l) split
    ∙ sym (append_assoc front (slice m eback (gptr - eback - n)) (slice m (gptr - n) n))
    ∙ ap (λ l. (front ++ slice m eback (gptr - eback - n)) ++ l)
        (sym (slice-memmove m to (gptr - n) n))

module _ {r : Reader} where
  -- The pointers of a buffer, when it has given out some text: they are within the buffer, what is
  -- ahead is what the reader has given besides, and what may be put back is the end of the text.
  pub record IsSound (b : InBuffer r) (delivered : Bytes) : Type 0 where
    pub room : b.size_pb < b.size
    pub lower : b.eback ≤ b.gptr
    pub upper : b.gptr ≤ b.egptr
    pub within : b.egptr ≤ b.size
    pub front : Bytes
    pub behind : delivered ≡ front ++ slice b.memory b.eback (b.gptr - b.eback)
    pub ahead : r.given b.rw ≡ delivered ++ slice b.memory b.gptr (b.egptr - b.gptr)

  -- A character is ready, or everything that the reader has given is given out.
  abbrev pub Ready : Bytes → InBuffer r × Option ℕ → Type 0
  Ready delivered (b, none) = r.given b.rw ≡ delivered
  Ready delivered (b, some c) = IsSound b delivered × (b.gptr < b.egptr) × (b.memory b.gptr ≡ c)

  refilled-Ready :
      (b : InBuffer r) (delivered : Bytes) (m : ℕ → ℕ) (n : ℕ) (state : r.State)
      (got : Option Bytes) (front : Bytes)
      → n ≤ b.size_pb
      → b.size_pb < b.size
      → delivered ≡ front ++ slice m (b.size_pb - n) n
      → ((bytes : Bytes)
          → got ≡ some bytes
          → (length bytes ≤ b.size - b.size_pb) × (r.given state ≡ delivered ++ bytes))
      → (got ≡ none → r.given state ≡ delivered)
      → Ready delivered (refilled (record b { memory = m }) n state got)
  unfolding refilled
  refilled-Ready b delivered m n state none front small room back gives fails = fails refl
  refilled-Ready b delivered m n state (some []) front small room back gives fails =
      (gives [] refl).1 ∙ append-nil delivered
  refilled-Ready b delivered m n state (some (c ∷ cs)) front small room back gives fails =
      let (fits, given) = gives (c ∷ cs) refl in
      let moved : b.size_pb - (b.size_pb - n) ≡ n = omega arith in
      let new : b.size_pb + length (c ∷ cs) - b.size_pb ≡ length (c ∷ cs) = omega arith in
      (
        record {
          room = room;
          lower = omega arith;
          upper = omega arith;
          within = omega arith;
          front = front;
          behind = rw moved (
              back
              ∙ ap (λ l. front ++ l)
                  (sym (slice-store_below m b.size_pb (c ∷ cs) (b.size_pb - n) n (omega arith))));
          ahead =
              rw new (given ∙ ap (λ l. delivered ++ l) (sym (slice-store m b.size_pb (c ∷ cs))));
        },
        omega arith,
        refl,
      )

  pub underflow-Ready :
      (reads : Reads r) (b : InBuffer r) (delivered : Bytes)
      → IsSound b delivered
      → Ready delivered (underflow b)
  unfolding underflow
  underflow-Ready reads b delivered v = elim (Bool-cases (ltb b.gptr b.egptr)) [
    | inl more ↦ rw more (v, ltb→lt b.gptr b.egptr more, refl)
    | inr at_end ↦ rw at_end (refill at_end)
  ]
    where
      n : ℕ
      n = min_of (b.gptr - b.eback) b.size_pb

      refill :
          ltb b.gptr b.egptr ≡ false
          → Ready delivered (
              refilled
                (record b { memory = memmove (b.size_pb - n) (b.gptr - n) n b.memory })
                n
                (r.read b.rw (b.size - b.size_pb)).0
                (r.read b.rw (b.size - b.size_pb)).1)
      refill at_end =
          let empty : b.egptr - b.gptr ≡ 0 = ground (arith, v.upper) in
          let all_out : r.given b.rw ≡ delivered =
            v.ahead ∙ ap (λ k. delivered ++ slice b.memory b.gptr k) empty ∙ append-nil delivered in
          refilled-Ready b delivered (memmove (b.size_pb - n) (b.gptr - n) n b.memory) n
            (r.read b.rw (b.size - b.size_pb)).0 (r.read b.rw (b.size - b.size_pb)).1
            (v.front ++ slice b.memory b.eback (b.gptr - b.eback - n)) (ground arith) v.room
            (moved_back b.memory b.eback b.gptr (b.size_pb - n) n v.front delivered (ground arith)
              v.lower v.behind)
            (λ bytes e.
              let (fits, given) = reads.gives b.rw (b.size - b.size_pb) bytes e in
              (fits, given ∙ ap (λ l. l ++ bytes) all_out))
            (λ e. reads.fails b.rw (b.size - b.size_pb) e ∙ all_out)

  -- Behind a character that is ready.
  pub taken-IsSound :
      (b : InBuffer r) (delivered : Bytes) (c : ℕ)
      → IsSound b delivered
      → b.gptr < b.egptr
      → b.memory b.gptr ≡ c
      → IsSound (record b { gptr = b.gptr + 1 }) (delivered ++ c ∷ [])
  taken-IsSound b delivered c v some_left here =
      let one_more : b.gptr + 1 - b.eback ≡ b.gptr - b.eback + 1 = omega (arith, v.lower) in
      let place : b.eback + (b.gptr - b.eback) ≡ b.gptr = omega (arith, v.lower) in
      let first : b.egptr - b.gptr ≡ suc (b.egptr - (b.gptr + 1)) = omega arith in
      let next : suc b.gptr ≡ b.gptr + 1 = omega arith in
      record {
        room = v.room;
        lower = omega (arith, v.lower);
        upper = omega arith;
        within = v.within;
        front = v.front;
        behind =
            ap (λ l. l ++ c ∷ []) v.behind
            ∙ append_assoc v.front (slice b.memory b.eback (b.gptr - b.eback)) (c ∷ [])
            ∙ ap (λ d. v.front ++ (slice b.memory b.eback (b.gptr - b.eback) ++ d ∷ [])) (sym here)
            ∙ ap (λ a. v.front ++ (slice b.memory b.eback (b.gptr - b.eback) ++ b.memory a ∷ []))
                (sym place)
            ∙ ap (λ l. v.front ++ l) (sym (slice-append b.memory b.eback (b.gptr - b.eback) 1))
            ∙ ap (λ k. v.front ++ slice b.memory b.eback k) (sym one_more);
        ahead =
            v.ahead
            ∙ ap (λ k. delivered ++ slice b.memory b.gptr k) first
            ∙ ap (λ d. delivered ++ (d ∷ slice b.memory (suc b.gptr) (b.egptr - (b.gptr + 1)))) here
            ∙ sym (
                append_assoc delivered (c ∷ [])
                  (slice b.memory (suc b.gptr) (b.egptr - (b.gptr + 1))))
            ∙ ap (λ a. (delivered ++ c ∷ []) ++ slice b.memory a (b.egptr - (b.gptr + 1))) next;
      }
