-- ===== src/StreamBuf/Source/Memory.antt =====
-- Runs of places in the memory of an `istreambuf`, and what moving and storing make of them.
use nanonet.Common.{
  ℕ, zero, suc, ◌+◌, ◌≤◌, ◌<◌, ◌≡◌, refl, ap, ◌∙◌, arith, true, false, [], ◌∷◌, ◌++◌, ◌==◌, ==_refl,
  ltb, leb, ◌&&◌, Bytes, length,
}
use nanonet.StreamBuf.Source.{memmove, store}

-- So many places from one on.
abbrev pub slice : (ℕ → ℕ) → ℕ → ℕ → Bytes
slice memory a zero = []
slice memory a (suc n) = memory a ∷ slice memory (suc a) n

pub slice-same :
    (f g : ℕ → ℕ) (a b n : ℕ)
    → ((i : ℕ) → i < n → f (a + i) ≡ g (b + i))
    → slice f a n ≡ slice g b n
slice-same f g a b zero h = refl
slice-same f g a b (suc n) h =
    let first : f a ≡ g b = ap f (omega arith) ∙ h 0 (omega arith) ∙ ap g (omega arith) in
    let others : slice f (suc a) n ≡ slice g (suc b) n =
      slice-same f g (suc a) (suc b) n
        (λ i below. ap f (omega arith) ∙ h (suc i) (omega arith) ∙ ap g (omega arith)) in
    ap (λ c. c ∷ slice f (suc a) n) first ∙ ap (λ l. g b ∷ l) others

pub slice-append : (m : ℕ → ℕ) (a k n : ℕ) → slice m a (k + n) ≡ slice m a k ++ slice m (a + k) n
slice-append m a zero n =
    let none : a + 0 ≡ a = omega arith in let same : 0 + n ≡ n = omega arith in rw (none, same) refl
slice-append m a (suc k) n =
    let shifted : a + suc k ≡ suc a + k = omega arith in
    let more : suc k + n ≡ suc (k + n) = omega arith in
    rw (shifted, more) (ap (λ l. m a ∷ l) (slice-append m (suc a) k n))

pub slice-memmove : (m : ℕ → ℕ) (to from n : ℕ) → slice (memmove to from n m) to n ≡ slice m from n
slice-memmove m to from n = slice-same (memmove to from n m) m to from n λ i below.
    let inside : (leb to (to + i) && ltb (to + i) (to + n)) ≡ true = ground arith in
    rw inside (ap m (omega arith))

store_below : (to : ℕ) (bs : Bytes) (m : ℕ → ℕ) (i : ℕ) → i < to → store to bs m i ≡ m i
unfolding store
store_below to [] m i h = refl
store_below to (c ∷ cs) m i h =
    let other : (i == to) ≡ false = ground arith in
    rw other (store_below (suc to) cs m i (omega arith))

pub slice-store_below :
    (m : ℕ → ℕ) (to : ℕ) (bs : Bytes) (a n : ℕ)
    → a + n ≤ to
    → slice (store to bs m) a n ≡ slice m a n
slice-store_below m to bs a n h =
    slice-same (store to bs m) m a a n (λ i below. store_below to bs m (a + i) (omega arith))

pub slice-store : (m : ℕ → ℕ) (to : ℕ) (bs : Bytes) → slice (store to bs m) to (length bs) ≡ bs
slice-store m to [] = refl
slice-store m to (c ∷ cs) =
    let first : store to (c ∷ cs) m to ≡ c = unfold store in rw (==_refl to) refl in
    let others : slice (store to (c ∷ cs) m) (suc to) (length cs)
        ≡ slice (store (suc to) cs m) (suc to) (length cs) =
      slice-same (store to (c ∷ cs) m) (store (suc to) cs m) (suc to) (suc to) (length cs)
        (λ i below. behind (suc to + i) (omega arith)) in
    ap (λ d. d ∷ slice (store to (c ∷ cs) m) (suc to) (length cs)) first
    ∙ ap (λ l. c ∷ l) (others ∙ slice-store m (suc to) cs)
  where
    behind : (i : ℕ) → to < i → store to (c ∷ cs) m i ≡ store (suc to) cs m i
    behind i h = let other : (i == to) ≡ false = ground arith in unfold store in rw other refl
