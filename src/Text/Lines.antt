-- ===== src/Text/Lines.antt =====
-- What `getline`, `chop` and `canonical` of util.cpp make of a text.
use nanonet.Common.{
  ℕ, zero, suc, ◌≤◌, ◌<◌, ◌≡◌, refl, sym, ap, ◌∙◌, arith, Bool, true, false, ◌||◌, Option, none,
  some, [], ◌∷◌, ◌++◌, ◌==◌, append-nil, append_assoc, Bytes, length, get_elem?, take, All, count,
  Bool-cases, inl, inr, ◌⊎◌, ==_iff, take-length,
}
use nanonet.Lexer.{is_space, is_alnum}
use nanonet.Text.{read_line, getline, chop_length, chop, to_upper, contains, canonical}

-- From the input a line was read, which ended at a newline or at the limit; or the input ended in it.
abbrev pub LineOf : ℕ → Bytes → Bytes → Bytes × Bool → Type 0
LineOf limit input s (rest, false) =
    (count b'\n' s ≡ 0)
    × (((input ≡ s ++ b'\n' ∷ rest) × (length s < limit))
        ⊎ ((input ≡ s ++ rest) × (length s ≡ limit)))
LineOf limit input s (rest, true) =
    (count b'\n' s ≡ 0) × (input ≡ s) × (rest ≡ []) × (length s < limit)

LineOf-cons :
    (limit c : ℕ) (input s : Bytes) (end : Bytes × Bool)
    → (b'\n' == c) ≡ false
    → LineOf limit input s end
    → LineOf (suc limit) (c ∷ input) (c ∷ s) end
LineOf-cons limit c input s (rest, false) n (free, inl (e, h)) =
    (ground arith, inl (ap (λ l. c ∷ l) e, omega arith))
LineOf-cons limit c input s (rest, false) n (free, inr (e, h)) =
    (ground arith, inr (ap (λ l. c ∷ l) e, omega arith))
LineOf-cons limit c input s (rest, true) n (free, e, h, k) =
    (ground arith, ap (λ l. c ∷ l) e, h, omega arith)

read_line-LineOf :
    (n : ℕ) (before input : Bytes)
    → (s : Bytes) × ((read_line n before input).0 ≡ before ++ s)
      × LineOf n input s ((read_line n before input).1, (read_line n before input).2)
unfolding read_line
read_line-LineOf zero before input = ([], sym (append-nil before), (refl, inr (refl, refl)))
read_line-LineOf (suc n) before [] = ([], sym (append-nil before), (refl, refl, refl, omega arith))
read_line-LineOf (suc n) before (c ∷ cs) = elim (Bool-cases (b'\n' == c)) [
  | inl e ↦ rw e (
    [],
    sym (append-nil before),
    (refl, inl (ap (λ d. d ∷ cs) (sym ((==_iff b'\n' c).0 e)), omega arith)),
  )
  | inr e ↦
      let (s, read, line) = read_line-LineOf n (before ++ c ∷ []) cs in
      rw e (c ∷ s, read ∙ append_assoc before (c ∷ []) s, LineOf-cons n c cs s _ e line)
]

abbrev pub GetlineResult : ℕ → Bytes → Option (Bytes × Bytes × Bool) → Type 0
GetlineResult maxsize input none = maxsize ≡ 0
GetlineResult maxsize input (some (s, rest, failed)) = LineOf maxsize input s (rest, failed)

-- For a positive `maxsize`, without which its assertion fails, `getline` reads a line up to its newline, which it takes, or up to `maxsize` characters; at the end
-- of the input it has read all of it and fails. The line has no newline in it.
pub getline-GetlineResult :
    (maxsize : ℕ) (input : Bytes) → GetlineResult maxsize input (getline maxsize input)
unfolding getline
getline-GetlineResult zero input = refl
getline-GetlineResult (suc n) input =
    let (s, read, line) = read_line-LineOf (suc n) [] input in rw (sym read) at line

-- What `chop` leaves of a string: the rest is white space, and the last character left is none.
pub record IsChopped (s left : Bytes) : Type 0 where
  pub spaces : Bytes
  pub whole : left ++ spaces ≡ s
  pub blank : All (λ c. is_space c ≡ true) spaces
  pub ends :
      (left ≡ []) ⊎ ((init : Bytes) × (c : ℕ) × (left ≡ init ++ c ∷ []) × (is_space c ≡ false))

take_next :
    (s : Bytes) (i : ℕ)
    → i < length s
    → (c : ℕ) × (get_elem? s i ≡ some c) × (take (suc i) s ≡ take i s ++ c ∷ [])
take_next [] i h = absurd (omega arith)
take_next (c ∷ s) zero h = (c, refl, refl)
take_next (c ∷ s) (suc i) h =
    let (d, here, next) = take_next s i (omega arith) in (d, here, ap (λ l. c ∷ l) next)

All-append {κ} : (P : ℕ → Type κ) (xs : Bytes) (y : ℕ) → All P xs → P y → All P (xs ++ y ∷ [])
All-append P [] y h k = (k, tt)
All-append P (x ∷ xs) y (h, hs) k = (h, All-append P xs y hs k)

chop_length-IsChopped :
    (s : Bytes) (i : ℕ) → i ≤ length s → IsChopped (take i s) (take (chop_length s i) s)
unfolding chop_length
chop_length-IsChopped s zero h = record { spaces = []; whole = refl; blank = tt; ends = inl refl }
chop_length-IsChopped s (suc i) h =
    let (c, here, next) = take_next s i (omega arith) in
    let shorter = chop_length-IsChopped s i (omega arith) in
    elim (Bool-cases (is_space c)) [
      | inl space ↦
          rw (chop_length, here, space)
            (record {
              spaces = shorter.spaces ++ c ∷ [];
              whole =
                  sym (append_assoc _ shorter.spaces (c ∷ []))
                  ∙ ap (λ l. l ++ c ∷ []) shorter.whole
                  ∙ sym next;
              blank = All-append (λ d. is_space d ≡ true) shorter.spaces c shorter.blank space;
              ends = shorter.ends;
            })
      | inr last ↦
          rw (chop_length, here, last)
            (record {
              spaces = [];
              whole = append-nil (take (suc i) s);
              blank = tt;
              ends = inr (take i s, c, next, last);
            })
    ]

-- `chop` removes white space from the end of a string, all of it and nothing else.
pub chop-IsChopped : (s : Bytes) → IsChopped s (chop s)
unfolding chop
chop-IsChopped s = rw (take-length s) at (chop_length-IsChopped s (length s) (omega arith))

to_upper_twice : (c : ℕ) → to_upper (to_upper c) ≡ to_upper c
unfolding to_upper
to_upper_twice c = ground arith

-- The canonical form of a canonical form is that form.
canonical_twice : (s extra : Bytes) → canonical (canonical s extra) extra ≡ canonical s extra
unfolding canonical
canonical_twice [] extra = refl
canonical_twice (c ∷ cs) extra =
    elim (Bool-cases (is_alnum (to_upper c) || contains extra (to_upper c))) [
      | inl kept ↦
          rw kept
            (rw (to_upper_twice c, kept) (ap (λ l. to_upper c ∷ l) (canonical_twice cs extra)))
      | inr dropped ↦ rw dropped (canonical_twice cs extra)
    ]
