-- ===== src/Text/Split.antt =====
-- `split` of util.cpp is the inverse of joining with the separator.
use nanonet.Common.{
  ℕ, zero, suc, ◌+◌, ◌≤◌, ◌<◌, ◌≡◌, ◌≢◌, ◌↔◌, refl, sym, ap, ◌∙◌, arith, true, Option, none, some,
  List, [], ◌∷◌, ◌++◌, ◌==◌, Bytes, length, All, count, Bool-cases, ==_iff, inl, inr, count-append,
}
use nanonet.Text.{splitter, find_separator, split_rounds, split}

-- The parts with the separator between each two.
abbrev pub joined : ℕ → List Bytes → Bytes
joined separator [] = []
joined separator (part ∷ []) = part
joined separator (part ∷ next ∷ parts) = part ++ separator ∷ joined separator (next ∷ parts)

abbrev pub rejoined : ℕ → Bytes → Option Bytes → Bytes
rejoined separator before none = before
rejoined separator before (some rest) = before ++ separator ∷ rest

abbrev pub length_behind : Option Bytes → ℕ
length_behind none = 0
length_behind (some rest) = suc (length rest)

rejoined-cons :
    (separator c : ℕ) (before : Bytes) (behind : Option Bytes)
    → rejoined separator (c ∷ before) behind ≡ c ∷ rejoined separator before behind
rejoined-cons separator c before none = refl
rejoined-cons separator c before (some rest) = refl

find_separator-rejoined :
    (separator : ℕ) (s : Bytes)
    → let (before, behind) = find_separator separator s in
      (rejoined separator before behind ≡ s)
      × (count separator before ≡ 0)
      × (length_behind behind ≤ length s)
unfolding find_separator
find_separator-rejoined separator [] = (refl, refl, omega arith)
find_separator-rejoined separator (c ∷ cs) =
    let (whole, none_in, shorter) = find_separator-rejoined separator cs in
    elim (Bool-cases (c == separator)) [
      | inl e ↦ rw e (ap (λ d. d ∷ cs) (sym ((==_iff c separator).0 e)), refl, omega arith)
      | inr n ↦ rw n (
        rejoined-cons separator c _ _ ∙ ap (λ l. c ∷ l) whole,
        rw n (omega (arith, none_in)),
        omega arith,
      )
    ]

-- The parts of a string: at least one, none of them with a separator, and the string is joined from
-- them.
pub record IsSplit (separator : ℕ) (s : Bytes) (parts : List Bytes) : Type 0 where
  pub some_part : parts ≢ []
  pub none_inside : All (λ part. count separator part ≡ 0) parts
  pub joins : joined separator parts ≡ s

split_rounds-exhausted :
    (n separator : ℕ) (rest : Bytes)
    → 0 < n
    → split_rounds n (record { rest = rest; separator = separator; exhausted = true }) ≡ some []
unfolding split_rounds
split_rounds-exhausted zero separator rest h = absurd (omega arith)
split_rounds-exhausted (suc n) separator rest h = refl

IsSplit-cons :
    (separator : ℕ) (part s rest : Bytes) (parts : List Bytes)
    → IsSplit separator rest parts
    → count separator part ≡ 0
    → part ++ separator ∷ rest ≡ s
    → IsSplit separator s (part ∷ parts)
IsSplit-cons separator part s rest [] split free e = absurd (split.some_part refl)
IsSplit-cons separator part s rest (next ∷ parts) split free e = record {
  some_part = λ h. cc h;
  none_inside = (free, split.none_inside);
  joins = ap (λ l. part ++ separator ∷ l) split.joins ∙ e;
}

-- What `split_rounds` makes of a string in so many rounds.
abbrev Splits : ℕ → ℕ → Bytes → Type 0
Splits n separator s =
    (parts : List Bytes) × (split_rounds n (splitter s separator) ≡ some parts)
    × IsSplit separator s parts

split_found :
    (n separator : ℕ) (s : Bytes) (found : Bytes × Option Bytes)
    → find_separator separator s ≡ found
    → length s + 2 ≤ suc n
    → ((rest : Bytes) → length rest + 2 ≤ n → Splits n separator rest)
    → Splits (suc n) separator s
unfolding split_rounds
split_found n separator s (before, none) e h again =
    let (whole, free, shorter) = rw e at (find_separator-rejoined separator s) in
    let last = split_rounds-exhausted n separator s (omega arith) in
    (
      before ∷ [],
      simp (e, last),
      record { some_part = λ x. cc x; none_inside = (free, tt); joins = whole },
    )
split_found n separator s (before, some rest) e h again =
    let (whole, free, shorter) = rw e at (find_separator-rejoined separator s) in
    let (parts, ran, split) = again rest (omega (arith, shorter)) in
    (before ∷ parts, simp (e, ran), IsSplit-cons separator before s rest parts split free whole)

split_rounds-Splits : (n separator : ℕ) (s : Bytes) → length s + 2 ≤ n → Splits n separator s
split_rounds-Splits zero separator s h = absurd (omega arith)
split_rounds-Splits (suc n) separator s h =
    split_found n separator s (find_separator separator s) refl h
      (λ rest k. split_rounds-Splits n separator rest k)

same_head :
    (separator : ℕ) (a b x y : Bytes)
    → count separator a ≡ 0
    → count separator b ≡ 0
    → a ++ separator ∷ x ≡ b ++ separator ∷ y
    → (a ≡ b) × (x ≡ y)
same_head separator [] [] x y p q e = (refl, cc e)
same_head separator [] (d ∷ b) x y p q e = let h : d ≡ separator = cc e in absurd (ground arith)
same_head separator (c ∷ a) [] x y p q e = let h : c ≡ separator = cc e in absurd (ground arith)
same_head separator (c ∷ a) (d ∷ b) x y p q e =
    let (same, rest) = same_head separator a b x y (omega arith) (omega arith) (cc e) in
    (cc (e, same), rest)

no_separator : (separator : ℕ) (a b x : Bytes) → count separator a ≡ 0 → a ≢ b ++ separator ∷ x
no_separator separator a b x p e =
    ground (arith, ap (count separator) e, count-append separator b (separator ∷ x))

joined-injective :
    (separator : ℕ) (ps qs : List Bytes)
    → ps ≢ []
    → qs ≢ []
    → All (λ part. count separator part ≡ 0) ps
    → All (λ part. count separator part ≡ 0) qs
    → joined separator ps ≡ joined separator qs
    → ps ≡ qs
joined-injective separator [] qs a b f g e = absurd (a refl)
joined-injective separator (p ∷ ps) [] a b f g e = absurd (b refl)
joined-injective separator (p ∷ []) (q ∷ []) a b f g e = ap (λ l. l ∷ []) e
joined-injective separator (p ∷ []) (q ∷ q' ∷ qs) a b (f, _) g e =
    absurd (no_separator separator p q _ f e)
joined-injective separator (p ∷ p' ∷ ps) (q ∷ []) a b f (g, _) e =
    absurd (no_separator separator q p _ g (sym e))
joined-injective separator (p ∷ p' ∷ ps) (q ∷ q' ∷ qs) a b (f, fs) (g, gs) e =
    let (same, rest) = same_head separator p q _ _ f g e in
    let others =
      joined-injective separator (p' ∷ ps) (q' ∷ qs) (λ h. cc h) (λ h. cc h) fs gs rest in
    cc (same, others)

-- `split` ends with enough rounds, and its result is the only list of at least one part, none of them
-- with a separator, that joins to the string.
pub split_iff :
    (s : Bytes) (separator : ℕ) (parts : List Bytes)
    → (split s separator ≡ some parts) ↔ IsSplit separator s parts
unfolding split
split_iff s separator parts =
    let (found, ran, split) = split_rounds-Splits (length s + 2) separator s (omega arith) in
    (
      λ e. let same : found ≡ parts = cc (ran, e) in rw (sym same) split,
      λ other.
          let same =
            joined-injective separator found parts split.some_part other.some_part split.none_inside
              other.none_inside (split.joins ∙ sym other.joins) in
          ran ∙ ap some same,
    )
