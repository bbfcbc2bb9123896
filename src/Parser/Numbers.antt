-- ===== src/Parser/Numbers.antt =====
-- read_numbers of include/nanonet/registry.h, which reads a number for each element of a range.
use mathlib.Core.Path.{subst}
use nanonet.Common.{
  suc, ◌<◌, ◌≡◌, refl, ap, ◌⊎◌, inl, inr, List, [], ◌∷◌, ◌++◌, map, length, Outcome, ok, throws,
  drop, Outcome-cases, sym, arith,
}
use nanonet.Double.{Floats}
use nanonet.Error.{Error}
use nanonet.Lexer.{Lexer}
use nanonet.Parser.{get_double}

module _ {fl : Floats} {V : Type 0} (cast : fl.Double → V) where
  -- What is done with the number for the element `old`, before `more`: the elements, and the lexer.
  abbrev pub stored :
      V
      → List V
      → (Lexer fl → List V × Outcome Error (Lexer fl))
      → Outcome Error (fl.Double × Lexer fl)
      → List V × Outcome Error (Lexer fl)
  stored old more go (throws e) = (old ∷ more, throws e)
  stored old more go (ok (x, next)) = let (after, result) = go next in (cast x ∷ after, result)

  -- The range is given by the elements that it holds.
  unfoldable pub read_numbers : List V → Lexer fl → List V × Outcome Error (Lexer fl)
  unfolding get_double
  read_numbers [] lex = ([], ok lex)
  read_numbers (old ∷ more) lex = stored old more (λ next. read_numbers more next) (get_double lex)

-- The numbers that calls of `get_double` give one after the other, and the lexer behind them.
pub data Numbers {fl : Floats} : Lexer fl → List fl.Double → Lexer fl → Type 0 where
  stop : {lex : Lexer fl} → Numbers lex [] lex
  next :
      {lex mid last : Lexer fl} {x : fl.Double} {xs : List fl.Double}
      → get_double lex ≡ ok (x, mid)
      → Numbers mid xs last
      → Numbers lex (x ∷ xs) last

-- The two ways in which `read_numbers` ends.
pub NumbersResult :
    {fl : Floats} {V : Type 0}
    → (fl.Double → V)
    → List V
    → Lexer fl
    → List V × Outcome Error (Lexer fl)
    → Type 0
NumbersResult {fl} cast range lex result =
    ((xs : List fl.Double) × (last : Lexer fl) × Numbers lex xs last
      × (length xs ≡ length range)
      × (result ≡ (map cast xs, ok last)))
    ⊎ ((xs : List fl.Double) × (mid : Lexer fl) × (e : Error) × Numbers lex xs mid
        × (get_double mid ≡ throws e)
        × (length xs < length range)
        × (result ≡ (map cast xs ++ drop (length xs) range, throws e)))

module _ {fl : Floats} {V : Type 0} (cast : fl.Double → V) where
  stored-NumbersResult :
      (old : V) (more : List V) (lex mid : Lexer fl) (x : fl.Double)
      → get_double lex ≡ ok (x, mid)
      → NumbersResult cast more mid (read_numbers cast more mid)
      → NumbersResult cast
          (old ∷ more)
          lex
          (stored cast old more (λ n. read_numbers cast more n) (ok (x, mid)))
  unfolding NumbersResult
  stored-NumbersResult old more lex mid x e (inl (xs, last, read, all, result)) =
      inl (x ∷ xs, last, next e read, ap suc all, ap (λ r. (cast x ∷ r.0, r.1)) result)
  stored-NumbersResult old more lex mid x e (inr (xs, stuck, f, read, failed, few, result)) = inr (
    x ∷ xs,
    stuck,
    f,
    next e read,
    failed,
    omega (arith, few),
    ap (λ r. (cast x ∷ r.0, r.1)) result,
  )

  -- read_numbers ends in one of two ways. Either each element of the range is replaced by the number that
  -- get_double gives for it, in order; or get_double throws before that, its exception is passed on, and
  -- the elements before that place are replaced and all others are as they were.
  pub read_numbers-NumbersResult :
      (range : List V) (lex : Lexer fl) → NumbersResult cast range lex (read_numbers cast range lex)
  unfolding read_numbers NumbersResult
  read_numbers-NumbersResult [] lex = inl ([], lex, stop, refl, refl)
  read_numbers-NumbersResult (old ∷ more) lex = elim (Outcome-cases (get_double lex)) [
    | inl ((x, mid), e) ↦
        subst
          (λ r.
            NumbersResult cast (old ∷ more) lex
              (stored cast old more (λ n. read_numbers cast more n) r))
          (sym e) (stored-NumbersResult old more lex mid x e (read_numbers-NumbersResult more mid))
    | inr (f, e) ↦ inr (
      [],
      lex,
      f,
      stop,
      e,
      omega arith,
      ap (stored cast old more (λ n. read_numbers cast more n)) e,
    )
  ]
