-- ===== src/Parser/Termination.antt =====
-- The parser always comes to an end: no input makes `parse_term` or `parse_list` loop.
use nanonet.Common.{
  ℕ, zero, suc, ◌≤◌, ◌<◌, ◌≡◌, ◌≢◌, Bool, true, false, not, arith, ok, Outcome, if_cases,
  if◌then◌else◌, Bytes, Option, refl, none, some,
}
use nanonet.Double.{Floats, ReadsPrefix}
use nanonet.Token.{Token, token_eq, token_eq_iff, closing_token, closing_token-ne-end}
use nanonet.Error.{Error, Ensures, Ensures-bind, Ensures-weaken}
use nanonet.Lexer.{Lexer, putback, get_token}
use nanonet.Parser.{
  Term, ParserStyle, CommaStyle, comma_required, comma_optional, Pair, Parser, separator,
  parse_list, parse_from, after_ident, term_of, parse_term, parse_pair, rounds, expect, parse_value,
}
use nanonet.Parser.Weight.{weight, weight-lt-rounds, Lighter, get_token-Lighter, weight-le-putback}

-- Neither delimiter of the style is the end of the input.
pub record IsStyle (style : ParserStyle) : Type 0 where
  pub list_opens : style.list_delimiter ≢ Token.end_of_input
  pub expression_opens : style.expression_delimiter ≢ Token.end_of_input

module _ {fl : Floats} where
  -- The lexer that a call leaves behind is lighter than `w`.
  abbrev pub Below {ℓ} : {A : Type ℓ} → ℕ → A × Lexer fl → Type 0
  Below w r = weight r.1 < w

  abbrev AtMost : ℕ → Lexer fl → Type 0
  AtMost w l = weight l ≤ w

  separator-AtMost :
      (comma : CommaStyle) (l : Lexer fl) (t : Token) (next : Lexer fl)
      → Lighter l (t, next)
      → Ensures (AtMost (weight l)) (separator comma next)
  unfolding separator
  separator-AtMost comma_required l t next h =
      ground (arith, token_eq_iff next.current_token Token.comma)
  separator-AtMost comma_optional l t next h =
      ground (arith, token_eq_iff next.current_token Token.comma)

  here-AtMost :
      (first : Bool) (comma : CommaStyle) (l : Lexer fl) (t : Token) (next : Lexer fl)
      → Lighter l (t, next)
      → Ensures (AtMost (weight l)) (if first then ok (putback next) else separator comma next)
  here-AtMost true comma l t next h = h.back
  here-AtMost false comma l t next h = separator-AtMost comma l t next h

module _ {fl : Floats} (reads : ReadsPrefix fl) (style : ParserStyle)
    (term : Lexer fl → Outcome Error (Term fl × Lexer fl)) (w : ℕ)
    (term_ends : (l : Lexer fl) → weight l < w → Ensures (Below (weight l)) (term l)) where
  parse_list-ends :
      (close : Token) (n : ℕ) (first : Bool) (l : Lexer fl)
      → close ≢ Token.end_of_input
      → weight l < n
      → weight l < w
      → Ensures (Below (suc (weight l))) (parse_list style term close n first l)
  unfolding parse_list
  parse_list-ends close zero first l c b h = absurd (omega arith)
  parse_list-ends close (suc n) first l c b h =
      Ensures-bind (Lighter l) (Below (suc (weight l))) (get_token l) _ (get_token-Lighter l reads)
        λ r light.
          if_cases (Ensures (Below (suc (weight l)))) (token_eq r.0 close)
            (λ e. ground (arith, light, token_eq_iff r.0 close))
            (λ _.
              Ensures-bind (AtMost (weight l)) (Below (suc (weight l))) _ _
                (here-AtMost first style.comma_style l r.0 r.1 light)
                λ here less.
                  Ensures-bind (Below (weight here)) (Below (suc (weight l))) (term here) _
                    (term_ends here (omega arith))
                    λ v lighter.
                      Ensures-bind (Below (suc (weight v.1))) (Below (suc (weight l))) _ _
                        (parse_list-ends close n false v.1 c (omega arith) (omega arith))
                        λ vs last. omega arith)

  parse_from-ends :
      (open_token : Token) (l : Lexer fl)
      → weight l < w
      → Ensures (Below (suc (weight l))) (parse_from style term open_token l)
  unfolding parse_from
  parse_from-ends open_token l h =
      parse_list-ends (closing_token open_token) (rounds l) true l (closing_token-ne-end open_token)
        (weight-lt-rounds l) h

  after_ident-ends :
      (ident : Bytes) (l : Lexer fl) (r : Token × Lexer fl)
      → IsStyle style
      → weight l < w
      → Lighter l r
      → Ensures (Below (suc (weight l))) (after_ident style term ident r)
  unfolding after_ident
  after_ident-ends ident l (t, next) s h light =
      if_cases (Ensures (Below (suc (weight l)))) (token_eq t style.expression_delimiter)
        (λ e.
          let less : weight next < weight l =
            ground (arith, light, s, token_eq_iff t style.expression_delimiter) in
          Ensures-bind (Below (suc (weight next))) (Below (suc (weight l))) _ _
            (parse_from-ends style.expression_delimiter next (omega arith)) λ v last. omega arith)
        (λ _. omega (arith, light))

  term_of-ends :
      (l : Lexer fl) (t : Token) (next : Lexer fl)
      → IsStyle style
      → weight l ≤ w
      → Lighter l (t, next)
      → Ensures (Below (weight l)) (term_of style term t next)
  unfolding term_of
  term_of-ends l t next s h light =
      let P = Ensures (Below (weight l)) in
      if_cases P (token_eq t Token.num) (λ e. ground (arith, light, token_eq_iff t Token.num))
        (λ _.
          if_cases P (token_eq t Token.string)
            (λ e. ground (arith, light, token_eq_iff t Token.string))
            (λ _.
              if_cases P (token_eq t Token.ident)
                (λ e.
                  let less : weight next < weight l =
                    ground (arith, light, token_eq_iff t Token.ident) in
                  Ensures-bind (Lighter next) (Below (weight l)) _ _ (get_token-Lighter next reads)
                    λ r lighter.
                      Ensures-weaken (Below (suc (weight next))) (Below (weight l)) _
                        (after_ident-ends next.string_value next r s (omega arith) lighter)
                        λ v last. omega arith)
                (λ _.
                  if_cases P (token_eq t style.list_delimiter)
                    (λ e.
                      let less : weight next < weight l =
                        ground (arith, light, s, token_eq_iff t style.list_delimiter) in
                      Ensures-bind (Below (suc (weight next))) (Below (weight l)) _ _
                        (parse_from-ends style.list_delimiter next (omega arith))
                        λ v last. omega arith)
                    (λ _. λ x. cc))))

module _ {fl : Floats} (reads : ReadsPrefix fl) where
  expect-lighter :
      (m l : Lexer fl) (t : Token)
      → weight m < weight l
      → Ensures (λ n. weight n < weight l) (expect m t)
  unfolding expect
  expect-lighter m l t h =
      Ensures-bind (Lighter m) (λ n. weight n < weight l) (get_token m) _
        (get_token-Lighter m reads)
        λ r light.
          if_cases (Ensures (λ n. weight n < weight l)) (not (token_eq r.0 t)) (λ _. λ x. cc)
            (λ _. omega (arith, light, weight-le-putback r.1))

module _ {fl : Floats} (reads : ReadsPrefix fl) (style : ParserStyle) (s : IsStyle style) where
  -- If `is >> x` reads on as ReadsPrefix says and the style's opening delimiters are not the end of
  -- the input, then with a depth above the weight of the lexer `parse_term` ends, in an exception of
  -- the program or in a term, and then what is left to read is less.
  pub parse_term-ends :
      (depth : ℕ) (l : Lexer fl)
      → weight l < depth
      → Ensures (Below (weight l)) (parse_term style depth l)
  unfolding parse_term
  parse_term-ends zero l h = absurd (omega arith)
  parse_term-ends (suc depth) l h =
      Ensures-bind (Lighter l) (Below (weight l)) (get_token l) _ (get_token-Lighter l reads)
        λ r light.
          term_of-ends reads style (parse_term style depth) depth (λ m b. parse_term-ends depth m b)
            l r.0 r.1 s (omega arith) light

module _ {fl : Floats} where
  abbrev pub Progresses : Parser fl → Option (Pair fl) × Parser fl → Type 0
  Progresses p (none, q) = q.state ≡ false
  Progresses p (some pair, q) = (q.style ≡ p.style) × (weight q.lex < weight p.lex)

module _ {fl : Floats} (reads : ReadsPrefix fl) where
  value-Progresses :
      (p : Parser fl) (next : Lexer fl)
      → IsStyle p.style
      → weight next < weight p.lex
      → Ensures (Progresses p) (parse_value p next)
  unfolding parse_value
  value-Progresses p next s less =
      Ensures-bind (λ m. weight m < weight p.lex) (Progresses p) _ _
        (expect-lighter reads next p.lex Token.assign less)
        λ m lighter.
          Ensures-bind (Below (weight m)) (Progresses p) _ _
            (parse_term-ends reads p.style s (rounds m) m (weight-lt-rounds m))
            λ v last. (refl, omega arith)

  -- If `is >> x` reads on as ReadsPrefix says and the style's opening delimiters are not the end of
  -- the input, then `parse_pair` never runs out of rounds: it ends in an exception, or in a parser whose state is
  -- false because it was so or because what is read is no key, or in a pair, and then less is left
  -- to read.
  pub parse_pair-ends : (p : Parser fl) → IsStyle p.style → Ensures (Progresses p) (parse_pair p)
  unfolding parse_pair
  parse_pair-ends p s =
      if_cases (Ensures (Progresses p)) (not p.state) (λ e. ground arith)
        (λ _.
          Ensures-bind (Lighter p.lex) (Progresses p) _ _ (get_token-Lighter p.lex reads) λ r light.
            if_cases (Ensures (Progresses p)) (not (token_eq r.0 Token.ident)) (λ _. refl)
              (λ e. value-Progresses p r.1 s (ground (arith, light, token_eq_iff r.0 Token.ident))))
