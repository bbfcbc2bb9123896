-- ===== src/Parser/Weight.antt =====
-- What is left to read, as a number that each token makes smaller.
use nanonet.Common.{
  ℕ, ◌+◌, ◌*◌, ◌≤◌, ◌<◌, ◌≡◌, false, not, ◌&&◌, ◌⊎◌, inl, inr, arith, length, if◌then◌else◌, ok,
  throws, Outcome, ◌∙◌,
}
use nanonet.Double.{Floats, ReadsPrefix}
use nanonet.Token.{Token, token_eq, token_eq_iff}
use nanonet.Error.{Error, Ensures}
use nanonet.Lexer.{Lexer, putback, get_token}
use nanonet.Lexer.Within.{Advances}
use nanonet.Lexer.Progress.{Reads, get_token-Reads}

module _ {fl : Floats} where
  -- Each byte counts two, and a token that was put back one, but for the end of the input.
  unfoldable pub weight : Lexer fl → ℕ
  weight l =
      2 * length l.input
      + (if l.hold && not (token_eq l.current_token Token.end_of_input) then 1 else 0)

  pub weight-lt-rounds : (l : Lexer fl) → weight l < 2 * length l.input + 2
  unfolding weight
  weight-lt-rounds l = ground arith

  pub weight-le-putback : (l : Lexer fl) → weight l ≤ weight (putback l)
  unfolding weight
  weight-le-putback l = ground arith

  pub record Lighter (l : Lexer fl) (r : Token × Lexer fl) : Type 0 where
    pub current : r.1.current_token ≡ r.0
    pub free : r.1.hold ≡ false
    pub less : (r.0 ≡ Token.end_of_input) ⊎ (weight r.1 < weight l)
    pub back : weight (putback r.1) ≤ weight l

  Lighter-of_Reads : (l : Lexer fl) (t : Token) (l' : Lexer fl) → Reads l t l' → Lighter l (t, l')
  unfolding weight
  Lighter-of_Reads l t l' (inl (held, t_is, l'_is)) = record {
    current = ground arith;
    free = ground arith;
    less = ground (arith, token_eq_iff l.current_token Token.end_of_input);
    back = ground arith;
  }
  Lighter-of_Reads l t l' (inr (free, s)) = record {
    current = s.within.current;
    free = s.within.hold ∙ free;
    less = ground (arith, s.within, s.reads_on);
    back = ground (arith, s.within, s.reads_on, token_eq_iff l'.current_token Token.end_of_input);
  }

  lighter :
      (l : Lexer fl) (r : Outcome Error (Token × Lexer fl))
      → Advances (Reads l) r
      → Ensures (Lighter l) r
  lighter l (ok (t, l')) h = Lighter-of_Reads l t l' h
  lighter l (throws e) h = h

  pub get_token-Lighter : (l : Lexer fl) → ReadsPrefix fl → Ensures (Lighter l) (get_token l)
  get_token-Lighter l reads = lighter l (get_token l) (get_token-Reads l reads)
