-- ===== src/Parser.antt =====
-- The parser of registry.h and registry.cpp: terms, and pairs of a key and a term.
pub mod Weight
pub mod Numbers
pub mod Termination
use nanonet.Common.{
  ℕ, zero, suc, ◌+◌, ◌*◌, Bool, true, false, not, Option, none, some, if◌then◌else◌, length, Bytes,
  Outcome, ok, throws, ◌>>=◌, equal, ◌||◌,
}
use nanonet.Double.{Floats}
use nanonet.Token.{Token, token_eq, closing_token}
use nanonet.Error.{
  Error, expected, identifier_expected, term_expected, nonnegative_expected, positive_expected,
  out_of_fuel,
}
use nanonet.Lexer.{Lexer, location, putback, get_token}

-- What a `std::any` of the registry holds: a double, a string (or an identifier, which is stored as
-- one), a list of such values, or an expression.
mutual
  pub data Term (fl : Floats) : Type 0 where
    number : fl.Double → Term fl
    text : Bytes → Term fl
    list : Terms fl → Term fl
    expression : Bytes → Terms fl → Term fl

  pub data Terms (fl : Floats) : Type 0 where
    nil : Terms fl
    cons : Term fl → Terms fl → Terms fl

pub data CommaStyle : Type 0 where
  comma_required comma_optional : CommaStyle

pub record ParserStyle : Type 0 where
  pub comma_style : CommaStyle
  pub list_delimiter : Token
  pub expression_delimiter : Token

-- A key with its value, and where it is defined.
pub record Pair (fl : Floats) : Type 0 where
  pub key : Bytes
  pub value : Term fl
  pub line_no : ℕ
  pub filename : Bytes

pub record Parser (fl : Floats) : Type 0 where
  pub lex : Lexer fl
  pub style : ParserStyle
  pub state : Bool

module _ {fl : Floats} where
  -- `expect( lex , t , read )` with `read` true, and with `read` false.
  unfoldable pub expect : Lexer fl → Token → Outcome Error (Lexer fl)
  expect lex t = do
    (read, next) ← get_token lex
    if not (token_eq read t) then throws (expected (location next) t) else ok next

  unfoldable pub expect_current : Lexer fl → Token → Outcome Error (Lexer fl)
  expect_current lex t =
      if not (token_eq lex.current_token t) then throws (expected (location lex) t) else ok lex

  -- `expect( lex , s )` for an identifier `s`.
  unfoldable pub expect_identifier : Lexer fl → Bytes → Outcome Error (Lexer fl)
  expect_identifier lex s = do
    (read, next) ← get_token lex
    if not (token_eq read Token.ident) || not (equal next.string_value s)
        then throws (identifier_expected (location next) s)
        else ok next

  unfoldable pub get_double : Lexer fl → Outcome Error (fl.Double × Lexer fl)
  get_double lex = do next ← expect lex Token.num; ok (next.num_value, next)

  unfoldable pub get_nonneg : Lexer fl → Outcome Error (fl.Double × Lexer fl)
  get_nonneg lex = do
    (ret, next) ← get_double lex
    if fl.lt ret fl.origin then throws (nonnegative_expected (location next)) else ok (ret, next)

  unfoldable pub get_positive : Lexer fl → Outcome Error (fl.Double × Lexer fl)
  get_positive lex = do
    (ret, next) ← get_double lex
    if fl.le ret fl.origin then throws (positive_expected (location next)) else ok (ret, next)

  -- More rounds than `parse_list` makes on this lexer.
  abbrev pub rounds : Lexer fl → ℕ
  rounds lex = 2 * length lex.input + 2

  -- What stands between two elements; `lex` has just read the token behind the first.
  unfoldable pub separator : CommaStyle → Lexer fl → Outcome Error (Lexer fl)
  unfolding expect_current
  separator comma_required lex = expect_current lex Token.comma
  separator comma_optional lex =
      ok (if not (token_eq lex.current_token Token.comma) then putback lex else lex)

  module _ (style : ParserStyle) (parse_term : Lexer fl → Outcome Error (Term fl × Lexer fl)) where
    -- The loop of `parse_list`: the elements from here to the closing token.
    unfoldable pub parse_list : Token → ℕ → Bool → Lexer fl → Outcome Error (Terms fl × Lexer fl)
    unfolding separator
    parse_list close zero first lex = throws out_of_fuel
    parse_list close (suc n) first lex = do
      (read, next) ← get_token lex
      let element : Outcome Error (Terms fl × Lexer fl) = (do
        here ← if first then ok (putback next) else separator style.comma_style next
        (value, behind) ← parse_term here
        (values, last) ← parse_list close n false behind
        ok (cons value values, last))
      if token_eq read close then ok (nil, next) else element

    -- `parse_list( closing_token( open ) )`, behind the token `open`.
    unfoldable pub parse_from : Token → Lexer fl → Outcome Error (Terms fl × Lexer fl)
    unfolding parse_list
    parse_from open_token lex = parse_list (closing_token open_token) (rounds lex) true lex

    -- Behind an identifier: the head of an expression, or a string.
    unfoldable pub after_ident : Bytes → Token × Lexer fl → Outcome Error (Term fl × Lexer fl)
    unfolding parse_from
    after_ident ident (read, next) =
        if token_eq read style.expression_delimiter
        then (do
          (tail, last) ← parse_from style.expression_delimiter next
          ok (expression ident tail, last))
        else ok (text ident, putback next)

    -- The tests of `parse_term` on the token that it has read.
    unfoldable pub term_of : Token → Lexer fl → Outcome Error (Term fl × Lexer fl)
    unfolding after_ident
    term_of read lex =
        if token_eq read Token.num
        then ok (number lex.num_value, lex)
        else if token_eq read Token.string
        then ok (text lex.string_value, lex)
        else if token_eq read Token.ident
        then (get_token lex >>= after_ident lex.string_value)
        else if token_eq read style.list_delimiter
        then (do (values, last) ← parse_from style.list_delimiter lex; ok (list values, last))
        else throws (term_expected (location lex))

  -- The fuel is the depth to which lists may be nested.
  unfoldable pub parse_term : ParserStyle → ℕ → Lexer fl → Outcome Error (Term fl × Lexer fl)
  unfolding term_of
  parse_term style zero lex = throws out_of_fuel
  parse_term style (suc depth) lex = do
    (read, next) ← get_token lex
    term_of style (parse_term style depth) read next

  -- The key that was read, and the term behind its `=`.
  unfoldable pub parse_value : Parser fl → Lexer fl → Outcome Error (Option (Pair fl) × Parser fl)
  unfolding expect
  parse_value p next = do
    behind ← expect next Token.assign
    (value, last) ← parse_term p.style (rounds behind) behind
    ok (
      some (record {
        key = next.string_value;
        value = value;
        line_no = next.line_no;
        filename = next.filename;
      }),
      record p { lex = last },
    )

  -- `none` for a parser whose state is false: what was read is no key.
  unfoldable pub parse_pair : Parser fl → Outcome Error (Option (Pair fl) × Parser fl)
  unfolding parse_value
  parse_pair p =
      let step : Outcome Error (Option (Pair fl) × Parser fl) = (do
        (read, next) ← get_token p.lex
        if not (token_eq read Token.ident)
            then ok (none, record p { lex = next; state = false })
            else parse_value p next) in
      if not p.state then ok (none, p) else step
