-- ===== src/Lexer.antt =====
-- The lexer of registry.h and registry.cpp, over the bytes that its stream still holds.
-- A read from the empty stream is the end of file; a stream in memory has no other read error.
-- An exception leaves no lexer: the program that catches one reads no more from it.
mod Chars
mod Loops
pub mod Within
pub mod Progress
pub mod Quoted
unfoldable pub use Chars.*
use nanonet.Common.{
  ℕ, zero, suc, ◌+◌, Bool, true, false, ◌||◌, not, Option, none, some, [], ◌∷◌, ◌==◌, if◌then◌else◌,
  length, Bytes, Outcome, ok, throws, ◌>>=◌,
}
use nanonet.Double.{Floats}
use nanonet.Token.{Token}
use nanonet.Error.{Location, Error, invalid_comment_start, bad_float, bad_char, out_of_fuel}

pub record Lexer (fl : Floats) : Type 0 where
  pub input : Bytes
  pub style : LexerStyle
  pub current_token : Token
  pub string_value : Bytes
  pub num_value : fl.Double
  pub line_no : ℕ
  pub filename : Bytes
  pub hold : Bool

module _ {fl : Floats} where
  abbrev pub location : Lexer fl → Location
  location l = record { filename = l.filename; line = l.line_no }

  abbrev pub set_style : Lexer fl → LexerStyle → Lexer fl
  set_style l ls = record l { style = ls }

  abbrev pub putback : Lexer fl → Lexer fl
  putback l = record l { hold = true }

  -- `return current_token_ = t`
  abbrev pub token_at : Token → Lexer fl → Outcome Error (Token × Lexer fl)
  token_at t l = ok (t, record l { current_token = t })

  abbrev single_char : Lexer fl → ℕ → Outcome Error (Token × Lexer fl)
  single_char l c = do t ← char_token c; token_at t l

  quoted : Lexer fl → ℕ → Outcome Error (Token × Lexer fl)
  quoted l quote = do
    (value, rest) ← read_quoted quote (location l) false [] l.input
    token_at Token.string (record l { input = rest; string_value = value })

  -- `is >> num_value_` and the test of `is.fail()`, by what the stream has read.
  number_value : Lexer fl → Option (fl.Double × Bytes) → Outcome Error (Token × Lexer fl)
  number_value l none = throws (bad_float (location l))
  number_value l (some (x, rest)) = token_at Token.num (record l { input = rest; num_value = x })

  number : Lexer fl → Bytes → Outcome Error (Token × Lexer fl)
  unfolding number_value
  number l text = number_value l (fl.read text)

  module _ (restart : Lexer fl → Outcome Error (Token × Lexer fl)) where
    -- A comment up to the end of its line: it ends the input, or the lexer starts again behind it.
    line_comment : Lexer fl → Option Bytes → Outcome Error (Token × Lexer fl)
    line_comment l none = token_at Token.end_of_input (record l { input = [] })
    line_comment l (some rest) = restart (record l { input = rest; line_no = l.line_no + 1 })

    -- `case '/'`, on the bytes behind the slash.
    after_slash : Lexer fl → Bytes → Outcome Error (Token × Lexer fl)
    unfolding line_comment
    after_slash l [] = token_at Token.slash l
    after_slash l (c ∷ cs) =
        if c == b'/'
        then (if is_hash l.style.comment_style
            then token_at Token.slash l
            else line_comment l (munch_line (c ∷ cs)))
        else if c == b'*'
        then (if not (is_c l.style.comment_style)
            then token_at Token.asterisks l
            else (let (line, rest) = munch_till_asterisks_slash l.line_no cs in
                restart (record l { input = rest; line_no = line })))
        else throws (invalid_comment_start (location l))

    -- What `get_token` does with a character that is no white space; `l.input` is behind it.
    pub lex_char : Lexer fl → ℕ → Outcome Error (Token × Lexer fl)
    unfolding line_comment after_slash quoted number is_punctuation is_digit is_alpha
    lex_char l c =
        if c == b'#' || c == b'%'
        then (if is_c l.style.comment_style || not (comment_char l.style.comment_style == c)
            then single_char l c
            else line_comment l (munch_line l.input))
        else if c == b'/'
        then after_slash l l.input
        else if is_punctuation c
        then single_char l c
        else if c == b'"' || c == b'\''
        then (if not (quote_char l.style.string_quote_style == c)
            then single_char l c
            else quoted l c)
        else if is_digit c || c == b'.' || c == b'+' || c == b'-'
        then number l (c ∷ l.input)
        else if is_alpha c
        then (let (value, rest) = read_ident (c ∷ []) l.input in
            token_at Token.ident (record l { input = rest; string_value = value }))
        else throws (bad_char (location l) c)

  lex_first :
      (Lexer fl → Outcome Error (Token × Lexer fl))
      → Lexer fl
      → ℕ × Bytes
      → Outcome Error (Token × Lexer fl)
  lex_first restart l (line, []) =
      token_at Token.end_of_input (record l { input = []; line_no = line })
  lex_first restart l (line, c ∷ cs) = lex_char restart (record l { input = cs; line_no = line }) c

  -- `get_token` from its label `restart`; each round is one comment.
  scan : ℕ → Lexer fl → Outcome Error (Token × Lexer fl)
  scan zero l = throws out_of_fuel
  scan (suc f) l = lex_first (scan f) l (skip_space l.line_no l.input)

  unfoldable pub get_token : Lexer fl → Outcome Error (Token × Lexer fl)
  unfolding scan lex_first lex_char
  get_token l =
      let fresh = scan (suc (length l.input)) l in
      if l.hold then ok (l.current_token, record l { hold = false }) else fresh

  unfoldable pub peek_token : Lexer fl → Outcome Error (Token × Lexer fl)
  peek_token l =
      if l.hold then ok (l.current_token, l) else do (t, next) ← get_token l; ok (t, putback next)
