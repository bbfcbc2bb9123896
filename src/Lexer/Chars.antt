-- ===== src/Lexer/Chars.antt =====
-- What the lexer of registry.h and registry.cpp does with characters: its styles, the classes of
-- characters, and its loops over them.
use nanonet.Common.{
  ℕ, ◌+◌, Bool, true, false, ◌&&◌, ◌||◌, Option, none, some, [], ◌∷◌, ◌++◌, ◌==◌, leb,
  if◌then◌else◌, Bytes, Outcome, ok, throws,
}
use nanonet.Token.{Token}
use nanonet.Error.{Location, Error, unknown_input_char, unterminated_string, bad_escape}

pub data CommentStyle : Type 0 where
  c_comments hash_comments percent_comments : CommentStyle

pub data StringQuoteStyle : Type 0 where
  single_quote double_quote : StringQuoteStyle

pub record LexerStyle : Type 0 where
  pub comment_style : CommentStyle
  pub string_quote_style : StringQuoteStyle

-- The style of a lexer, and of a parser below, that is given none.
abbrev pub default_lexer_style : LexerStyle
default_lexer_style = record { comment_style = hash_comments; string_quote_style = double_quote }

abbrev pub is_newline : ℕ → Bool
is_newline c = b'\n' == c

-- `line_no_ += isnewline( c )`
abbrev pub newlines : ℕ → ℕ
newlines c = if c == b'\n' then 1 else 0

-- `std::isspace`, `std::isdigit`, `std::isalpha` and `std::isalnum` in the C locale.
unfoldable pub is_space : ℕ → Bool
is_space c = c == b' ' || (leb 9 c && leb c 13)

unfoldable pub is_digit : ℕ → Bool
is_digit c = leb b'0' c && leb c b'9'

unfoldable pub is_alpha : ℕ → Bool
is_alpha c = (leb b'a' c && leb c b'z') || (leb b'A' c && leb c b'Z')

unfoldable pub is_alnum : ℕ → Bool
unfolding is_alpha is_digit
is_alnum c = is_alpha c || is_digit c

unfoldable pub quote_char : StringQuoteStyle → ℕ
quote_char single_quote = b'\''
quote_char double_quote = b'"'

unfoldable pub comment_char : CommentStyle → ℕ
comment_char hash_comments = b'#'
comment_char _ = b'%'

abbrev pub is_c : CommentStyle → Bool
is_c c_comments = true
is_c _ = false

abbrev pub is_hash : CommentStyle → Bool
is_hash hash_comments = true
is_hash _ = false

unfoldable pub char_token : ℕ → Outcome Error Token
char_token c =
    if c == b'('
    then ok Token.lp
    else if c == b')'
    then ok Token.rp
    else if c == b'{'
    then ok Token.lb
    else if c == b'}'
    then ok Token.rb
    else if c == b'['
    then ok Token.lbracket
    else if c == b']'
    then ok Token.rbracket
    else if c == b'/'
    then ok Token.slash
    else if c == b'#'
    then ok Token.hash
    else if c == b'%'
    then ok Token.percent
    else if c == b','
    then ok Token.comma
    else if c == b'='
    then ok Token.assign
    else if c == b'*'
    then ok Token.asterisks
    else throws (unknown_input_char c)

-- The characters that `get_token` hands to `char_token` in every style.
unfoldable pub is_punctuation : ℕ → Bool
is_punctuation c =
    c == b'='
    || c == b'('
    || c == b')'
    || c == b'{'
    || c == b'}'
    || c == b'['
    || c == b']'
    || c == b','

-- The loop over white space: the line number behind it, and the bytes left.
unfoldable pub skip_space : ℕ → Bytes → ℕ × Bytes
unfolding is_space
skip_space line [] = (line, [])
skip_space line (c ∷ cs) =
    let rest = skip_space (line + newlines c) cs in if is_space c then rest else (line, c ∷ cs)

-- The rest of a comment up to its newline, which is read too. `none`: the stream ended before.
unfoldable pub munch_line : Bytes → Option Bytes
munch_line [] = none
munch_line (c ∷ cs) = if is_newline c then some cs else munch_line cs

unfoldable pub munch_till_asterisks_slash : ℕ → Bytes → ℕ × Bytes
munch_till_asterisks_slash line [] = (line, [])
munch_till_asterisks_slash line (c ∷ []) = (line + newlines c, [])
munch_till_asterisks_slash line (c ∷ d ∷ cs) =
    let rest = munch_till_asterisks_slash (line + newlines c) (d ∷ cs) in
    if c == b'*' && d == b'/' then (line, cs) else rest

-- The escape sequences: what `esc` behind a backslash stands for.
unfoldable pub unescape : ℕ → ℕ → Option ℕ
unescape quote esc =
    if esc == quote
    then some quote
    else if esc == b'n'
    then some b'\n'
    else if esc == b'\\'
    then some b'\\'
    else none

-- The loop over a quoted string; the flag says that a backslash was just read.
unfoldable pub read_quoted : ℕ → Location → Bool → Bytes → Bytes → Outcome Error (Bytes × Bytes)
read_quoted quote at false value [] = throws (unterminated_string at)
read_quoted quote at true value [] = throws (bad_escape at)
read_quoted quote at true value (esc ∷ cs) = elim (unescape quote esc) [
  | none ↦ throws (bad_escape at)
  | some c ↦ read_quoted quote at false (value ++ c ∷ []) cs
]
read_quoted quote at false value (c ∷ cs) =
    let escaped = read_quoted quote at true value cs in
    let plain = read_quoted quote at false (value ++ c ∷ []) cs in
    if is_newline c
    then throws (unterminated_string at)
    else if c == quote
    then ok (value, cs)
    else if c == b'\\'
    then escaped
    else plain

-- The loop over the rest of an identifier, with what was read and the bytes left.
unfoldable pub read_ident : Bytes → Bytes → Bytes × Bytes
unfolding is_alnum
read_ident value [] = (value, [])
read_ident value (c ∷ cs) =
    let rest = read_ident (value ++ c ∷ []) cs in
    if is_alnum c || c == b'_' then rest else (value, c ∷ cs)
