-- ===== src/Lexer/Quoted.antt =====
-- Quoted strings: `get_token` of registry.cpp reads back what is written with its escapes.
use nanonet.Common.{
  ℕ, ◌≡◌, ◌∙◌, refl, false, [], ◌∷◌, ◌++◌, append-nil, append_assoc, arith, ◌==◌, Bytes, ok,
  if◌then◌else◌, Bool-cases, inl, inr, ==_iff,
}
use nanonet.Double.{Floats}
use nanonet.Token.{Token}
use nanonet.Error.{Location}
use nanonet.Lexer.{
  StringQuoteStyle, single_quote, double_quote, Lexer, quote_char, unescape, read_quoted, get_token,
  location, quoted, skip_space,
}

-- A character between the quotes, escaped where it has to be.
abbrev pub escape_char : ℕ → ℕ → Bytes
escape_char quote c =
    if c == quote
    then b'\\' ∷ quote ∷ []
    else if c == b'\n'
    then b'\\' ∷ b'n' ∷ []
    else if c == b'\\'
    then b'\\' ∷ b'\\' ∷ []
    else c ∷ []

-- A string behind its opening quote, with its closing quote and what follows.
abbrev pub escaped : ℕ → Bytes → Bytes → Bytes
escaped quote [] rest = quote ∷ rest
escaped quote (c ∷ cs) rest = escape_char quote c ++ escaped quote cs rest

module _ (at : Location) (value rest : Bytes) where
  plain_char :
      (quote c : ℕ)
      → (c == quote) ≡ false
      → (c == b'\n') ≡ false
      → (c == b'\\') ≡ false
      → read_quoted quote at false value (c ∷ rest)
        ≡ read_quoted quote at false (value ++ c ∷ []) rest
  unfolding read_quoted
  plain_char quote c q n b = let m : (b'\n' == c) ≡ false = ground arith in rw (m, q, b)

  read_quoted-char :
      (style : StringQuoteStyle) (c : ℕ)
      → let quote = quote_char style in
        read_quoted quote at false value (escape_char quote c ++ rest)
        ≡ read_quoted quote at false (value ++ c ∷ []) rest
  unfolding read_quoted unescape quote_char
  read_quoted-char single_quote c = elim (Bool-cases (c == b'\'')) [
    | inl e ↦ rw ((==_iff c b'\'').0 e) refl
    | inr q ↦ rw q (elim (Bool-cases (c == b'\n')) [
      | inl e ↦ rw ((==_iff c b'\n').0 e) refl
      | inr n ↦ rw n (elim (Bool-cases (c == b'\\')) [
        | inl e ↦ rw ((==_iff c b'\\').0 e) refl
        | inr b ↦ rw b (plain_char b'\'' c q n b)
      ])
    ])
  ]
  read_quoted-char double_quote c = elim (Bool-cases (c == b'"')) [
    | inl e ↦ rw ((==_iff c b'"').0 e) refl
    | inr q ↦ rw q (elim (Bool-cases (c == b'\n')) [
      | inl e ↦ rw ((==_iff c b'\n').0 e) refl
      | inr n ↦ rw n (elim (Bool-cases (c == b'\\')) [
        | inl e ↦ rw ((==_iff c b'\\').0 e) refl
        | inr b ↦ rw b (plain_char b'"' c q n b)
      ])
    ])
  ]

  closing_quote :
      (style : StringQuoteStyle)
      → read_quoted (quote_char style) at false value (quote_char style ∷ rest) ≡ ok (value, rest)
  unfolding read_quoted quote_char
  closing_quote single_quote = refl
  closing_quote double_quote = refl

read_quoted-escaped :
    (s value rest : Bytes) (style : StringQuoteStyle) (at : Location)
    → let quote = quote_char style in
      read_quoted quote at false value (escaped quote s rest) ≡ ok (value ++ s, rest)
read_quoted-escaped [] value rest style at = rw append-nil (closing_quote at value rest style)
read_quoted-escaped (c ∷ cs) value rest style at =
    read_quoted-char at value (escaped (quote_char style) cs rest) style c
    ∙ read_quoted-escaped cs (value ++ c ∷ []) rest style at
    ∙ rw append_assoc

module _ {fl : Floats} where
  opening_quote :
      (style : StringQuoteStyle) (l : Lexer fl) (input : Bytes)
      → l.hold ≡ false
      → l.style.string_quote_style ≡ style
      → get_token (record l { input = quote_char style ∷ input })
        ≡ quoted (record l { input = input }) (quote_char style)
  unfolding get_token quote_char skip_space read_quoted
  opening_quote single_quote l input h e = simp (h, e)
  opening_quote double_quote l input h e = simp (h, e)

  -- Any string, written between the quotes of the lexer's style with its newlines, quotes and
  -- backslashes escaped, is read back as it was, and the lexer stands behind the closing quote.
  pub get_token-escaped :
      (l : Lexer fl) (s rest : Bytes)
      → l.hold ≡ false
      → let quote = quote_char l.style.string_quote_style in
        get_token (record l { input = quote ∷ escaped quote s rest })
        ≡ ok (
          Token.string,
          record l { input = rest; string_value = s; current_token = Token.string },
        )
  unfolding quoted
  get_token-escaped l s rest h =
      opening_quote l.style.string_quote_style l _ h refl
      ∙ rw (read_quoted-escaped s [] rest l.style.string_quote_style (location l)) refl
