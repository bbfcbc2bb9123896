-- ===== src/Lexer/Within.antt =====
-- Each branch of `get_token` of registry.cpp keeps the count of newlines and reads on.
use nanonet.Common.{
  ℕ, ◌+◌, ◌≤◌, ◌<◌, ◌≡◌, ◌≢◌, refl, ap, true, false, Option, none, some, [], ◌∷◌, ◌++◌, arith, ◌==◌,
  length, length-append, Bytes, count, count-append, Outcome, ok, throws, Option-cases, inl, inr,
  if◌then◌else◌, ◌∙◌, ◌>>=◌, if_cases, not, ◌||◌,
}
use nanonet.Double.{Floats, ReadsPrefix}
use nanonet.Token.{Token}
use nanonet.Error.{Error, out_of_fuel}
use nanonet.Lexer.{
  token_at, Lexer, munch_line, munch_till_asterisks_slash, read_quoted, read_ident, line_comment,
  after_slash, quoted, lex_char, char_token, is_punctuation, is_alpha, is_digit, is_hash, is_c,
  location, number_value, comment_char, quote_char,
}
use nanonet.Lexer.Loops.{
  total, munch_line_total, munch_line-none, munch_block_total, QuotedReads, read_quoted_reads,
  read_ident_total,
}

module _ {fl : Floats} where
  -- From `l` the lexer has come to `l'` with token `t`.
  pub record Within (l : Lexer fl) (t : Token) (l' : Lexer fl) : Type 0 where
    pub lines : total l'.line_no l'.input ≡ total l.line_no l.input
    pub shorter : length l'.input ≤ length l.input
    pub ended : t ≡ Token.end_of_input → l'.input ≡ []
    pub current : l'.current_token ≡ t
    pub hold : l'.hold ≡ l.hold
    pub style : l'.style ≡ l.style
    pub filename : l'.filename ≡ l.filename

  abbrev pub Advances : (Token → Lexer fl → Type 0) → Outcome Error (Token × Lexer fl) → Type 0
  Advances P (ok (t, l')) = P t l'
  Advances P (throws e) = e ≢ out_of_fuel

  pub Within-trans :
      (l m : Lexer fl) (r : Outcome Error (Token × Lexer fl))
      → total m.line_no m.input ≡ total l.line_no l.input
      → length m.input ≤ length l.input
      → m.hold ≡ l.hold
      → m.style ≡ l.style
      → m.filename ≡ l.filename
      → Advances (Within m) r
      → Advances (Within l) r
  Within-trans l m (ok (t, l')) a b c d e w = record {
    lines = w.lines ∙ a;
    shorter = omega arith;
    ended = w.ended;
    current = w.current;
    hold = w.hold ∙ c;
    style = w.style ∙ d;
    filename = w.filename ∙ e;
  }
  Within-trans l m (throws e) _ _ _ _ _ w = w

  single_char-Within :
      (l : Lexer fl) (c : ℕ) → Advances (Within l) (do t ← char_token c; token_at t l)
  unfolding char_token
  single_char-Within l c = ground arith

  number_value-Within :
      (l : Lexer fl) (c : ℕ) (r : Option (fl.Double × Bytes))
      → ReadsPrefix fl
      → b' ' < c
      → fl.read (c ∷ l.input) ≡ r
      → Advances (Within l) (number_value l r)
  unfolding number_value
  number_value-Within l c none reads g e = λ x. cc
  number_value-Within l c (some (x, rest)) reads g e =
      let (text, split, nonempty, no_lines) = reads.used c l.input x rest g e in
      go text split nonempty no_lines
    where
      go :
          (text : Bytes)
          → c ∷ l.input ≡ text ++ rest
          → text ≢ []
          → count b'\n' text ≡ 0
          → Within l Token.num (record l { input = rest; num_value = x; current_token = Token.num })
      go [] split nonempty no_lines = absurd (nonempty refl)
      go (d ∷ ds) split nonempty no_lines =
          let input_is : l.input ≡ ds ++ rest = cc split in
          record {
            lines = omega (arith, count-append b'\n' ds rest, ap (count b'\n') input_is);
            shorter = omega (arith, length-append {0} ds rest, ap (length {0}) input_is);
            ended = λ h. cc h;
            current = refl;
            hold = refl;
            style = refl;
            filename = refl;
          }

  abbrev with_string : Lexer fl → Bytes × Bytes → Outcome Error (Token × Lexer fl)
  with_string l (value, rest) =
      token_at Token.string (record l { input = rest; string_value = value })

  quoted_result-Within :
      (l : Lexer fl) (r : Outcome Error (Bytes × Bytes))
      → QuotedReads l.input r
      → Advances (Within l) (r >>= with_string l)
  quoted_result-Within l (ok (value, rest)) (same, shorter) = record {
    lines = omega arith;
    shorter = shorter;
    ended = λ h. cc h;
    current = refl;
    hold = refl;
    style = refl;
    filename = refl;
  }
  quoted_result-Within l (throws e) h = h

  quoted-Within : (l : Lexer fl) (quote : ℕ) → quote ≢ b'\n' → Advances (Within l) (quoted l quote)
  unfolding quoted
  quoted-Within l quote n =
      quoted_result-Within l (read_quoted quote (location l) false [] l.input)
        (read_quoted_reads l.input [] quote (location l) false n)

  ident-Within :
      (l : Lexer fl) (c : ℕ)
      → let (value, rest) = read_ident (c ∷ []) l.input in
        Within l Token.ident
          (record l { input = rest; string_value = value; current_token = Token.ident })
  ident-Within l c =
      let (same, shorter) = read_ident_total l.input (c ∷ []) in
      record {
        lines = omega arith;
        shorter = shorter;
        ended = λ h. cc h;
        current = refl;
        hold = refl;
        style = refl;
        filename = refl;
      }

module _ {fl : Floats} (bound : ℕ) (restart : Lexer fl → Outcome Error (Token × Lexer fl))
    (again : (m : Lexer fl) → length m.input < bound → Advances (Within m) (restart m)) where
  line_comment-Within :
      (l : Lexer fl)
      → length l.input < bound
      → Advances (Within l) (line_comment restart l (munch_line l.input))
  unfolding line_comment
  line_comment-Within l b = elim (Option-cases (munch_line l.input)) [
    | inl stop ↦ rw stop (record {
      lines = omega (arith, munch_line-none l.input stop);
      shorter = omega arith;
      ended = λ _. refl;
      current = refl;
      hold = refl;
      style = refl;
      filename = refl;
    })
    | inr (rest, next) ↦
        let (counted, less) = munch_line_total l.input rest next in
        rw next (
          Within-trans l (record l { input = rest; line_no = l.line_no + 1 }) _ (omega arith)
            (omega arith) refl refl refl (again _ (omega arith)))
  ]

  block_comment-Within :
      (l : Lexer fl) (c : ℕ) (cs : Bytes)
      → length l.input < bound
      → l.input ≡ c ∷ cs
      → c ≢ b'\n'
      → let (line, rest) = munch_till_asterisks_slash l.line_no cs in
        Advances (Within l) (restart (record l { input = rest; line_no = line }))
  block_comment-Within l c cs b e n =
      let (line, rest) = munch_till_asterisks_slash l.line_no cs in
      let (counted, shorter) = munch_block_total cs l.line_no in
      let less : length rest < length l.input = rw e (omega arith) in
      Within-trans l (record l { input = rest; line_no = line }) _ (counted ∙ rw e (ground arith))
        (omega arith) refl refl refl (again _ (omega arith))

  after_slash-Within :
      (l : Lexer fl) (after : Bytes)
      → length l.input < bound
      → l.input ≡ after
      → Advances (Within l) (after_slash restart l after)
  unfolding after_slash
  after_slash-Within l [] b e = ground arith
  after_slash-Within l (c ∷ cs) b e =
      if_cases (Advances (Within l)) (c == b'/')
        (λ slash.
          if_cases (Advances (Within l)) (is_hash l.style.comment_style) (λ _. ground arith)
            (λ _. rw (← e) (line_comment-Within l b)))
        (λ _.
          if_cases (Advances (Within l)) (c == b'*')
            (λ star.
              if_cases (Advances (Within l)) (not (is_c l.style.comment_style)) (λ _. ground arith)
                (λ _. block_comment-Within l c cs b e (λ x. ground arith)))
            (λ _. λ x. cc))

  comment_or_char-Within :
      (l : Lexer fl) (c : ℕ)
      → length l.input < bound
      → Advances (Within l) (
          if is_c l.style.comment_style || not (comment_char l.style.comment_style == c)
          then (do t ← char_token c; token_at t l)
          else line_comment restart l (munch_line l.input))
  comment_or_char-Within l c b =
      if_cases (Advances (Within l))
        (is_c l.style.comment_style || not (comment_char l.style.comment_style == c))
        (λ _. single_char-Within l c) (λ _. line_comment-Within l b)

  number_start : (c : ℕ) → (is_digit c || c == b'.' || c == b'+' || c == b'-') ≡ true → b' ' < c
  unfolding is_digit
  number_start c h = ground arith

  pub lex_char-Within :
      (l : Lexer fl) (c : ℕ)
      → ReadsPrefix fl
      → length l.input < bound
      → c ≢ b'\n'
      → Advances (Within l) (lex_char restart l c)
  unfolding lex_char
  lex_char-Within l c reads b n =
      let P = Advances (Within l) in
      if_cases P (c == b'#' || c == b'%') (λ _. comment_or_char-Within l c b)
        (λ _.
          if_cases P (c == b'/') (λ _. after_slash-Within l l.input b refl)
            (λ _.
              if_cases P (is_punctuation c) (λ _. single_char-Within l c)
                (λ _.
                  if_cases P (c == b'"' || c == b'\'')
                    (λ _.
                      if_cases P (not (quote_char l.style.string_quote_style == c))
                        (λ _. single_char-Within l c) (λ _. quoted-Within l c n))
                    (λ _.
                      if_cases P (is_digit c || c == b'.' || c == b'+' || c == b'-')
                        (λ h.
                          number_value-Within l c (fl.read (c ∷ l.input)) reads (number_start c h)
                            refl)
                        (λ _. if_cases P (is_alpha c) (λ _. ident-Within l c) (λ _. λ x. cc))))))
