-- ===== src/Lexer/Progress.antt =====
-- Each call of `get_token` of registry.cpp reads on: it never stalls, and it counts every newline
-- that it reads, in whatever way it reads it.
use nanonet.Lexer.Within.{Within, Advances, Within-trans, lex_char-Within}
use nanonet.Common.{
  ℕ, zero, suc, ◌≤◌, ◌<◌, ◌≡◌, refl, true, false, [], ◌∷◌, arith, length, Bytes, Outcome, ok,
  throws, inl, inr, if_cases, ◌⊎◌,
}
use nanonet.Double.{Floats, ReadsPrefix}
use nanonet.Token.{Token}
use nanonet.Error.{Error}
use nanonet.Lexer.{Lexer, skip_space, lex_first, scan, get_token}
use nanonet.Lexer.Loops.{total, skip_space-total, skip_space-head}

module _ {fl : Floats} where
  -- What `get_token` makes of `l`: `Within`, and it has read on unless the input is at its end.
  pub record Step (l : Lexer fl) (t : Token) (l' : Lexer fl) : Type 0 where
    pub within : Within l t l'
    pub reads_on : (t ≡ Token.end_of_input) ⊎ (length l'.input < length l.input)

  Step-of_Within :
      (l m : Lexer fl) (r : Outcome Error (Token × Lexer fl))
      → total m.line_no m.input ≡ total l.line_no l.input
      → length m.input < length l.input
      → m.hold ≡ l.hold
      → m.style ≡ l.style
      → m.filename ≡ l.filename
      → Advances (Within m) r
      → Advances (Step l) r
  Step-of_Within l m (ok (t, l')) a b c d e w = record {
    within = Within-trans l m (ok (t, l')) a (omega arith) c d e w;
    reads_on = inr (omega (arith, w.shorter));
  }
  Step-of_Within l m (throws e) _ _ _ _ _ w = w

  Within-of_Step :
      (l : Lexer fl) (r : Outcome Error (Token × Lexer fl))
      → Advances (Step l) r
      → Advances (Within l) r
  Within-of_Step l (ok (t, l')) s = s.within
  Within-of_Step l (throws e) s = s

  lex_first-Step :
      (l : Lexer fl) (restart : Lexer fl → Outcome Error (Token × Lexer fl)) (line : ℕ)
      (rest : Bytes)
      → ReadsPrefix fl
      → ((m : Lexer fl) → length m.input < length l.input → Advances (Within m) (restart m))
      → skip_space l.line_no l.input ≡ (line, rest)
      → Advances (Step l) (lex_first restart l (line, rest))
  unfolding lex_first
  lex_first-Step l restart line [] reads again e =
      let (same, shorter) = skip_space-total l.input l.line_no in
      record {
        within = record {
          lines = rw e at same;
          shorter = omega arith;
          ended = λ _. refl;
          current = refl;
          hold = refl;
          style = refl;
          filename = refl;
        };
        reads_on = inl refl;
      }
  lex_first-Step l restart line (c ∷ cs) reads again e =
      let (same, shorter) = skip_space-total l.input l.line_no in
      let n = skip_space-head l.input l.line_no line c cs e in
      let less : length (c ∷ cs) ≤ length l.input = rw e at shorter in
      let m = record l { input = cs; line_no = line } in
      let counted : total line (c ∷ cs) ≡ total l.line_no l.input = rw e at same in
      Step-of_Within l m _ (ground arith) (omega arith) refl refl refl
        (lex_char-Within (length l.input) restart again m c reads (omega arith) n)

  scan-Step :
      (f : ℕ) (l : Lexer fl) → ReadsPrefix fl → length l.input < f → Advances (Step l) (scan f l)
  unfolding scan
  scan-Step zero l reads b = absurd (omega arith)
  scan-Step (suc f) l reads b =
      lex_first-Step l (scan f) (skip_space l.line_no l.input).0 (skip_space l.line_no l.input).1
        reads (λ m less. Within-of_Step m _ (scan-Step f m reads (omega arith))) refl

  -- A token that was put back is read again; otherwise `Step` describes the call.
  abbrev pub Reads : Lexer fl → Token → Lexer fl → Type 0
  Reads l t l' =
      ((l.hold ≡ true) × (t ≡ l.current_token) × (l' ≡ record l { hold = false }))
      ⊎ ((l.hold ≡ false) × Step l t l')

  Reads-of_Step :
      (l : Lexer fl) (r : Outcome Error (Token × Lexer fl))
      → l.hold ≡ false
      → Advances (Step l) r
      → Advances (Reads l) r
  Reads-of_Step l (ok (t, l')) h s = inr (h, s)
  Reads-of_Step l (throws e) h s = s

  -- If `is >> x` reads on as ReadsPrefix says, then every call of `get_token` ends, within the rounds it is given, in a token or an exception. A
  -- token that was put back is read again, and nothing else changes. Otherwise the lexer has read on
  -- unless it is at the end of its input, `current_token` is the token, and `line_no` has grown by
  -- exactly the newlines that were read, whether in white space, behind a comment or inside one.
  pub get_token-Reads : (l : Lexer fl) → ReadsPrefix fl → Advances (Reads l) (get_token l)
  unfolding get_token
  get_token-Reads l reads =
      if_cases (Advances (Reads l)) l.hold (λ h. inl (h, refl, refl))
        (λ h. Reads-of_Step l _ h (scan-Step (suc (length l.input)) l reads (omega arith)))
