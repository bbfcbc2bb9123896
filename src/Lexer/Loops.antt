-- ===== src/Lexer/Loops.antt =====
-- The loops of `get_token` over characters: what each reads, and how many newlines are in it.
use nanonet.Common.{
  ℕ, ◌+◌, ◌≤◌, ◌<◌, ◌≡◌, ◌≢◌, refl, Bool, true, false, none, some, [], ◌∷◌, ◌++◌, arith, ◌==◌,
  length, Bytes, count, Outcome, ok, throws, Bool-cases, Option-cases, inl, inr,
}
use nanonet.Error.{Location, Error, out_of_fuel}
use nanonet.Lexer.{
  is_space, newlines, skip_space, munch_line, munch_till_asterisks_slash, unescape, read_quoted,
  read_ident,
}

-- `line_no` with the newlines to come: it stays as it is while the lexer reads on.
abbrev pub total : ℕ → Bytes → ℕ
total line input = line + count b'\n' input

pub skip_space-total :
    (input : Bytes) (line : ℕ)
    → let (line', rest) = skip_space line input in
      (total line' rest ≡ total line input) × (length rest ≤ length input)
unfolding skip_space
skip_space-total [] line = (refl, omega arith)
skip_space-total (c ∷ cs) line = ground (arith, skip_space-total cs (line + newlines c))

pub munch_line_total :
    (input rest : Bytes)
    → munch_line input ≡ some rest
    → (count b'\n' input ≡ count b'\n' rest + 1) × (length rest < length input)
unfolding munch_line
munch_line_total [] rest h = cc
munch_line_total (c ∷ cs) rest h = ground (arith, munch_line_total cs rest)

pub munch_line-none : (input : Bytes) → munch_line input ≡ none → count b'\n' input ≡ 0
unfolding munch_line
munch_line-none [] h = refl
munch_line-none (c ∷ cs) h = ground (arith, munch_line-none cs)

pub munch_block_total :
    (input : Bytes) (line : ℕ)
    → let (line', rest) = munch_till_asterisks_slash line input in
      (total line' rest ≡ total line input) × (length rest ≤ length input)
unfolding munch_till_asterisks_slash
munch_block_total [] line = (refl, omega arith)
munch_block_total (c ∷ []) line = ground arith
munch_block_total (c ∷ d ∷ cs) line = ground (arith, munch_block_total (d ∷ cs) (line + newlines c))

abbrev pub QuotedReads : Bytes → Outcome Error (Bytes × Bytes) → Type 0
QuotedReads input (ok (value, rest)) =
    (count b'\n' rest ≡ count b'\n' input) × (length rest ≤ length input)
QuotedReads input (throws e) = e ≢ out_of_fuel

pub QuotedReads-cons :
    (c : ℕ) (cs : Bytes) (r : Outcome Error (Bytes × Bytes))
    → c ≢ b'\n'
    → QuotedReads cs r
    → QuotedReads (c ∷ cs) r
QuotedReads-cons c cs (ok (value, rest)) n (h, k) = (ground arith, omega arith)
QuotedReads-cons c cs (throws e) n h = h

pub unescape-ne-newline :
    (quote esc c : ℕ) → quote ≢ b'\n' → unescape quote esc ≡ some c → esc ≢ b'\n'
unfolding unescape
unescape-ne-newline quote esc c q h e = ground arith

pub read_quoted_reads :
    (input value : Bytes) (quote : ℕ) (at : Location) (escape : Bool)
    → quote ≢ b'\n'
    → QuotedReads input (read_quoted quote at escape value input)
unfolding read_quoted
read_quoted_reads [] value quote at false q = λ e. cc
read_quoted_reads [] value quote at true q = λ e. cc
read_quoted_reads (esc ∷ cs) value quote at true q = elim (Option-cases (unescape quote esc)) [
  | inl bad ↦ rw (bad, read_quoted) (λ e. cc)
  | inr (c, good) ↦
      rw (good, read_quoted)
        (QuotedReads-cons esc cs _ (unescape-ne-newline quote esc c q good)
          (read_quoted_reads cs (value ++ c ∷ []) quote at false q))
]
read_quoted_reads (c ∷ cs) value quote at false q =
    let escaped = read_quoted_reads cs value quote at true q in
    let plain = read_quoted_reads cs (value ++ c ∷ []) quote at false q in
    elim (Bool-cases (b'\n' == c)) [
      | inl stop ↦ rw stop (λ e. cc)
      | inr more ↦
          let n : c ≢ b'\n' = λ e. ground arith in
          rw more (elim (Bool-cases (c == quote)) [
            | inl close ↦ rw close (ground arith, omega arith)
            | inr inside ↦ rw inside (elim (Bool-cases (c == b'\\')) [
              | inl slash ↦ rw slash (QuotedReads-cons c cs _ n escaped)
              | inr other ↦ rw other (QuotedReads-cons c cs _ n plain)
            ])
          ])
    ]

pub read_ident_total :
    (input value : Bytes)
    → let (value', rest) = read_ident value input in
      (count b'\n' rest ≡ count b'\n' input) × (length rest ≤ length input)
unfolding read_ident
read_ident_total [] value = (refl, omega arith)
read_ident_total (c ∷ cs) value = ground (arith, read_ident_total cs (value ++ c ∷ []))

pub skip_space-head :
    (input : Bytes) (line line' c : ℕ) (cs : Bytes)
    → skip_space line input ≡ (line', c ∷ cs)
    → c ≢ b'\n'
unfolding skip_space
skip_space-head [] line line' c cs h = cc
skip_space-head (d ∷ ds) line line' c cs h = elim (Bool-cases (is_space d)) [
  | inl space ↦ skip_space-head ds (line + newlines d) line' c cs (ground arith)
  | inr other ↦ ground arith
]
