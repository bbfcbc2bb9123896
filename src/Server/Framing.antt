-- ===== src/Server/Framing.antt =====
-- What `getline` reads of a text that consists of lines, for the connections of src/sys/server.cpp.
use nanonet.Common.{
  ℕ, zero, suc, ◌<◌, ◌≡◌, sym, ap, ◌∙◌, arith, true, false, none, some, List, [], ◌∷◌, ◌++◌,
  append_assoc, append-nil, ◌==◌, Bytes, length, count, ok,
}
use nanonet.Text.{read_line, getline}
use nanonet.Server.{Input, got, read_next}

-- Lines, each with its newline.
abbrev pub unlines : List Bytes → Bytes
unlines [] = []
unlines (l ∷ ls) = l ++ b'\n' ∷ unlines ls

-- A text with no newline, shorter than a limit.
abbrev pub IsLine : ℕ → Bytes → Type 0
IsLine maxsize l = (count b'\n' l ≡ 0) × (length l < maxsize)

read_line-line :
    (n : ℕ) (before l rest : Bytes)
    → count b'\n' l ≡ 0
    → length l < n
    → read_line n before (l ++ b'\n' ∷ rest) ≡ (before ++ l, rest, false)
unfolding read_line
read_line-line zero before l rest h k = absurd (omega arith)
read_line-line (suc n) before [] rest h k = ap (λ x. (x, rest, false)) (sym (append-nil before))
read_line-line (suc n) before (c ∷ l) rest h k =
    let other : (b'\n' == c) ≡ false = ground arith in
    rw other (
      read_line-line n (before ++ c ∷ []) l rest (ground arith) (omega arith)
      ∙ ap (λ x. (x, rest, false)) (append_assoc before (c ∷ []) l))

read_line-partial :
    (n : ℕ) (before l : Bytes)
    → count b'\n' l ≡ 0
    → length l < n
    → read_line n before l ≡ (before ++ l, [], true)
unfolding read_line
read_line-partial zero before l h k = absurd (omega arith)
read_line-partial (suc n) before [] h k = ap (λ x. (x, [], true)) (sym (append-nil before))
read_line-partial (suc n) before (c ∷ l) h k =
    let other : (b'\n' == c) ≡ false = ground arith in
    rw other (
      read_line-partial n (before ++ c ∷ []) l (ground arith) (omega arith)
      ∙ ap (λ x. (x, [], true)) (append_assoc before (c ∷ []) l))

abbrev pub stream : Bytes → Input
stream text = record { rest = text; good = true }

pub read_next-line :
    (n : ℕ) (l rest : Bytes)
    → IsLine n l
    → read_next n (stream (l ++ b'\n' ∷ rest)) ≡ ok (stream rest, some l)
unfolding read_next got getline
read_next-line zero l rest (h, k) = absurd (omega arith)
read_next-line (suc n) l rest (h, k) = ap (λ x. got (some x)) (read_line-line (suc n) [] l rest h k)

pub read_next-partial :
    (n : ℕ) (l : Bytes)
    → IsLine n l
    → read_next n (stream l) ≡ ok (record { rest = []; good = false }, none)
unfolding read_next got getline
read_next-partial zero l (h, k) = absurd (omega arith)
read_next-partial (suc n) l (h, k) = ap (λ x. got (some x)) (read_line-partial (suc n) [] l h k)
