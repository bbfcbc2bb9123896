-- ===== src/Text.antt =====
-- The text utilities of include/nanonet/util.h and src/util.cpp: the splitter, lines of bounded
-- length, and the removal of white space and of characters that do not count.
pub mod Split
pub mod Lines
use nanonet.Common.{
  ℕ, zero, suc, ◌+◌, ◌-◌, Bool, true, false, ◌&&◌, ◌||◌, Option, none, some, List, [], ◌∷◌, ◌++◌,
  ◌==◌, leb, if◌then◌else◌, Bytes, length, get_elem?, take, equal, codes,
}
use nanonet.Lexer.{is_space, is_alnum}

-- `position_` and `end_` are the characters between them.
pub record Splitter : Type 0 where
  pub rest : Bytes
  pub separator : ℕ
  pub exhausted : Bool

abbrev pub splitter : Bytes → ℕ → Splitter
splitter str separator = record { rest = str; separator = separator; exhausted = false }

-- `std::find( position_ , end_ , separator_ )`: what is before it, and what is behind it.
unfoldable pub find_separator : ℕ → Bytes → Bytes × Option Bytes
find_separator separator [] = ([], none)
find_separator separator (c ∷ cs) =
    let (before, behind) = find_separator separator cs in
    if c == separator then ([], some cs) else (c ∷ before, behind)

abbrev pub advanced : Splitter → Option Bytes → Splitter
advanced s none = record s { exhausted = true }
advanced s (some rest) = record s { rest = rest }

-- `none`: there is no further part.
unfoldable pub get_next : Splitter → Option (Bytes × Splitter)
unfolding find_separator
get_next s =
    let (result, behind) = find_separator s.separator s.rest in
    if s.exhausted then none else some (result, advanced s behind)

-- The loop of `split`; `none`: it was given too few rounds.
unfoldable pub split_rounds : ℕ → Splitter → Option (List Bytes)
unfolding get_next
split_rounds zero s = none
split_rounds (suc n) s = elim (get_next s) [
  | none ↦ some []
  | some (back, next) ↦ elim (split_rounds n next) [
    | none ↦ none
    | some parts ↦ some (back ∷ parts)
  ]
]

unfoldable pub split : Bytes → ℕ → Option (List Bytes)
unfolding split_rounds
split str separator = split_rounds (length str + 2) (splitter str separator)

-- The loop of `getline`, with what was read: the line, the characters left, and whether `failbit` is
-- set at the end of the input.
unfoldable pub read_line : ℕ → Bytes → Bytes → Bytes × Bytes × Bool
read_line zero s input = (s, input, false)
read_line (suc n) s [] = (s, [], true)
read_line (suc n) s (c ∷ cs) =
    let rest = read_line n (s ++ c ∷ []) cs in if b'\n' == c then (s, cs, false) else rest

-- `getline( is , s , maxsize )` on a stream in a good state. `none`: `maxsize` is not positive.
unfoldable pub getline : ℕ → Bytes → Option (Bytes × Bytes × Bool)
unfolding read_line
getline zero input = none
getline (suc n) input = some (read_line (suc n) [] input)

-- The loop of `chop` over the length that is kept.
unfoldable pub chop_length : Bytes → ℕ → ℕ
unfolding is_space
chop_length s zero = zero
chop_length s (suc i) =
    let shorter = chop_length s i in
    elim (get_elem? s i) [ none ↦ suc i | some c ↦ if is_space c then shorter else suc i ]

unfoldable pub chop : Bytes → Bytes
unfolding chop_length
chop s = take (chop_length s (length s)) s

-- `std::toupper` in the C locale.
unfoldable pub to_upper : ℕ → ℕ
to_upper c = if leb b'a' c && leb c b'z' then c - 32 else c

-- `extra.find( c )` finds `c`.
unfoldable pub contains : Bytes → ℕ → Bool
contains [] c = false
contains (d ∷ ds) c = d == c || contains ds c

unfoldable pub canonical : Bytes → Bytes → Bytes
unfolding is_alnum contains to_upper
canonical [] extra = []
canonical (c ∷ cs) extra =
    let rest = canonical cs extra in
    if is_alnum (to_upper c) || contains extra (to_upper c) then to_upper c ∷ rest else rest

unfoldable pub is_stdin : Bytes → Bool
is_stdin f = equal f (codes "-") || equal f (codes "stdin") || equal f (codes "STDIN")

unfoldable pub is_stdout : Bytes → Bool
is_stdout f = equal f (codes "-") || equal f (codes "stdout") || equal f (codes "STDOUT")
