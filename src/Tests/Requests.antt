-- ===== src/Tests/Requests.antt =====
-- Requests, with a function that splits as Boost's does.
use nanonet.Lexer.{is_space}
use nanonet.Common.{
  ℕ, ◌≡◌, refl, arith, false, List, [], ◌∷◌, ◌++◌, map, ◌==◌, ==_refl, if◌then◌else◌, Bytes, count,
  codes, ok, equal,
}
use nanonet.Http.Requests.{parse_get_request}
use nanonet.Http.Requests.Fields.{Field, field_line, with_fields}
use nanonet.Http.Requests.Parsing.{
  get_line, requested, Splits, parse_get_request-get_line, starts_blank, ends_blank,
}

pieces : ℕ → Bytes → List Bytes
pieces separator [] = [] ∷ []
pieces separator (c ∷ cs) = elim (pieces separator cs) [
  | [] ↦ []
  | p ∷ ps ↦ if c == separator then [] ∷ p ∷ ps else (c ∷ p) ∷ ps
]

pub split : Bytes → Bytes → List Bytes
unfolding pieces
split s (separator ∷ []) = pieces separator s
split s _ = s ∷ []

pieces_none : (separator : ℕ) (s : Bytes) → count separator s ≡ 0 → pieces separator s ≡ s ∷ []
unfolding pieces
pieces_none separator [] h = refl
pieces_none separator (c ∷ s) h =
    let other : (c == separator) ≡ false = ground arith in
    rw (pieces_none separator s (ground arith), other) refl

pieces-append :
    (before behind : Bytes) (separator : ℕ)
    → count separator before ≡ 0
    → count separator behind ≡ 0
    → pieces separator (before ++ (separator ∷ behind)) ≡ before ∷ behind ∷ []
unfolding pieces
pieces-append [] behind separator h k = rw (pieces_none separator behind k, ==_refl separator) refl
pieces-append (c ∷ before) behind separator h k =
    let other : (c == separator) ≡ false = ground arith in
    rw (pieces-append before behind separator (ground arith) k, other) refl

pub split-Splits : Splits split
split-Splits = record { at_one = λ a b c h k. unfold split in pieces-append a b c h k }

abbrev fields : List Field
fields = (codes "Host", codes "example.org") ∷ (codes "X-Y", []) ∷ []

parse_get_request-get_line_example :
    parse_get_request split
      (get_line (codes "/a") (codes "1.1") [])
      (map field_line fields ++ ([] ∷ []))
    ≡ ok (with_fields (requested (codes "/a") (codes "1.1")) fields)
parse_get_request-get_line_example =
    parse_get_request-get_line split split-Splits (codes "/a") (codes "1.1") fields []
      (unfold is_space in (refl, (refl, tt)))
      (unfold is_space in ((refl, (refl, (refl, tt))), refl)) ((refl, refl), ((refl, refl), tt))
      (unfold is_space starts_blank ends_blank in
        (((refl, refl), (refl, refl)), (((refl, refl), (refl, refl)), tt)))

field_values :
    parse_get_request split
      (codes " GET /p HTTP/1.0 ")
      (codes "Accept: x" ∷ codes "User-Agent:a b" ∷ codes "Accept: \ty" ∷ [])
    ≡ ok (record {
      version = codes "1.0";
      host = [];
      abs_path = codes "/p";
      user_agent = codes "a b";
      accept = codes "y";
    })
unfolding parse_get_request split is_space equal
field_values = refl
