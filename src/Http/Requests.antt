-- ===== src/Http/Requests.antt =====
-- `parse_get_request` of src/http.cpp with `split_colon_blank` and `trim` of src/util.cpp. What
-- `std::getline` gives of the stream is a list of lines. Boost's `split`, which `nanonet::util::split`
-- calls, is a parameter.

pub mod Fields
pub mod Parsing
use nanonet.Common.{
  not, ◌||◌, Option, none, some, List, [], ◌∷◌, ◌==◌, if◌then◌else◌, Bytes, equal, codes, ◌>>=◌,
  Outcome, ok, throws,
}
use nanonet.Lexer.{is_space}

pub record GetRequest : Type 0 where
  pub version : Bytes
  pub host : Bytes
  pub abs_path : Bytes
  pub user_agent : Bytes
  pub accept : Bytes

-- The exceptions, with what their texts quote.
pub data RequestError : Type 0 where
  malformed_request not_a_get_request bad_version no_colon : Bytes → RequestError

-- It strips a copy, and returns its argument.
pub trim : Bytes → Bytes
trim s = s

-- `is >> word` from where the stream stands: white space is skipped, and the word ends before the next.
skip_spaces : Bytes → Bytes
skip_spaces [] = []
skip_spaces (c ∷ cs) = let rest = skip_spaces cs in if is_space c then rest else c ∷ cs

until_space : Bytes → Bytes × Bytes
until_space [] = ([], [])
until_space (c ∷ cs) =
    let (word, rest) = until_space cs in if is_space c then ([], c ∷ cs) else (c ∷ word, rest)

-- `none`: there is no word.
pub next_word : Bytes → Option (Bytes × Bytes)
unfolding skip_spaces until_space
next_word s = elim (skip_spaces s) [ [] ↦ none | c ∷ cs ↦ some (until_space (c ∷ cs)) ]

-- `iss >> get >> ret.abs_path >> ver`
pub three_words : Bytes → Option (Bytes × Bytes × Bytes)
unfolding next_word
three_words line = elim (next_word line) [
  | none ↦ none
  | some (get, after_get) ↦ elim (next_word after_get) [
    | none ↦ none
    | some (abs_path, after_path) ↦ elim (next_word after_path) [
      | none ↦ none
      | some (ver, rest) ↦ some (get, abs_path, ver)
    ]
  ]
]

-- `not (' ' == c or '\t' == c)` from the start on.
skip_blanks : Bytes → Bytes
skip_blanks [] = []
skip_blanks (c ∷ cs) = let rest = skip_blanks cs in if b' ' == c || b'\t' == c then rest else c ∷ cs

at_colon : Bytes → Option (Bytes × Bytes)
unfolding skip_blanks
at_colon [] = none
at_colon (c ∷ cs) =
    let rest : Option (Bytes × Bytes) = elim (at_colon cs) [
      | none ↦ none
      | some (name, value) ↦ some (c ∷ name, value)
    ] in
    if c == b':' then some ([], skip_blanks cs) else rest

pub split_colon_blank : Bytes → Outcome RequestError (Bytes × Bytes)
unfolding at_colon
split_colon_blank s = elim (at_colon s) [ none ↦ throws (no_colon s) | some hh ↦ ok hh ]

-- `ret` behind a header field; another is only logged.
pub set_field : GetRequest → Bytes × Bytes → GetRequest
set_field ret (name, value) =
    if equal (codes "User-Agent") name
    then record ret { user_agent = value }
    else if equal (codes "Host") name
    then record ret { host = value }
    else if equal (codes "Accept") name
    then record ret { accept = value }
    else ret

-- The loop over the lines of the header.
pub parse_fields : GetRequest → List Bytes → Outcome RequestError GetRequest
unfolding split_colon_blank set_field trim
parse_fields ret [] = ok ret
parse_fields ret (l ∷ ls) = elim (trim l) [
  | [] ↦ ok ret
  | c ∷ cs ↦ elim (split_colon_blank (c ∷ cs)) [
    | throws e ↦ throws e
    | ok hh ↦ parse_fields (set_field ret hh) ls
  ]
]

module _ (split : Bytes → Bytes → List Bytes) where
  versioned : Bytes → Bytes → List Bytes → Outcome RequestError GetRequest
  versioned abs_path ver (http ∷ version ∷ []) =
      if not (equal (codes "HTTP") http)
      then throws (bad_version ver)
      else ok (record {
        version = version;
        host = [];
        abs_path = abs_path;
        user_agent = [];
        accept = [];
      })
  versioned abs_path ver _ = throws (bad_version ver)

  request_line : Bytes → Option (Bytes × Bytes × Bytes) → Outcome RequestError GetRequest
  unfolding versioned
  request_line line none = throws (malformed_request line)
  request_line line (some (get, abs_path, ver)) =
      if not (equal (codes "GET") get)
      then throws (not_a_get_request line)
      else versioned abs_path ver (split ver (codes "/"))

  unfoldable pub parse_get_request : Bytes → List Bytes → Outcome RequestError GetRequest
  unfolding request_line three_words parse_fields trim
  parse_get_request first_line lines =
      request_line (trim first_line) (three_words (trim first_line)) >>= λ ret.
      parse_fields ret lines
