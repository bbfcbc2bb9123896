-- ===== src/Http/Client.antt =====
-- `wget1` of src/http.cpp: the request that it sends, and what it makes of the answer. A stream is the
-- list of the bytes that are left.
pub mod Exchange
pub mod Refused
use nanonet.Common.{
  zero, suc, ◌+◌, Bool, true, ◌&&◌, ◌||◌, Option, none, some, List, [], ◌∷◌, ◌++◌, ◌==◌,
  if◌then◌else◌, ℕ, Bytes, length, codes,
}
use nanonet.Http.Responses.{endl}

-- A line that was read behind a character; at the end there is none.
extended : ℕ → Option (Bytes × Bytes) → Option (Bytes × Bytes)
extended c none = some (c ∷ [], [])
extended c (some (line, rest)) = some (c ∷ line, rest)

-- `std::getline( is , line )`: the line and what is left, or a failure.
unfoldable pub std_getline : Bytes → Option (Bytes × Bytes)
unfolding extended
std_getline [] = none
std_getline (c ∷ cs) =
    let more = extended c (std_getline cs) in if c == b'\n' then some ([], cs) else more

unfoldable pub blank : Bytes → Bool
blank [] = true
blank (c ∷ cs) =
    let rest = blank cs in (c == b'\t' || c == b'\n' || c == b'\r' || c == b' ') && rest

unfoldable pub default_user_agent : Bytes
default_user_agent = codes "KISS CPL/0.9.1 httpclient/0.9.1 (EXPERIMENTAL)"

-- The request: path, host, port, `from` and `user_agent`.
unfoldable pub request_text : Bytes → Bytes → Bytes → Bytes → Bytes → Bytes
request_text path host port from user_agent =
    (codes "GET " ++ path ++ codes " HTTP/1.0")
    ++ endl
    ++ (codes "From: " ++ from)
    ++ endl
    ++ (codes "Host: " ++ host ++ (b':' ∷ port))
    ++ endl
    ++ (codes "User-Agent: " ++ user_agent)
    ++ endl
    ++ endl

-- What the loop does with a line.
after_line : Option (Bytes × Bytes) → (Bytes → Option Bytes) → Option Bytes
unfolding blank
after_line none later = some []
after_line (some (line, rest)) later =
    let next = later rest in if blank line then some rest else next

-- The loop over the header, with the number of lines that it may read; `none`: too few.
pub skip_header : ℕ → Bytes → Option Bytes
unfolding std_getline after_line
skip_header zero ins = none
skip_header (suc rounds) ins = after_line (std_getline ins) (skip_header rounds)

-- What is written to `os` of an answer.
unfoldable pub answer_body : Bytes → Option Bytes
unfolding skip_header
answer_body ins = skip_header (length ins + 1) ins

-- The lines that `std::getline` gives one after the other.
and_more : Option (Bytes × Bytes) → (Bytes → List Bytes) → List Bytes
and_more none later = []
and_more (some (line, rest)) later = line ∷ later rest

pub all_lines : ℕ → Bytes → List Bytes
unfolding std_getline and_more
all_lines zero is = []
all_lines (suc rounds) is = and_more (std_getline is) (all_lines rounds)

unfoldable pub lines_of : Bytes → List Bytes
unfolding all_lines
lines_of is = all_lines (length is + 1) is
