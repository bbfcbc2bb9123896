-- ===== src/Http/Client/Refused.antt =====
-- The requests of the client of src/http.cpp, given to the parser of requests of the same file.
use nanonet.Common.{
  ℕ, zero, suc, ◌<◌, ◌≡◌, refl, ap, ◌∙◌, arith, false, List, [], ◌∷◌, ◌++◌, append_assoc, map, All,
  Bytes, count-append, length, codes, throws,
}
use nanonet.Lexer.{is_space}
use nanonet.Http.Requests.{parse_get_request, no_colon}
use nanonet.Http.Requests.Fields.{IsWord, Field, field_line, IsField, starts_blank}
use nanonet.Http.Requests.Parsing.{Splits, get_line, crlf_line, parse_get_request-crlf_line}
use nanonet.Http.Client.{and_more, std_getline, request_text, all_lines, lines_of}
use nanonet.Http.Client.Exchange.{crlf_text, next_line, length-crlf_text, IsPlain}

abbrev returned : Bytes → Bytes
returned line = line ++ (b'\r' ∷ [])

all_lines-crlf_text :
    (lines : List Bytes) (rounds : ℕ)
    → All IsPlain lines
    → length lines < rounds
    → all_lines rounds (crlf_text lines []) ≡ map returned lines
unfolding all_lines crlf_text and_more
all_lines-crlf_text lines zero h k = absurd (omega arith)
all_lines-crlf_text [] (suc rounds) h k = unfold std_getline in refl
all_lines-crlf_text (line ∷ lines) (suc rounds) (plain, h) k =
    rw (next_line line (crlf_text lines []) plain)
      (ap (λ l. returned line ∷ l) (all_lines-crlf_text lines rounds h (omega arith)))

spaceless-IsPlain : (word : Bytes) → All (λ c. is_space c ≡ false) word → IsPlain word
unfolding is_space
spaceless-IsPlain [] h = refl
spaceless-IsPlain (c ∷ cs) (other, h) = ground (arith, spaceless-IsPlain cs h)

word-IsPlain : (word : Bytes) → IsWord word → IsPlain word
word-IsPlain [] h = refl
word-IsPlain (c ∷ cs) h = spaceless-IsPlain (c ∷ cs) h

host_field :
    (host port : Bytes) → starts_blank host ≡ false → starts_blank (host ++ (b':' ∷ port)) ≡ false
host_field [] port h = refl
host_field (c ∷ cs) port h = h

-- The fields of the request's header.
abbrev request_fields : Bytes → Bytes → Bytes → Bytes → List Field
request_fields host port from user_agent =
    (codes "From", from)
    ∷ (codes "Host", host ++ (b':' ∷ port))
    ∷ (codes "User-Agent", user_agent)
    ∷ []

abbrev request_lines : Bytes → Bytes → Bytes → Bytes → Bytes → List Bytes
request_lines path host port from user_agent =
    get_line path (codes "1.0") []
    ∷ (map field_line (request_fields host port from user_agent) ++ ([] ∷ []))

request_text-crlf_text :
    (path host port from user_agent : Bytes)
    → request_text path host port from user_agent
      ≡ crlf_text (request_lines path host port from user_agent) []
unfolding request_text crlf_text
request_text-crlf_text path host port from user_agent = simp append_assoc refl

returned_lines :
    (path host port from user_agent : Bytes)
    → map returned (request_lines path host port from user_agent)
      ≡ get_line path (codes "1.0") (b'\r' ∷ [])
        ∷ (map crlf_line (request_fields host port from user_agent) ++ ((b'\r' ∷ []) ∷ []))
returned_lines path host port from user_agent = simp append_assoc refl

-- No text has a newline in it, and no value starts with a blank.
pub record IsRequest (path host port from user_agent : Bytes) : Type 0 where
  pub path_is_word : IsWord path
  pub plain_host : IsPlain host
  pub plain_port : IsPlain port
  pub plain_from : IsPlain from
  pub plain_user_agent : IsPlain user_agent
  pub from_starts : starts_blank from ≡ false
  pub host_starts : starts_blank host ≡ false
  pub user_agent_starts : starts_blank user_agent ≡ false

module _ {path host port from user_agent : Bytes}
    (r : IsRequest path host port from user_agent) where
  fields-IsField : All IsField (request_fields host port from user_agent)
  fields-IsField = (
    (refl, r.from_starts),
    ((refl, host_field host port r.host_starts), ((refl, r.user_agent_starts), tt)),
  )

  lines-IsPlain : All IsPlain (request_lines path host port from user_agent)
  lines-IsPlain = (
    omega (arith, count-append b'\n' path (codes " HTTP/1.0"), word-IsPlain path r.path_is_word),
    (
      omega (arith, r.plain_from),
      (
        omega (arith, count-append b'\n' host (b':' ∷ port), r.plain_host, r.plain_port),
        (omega (arith, r.plain_user_agent), (refl, tt)),
      ),
    ),
  )

  -- The lines of the request that `wget1` sends, as `std::getline` gives them:
  -- `parse_get_request` refuses each such request, since it takes the line that ends the header, which holds a
  -- carriage return, for a field without a colon. This holds of requests whose path is a word, and whose
  -- other texts have no newline in them and do not start with a blank, and of Boost's `split` as
  -- Splits says.
  pub parse_get_request-request_text :
      (split : Bytes → Bytes → List Bytes)
      → Splits split
      → (first : Bytes) × (others : List Bytes) × (lines_of
            (request_text path host port from user_agent)
          ≡ first ∷ others)
        × (parse_get_request split first others ≡ throws (no_colon (b'\r' ∷ [])))
  unfolding lines_of
  parse_get_request-request_text split splits = (
    get_line path (codes "1.0") (b'\r' ∷ []),
    map crlf_line (request_fields host port from user_agent) ++ ((b'\r' ∷ []) ∷ []),
    rw (request_text-crlf_text path host port from user_agent) (
        all_lines-crlf_text (request_lines path host port from user_agent) _ lines-IsPlain
          (omega (arith, length-crlf_text (request_lines path host port from user_agent) []))
        ∙ returned_lines path host port from user_agent),
    parse_get_request-crlf_line split splits path (codes "1.0")
        (request_fields host port from user_agent) [] r.path_is_word
        (unfold is_space in ((refl, (refl, (refl, tt))), refl)) fields-IsField,
  )
