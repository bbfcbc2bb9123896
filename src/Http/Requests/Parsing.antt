-- ===== src/Http/Requests/Parsing.antt =====
-- What `parse_get_request` of src/http.cpp makes of requests whose lines end with a newline, and of
-- those whose lines end with a carriage return and a newline.
use nanonet.Common.{
  ℕ, ◌≡◌, refl, ap, ◌∙◌, false, some, List, [], ◌∷◌, ◌++◌, map, append_assoc, Bytes, All, count,
  equal, codes, ok, throws, Bool,
}
use nanonet.Lexer.{is_space}
use nanonet.Http.Requests.{
  GetRequest, no_colon, trim, three_words, at_colon, split_colon_blank, parse_fields, versioned,
  request_line, parse_get_request,
}
use nanonet.Http.Requests.Fields.{
  IsWord, IsEnd, three_words-spaced, Field, field_line, IsField, with_fields, parse_fields-append,
}

-- What `"GET " path " HTTP/" version` gives, before the header is read.
abbrev pub requested : Bytes → Bytes → GetRequest
requested path version = record {
  version = version;
  host = [];
  abs_path = path;
  user_agent = [];
  accept = [];
}

-- Boost's `split` at the one separator of a string gives what is before it and behind it.
pub record Splits (split : Bytes → Bytes → List Bytes) : Type 0 where
  pub at_one :
      (before behind : Bytes) (separator : ℕ)
      → count separator before ≡ 0
      → count separator behind ≡ 0
      → split (before ++ (separator ∷ behind)) (separator ∷ []) ≡ before ∷ behind ∷ []

-- The first line of a request, and the fields of its header; `ending` is what stands before the
-- newline of the first line.
abbrev pub get_line : Bytes → Bytes → Bytes → Bytes
get_line path version ending =
    codes "GET" ++ (b' ' ∷ (path ++ (b' ' ∷ (codes "HTTP/" ++ (version ++ ending)))))

-- A path has no white space in it, and a version neither that nor a slash.
abbrev pub IsVersion : Bytes → Type 0
IsVersion version = All (λ c. is_space c ≡ false) version × (count b'/' version ≡ 0)

-- The fields of a header whose lines end with a carriage return and a newline.
abbrev pub crlf_line : Field → Bytes
crlf_line field = field_line field ++ (b'\r' ∷ [])

abbrev with_return : Field → Field
with_return (name, value) = (name, value ++ (b'\r' ∷ []))

crlf_lines : (fields : List Field) → map crlf_line fields ≡ map field_line (map with_return fields)
crlf_lines [] = refl
crlf_lines ((name, value) ∷ fields) =
    ap (λ l. l ∷ map crlf_line fields) (append_assoc name (b':' ∷ (b' ' ∷ value)) (b'\r' ∷ []))
    ∙ ap (λ ls. field_line (with_return (name, value)) ∷ ls) (crlf_lines fields)

with_return-IsField :
    (fields : List Field) → All IsField fields → All IsField (map with_return fields)
with_return-IsField [] h = tt
with_return-IsField ((name, []) ∷ fields) ((free, unblank), hs) =
    ((free, refl), with_return-IsField fields hs)
with_return-IsField ((name, c ∷ value) ∷ fields) ((free, unblank), hs) =
    ((free, unblank), with_return-IsField fields hs)

-- Whether a text begins, and whether it ends, with white space.
unfoldable pub starts_blank : Bytes → Bool
starts_blank [] = false
starts_blank (c ∷ cs) = is_space c

unfoldable pub ends_blank : Bytes → Bool
ends_blank [] = false
ends_blank (c ∷ []) = is_space c
ends_blank (c ∷ d ∷ cs) = ends_blank (d ∷ cs)

-- Nothing is left to `trim`.
abbrev pub IsTrimmed : Bytes → Type 0
IsTrimmed s = (starts_blank s ≡ false) × (ends_blank s ≡ false)

module _ (split : Bytes → Bytes → List Bytes) (splits : Splits split) where
  request_line-get_line :
      (path version ending : Bytes)
      → IsWord path
      → IsVersion version
      → IsEnd ending
      → request_line split
          (get_line path version ending)
          (three_words (get_line path version ending))
        ≡ ok (requested path version)
  unfolding request_line versioned equal
  request_line-get_line path version ending word (plain, no_slash) e =
      let words : three_words (get_line path version ending)
          ≡ some (codes "GET", path, codes "HTTP/" ++ version) =
        three_words-spaced (codes "GET") path (codes "HTTP/" ++ version) ending
          (unfold is_space in (refl, (refl, (refl, tt)))) word
          (unfold is_space in (refl, (refl, (refl, (refl, (refl, plain)))))) e in
      rw (words, splits.at_one (codes "HTTP") version b'/' refl no_slash) refl

  -- A request for a path that is a word, with a version that has neither white space nor a slash and
  -- header fields whose names have no colon, and whose names and values neither begin nor end with
  -- white space, up to an empty line: `parse_get_request` gives its path and version, and of `Host`,
  -- `User-Agent` and `Accept` the last value that is given, or an empty one; other fields and what is
  -- behind the empty line do not matter. This holds of requests whose lines end with a newline alone,
  -- and of Boost's `split` as Splits says.
  pub parse_get_request-get_line :
      (path version : Bytes) (fields : List Field) (rest : List Bytes)
      → IsWord path
      → IsVersion version
      → All IsField fields
      → All (λ field. IsTrimmed field.0 × IsTrimmed field.1) fields
      → parse_get_request split (get_line path version []) (map field_line fields ++ ([] ∷ rest))
        ≡ ok (with_fields (requested path version) fields)
  unfolding parse_get_request trim
  parse_get_request-get_line path version fields rest word plain h trimmed =
      rw (request_line-get_line path version [] word plain tt) (
        parse_fields-append (requested path version) fields ([] ∷ rest) h
        ∙ unfold parse_fields in refl)

  -- The same request, with lines that end with a carriage return and a newline as those of HTTP do, is
  -- always refused: the line that ends the header is not empty, since `trim` strips nothing, and has
  -- no colon. This holds of Boost's `split` as Splits says.
  pub parse_get_request-crlf_line :
      (path version : Bytes) (fields : List Field) (rest : List Bytes)
      → IsWord path
      → IsVersion version
      → All IsField fields
      → parse_get_request split
          (get_line path version (b'\r' ∷ []))
          (map crlf_line fields ++ ((b'\r' ∷ []) ∷ rest))
        ≡ throws (no_colon (b'\r' ∷ []))
  unfolding parse_get_request trim
  parse_get_request-crlf_line path version fields rest word plain h =
      rw
        (
          request_line-get_line path version (b'\r' ∷ []) word plain (unfold is_space in refl),
          crlf_lines fields,
        )
        (parse_fields-append (requested path version) (map with_return fields) ((b'\r' ∷ []) ∷ rest)
            (with_return-IsField fields h)
          ∙ unfold parse_fields trim split_colon_blank at_colon in refl)
