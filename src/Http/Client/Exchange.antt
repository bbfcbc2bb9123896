-- ===== src/Http/Client/Exchange.antt =====
-- The client of src/http.cpp against the answers and the parser of requests of the same file.
use nanonet.Common.{
  ℕ, zero, suc, ◌+◌, ◌≤◌, ◌<◌, ◌≡◌, refl, sym, ap, ◌∙◌, ◌==◌, arith, false, Option, none, some,
  List, [], ◌∷◌, ◌++◌, length-append, append_assoc, All, Bytes, count, count-append, length, codes,
  Bool-cases, inl, inr,
}
use nanonet.Double.{Floats}
use nanonet.Http.Responses.{
  date_of, write_date, write_server, write_connection, write_content_type, write_http_header_200,
  write_http_header_404,
}
use nanonet.Http.Client.{after_line, extended, std_getline, blank, skip_header, answer_body}

-- Lines that end with a carriage return and a newline, and what follows.
unfoldable pub crlf_text : List Bytes → Bytes → Bytes
crlf_text [] rest = rest
crlf_text (l ∷ ls) rest = l ++ (b'\r' ∷ b'\n' ∷ crlf_text ls rest)

pub std_getline-line :
    (line rest : Bytes)
    → count b'\n' line ≡ 0
    → std_getline (line ++ (b'\n' ∷ rest)) ≡ some (line, rest)
unfolding std_getline extended
std_getline-line [] rest h = refl
std_getline-line (c ∷ cs) rest h = ground (arith, std_getline-line cs rest)

blank_longer : (line more : Bytes) → blank line ≡ false → blank (line ++ more) ≡ false
unfolding blank
blank_longer [] more h = absurd (cc h)
blank_longer (c ∷ cs) more h = ground (arith, blank_longer cs more)

-- A line of a header has no newline in it, and is not blank.
abbrev IsHeaderLine : Bytes → Type 0
IsHeaderLine line = (count b'\n' line ≡ 0) × (blank line ≡ false)

pub next_line :
    (line rest : Bytes)
    → count b'\n' line ≡ 0
    → std_getline (line ++ (b'\r' ∷ b'\n' ∷ rest)) ≡ some (line ++ (b'\r' ∷ []), rest)
next_line line rest h =
    ap std_getline (sym (append_assoc line (b'\r' ∷ []) (b'\n' ∷ rest)))
    ∙ std_getline-line (line ++ (b'\r' ∷ [])) rest
        (omega (arith, count-append b'\n' line (b'\r' ∷ [])))

skip_header-crlf_text :
    (lines : List Bytes) (body : Bytes) (rounds : ℕ)
    → All IsHeaderLine lines
    → length lines < rounds
    → skip_header rounds (crlf_text lines (b'\r' ∷ b'\n' ∷ body)) ≡ some body
unfolding skip_header crlf_text after_line
skip_header-crlf_text lines body zero h k = absurd (omega arith)
skip_header-crlf_text [] body (suc rounds) h k = unfold std_getline extended blank in refl
skip_header-crlf_text (line ∷ lines) body (suc rounds) ((plain, text), h) k =
    rw
      (
        next_line line (crlf_text lines (b'\r' ∷ b'\n' ∷ body)) plain,
        blank_longer line (b'\r' ∷ []) text,
      )
      (skip_header-crlf_text lines body rounds h (omega arith))

pub length-crlf_text :
    (lines : List Bytes) (rest : Bytes) → length lines ≤ length (crlf_text lines rest)
unfolding crlf_text
length-crlf_text [] rest = omega arith
length-crlf_text (line ∷ lines) rest =
    omega (
      arith,
      length-append line (b'\r' ∷ b'\n' ∷ crlf_text lines rest),
      length-crlf_text lines rest,
    )

answer_body-crlf_text :
    (lines : List Bytes) (body : Bytes)
    → All IsHeaderLine lines
    → answer_body (crlf_text lines (b'\r' ∷ b'\n' ∷ body)) ≡ some body
unfolding answer_body
answer_body-crlf_text lines body h =
    skip_header-crlf_text lines body _ h
      (omega (arith, length-crlf_text lines (b'\r' ∷ b'\n' ∷ body)))

-- The loop ends on every input: there are fewer lines than characters.
std_getline-shorter :
    (ins line rest : Bytes) → std_getline ins ≡ some (line, rest) → length rest < length ins
unfolding std_getline extended
std_getline-shorter [] line rest h = absurd (cc h)
std_getline-shorter (c ∷ cs) line rest h = elim (Bool-cases (c == b'\n')) [
  | inl newline ↦ let e : cs ≡ rest = cc (rw newline at h) in rw (← e) (omega arith)
  | inr other ↦ going (std_getline cs) (std_getline-shorter cs) (rw other at h)
]
  where
    going :
        (o : Option (Bytes × Bytes))
        → ((l r : Bytes) → o ≡ some (l, r) → length r < length cs)
        → extended c o ≡ some (line, rest)
        → length rest < length (c ∷ cs)
    going none k e = let e' : [] ≡ rest = cc e in rw (← e') (omega arith)
    going (some (l, r)) k e = let e' : r ≡ rest = cc e in rw (← e') (omega (arith, k l r refl))

skip_header_ends :
    (rounds : ℕ) (ins : Bytes)
    → length ins < rounds
    → (body : Bytes) × (skip_header rounds ins ≡ some body)
unfolding skip_header
skip_header_ends zero ins h = absurd (omega arith)
skip_header_ends (suc rounds) ins h =
    going (std_getline ins) (std_getline-shorter ins) (skip_header_ends rounds)
  where
    going :
        (o : Option (Bytes × Bytes))
        → ((l r : Bytes) → o ≡ some (l, r) → length r < length ins)
        → ((rest : Bytes)
            → length rest < rounds
            → (body : Bytes) × (skip_header rounds rest ≡ some body))
        → (body : Bytes) × (after_line o (skip_header rounds) ≡ some body)
    going none k later = unfold after_line in ([], refl)
    going (some (line, rest)) k later =
        unfold after_line in
        let (body, gives) = later rest (omega (arith, h, k line rest refl)) in
        elim (Bool-cases (blank line)) [
          | inl end ↦ rw end (rest, refl)
          | inr other ↦ rw other (body, gives)
        ]

-- `wget1` gives out a body for every answer.
pub answer_body_ends : (ins : Bytes) → (body : Bytes) × (answer_body ins ≡ some body)
unfolding answer_body
answer_body_ends ins = skip_header_ends (length ins + 1) ins (omega arith)

-- The texts that a header is made of have no newline in them.
abbrev pub IsPlain : Bytes → Type 0
IsPlain text = count b'\n' text ≡ 0

module _ (fl : Floats) (utc : fl.Double) (format_datetime : fl.Double → Bytes) where
  common_lines : fl.Double → Bytes → List Bytes → List Bytes
  common_lines now server_id more =
      (codes "Date: " ++ date_of fl utc format_datetime now)
      ∷ (codes "Server: " ++ server_id)
      ∷ codes "Connection: close"
      ∷ more

  ok_lines : Bytes → fl.Double → Bytes → List Bytes
  unfolding common_lines
  ok_lines ct now server_id =
      codes "HTTP/1.1 200 OK"
      ∷ common_lines now server_id ((codes "Content-Type: " ++ ct ++ codes "; charset=utf-8") ∷ [])

  ok_lines-crlf_text :
      (ct server_id body : Bytes) (now : fl.Double)
      → write_http_header_200 fl utc format_datetime ct now server_id ++ body
        ≡ crlf_text (ok_lines ct now server_id) (b'\r' ∷ b'\n' ∷ body)
  unfolding write_http_header_200 write_date write_server write_connection write_content_type
      crlf_text ok_lines common_lines
  ok_lines-crlf_text ct server_id body now = simp append_assoc refl

  missing_lines : Bytes → fl.Double → Bytes → List Bytes
  unfolding common_lines
  missing_lines reason now server_id =
      (codes "HTTP/1.1 404 Not Found (" ++ reason ++ codes ")") ∷ common_lines now server_id []

  missing_lines-crlf_text :
      (reason server_id body : Bytes) (now : fl.Double)
      → write_http_header_404 fl utc format_datetime reason now server_id ++ body
        ≡ crlf_text (missing_lines reason now server_id) (b'\r' ∷ b'\n' ∷ body)
  unfolding write_http_header_404 write_date write_server write_connection crlf_text missing_lines
      common_lines
  missing_lines-crlf_text reason server_id body now = simp append_assoc refl

  common_lines-IsHeaderLine :
      (now : fl.Double) (server_id : Bytes) (more : List Bytes)
      → IsPlain (date_of fl utc format_datetime now)
      → IsPlain server_id
      → All IsHeaderLine more
      → All IsHeaderLine (common_lines now server_id more)
  unfolding common_lines blank
  common_lines-IsHeaderLine now server_id more d s h =
      ((omega (arith, d), refl), ((omega (arith, s), refl), ((refl, refl), h)))

  -- Where the content type or the reason, the name of the server, and the date have no newline in them:
  -- of an answer that is a header by `write_http_header_200` or `write_http_header_404` and then a body, `wget1`
  -- gives out exactly the body.
  pub answer_body-write_http_header :
      (ct reason server_id body : Bytes) (now : fl.Double)
      → IsPlain ct
      → IsPlain reason
      → IsPlain server_id
      → IsPlain (date_of fl utc format_datetime now)
      → (answer_body (write_http_header_200 fl utc format_datetime ct now server_id ++ body)
          ≡ some body)
        × (answer_body (write_http_header_404 fl utc format_datetime reason now server_id ++ body)
            ≡ some body)
  answer_body-write_http_header ct reason server_id body now c r s d = (
    ap answer_body (ok_lines-crlf_text ct server_id body now)
        ∙ answer_body-crlf_text (ok_lines ct now server_id) body (
            unfold ok_lines blank in
            (
              (refl, refl),
              common_lines-IsHeaderLine now server_id
                  ((codes "Content-Type: " ++ ct ++ codes "; charset=utf-8") ∷ []) d s
                  ((omega (arith, count-append b'\n' ct (codes "; charset=utf-8"), c), refl), tt),
            )),
    ap answer_body (missing_lines-crlf_text reason server_id body now)
        ∙ answer_body-crlf_text (missing_lines reason now server_id) body (
            unfold missing_lines blank in
            (
              (omega (arith, count-append b'\n' reason (codes ")"), r), refl),
              common_lines-IsHeaderLine now server_id [] d s tt,
            )),
  )
