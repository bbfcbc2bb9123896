-- ===== src/Http/Requests/Fields.antt =====
-- Words of a line and fields of a header, as `parse_get_request` of src/http.cpp reads them.
use nanonet.Common.{
  ℕ, ◌≡◌, refl, sym, ap, ◌∙◌, arith, Bool, true, false, ◌||◌, some, List, [], ◌∷◌, ◌++◌, map, ◌==◌,
  if◌then◌else◌, Bytes, All, count, equal, codes, ok, Bool-cases, inl, inr, equal_iff,
}
use nanonet.Lexer.{is_space}
use nanonet.Http.Requests.{
  GetRequest, trim, skip_spaces, until_space, next_word, three_words, skip_blanks, at_colon,
  split_colon_blank, set_field, parse_fields,
}

-- A word: at least one character, none of them white space.
abbrev pub IsWord : Bytes → Type 0
IsWord [] = ⊥
IsWord (c ∷ cs) = (is_space c ≡ false) × All (λ d. is_space d ≡ false) cs

-- What may stand behind a word: nothing, or what begins with white space.
abbrev pub IsEnd : Bytes → Type 0
IsEnd [] = Unit
IsEnd (c ∷ cs) = is_space c ≡ true

until_space-append :
    (w rest : Bytes)
    → All (λ c. is_space c ≡ false) w
    → IsEnd rest
    → until_space (w ++ rest) ≡ (w, rest)
unfolding until_space
until_space-append [] [] h e = refl
until_space-append [] (c ∷ cs) h e = rw e refl
until_space-append (c ∷ w) rest (h, hs) e = rw (h, until_space-append w rest hs e) refl

next_word-append : (w rest : Bytes) → IsWord w → IsEnd rest → next_word (w ++ rest) ≡ some (w, rest)
unfolding next_word skip_spaces
next_word-append [] rest h e = absurd h
next_word-append (c ∷ w) rest (h, hs) e =
    rw (next_word, h) (ap some (until_space-append (c ∷ w) rest (h, hs) e))

next_word-space : (c : ℕ) (s : Bytes) → is_space c ≡ true → next_word (c ∷ s) ≡ next_word s
unfolding next_word skip_spaces
next_word-space c s h = rw (next_word, h) refl

-- `a b c`, and what stands behind.
abbrev pub spaced : Bytes → Bytes → Bytes → Bytes → Bytes
spaced a b c end = a ++ (b' ' ∷ (b ++ (b' ' ∷ (c ++ end))))

pub three_words-spaced :
    (a b c end : Bytes)
    → IsWord a
    → IsWord b
    → IsWord c
    → IsEnd end
    → three_words (spaced a b c end) ≡ some (a, b, c)
unfolding three_words
three_words-spaced a b c end ha hb hc e =
    let space : is_space b' ' ≡ true = unfold is_space in refl in
    rw
      (
        three_words,
        next_word-append a (b' ' ∷ (b ++ (b' ' ∷ (c ++ end)))) ha space,
        next_word-space b' ' (b ++ (b' ' ∷ (c ++ end))) space,
        next_word-append b (b' ' ∷ (c ++ end)) hb space,
        next_word-space b' ' (c ++ end) space,
        next_word-append c end hc e,
      )
      refl

-- A field of the header: its name and its value.
abbrev pub Field : Type 0
Field = Bytes × Bytes

-- As it stands on its line.
abbrev pub field_line : Field → Bytes
field_line (name, value) = name ++ (b':' ∷ (b' ' ∷ value))

abbrev pub starts_blank : Bytes → Bool
starts_blank [] = false
starts_blank (c ∷ cs) = b' ' == c || b'\t' == c

-- A name has no colon, and a value does not start with a blank.
abbrev pub IsField : Field → Type 0
IsField (name, value) = (count b':' name ≡ 0) × (starts_blank value ≡ false)

skip_blanks_none : (value : Bytes) → starts_blank value ≡ false → skip_blanks value ≡ value
unfolding skip_blanks
skip_blanks_none [] h = refl
skip_blanks_none (c ∷ cs) h = rw h refl

at_colon-append :
    (name rest : Bytes)
    → count b':' name ≡ 0
    → at_colon (name ++ (b':' ∷ rest)) ≡ some (name, skip_blanks rest)
unfolding at_colon
at_colon-append [] rest h = refl
at_colon-append (c ∷ name) rest h =
    let other : (c == b':') ≡ false = ground arith in
    rw (other, at_colon-append name rest (ground arith)) refl

split_colon_blank-field_line :
    (name value : Bytes)
    → IsField (name, value)
    → split_colon_blank (field_line (name, value)) ≡ ok (name, value)
unfolding split_colon_blank skip_blanks
split_colon_blank-field_line name value (free, unblank) =
    rw (split_colon_blank, at_colon-append name (b' ' ∷ value) free, skip_blanks_none value unblank)
      refl

-- The value of the last field with a name.
abbrev pub value_of : Bytes → Bytes → List Field → Bytes
value_of wanted otherwise [] = otherwise
value_of wanted otherwise ((name, value) ∷ fields) =
    value_of wanted (if equal wanted name then value else otherwise) fields

abbrev pub with_fields : GetRequest → List Field → GetRequest
with_fields ret fields = record {
  version = ret.version;
  host = value_of (codes "Host") ret.host fields;
  abs_path = ret.abs_path;
  user_agent = value_of (codes "User-Agent") ret.user_agent fields;
  accept = value_of (codes "Accept") ret.accept fields;
}

set_field-with_fields :
    (ret : GetRequest) (name value : Bytes)
    → set_field ret (name, value) ≡ with_fields ret ((name, value) ∷ [])
unfolding set_field
set_field-with_fields ret name value = elim (Bool-cases (equal (codes "User-Agent") name)) [
  | inl e ↦ rw (sym ((equal_iff (codes "User-Agent") name).0 e)) (unfold equal in refl)
  | inr n ↦ elim (Bool-cases (equal (codes "Host") name)) [
    | inl e ↦ rw (sym ((equal_iff (codes "Host") name).0 e)) (unfold equal in refl)
    | inr m ↦ elim (Bool-cases (equal (codes "Accept") name)) [
      | inl e ↦ rw (n, m, e) refl
      | inr k ↦ rw (n, m, k) refl
    ]
  ]
]

field_line-nonempty :
    (name value : Bytes) → (c : ℕ) × (cs : Bytes) × (field_line (name, value) ≡ c ∷ cs)
field_line-nonempty [] value = (_, _, refl)
field_line-nonempty (c ∷ name) value = (_, _, refl)

parse_fields-field :
    (ret : GetRequest) (l : Bytes) (ls : List Bytes) (hh : Field) (c : ℕ) (cs : Bytes)
    → l ≡ c ∷ cs
    → split_colon_blank l ≡ ok hh
    → parse_fields ret (l ∷ ls) ≡ parse_fields (set_field ret hh) ls
unfolding parse_fields trim
parse_fields-field ret l ls hh c cs e split =
    let split' : split_colon_blank (c ∷ cs) ≡ ok hh = rw e at split in
    rw e (rw (parse_fields, split') refl)

pub parse_fields-append :
    (ret : GetRequest) (fields : List Field) (ls : List Bytes)
    → All IsField fields
    → parse_fields ret (map field_line fields ++ ls) ≡ parse_fields (with_fields ret fields) ls
parse_fields-append ret [] ls h = refl
parse_fields-append ret ((name, value) ∷ fields) ls (h, hs) =
    let (c, cs, nonempty) = field_line-nonempty name value in
    parse_fields-field ret (field_line (name, value)) (map field_line fields ++ ls) (name, value) c
      cs nonempty (split_colon_blank-field_line name value h)
    ∙ ap (λ r. parse_fields r (map field_line fields ++ ls)) (set_field-with_fields ret name value)
    ∙ parse_fields-append (with_fields ret ((name, value) ∷ [])) fields ls hs
