-- ===== src/Registry/Reading.antt =====
-- What reading a configuration does to a registry.
use nanonet.Common.{
  ℕ, zero, suc, ◌<◌, ◌≡◌, ◌≢◌, refl, Bool, true, false, Option, none, some, List, [], ◌∷◌, Bytes,
  arith, equal, equal_iff, Outcome, ok, throws, inl, inr, Outcome-cases, Option-cases,
  if◌then◌else◌, rethrow, ap, ◌∙◌,
}
use nanonet.Double.{Floats, ReadsPrefix}
use nanonet.Error.{Location, Error, Ensures, out_of_fuel, redefined, at_location}
use nanonet.Lexer.{Lexer, LexerStyle, set_style, location, putback}
use nanonet.Parser.{Pair, Parser, ParserStyle, parse_pair, rounds, Term}
use nanonet.Parser.Weight.{weight, weight-lt-rounds}
use nanonet.Parser.Termination.{IsStyle, parse_pair-ends, Progresses}
use nanonet.Registry.{
  Mapped, Registry, find, put, add_any, add_pair, read_pairs, read_from, get_any, defined_at,
}
use nanonet.Registry.Lookup.{find-put}

module _ {fl : Floats} where
  -- `r'` is `r` with this definition of `key`.
  pub record Added (r : Registry fl) (key : Bytes) (value : Term fl) (at : Location)
      (r' : Registry fl) : Type 0 where
    pub values :
        (other : Bytes) → get_any r' other ≡ (if equal key other then ok value else get_any r other)
    pub places :
        (other : Bytes)
        → defined_at r' other ≡ (if equal key other then ok at else defined_at r other)
    pub filename : r'.filename ≡ r.filename

  abbrev pub AddResult :
      Registry fl
      → Bytes
      → Term fl
      → Location
      → Option (Mapped fl)
      → Bool
      → Outcome Error (Registry fl)
      → Type 0
  AddResult r key value at (some m) true result = result ≡ throws (redefined key m.defined_at)
  AddResult r key value at _ _ result =
      (r' : Registry fl) × (result ≡ ok r') × Added r key value at r'

  put-Added :
      (r : Registry fl) (key : Bytes) (value : Term fl) (at : Location)
      → Added r key value at
          (record r { kv_map = put key (record { value = value; defined_at = at }) r.kv_map })
  unfolding get_any defined_at
  put-Added r key value at = record {
    values = λ other.
        ground (arith, find-put key other (record { value = value; defined_at = at }) r.kv_map);
    places = λ other.
        ground (arith, find-put key other (record { value = value; defined_at = at }) r.kv_map);
    filename = refl;
  }

  -- `add_any` throws if the key is defined and redefinition is to throw, and names the place of the
  -- definition that stands. Otherwise the key has the value and the place, and no other key changes.
  pub add_any-AddResult :
      (r : Registry fl) (key : Bytes) (value : Term fl) (at : Location)
      (throw_on_redefinition : Bool)
      → AddResult r key value at
          (find key r.kv_map)
          throw_on_redefinition
          (add_any r key value at throw_on_redefinition)
  unfolding add_any
  add_any-AddResult r key value at false = elim (Option-cases (find key r.kv_map)) [
    | inl e ↦ rw e (_, refl, put-Added r key value at)
    | inr (m, e) ↦ rw e (_, refl, put-Added r key value at)
  ]
  add_any-AddResult r key value at true = elim (Option-cases (find key r.kv_map)) [
    | inl e ↦ rw e (_, refl, put-Added r key value at)
    | inr (m, e) ↦ rw e (refl)
  ]

  -- A definition that a registry holds stays when others are added and may not redefine it.
  add_pair-keeps :
      (r : Registry fl) (lex : Lexer fl) (pair : Pair fl) (key : Bytes) (m : Mapped fl)
      (r' : Registry fl)
      → find key r.kv_map ≡ some m
      → add_pair r lex pair true ≡ ok r'
      → find key r'.kv_map ≡ some m
  unfolding add_pair
  add_pair-keeps r lex pair key m r' e h = ground (
    arith,
    equal_iff pair.key key,
    find-put pair.key key
        (record {
          value = pair.value;
          defined_at = record { filename = pair.filename; line = pair.line_no };
        })
        r.kv_map,
  )

  read_pairs-keeps :
      (n : ℕ) (p : Parser fl) (r : Registry fl) (key : Bytes) (m : Mapped fl)
      → find key r.kv_map ≡ some m
      → find key (read_pairs n p true r).0.kv_map ≡ some m
  unfolding read_pairs
  read_pairs-keeps zero p r key m e = e
  read_pairs-keeps (suc n) p r key m e = elim (Outcome-cases (parse_pair p)) [
    | inr (x, bad) ↦ rw (bad, read_pairs) e
    | inl ((none, q), stop) ↦ rw (stop, read_pairs) e
    | inl ((some pair, q), more) ↦ elim (Outcome-cases (add_pair r q.lex pair true)) [
      | inr (x, bad) ↦ rw (more, read_pairs) (rw (bad, read_pairs) e)
      | inl (next, good) ↦
          rw (more, read_pairs)
            (rw (good, read_pairs)
              (read_pairs-keeps n q next key m (add_pair-keeps r q.lex pair key m next e good)))
    ]
  ]

  -- Reading a configuration with `throw_on_redefinition` keeps every definition that the registry
  -- holds, with its value and its place, also when it ends in an exception.
  pub read_from-keeps :
      (r : Registry fl) (lex : Lexer fl) (ls : LexerStyle) (ps : ParserStyle) (key : Bytes)
      (m : Mapped fl)
      → find key r.kv_map ≡ some m
      → find key (read_from r lex ls ps true).0.kv_map ≡ some m
  unfolding read_from
  read_from-keeps r lex ls ps key m e =
      read_pairs-keeps (rounds (set_style lex ls))
        (record { lex = set_style lex ls; style = ps; state = true }) r key m e

  add_any-Ensures :
      (r : Registry fl) (key : Bytes) (value : Term fl) (at : Location) (t : Bool)
      → Ensures (λ _. Unit) (add_any r key value at t)
  unfolding add_any
  add_any-Ensures r key value at false = tt
  add_any-Ensures r key value at true = elim (Option-cases (find key r.kv_map)) [
    | inl e ↦ rw e tt
    | inr (m, e) ↦ rw e (λ x. cc)
  ]

  rethrow-Ensures :
      (at : Location) (m : Outcome Error (Registry fl))
      → Ensures (λ _. Unit) m
      → Ensures (λ _. Unit) (rethrow (at_location at) m)
  rethrow-Ensures at (ok a) h = tt
  rethrow-Ensures at (throws e) h = λ x. cc

  add_pair-Ensures :
      (r : Registry fl) (lex : Lexer fl) (pair : Pair fl) (t : Bool)
      → Ensures (λ _. Unit) (add_pair r lex pair t)
  unfolding add_pair
  add_pair-Ensures r lex pair t =
      rethrow-Ensures (location lex) _ (add_any-Ensures r pair.key pair.value _ t)

  read_pairs-ends :
      (reads : ReadsPrefix fl) (n : ℕ) (p : Parser fl) (t : Bool) (r : Registry fl)
      → IsStyle p.style
      → weight p.lex < n
      → Ensures (λ _. Unit) (read_pairs n p t r).1
  unfolding read_pairs
  read_pairs-ends reads zero p t r s h = absurd (omega arith)
  read_pairs-ends reads (suc n) p t r s h =
      let ends = parse_pair-ends reads p s in
      elim (Outcome-cases (parse_pair p)) [
        | inr (x, bad) ↦ rw (bad, read_pairs) (rw bad at ends)
        | inl ((none, q), stop) ↦ rw (stop, read_pairs) tt
        | inl ((some pair, q), more) ↦
            let progress : Progresses p (some pair, q) = rw more at ends in
            let added = add_pair-Ensures r q.lex pair t in
            elim (Outcome-cases (add_pair r q.lex pair t)) [
              | inr (x, bad) ↦ rw (more, read_pairs) (rw (bad, read_pairs) (rw bad at added))
              | inl (next, good) ↦
                  rw (more, read_pairs)
                    (rw (good, read_pairs)
                      (read_pairs-ends reads n q t next (rw progress.0 s) (omega arith)))
            ]
      ]

  -- If `is >> x` reads on as ReadsPrefix says and the style's opening delimiters are not the end of
  -- the input, then reading a configuration ends on every input, in a lexer behind the pairs or in
  -- one of the program's exceptions: the rounds that the model gives its loops are enough.
  pub read_from-ends :
      (reads : ReadsPrefix fl) (r : Registry fl) (lex : Lexer fl) (ls : LexerStyle)
      (ps : ParserStyle) (t : Bool)
      → IsStyle ps
      → (read_from r lex ls ps t).1 ≢ throws out_of_fuel
  unfolding read_from
  read_from-ends reads r lex ls ps t s e =
      rw e at
        (read_pairs-ends reads (rounds (set_style lex ls))
          (record { lex = set_style lex ls; style = ps; state = true }) t r s
          (weight-lt-rounds (set_style lex ls)))
        refl

  -- The pairs that a parser reads before it stops, and how it stops.
  pub all_pairs : ℕ → Parser fl → List (Pair fl) × Outcome Error (Lexer fl)
  all_pairs zero p = ([], throws out_of_fuel)
  all_pairs (suc n) p = elim (parse_pair p) [
    | throws e ↦ ([], throws e)
    | ok (none, q) ↦ ([], ok (putback q.lex))
    | ok (some pair, q) ↦ let (rest, result) = all_pairs n q in (pair ∷ rest, result)
  ]

  abbrev pub add_all : Registry fl → List (Pair fl) → Registry fl
  add_all r [] = r
  add_all r (pair ∷ rest) =
      add_all
        (record r {
          kv_map =
              put pair.key
                (record {
                  value = pair.value;
                  defined_at = record { filename = pair.filename; line = pair.line_no };
                })
                r.kv_map;
        })
        rest

  read_pairs-add_all :
      (n : ℕ) (p : Parser fl) (r : Registry fl)
      → read_pairs n p false r ≡ (add_all r (all_pairs n p).0, (all_pairs n p).1)
  unfolding read_pairs all_pairs
  read_pairs-add_all zero p r = refl
  read_pairs-add_all (suc n) p r = elim (Outcome-cases (parse_pair p)) [
    | inr (x, bad) ↦ rw (bad, read_pairs, all_pairs) refl
    | inl ((none, q), stop) ↦ rw (stop, read_pairs, all_pairs) refl
    | inl ((some pair, q), more) ↦ rw (more, read_pairs, all_pairs) (read_pairs-add_all n q _)
  ]

  -- The last definition of a key among some pairs, or else an earlier one.
  pub last_definition : Bytes → List (Pair fl) → Option (Mapped fl) → Option (Mapped fl)
  last_definition key [] earlier = earlier
  last_definition key (pair ∷ rest) earlier = last_definition key rest (
      if equal pair.key key
      then some (record {
        value = pair.value;
        defined_at = record { filename = pair.filename; line = pair.line_no };
      })
      else earlier)

  find-add_all :
      (key : Bytes) (pairs : List (Pair fl)) (r : Registry fl)
      → (find key (add_all r pairs).kv_map ≡ last_definition key pairs (find key r.kv_map))
        × ((add_all r pairs).filename ≡ r.filename)
  unfolding last_definition
  find-add_all key [] r = (refl, refl)
  find-add_all key (pair ∷ rest) r =
      let m : Mapped fl = record {
        value = pair.value;
        defined_at = record { filename = pair.filename; line = pair.line_no };
      } in
      let (found, same) = find-add_all key rest (record r { kv_map = put pair.key m r.kv_map }) in
      (found ∙ ap (last_definition key rest) (find-put pair.key key m r.kv_map), same)

  -- With redefinition allowed, reading a configuration ends as parsing all of its pairs does, and every
  -- key then has the value and the place of its last definition among the pairs in front of that
  -- end; a key that is not among them has the definition that the registry held, or none.
  pub read_from-last_definition :
      (r : Registry fl) (lex : Lexer fl) (ls : LexerStyle) (ps : ParserStyle)
      → let styled = set_style lex ls in
        let parsed =
          all_pairs (rounds styled) (record { lex = styled; style = ps; state = true }) in
        let (r', result) = read_from r lex ls ps false in
        (result ≡ parsed.1)
        × (r'.filename ≡ r.filename)
        × ((key : Bytes) → find key r'.kv_map ≡ last_definition key parsed.0 (find key r.kv_map))
  unfolding read_from
  read_from-last_definition r lex ls ps =
      let n = rounds (set_style lex ls) in
      let p : Parser fl = record { lex = set_style lex ls; style = ps; state = true } in
      let same = read_pairs-add_all n p r in
      (
        ap (λ q. q.1) same,
        ap (λ q. q.0.filename) same ∙ (find-add_all [] (all_pairs n p).0 r).1,
        λ key. ap (λ q. find key q.0.kv_map) same ∙ (find-add_all key (all_pairs n p).0 r).0,
      )
