-- ===== src/Registry.antt =====
-- The registry of registry.h and registry.cpp: a store of key/value pairs. Its `std::map` is an
-- association list with one entry for a key; the program never walks it, so order plays no part.
pub mod Checks
mod Lookup
pub mod Reading
use nanonet.Common.{
  ℕ, zero, suc, Bool, true, false, not, Option, none, some, List, [], ◌∷◌, if◌then◌else◌, Bytes,
  equal, Outcome, ok, throws, ◌>>=◌, ◌>>◌, rethrow,
}
use nanonet.Double.{Floats}
use nanonet.Token.{Token}
use nanonet.Error.{
  Location, Error, redefined, not_defined, at_key, at_location, could_not_open, out_of_fuel,
}
use nanonet.Lexer.{
  Lexer, LexerStyle, location, set_style, putback, default_lexer_style, c_comments,
  percent_comments, single_quote, double_quote,
}
use nanonet.Parser.{Term, Pair, Parser, ParserStyle, parse_pair, rounds, expect, comma_optional}

pub record Mapped (fl : Floats) : Type 0 where
  pub value : Term fl
  pub defined_at : Location

pub record Grammar : Type 0 where
  pub parser_style : ParserStyle
  pub lexer_style : LexerStyle

pub record Registry (fl : Floats) : Type 0 where
  pub kv_map : List (Bytes × Mapped fl)
  pub filename : Bytes

-- `config_style` and `matlab_style`
abbrev pub config_style : Grammar
config_style = record {
  parser_style = record {
    comma_style = comma_optional;
    list_delimiter = Token.lb;
    expression_delimiter = Token.lp;
  };
  lexer_style = record { comment_style = c_comments; string_quote_style = double_quote };
}

abbrev pub matlab_style : Grammar
matlab_style = record {
  parser_style = record {
    comma_style = comma_optional;
    list_delimiter = Token.lbracket;
    expression_delimiter = Token.lp;
  };
  lexer_style = record { comment_style = percent_comments; string_quote_style = single_quote };
}

module _ {fl : Floats} where
  -- `kv_map.find( key )`
  unfoldable pub find : Bytes → List (Bytes × Mapped fl) → Option (Mapped fl)
  find key [] = none
  find key ((k, m) ∷ rest) = if equal k key then some m else find key rest

  -- `kv_map[ key ] = m`
  unfoldable pub put : Bytes → Mapped fl → List (Bytes × Mapped fl) → List (Bytes × Mapped fl)
  put key m [] = (key, m) ∷ []
  put key m ((k, n) ∷ rest) = if equal k key then (k, m) ∷ rest else (k, n) ∷ put key m rest

  abbrev pub empty : Registry fl
  empty = record { kv_map = []; filename = [] }

  abbrev pub clear : Registry fl → Registry fl
  clear r = record r { kv_map = [] }

  abbrev is_some : Option (Mapped fl) → Bool
  is_some none = false
  is_some (some m) = true

  unfoldable pub is_defined : Registry fl → Bytes → Bool
  unfolding find
  is_defined r key = is_some (find key r.kv_map)

  abbrev or_not_defined : Bytes → Option (Mapped fl) → Outcome Error (Mapped fl)
  or_not_defined key none = throws (not_defined key)
  or_not_defined key (some m) = ok m

  unfoldable pub get_any : Registry fl → Bytes → Outcome Error (Term fl)
  unfolding find
  get_any r key = do m ← or_not_defined key (find key r.kv_map); ok m.value

  unfoldable pub defined_at : Registry fl → Bytes → Outcome Error Location
  unfolding find
  defined_at r key = do m ← or_not_defined key (find key r.kv_map); ok m.defined_at

  unfoldable pub check_key : Registry fl → Bytes → Outcome Error (Unit {0})
  unfolding is_defined defined_at
  check_key r key =
      if is_defined r key then (do at ← defined_at r key; throws (redefined key at)) else ok tt

  unfoldable pub add_any :
      Registry fl → Bytes → Term fl → Location → Bool → Outcome Error (Registry fl)
  unfolding check_key put
  add_any r key value at throw_on_redefinition = do
    if throw_on_redefinition then check_key r key else ok tt
    ok (record r { kv_map = put key (record { value = value; defined_at = at }) r.kv_map })

  -- What a call throws on the value of a key, with the key and where it is defined.
  unfoldable pub naming_key {ℓ} :
      {A : Type ℓ} → Registry fl → Bytes → Outcome Error A → Outcome Error A
  unfolding defined_at
  naming_key r key (ok a) = ok a
  naming_key r key (throws e) = do at ← defined_at r key; throws (at_key key at e)

  -- `get< T >( key )`, by the conversion to `T`.
  unfoldable pub get {ℓ} :
      {A : Type ℓ} → (Term fl → Outcome Error A) → Registry fl → Bytes → Outcome Error A
  unfolding get_any naming_key
  get convert r key = do a ← get_any r key; naming_key r key (convert a)

  unfoldable pub get_default {ℓ} :
      {A : Type ℓ} → (Term fl → Outcome Error A) → Registry fl → Bytes → A → Outcome Error A
  unfolding get is_defined
  get_default convert r key default_value =
      if not (is_defined r key) then ok default_value else get convert r key

  add_pair : Registry fl → Lexer fl → Pair fl → Bool → Outcome Error (Registry fl)
  unfolding add_any
  add_pair r lex pair throw_on_redefinition = rethrow (at_location (location lex)) (
      add_any r pair.key pair.value (record { filename = pair.filename; line = pair.line_no })
        throw_on_redefinition)

  -- The loop of `read_from`. What was added before an exception stays in the registry.
  read_pairs : ℕ → Parser fl → Bool → Registry fl → Registry fl × Outcome Error (Lexer fl)
  unfolding add_pair
  read_pairs zero p throw_on_redefinition r = (r, throws out_of_fuel)
  read_pairs (suc n) p throw_on_redefinition r = elim (parse_pair p) [
    | throws e ↦ (r, throws e)
    | ok (none, q) ↦ (r, ok (putback q.lex))
    | ok (some pair, q) ↦ elim (add_pair r q.lex pair throw_on_redefinition) [
      | throws e ↦ (r, throws e)
      | ok next ↦ read_pairs n q throw_on_redefinition next
    ]
  ]

  unfoldable pub read_from :
      Registry fl
      → Lexer fl
      → LexerStyle
      → ParserStyle
      → Bool
      → Registry fl × Outcome Error (Lexer fl)
  unfolding read_pairs
  read_from r lex ls ps throw_on_redefinition =
      let styled = set_style lex ls in
      read_pairs (rounds styled) (record { lex = styled; style = ps; state = true })
        throw_on_redefinition r

  -- A lexer on a stream that holds these bytes.
  abbrev pub lexer : Bytes → Bytes → LexerStyle → Lexer fl
  lexer input filename style = record {
    input = input;
    style = style;
    current_token = Token.end_of_input;
    string_value = [];
    num_value = fl.origin;
    line_no = 1;
    filename = filename;
    hold = false;
  }

  -- `read_from` of a named file; what the file system has under the name is given, or `none`.
  unfoldable pub read_file :
      Registry fl
      → Bytes
      → Option Bytes
      → LexerStyle
      → ParserStyle
      → Bool
      → Registry fl × Outcome Error (Unit {0})
  unfolding read_from
  read_file r name none ls ps throw_on_redefinition = (r, throws (could_not_open name))
  read_file r name (some content) ls ps throw_on_redefinition =
      let (q, result) =
        read_from r (lexer content name default_lexer_style) ls ps throw_on_redefinition in
      elim (do lex ← result; expect lex Token.end_of_input) [
        | throws e ↦ (q, throws e)
        | ok lex ↦ (record q { filename = name }, ok tt)
      ]
