-- ===== src/Tests/Configuration.antt =====
-- A configuration that is read from its text, and the theorems of the registry on it.
use nanonet.Parser.Numbers.{read_numbers}
use nanonet.Common.{
  equal, ◌≡◌, ◌≢◌, refl, true, false, some, [], ◌∷◌, Bytes, codes, ok, throws, pos, negsuc, ℤ, List,
}
use nanonet.Token.{Token, token_eq, closing_token}
use nanonet.Error.{Location, out_of_fuel, redefined}
use nanonet.Lexer.{
  skip_space, read_ident, char_token, munch_till_asterisks_slash, Lexer, get_token, quote_char,
}
use nanonet.Lexer.Within.{Advances}
use nanonet.Lexer.Progress.{Reads, get_token-Reads}
use nanonet.Lexer.Quoted.{get_token-escaped}
use nanonet.Parser.{
  Term, Terms, cons, nil, number, list, Parser, parse_term, parse_pair, rounds, expect,
}
use nanonet.Parser.Termination.{IsStyle}
use nanonet.Convert.{convert_list, size, convert_number, convert_matrix}
use nanonet.Convert.Shape.{HasSize}
use nanonet.Convert.Matrix.{RowsOf, IsShaped, convert_matrix_sound}
use nanonet.Registry.{Registry, empty, lexer, config_style, add_any, get_any, find, read_from}
use nanonet.Registry.Reading.{
  add_any-AddResult, read_from-keeps, read_from-ends, read_from-last_definition, last_definition,
  all_pairs,
}
use nanonet.Tests.Integers.{integers, read_integer, integers-ReadsPrefix}

abbrev config_text : Bytes
config_text = codes "port = 80 /* the\nport */ hosts = { 1, 2 3 }"

abbrev config_lexer : Lexer integers
config_lexer = lexer config_text (codes "c") config_style.lexer_style

abbrev here : Location
here = record { filename = codes "c"; line = 1 }

abbrev one_port : Registry integers
one_port = record {
  kv_map = (codes "port", record { value = number (pos 1); defined_at = here }) ∷ [];
  filename = [];
}

abbrev config_parser : Parser integers
config_parser = record { lex = config_lexer; style = config_style.parser_style; state = true }

abbrev list_lexer : Lexer integers
list_lexer = lexer (codes "{ 1 f(2) }") (codes "c") config_style.lexer_style

abbrev two_numbers : Term integers
two_numbers = list (cons (number (pos 1)) (cons (number (pos 2)) nil))

abbrev two_rows : Term integers
two_rows = list (cons two_numbers (cons two_numbers nil))

abbrev matrix : List (List ℤ)
matrix = (pos 1 ∷ pos 2 ∷ []) ∷ (pos 1 ∷ pos 2 ∷ []) ∷ []

-- The hosts, and a comment over two lines before them.
read_hosts :
    get_any
      (read_from empty config_lexer config_style.lexer_style config_style.parser_style true).0
      (codes "hosts")
    ≡ ok (list (cons (number (pos 1)) (cons (number (pos 2)) (cons (number (pos 3)) nil))))
unfolding read_from get_any read_integer parse_pair get_token skip_space token_eq read_ident
    char_token parse_term munch_till_asterisks_slash closing_token equal
read_hosts = refl

config-IsStyle : IsStyle config_style.parser_style
config-IsStyle = record { list_opens = λ e. cc; expression_opens = λ e. cc }

read_from-ends_example :
    (read_from empty config_lexer config_style.lexer_style config_style.parser_style true).1
    ≢ throws out_of_fuel
read_from-ends_example =
    read_from-ends integers-ReadsPrefix empty config_lexer config_style.lexer_style
      config_style.parser_style true config-IsStyle

read_from-keeps_example :
    find
      (codes "port")
      (read_from one_port config_lexer config_style.lexer_style config_style.parser_style
        true).0.kv_map
    ≡ some (record { value = number (pos 1); defined_at = here })
unfolding find equal
read_from-keeps_example =
    read_from-keeps one_port config_lexer config_style.lexer_style config_style.parser_style
      (codes "port") (record { value = number (pos 1); defined_at = here }) refl

read_from-last_definition_example :
    let parsed = all_pairs (rounds config_lexer) config_parser in
    let (r', result) =
      read_from one_port config_lexer config_style.lexer_style config_style.parser_style false in
    (result ≡ parsed.1)
    × (r'.filename ≡ one_port.filename)
    × ((key : Bytes) → find key r'.kv_map ≡ last_definition key parsed.0 (find key one_port.kv_map))
read_from-last_definition_example =
    read_from-last_definition one_port config_lexer config_style.lexer_style
      config_style.parser_style

add_any-AddResult_example :
    add_any one_port (codes "port") (number (pos 2)) here true
    ≡ throws (redefined (codes "port") here)
unfolding find equal
add_any-AddResult_example = add_any-AddResult one_port (codes "port") (number (pos 2)) here true

get_token-Reads_example : Advances (Reads config_lexer) (get_token config_lexer)
get_token-Reads_example = get_token-Reads config_lexer integers-ReadsPrefix

get_token-escaped_example :
    get_token (record config_lexer { input = codes "\"a\\n\\\"\\\\b\" = 1" })
    ≡ ok (
      Token.string,
      record config_lexer {
        input = codes " = 1";
        string_value = codes "a\n\"\\b";
        current_token = Token.string;
      },
    )
unfolding quote_char
get_token-escaped_example = get_token-escaped config_lexer (codes "a\n\"\\b") (codes " = 1") refl

convert_matrix_sound_example :
    ((xs : Terms integers) × (two_rows ≡ list xs) × RowsOf xs matrix)
    × HasSize 2 (pos 2)
    × IsShaped (negsuc 1) matrix
unfolding convert_matrix convert_list size convert_number
convert_matrix_sound_example = convert_matrix_sound two_rows (pos 2) (negsuc 1) matrix refl

abbrev numbers_lexer : Lexer integers
numbers_lexer = lexer (codes "4 5 f") (codes "c") config_style.lexer_style

-- The third element stays when there is no third number.
read_numbers_run :
    (read_numbers (λ x. x) (pos 0 ∷ pos 0 ∷ pos 9 ∷ []) numbers_lexer).0
    ≡ pos 4 ∷ pos 5 ∷ pos 9 ∷ []
unfolding read_numbers read_integer get_token skip_space token_eq read_ident char_token expect
read_numbers_run = refl
