-- ===== src/Token.antt =====
-- The tokens: `token` and `closing_token` of registry.h.
use nanonet.Common.{
  ℕ, ◌+◌, ◌≡◌, refl, sym, ap, ◌∙◌, ◌↔◌, Bool, true, ◌==◌, ==_iff, ==_refl, if◌then◌else◌, ◌≢◌,
}

pub data Token : Type 0 where
  end_of_input lp rp lb rb lbracket rbracket asterisks slash hash percent : Token
  assign comma double_quote single_quote string ident num no_token : Token

-- `static_cast<int>(t)`
unfoldable pub index : Token → ℕ
index Token.end_of_input = 0
index Token.lp = 1
index Token.rp = 2
index Token.lb = 3
index Token.rb = 4
index Token.lbracket = 5
index Token.rbracket = 6
index Token.asterisks = 7
index Token.slash = 8
index Token.hash = 9
index Token.percent = 10
index Token.assign = 11
index Token.comma = 12
index Token.double_quote = 13
index Token.single_quote = 14
index Token.string = 15
index Token.ident = 16
index Token.num = 17
index Token.no_token = 18

-- `static_cast<token>(n)`, with the marker for all numbers behind it.
of_index : ℕ → Token
of_index n =
    if n == 0
    then Token.end_of_input
    else if n == 1
    then Token.lp
    else if n == 2
    then Token.rp
    else if n == 3
    then Token.lb
    else if n == 4
    then Token.rb
    else if n == 5
    then Token.lbracket
    else if n == 6
    then Token.rbracket
    else if n == 7
    then Token.asterisks
    else if n == 8
    then Token.slash
    else if n == 9
    then Token.hash
    else if n == 10
    then Token.percent
    else if n == 11
    then Token.assign
    else if n == 12
    then Token.comma
    else if n == 13
    then Token.double_quote
    else if n == 14
    then Token.single_quote
    else if n == 15
    then Token.string
    else if n == 16
    then Token.ident
    else if n == 17
    then Token.num
    else Token.no_token

-- `t == u`
unfoldable pub token_eq : Token → Token → Bool
unfolding index
token_eq t u = index t == index u

unfoldable pub closing_token : Token → Token
unfolding index of_index
closing_token t = of_index (index t + 1)

of_index-index : (t : Token) → of_index (index t) ≡ t
unfolding index of_index
of_index-index Token.end_of_input = refl
of_index-index Token.lp = refl
of_index-index Token.rp = refl
of_index-index Token.lb = refl
of_index-index Token.rb = refl
of_index-index Token.lbracket = refl
of_index-index Token.rbracket = refl
of_index-index Token.asterisks = refl
of_index-index Token.slash = refl
of_index-index Token.hash = refl
of_index-index Token.percent = refl
of_index-index Token.assign = refl
of_index-index Token.comma = refl
of_index-index Token.double_quote = refl
of_index-index Token.single_quote = refl
of_index-index Token.string = refl
of_index-index Token.ident = refl
of_index-index Token.num = refl
of_index-index Token.no_token = refl

index-injective : (t u : Token) → index t ≡ index u → t ≡ u
index-injective t u e = sym (of_index-index t) ∙ ap of_index e ∙ of_index-index u

pub token_eq_iff : (t u : Token) → (token_eq t u ≡ true) ↔ (t ≡ u)
unfolding token_eq
token_eq_iff t u =
    (λ h. index-injective t u ((==_iff (index t) (index u)).0 h), λ e. rw e (==_refl (index u)))

-- The closing symbols follow their opening counterparts.
pub closing_token-ne-end : (t : Token) → closing_token t ≢ Token.end_of_input
unfolding closing_token
closing_token-ne-end Token.end_of_input = λ e. cc
closing_token-ne-end t = λ e. cc
