-- ===== src/Http/Url.antt =====
-- Which URLs `wget` of http.cpp takes, and what it makes of them.
use nanonet.Common.{
  ℕ, suc, ◌+◌, ◌-◌, ◌<◌, ◌≡◌, refl, sym, ap, ◌∙◌, arith, false, Option, none, some, [], ◌∷◌, ◌++◌,
  ◌==◌, append_assoc, Bytes, length, length-append, take, drop, count, equal, codes, ok,
  count-append,
}
use nanonet.Http.{find_first_of, host_and_port, parse_url}

-- The first separator, behind a part that has none.
find_first_of-append :
    (a b : Bytes) (c : ℕ) → count c a ≡ 0 → find_first_of (a ++ c ∷ b) c ≡ some (length a)
unfolding find_first_of
find_first_of-append [] b c free = ground arith
find_first_of-append (d ∷ a) b c free =
    let other : (d == c) ≡ false = ground arith in
    rw (other, find_first_of-append a b c (omega arith)) refl

find_first_of-none : (a : Bytes) (c : ℕ) → count c a ≡ 0 → find_first_of a c ≡ none
unfolding find_first_of
find_first_of-none [] c free = refl
find_first_of-none (d ∷ a) c free =
    let other : (d == c) ≡ false = ground arith in
    rw (other, find_first_of-none a c (omega arith)) refl

take-append : (a b : Bytes) → take (length a) (a ++ b) ≡ a
take-append [] b = refl
take-append (c ∷ a) b = ap (λ l. c ∷ l) (take-append a b)

drop-append : (a b : Bytes) → drop (length a) (a ++ b) ≡ b
drop-append [] b = refl
drop-append (c ∷ a) b = drop-append a b

parse_url_authority :
    (authority rest : Bytes)
    → count b'/' authority ≡ 0
    → 0 < length authority
    → parse_url (codes "http://" ++ authority ++ b'/' ∷ rest)
      ≡ host_and_port authority (b'/' ∷ rest) (find_first_of authority b':')
unfolding parse_url equal
parse_url_authority authority rest free some_authority =
    let nonzero : (0 == length authority) ≡ false = ground arith in
    rw (find_first_of-append authority rest b'/' free) (rw (nonzero, take-append, drop-append) refl)

-- A URL of a host, a port or none, and what follows the slash.
abbrev pub authority_of : Bytes → Option Bytes → Bytes
authority_of host none = host
authority_of host (some port) = host ++ b':' ∷ port

abbrev pub url_of : Bytes → Option Bytes → Bytes → Bytes
url_of host port rest = codes "http://" ++ authority_of host port ++ b'/' ∷ rest

abbrev pub port_of : Option Bytes → Bytes
port_of none = codes "80"
port_of (some port) = port

-- The host and the port are not empty, neither has a slash, and the host has no colon.
abbrev pub IsPort : Option Bytes → Type 0
IsPort none = Unit
IsPort (some port) = (0 < length port) × (count b'/' port ≡ 0)

pub record IsUrl (host : Bytes) (port : Option Bytes) : Type 0 where
  pub some_host : 0 < length host
  pub no_slash_in : count b'/' host ≡ 0
  pub no_colon_in : count b':' host ≡ 0
  pub is_port : IsPort port

drop_next : (a b : Bytes) (c : ℕ) → drop (length a + 1) (a ++ c ∷ b) ≡ b
drop_next a b c =
    let next : length (a ++ c ∷ []) ≡ length a + 1 = length-append a (c ∷ []) ∙ omega arith in
    rw (sym next, sym (append_assoc a (c ∷ []) b)) (drop-append (a ++ c ∷ []) b)

-- `wget` takes a URL of a host, with a port or without one, apart again: into that host, that port or
-- else 80, and the path from the slash on. The host and the port are not empty and have no slash in
-- them, and the host has no colon.
pub parse_url-url_of :
    (host : Bytes) (port : Option Bytes) (rest : Bytes)
    → IsUrl host port
    → parse_url (url_of host port rest)
      ≡ ok (record { host = host; port = port_of port; path = b'/' ∷ rest })
parse_url-url_of host none rest u =
    parse_url_authority host rest u.no_slash_in u.some_host
    ∙ rw (find_first_of-none host b':' u.no_colon_in) refl
parse_url-url_of host (some port) rest u =
    let (some_port, no_slash_in) = u.is_port in
    let size : length (host ++ b':' ∷ port) ≡ length host + suc (length port) =
      length-append host (b':' ∷ port) in
    let port_there : (length (host ++ b':' ∷ port) - 1 == length host) ≡ false =
      ground (arith, size) in
    let host_there : (0 == length host) ≡ false = ground (arith, u.some_host) in
    parse_url_authority (host ++ b':' ∷ port) rest
      (omega (arith, count-append b'/' host (b':' ∷ port), u.no_slash_in, no_slash_in))
      (omega (arith, size))
    ∙ rw (find_first_of-append host port b':' u.no_colon_in)
        (rw (port_there, host_there, take-append, drop_next) refl)
