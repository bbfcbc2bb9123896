-- ===== src/Http.antt =====
-- The URLs of `wget` and the names of content types in src/http.cpp. `std::string::npos` is `none`.
pub mod Url
pub mod Targets
pub mod Requests
pub mod Responses
pub mod Client
use nanonet.Common.{
  ℕ, zero, suc, ◌+◌, ◌-◌, Bool, not, Option, none, some, [], ◌∷◌, ◌==◌, leb, if◌then◌else◌, Bytes,
  length, take, drop, equal, codes, Outcome, ok, throws, ◌&&◌,
}

pub data UrlError : Type 0 where
  no_scheme no_host_port no_slash no_port no_host : UrlError

-- What `wget` asks a server for.
pub record Target : Type 0 where
  pub host : Bytes
  pub port : Bytes
  pub path : Bytes

-- `s.find_first_of( c )`
unfoldable pub find_first_of : Bytes → ℕ → Option ℕ
find_first_of [] c = none
find_first_of (d ∷ ds) c =
    if d == c then some zero else elim (find_first_of ds c) [ none ↦ none | some i ↦ some (suc i) ]

abbrev pub host_and_port : Bytes → Bytes → Option ℕ → Outcome UrlError Target
host_and_port hostport path none = ok (record { host = hostport; port = codes "80"; path = path })
host_and_port hostport path (some colon) =
    if length hostport - 1 == colon
    then throws no_port
    else if 0 == colon
    then throws no_host
    else ok (record { host = take colon hostport; port = drop (colon + 1) hostport; path = path })

abbrev pub before_slash : Bytes → Option ℕ → Outcome UrlError Target
before_slash url none = throws no_slash
before_slash url (some slash) =
    let hostport = take slash url in
    if 0 == slash
    then throws no_host_port
    else host_and_port hostport (drop slash url) (find_first_of hostport b':')

-- The URL of `wget`, up to its call of `wget1`.
unfoldable pub parse_url : Bytes → Outcome UrlError Target
unfolding find_first_of
parse_url url =
    let rest = drop 7 url in
    if not (equal (codes "http://") (take 7 url))
    then throws no_scheme
    else before_slash rest (find_first_of rest b'/')

-- `name.ends_with( suffix )`
unfoldable pub ends_with : Bytes → Bytes → Bool
ends_with name suffix =
    leb (length suffix) (length name) && equal (drop (length name - length suffix) name) suffix

unfoldable pub content_type_from_file_name : Bytes → Bytes
unfolding ends_with
content_type_from_file_name name =
    if ends_with name (codes ".html")
    then codes "text/html"
    else if ends_with name (codes ".txt")
    then codes "text/plain"
    else codes "application/octet-stream"
