-- ===== src/Tests/Urls.antt =====
-- A URL with a port, built and taken apart.
use nanonet.Common.{◌≡◌, refl, some, Bytes, codes, ok, arith, equal}
use nanonet.Http.{Target, parse_url, content_type_from_file_name, ends_with}
use nanonet.Http.Url.{IsUrl, url_of, parse_url-url_of}

abbrev local : Target
local = record { host = codes "h"; port = codes "8080"; path = codes "/x/y" }

abbrev local_url : Bytes
local_url = codes "http://h:8080/x/y"

local-IsUrl : IsUrl (codes "h") (some (codes "8080"))
local-IsUrl = record {
  some_host = omega arith;
  no_slash_in = refl;
  no_colon_in = refl;
  is_port = (omega arith, refl);
}

parse_url-url_of_example :
    parse_url (url_of (codes "h") (some (codes "8080")) (codes "x/y")) ≡ ok local
parse_url-url_of_example =
    parse_url-url_of (codes "h") (some (codes "8080")) (codes "x/y") local-IsUrl

page_type : content_type_from_file_name (codes "index.html") ≡ codes "text/html"
unfolding content_type_from_file_name ends_with equal
page_type = refl
