-- ===== src/Http/Targets.antt =====
-- Whatever `wget` of http.cpp takes apart is a URL: its two assertions hold.
use nanonet.Common.{
  ℕ, zero, suc, ◌+◌, ◌-◌, ◌<◌, ◌≡◌, refl, sym, ap, ◌∙◌, arith, false, Option, none, some, [], ◌∷◌,
  ◌++◌, ◌==◌, ==_iff, Bytes, length, length-append, take, drop, count, count-append, equal,
  equal_iff, codes, ok, Bool-cases, inl, inr,
}
use nanonet.Http.{Target, find_first_of, host_and_port, before_slash, parse_url}
use nanonet.Http.Url.{IsUrl, url_of, port_of}

take-drop : (n : ℕ) (s : Bytes) → take n s ++ drop n s ≡ s
take-drop zero s = refl
take-drop (suc n) [] = refl
take-drop (suc n) (c ∷ s) = ap (λ l. c ∷ l) (take-drop n s)

-- What a position that was found says.
pub record Found (s : Bytes) (c i : ℕ) : Type 0 where
  pub behind : Bytes
  pub whole : take i s ++ c ∷ behind ≡ s
  pub from_there : drop i s ≡ c ∷ behind
  pub next : drop (i + 1) s ≡ behind
  pub free : count c (take i s) ≡ 0
  pub sized : length (take i s) ≡ i

abbrev FindResult : Bytes → ℕ → Option ℕ → Type 0
FindResult s c none = count c s ≡ 0
FindResult s c (some i) = Found s c i

find_later :
    (d : ℕ) (s : Bytes) (c : ℕ) (r : Option ℕ)
    → (d == c) ≡ false
    → FindResult s c r
    → FindResult (d ∷ s) c (elim r [ none ↦ none | some i ↦ some (suc i) ])
find_later d s c none other f = ground arith
find_later d s c (some i) other f =
    let shift : suc i + 1 ≡ suc (i + 1) = omega arith in
    record {
      behind = f.behind;
      whole = ap (λ l. d ∷ l) f.whole;
      from_there = f.from_there;
      next = rw shift f.next;
      free = ground (arith, f.free);
      sized = ap suc f.sized;
    }

find_first_of-FindResult : (s : Bytes) (c : ℕ) → FindResult s c (find_first_of s c)
unfolding find_first_of
find_first_of-FindResult [] c = refl
find_first_of-FindResult (d ∷ s) c = elim (Bool-cases (d == c)) [
  | inl e ↦ rw e (record {
    behind = s;
    whole = ap (λ x. x ∷ s) (sym ((==_iff d c).0 e));
    from_there = ap (λ x. x ∷ s) ((==_iff d c).0 e);
    next = refl;
    free = refl;
    sized = refl;
  })
  | inr other ↦ rw other (find_later d s c (find_first_of s c) other (find_first_of-FindResult s c))
]

-- The URL is that of the target, with its port or with none.
pub record Targets (url : Bytes) (t : Target) : Type 0 where
  pub port : Option Bytes
  pub rest : Bytes
  pub is_url : IsUrl t.host port
  pub url_is : url ≡ url_of t.host port rest
  pub port_is : t.port ≡ port_of port
  pub path_is : t.path ≡ b'/' ∷ rest

host_and_port-Targets :
    (url hostport rest : Bytes) (r : Option ℕ) (t : Target)
    → FindResult hostport b':' r
    → url ≡ codes "http://" ++ hostport ++ b'/' ∷ rest
    → count b'/' hostport ≡ 0
    → 0 < length hostport
    → host_and_port hostport (b'/' ∷ rest) r ≡ ok t
    → Targets url t
host_and_port-Targets url hostport rest none t f e free some_host h =
    let made : record { host = hostport; port = codes "80"; path = b'/' ∷ rest } ≡ t = cc h in
    rw (sym made) (record {
      port = none;
      rest = rest;
      is_url = record { some_host = some_host; no_slash_in = free; no_colon_in = f; is_port = tt };
      url_is = e;
      port_is = refl;
      path_is = refl;
    })
host_and_port-Targets url hostport rest (some colon) t f e free some_host h =
    elim (Bool-cases (length hostport - 1 == colon)) [
      | inl bad ↦ absurd (cc (rw bad at h))
      | inr port_there ↦ elim (Bool-cases (0 == colon)) [
        | inl bad ↦ absurd (cc (rw (port_there, bad) at h))
        | inr host_there ↦
            let made : record {
              host = take colon hostport;
              port = drop (colon + 1) hostport;
              path = b'/' ∷ rest;
            }
                ≡ t =
              cc (rw (port_there, host_there) at h) in
            let size = length-append (take colon hostport) (b':' ∷ f.behind) in
            let whole_size = ap length f.whole in
            let slashes = count-append b'/' (take colon hostport) (b':' ∷ f.behind) in
            let whole_slashes = ap (count b'/') f.whole in
            rw (sym made) (record {
              port = some f.behind;
              rest = rest;
              is_url = record {
                some_host = ground (arith, f.sized);
                no_slash_in = omega (arith, slashes, whole_slashes, free);
                no_colon_in = f.free;
                is_port = (
                  ground (arith, f.sized, size, whole_size),
                  omega (arith, slashes, whole_slashes, free),
                );
              };
              url_is = e ∙ ap (λ l. codes "http://" ++ l ++ b'/' ∷ rest) (sym f.whole);
              port_is = f.next;
              path_is = refl;
            })
      ]
    ]

before_slash-Targets :
    (url after : Bytes) (r : Option ℕ) (t : Target)
    → url ≡ codes "http://" ++ after
    → FindResult after b'/' r
    → before_slash after r ≡ ok t
    → Targets url t
before_slash-Targets url after none t e f h = absurd (cc h)
before_slash-Targets url after (some slash) t e f h = elim (Bool-cases (0 == slash)) [
  | inl bad ↦ absurd (cc (rw bad at h))
  | inr there ↦
      host_and_port-Targets url (take slash after) f.behind (find_first_of (take slash after) b':')
        t (find_first_of-FindResult (take slash after) b':')
        (e ∙ ap (λ l. codes "http://" ++ l) (sym f.whole)) f.free (ground (arith, f.sized))
        (rw (there, f.from_there) at h)
]

-- A URL that `wget` takes apart is that of the target: a host and a port, both not empty as its
-- assertions say, without a slash and the host without a colon; if the URL names no port, it is 80.
pub parse_url-Targets : (url : Bytes) (t : Target) → parse_url url ≡ ok t → Targets url t
unfolding parse_url
parse_url-Targets url t h = elim (Bool-cases (equal (codes "http://") (take 7 url))) [
  | inr bad ↦ absurd (cc (rw bad at h))
  | inl scheme ↦
      before_slash-Targets url (drop 7 url) (find_first_of (drop 7 url) b'/') t
        (sym (take-drop 7 url)
          ∙ ap (λ l. l ++ drop 7 url) (sym ((equal_iff (codes "http://") (take 7 url)).0 scheme)))
        (find_first_of-FindResult (drop 7 url) b'/') (rw scheme at h)
]
