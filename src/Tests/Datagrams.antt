-- ===== src/Tests/Datagrams.antt =====
-- A kernel whose state counts the calls. Addresses below 100 are of the first family, and a name has
-- one of each family.
use nanonet.Common.{
  sym, ==_iff, ℕ, ◌+◌, ◌≡◌, refl, arith, inl, inr, Bool, true, false, none, some, List, [], ◌∷◌,
  ◌==◌, ltb, if◌then◌else◌, codes, ok, Bool-cases,
}
use nanonet.Network.{opened, closed}
use nanonet.Network.LowLevel.{interrupted, failed, done, Kernel}
use nanonet.Network.Families.{ip_unspec, ipv4, ipv6}
use nanonet.Network.Address.{
  AddrInfo, Hints, Names, address_to_string, numeric_text, my_getaddrinfo,
}
use nanonet.Network.Address.Resolving.{Answers, IsDocumented}
use nanonet.Network.Datagrams.{
  Packets, unbound, by_service, Udp, datagram_socket, resolve_datagram, resolved,
}
use nanonet.Network.Datagrams.Creation.{Opens, datagram_socket-Opens}
use nanonet.Network.Datagrams.Sending.{
  connect_name, send_name, connect_address, send_same_family, act_on, first_of_family,
  send_name-first_of_family,
}
use nanonet.Network.Datagrams.Receiving.{receive_internal}
use nanonet.Network.Datagrams.Receiving.Results.{
  Fits, FitsBuffer, ReceiveResult, receive_internal-ReceiveResult,
}

abbrev kernel : Kernel
kernel = record {
  State = ℕ;
  Address = ℕ;
  family = λ a. if ltb a 100 then 2 else 10;
  af_inet = 2;
  af_inet6 = 10;
  socket = λ family s. (s + 1, done s);
  bind = λ fd a s. (s + 1, done 0);
  listen = λ fd s. (s + 1, done 0);
  getsockname = λ fd s. (s, ok 3);
  close = λ fd s. s + 1;
  connect = λ fd a s. (s + 1, done 0);
  accept = λ fd s. (s + 1, done 7);
  poll = λ fd t s. (s + 1, done 1);
  get_sockopt_error = λ fd s. (s + 1, done 0);
  get_flags = λ fd s. (s + 1, true);
  set_flags = λ fd enable s. (s + 1, true);
  einprogress = 115;
}

abbrev info : ℕ → Hints → AddrInfo kernel
info a hints = record { ai_socktype = hints.ai_socktype; ai_addr = a }

abbrev listing : Hints → ℕ × List (AddrInfo kernel)
listing hints =
    if hints.ai_family == 0
    then (0, info 105 hints ∷ info 7 hints ∷ [])
    else if hints.ai_family == 2
    then (0, info 7 hints ∷ [])
    else if hints.ai_family == 10
    then (0, info 105 hints ∷ [])
    else (8, [])

abbrev names : Names kernel
names = record {
  sin_port = λ a. a;
  s_addr = λ a. 127;
  sin6_port = λ a. a;
  sin6_addr = λ a. 0 ∷ 1 ∷ [];
  af_unspec = 0;
  sock_dgram = 2;
  sock_stream = 1;
  ipproto_udp = 17;
  ipproto_tcp = 6;
  getaddrinfo = λ name service hints s. (s + 1, listing hints);
  freeaddrinfo = λ l s. s + 1;
  getnameinfo = λ a name flags s. (s + 1, ok (if name then codes "::1" else codes "80"));
}

listing_lem : (hints : Hints) → Answers names hints (listing hints)
listing_lem hints = elim (Bool-cases (hints.ai_family == 0)) [
  | inl any ↦
      let e = (==_iff hints.ai_family 0).0 any in rw any ((refl, inl e), ((refl, inl e), tt))
  | inr given ↦ elim (Bool-cases (hints.ai_family == 2)) [
    | inl four ↦ rw (given, four) ((refl, inr (sym ((==_iff hints.ai_family 2).0 four))), tt)
    | inr other ↦ elim (Bool-cases (hints.ai_family == 10)) [
      | inl six ↦ rw (given, other, six) ((refl, inr (sym ((==_iff hints.ai_family 10).0 six))), tt)
      | inr unknown ↦ rw (given, other, unknown) refl
    ]
  ]
]

names-IsDocumented : IsDocumented names
names-IsDocumented = record { answers = λ name service hints s. listing_lem hints }

-- The first `recvfrom` is interrupted, and setting an option fails from call 9 on.
abbrev packets : Packets kernel
packets = record {
  names = names;
  setsockopt = λ fd option enable s. (s + 1, if ltb s 9 then none else some 22);
  select = λ fd t s. (s + 1, if t == 0 then done 0 else done 1);
  recvfrom = λ fd max s. (
    s + 1,
    record {
      source = 5;
      reply = if ltb s 2 then interrupted else if ltb max 2 then failed 90 else done 2;
      bytes = 65 ∷ 66 ∷ [];
    },
  );
  send = λ fd bytes s. (s + 1, done 2);
  sendto = λ fd a bytes s. (s + 1, done 2);
  econnrefused = 111;
  rounds = 5;
}

fits_lem :
    (max : ℕ) (interrupts fails : Bool)
    → ltb max 2 ≡ fails
    → Fits packets max
        (record {
          source = 5;
          reply = if interrupts then interrupted else if fails then failed 90 else done 2;
          bytes = 65 ∷ 66 ∷ [];
        })
        (if interrupts then interrupted else if fails then failed 90 else done 2)
fits_lem max true fails h = tt
fits_lem max false true h = tt
fits_lem max false false h = (refl, ground arith)

packets-FitsBuffer : FitsBuffer packets
packets-FitsBuffer = record { fits = λ fd max s. fits_lem max (ltb s 2) (ltb max 2) refl }

abbrev start : Udp packets
start = record { state = record { state = 0; nonblocking = λ fd. false; accepted = [] }; log = [] }

abbrev late : Udp packets
late = record { state = record { state = 8; nonblocking = λ fd. false; accepted = [] }; log = [] }

text_of_address : (address_to_string names 2 105 0).1 ≡ ok (codes "[::1]:80")
unfolding address_to_string numeric_text
text_of_address = refl

closed_late : (datagram_socket packets (unbound ipv4) late).0.log ≡ closed 8 ∷ opened 8 ∷ []
unfolding datagram_socket
closed_late = refl

datagram_socket-Opens_example :
    Opens packets late (datagram_socket packets (by_service ipv6 (codes "80")) late)
datagram_socket-Opens_example = datagram_socket-Opens packets (by_service ipv6 (codes "80")) late

send_name-first_of_family_example :
    (connect_name packets 0 (codes "host") (codes "80") start
      ≡ resolved packets start
          (resolve_datagram packets (some (codes "host")) (codes "80") ip_unspec start)
          (λ la w. act_on packets (connect_address packets 0) w (first_of_family packets 2 la)))
    × (send_name packets 0 (65 ∷ 66 ∷ []) (codes "host") (codes "80") start
        ≡ resolved packets start
            (resolve_datagram packets (some (codes "host")) (codes "80") ip_unspec start)
            (λ la w.
              act_on packets
                (send_same_family packets 0 (65 ∷ 66 ∷ []))
                w
                (first_of_family packets 2 la)))
send_name-first_of_family_example =
    send_name-first_of_family packets 0 3 (65 ∷ 66 ∷ []) (codes "host") (codes "80") start refl

sent_to_second : (send_name packets 0 (65 ∷ 66 ∷ []) (codes "host") (codes "80") start).1 ≡ ok tt
unfolding send_name my_getaddrinfo
sent_to_second = refl

receive_internal-ReceiveResult_example :
    ReceiveResult packets 0
      (some 1)
      (some 3)
      100
      0
      (receive_internal packets 0 (some 1) (some 3) 100 start)
receive_internal-ReceiveResult_example =
    receive_internal-ReceiveResult packets 0 100 (some 1) (some 3) start packets-FitsBuffer
      (ground arith)

received :
    (receive_internal packets 0 (some 1) (some 3) 100 start).1 ≡ (some 5, ok (2, 65 ∷ 66 ∷ []))
unfolding receive_internal
received = refl
