-- ===== src/Network/Address.antt =====
-- The socket addresses of include/nanonet/detail/net-address.h: their comparison, their texts, and the
-- resolution of names. An address is a `sockaddr_storage` with its length, of the operating system,
-- and what the platform's headers and C library say of it is a parameter.
pub mod Endpoints
pub mod Resolving
use nanonet.Common.{
  ℕ, zero, suc, Bool, true, false, not, ◌||◌, ◌&&◌, Option, none, some, List, [], ◌∷◌, ◌++◌, ◌==◌,
  Bytes, equal, if◌then◌else◌, length, ltb, Outcome, ok, throws,
}
use nanonet.Network.LowLevel.{Kernel}

-- `struct addrinfo`, as `getaddrinfo` gives it; the list is null if it is empty.
pub record AddrInfo (k : Kernel) : Type 0 where
  pub ai_socktype : ℕ
  pub ai_addr : k.Address

-- `hints`, with whether AI_PASSIVE is set, and the flags of `getnameinfo`.
pub record Hints : Type 0 where
  pub ai_passive : Bool
  pub ai_family : ℕ
  pub ai_socktype : ℕ
  pub ai_protocol : ℕ

pub record NameFlags : Type 0 where
  pub ni_numerichost : Bool
  pub ni_numericserv : Bool
  pub ni_namereqd : Bool
  pub ni_nofqdn : Bool
  pub ni_dgram : Bool

pub record Names (k : Kernel) : Type 0 where
  -- `as_sockaddr_in()` and `as_sockaddr_in6()`
  pub sin_port : k.Address → ℕ
  pub s_addr : k.Address → ℕ
  pub sin6_port : k.Address → ℕ
  pub sin6_addr : k.Address → Bytes
  pub af_unspec : ℕ
  pub sock_dgram : ℕ
  pub sock_stream : ℕ
  pub ipproto_udp : ℕ
  pub ipproto_tcp : ℕ
  -- The error, or 0, and the list. A null text is `none`.
  pub getaddrinfo :
      Option Bytes → Option Bytes → Hints → k.State → k.State × (ℕ × List (AddrInfo k))
  pub freeaddrinfo : List (AddrInfo k) → k.State → k.State
  -- The text of the node (true) or of the service, or the error.
  pub getnameinfo : k.Address → Bool → NameFlags → k.State → k.State × Outcome ℕ Bytes

pub data NameError : Type 0 where
  assertion_failure : NameError
  -- "can't resolve ", with the node, if there is one, the service, and the error of `getaddrinfo`.
  cannot_resolve : Option Bytes → Bytes → ℕ → NameError
  -- "can't get name associated with ", with the node (true) or the service.
  no_name : Bool → ℕ → NameError
  -- Of the model alone: a null pointer is read as a text.
  null_text : NameError

module _ {k : Kernel} (n : Names k) where
  unfoldable pub differs : k.Address → k.Address → Bool
  differs a1 a2 =
      if not (k.family a1 == k.family a2)
      then true
      else if k.af_inet == k.family a1
      then not (n.sin_port a1 == n.sin_port a2) || not (n.s_addr a1 == n.s_addr a2)
      else not (n.sin6_port a1 == n.sin6_port a2) || not (equal (n.sin6_addr a1) (n.sin6_addr a2))

  -- `operator==`
  unfoldable pub same_address : k.Address → k.Address → Bool
  unfolding differs
  same_address a1 a2 = not (differs a1 a2)

  name_found : Bool → k.State × Outcome ℕ Bytes → k.State × Outcome NameError Bytes
  name_found node (s, ok text) = (s, ok text)
  name_found node (s, throws err) = (s, throws (no_name node err))

  -- Of an address of a type of socket.
  unfoldable pub my_getnameinfo :
      ℕ → k.Address → Bool → Bool → Bool → k.State → k.State × Outcome NameError Bytes
  unfolding name_found
  my_getnameinfo type a node numeric fqdn s =
      let flags : NameFlags = record {
        ni_numerichost = numeric;
        ni_numericserv = numeric;
        ni_namereqd = not numeric;
        ni_nofqdn = not fqdn;
        ni_dgram = n.sock_dgram == type;
      } in
      name_found node (n.getnameinfo a node flags s)

  checked_name :
      k.Address
      → (k.State → k.State × Outcome NameError Bytes)
      → k.State
      → k.State × Outcome NameError Bytes
  checked_name a text s =
      if k.af_inet == k.family a || k.af_inet6 == k.family a
      then text s
      else (s, throws assertion_failure)

  pub fqdn : ℕ → k.Address → k.State → k.State × Outcome NameError Bytes
  unfolding checked_name my_getnameinfo
  fqdn type a = checked_name a (my_getnameinfo type a true false true)

  pub host_name : ℕ → k.Address → k.State → k.State × Outcome NameError Bytes
  unfolding checked_name my_getnameinfo
  host_name type a = checked_name a (my_getnameinfo type a true false false)

  pub port_name : ℕ → k.Address → k.State → k.State × Outcome NameError Bytes
  unfolding checked_name my_getnameinfo
  port_name type a = checked_name a (my_getnameinfo type a false false false)

  unfoldable pub host : ℕ → k.Address → k.State → k.State × Outcome NameError Bytes
  unfolding checked_name my_getnameinfo
  host type a = checked_name a (my_getnameinfo type a true true false)

  unfoldable pub port : ℕ → k.Address → k.State → k.State × Outcome NameError Bytes
  unfolding my_getnameinfo
  port type a = my_getnameinfo type a false true false

  -- The text of an address, from its host and its port.
  unfoldable pub numeric_text : Bool → Bytes → Bytes → Bytes
  numeric_text six host_text port_text =
      if six then b'[' ∷ (host_text ++ b']' ∷ b':' ∷ port_text) else host_text ++ b':' ∷ port_text

  with_port : Bool → Bytes → k.State × Outcome NameError Bytes → k.State × Outcome NameError Bytes
  unfolding numeric_text
  with_port six host_text (s, ok port_text) = (s, ok (numeric_text six host_text port_text))
  with_port six host_text (s, throws e) = (s, throws e)

  with_host : ℕ → k.Address → k.State × Outcome NameError Bytes → k.State × Outcome NameError Bytes
  unfolding with_port port
  with_host type a (s, ok host_text) =
      with_port (k.af_inet6 == k.family a) host_text (port type a s)
  with_host type a (s, throws e) = (s, throws e)

  unfoldable pub address_to_string : ℕ → k.Address → k.State → k.State × Outcome NameError Bytes
  unfolding with_host host
  address_to_string type a s = with_host type a (host type a s)

  -- `my_getaddrinfo`: the loop over the list.
  collect : ℕ → List (AddrInfo k) → Outcome NameError (List k.Address)
  collect type [] = ok []
  collect type (p ∷ ps) =
      let rest = collect type ps in
      if type == p.ai_socktype
      then elim rest [ ok ret ↦ ok (p.ai_addr ∷ ret) | throws e ↦ throws e ]
      else throws assertion_failure

  -- Behind it.
  give :
      List (AddrInfo k)
      → k.State
      → Outcome NameError (List k.Address)
      → k.State × Outcome NameError (List k.Address)
  give [] s (ok ret) = (s, throws assertion_failure)
  give (p ∷ res) s (ok ret) =
      let s' = n.freeaddrinfo (p ∷ res) s in
      if ltb 0 (length ret) then (s', ok ret) else (s', throws assertion_failure)
  give res s (throws e) = (s, throws e)

  resolve_error : Option Bytes → Option Bytes → ℕ → NameError
  resolve_error nodename (some service) err = cannot_resolve nodename service err
  resolve_error nodename none err = null_text

  answered :
      ℕ
      → Option Bytes
      → Option Bytes
      → k.State × (ℕ × List (AddrInfo k))
      → k.State × Outcome NameError (List k.Address)
  unfolding collect give resolve_error
  answered type nodename service (s, (zero, res)) = give res s (collect type res)
  answered type nodename service (s, (suc e, [])) =
      (s, throws (resolve_error nodename service (suc e)))
  answered type nodename service (s, (suc e, p ∷ ps)) = (s, throws assertion_failure)

  is_given : Option Bytes → Bool
  is_given none = false
  is_given (some text) = true

  unfoldable pub hints_for : ℕ → Option Bytes → ℕ → Hints
  unfolding is_given
  hints_for type nodename family_hint = record {
    ai_passive = not (is_given nodename);
    ai_family = family_hint;
    ai_socktype = type;
    ai_protocol = if n.sock_dgram == type then n.ipproto_udp else n.ipproto_tcp;
  }

  unfoldable pub my_getaddrinfo :
      ℕ → Option Bytes → Option Bytes → ℕ → k.State → k.State × Outcome NameError (List k.Address)
  unfolding is_given answered hints_for
  my_getaddrinfo type nodename service family_hint s =
      if (n.sock_dgram == type || n.sock_stream == type) && (is_given nodename || is_given service)
      then answered type nodename service
          (n.getaddrinfo nodename service (hints_for type nodename family_hint) s)
      else (s, throws assertion_failure)
