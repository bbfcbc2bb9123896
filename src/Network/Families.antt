-- ===== src/Network/Families.antt =====
-- Address families and ports of src/sys/net-util.cpp and src/network.cpp.
use nanonet.Common.{
  ℕ, ◌≤◌, ◌≡◌, ◌≢◌, refl, arith, ◌↔◌, Bool, false, ◌||◌, ◌==◌, leb, leb→le, if◌then◌else◌, Bytes,
  equal, codes, ℤ, pos, negsuc, Outcome, ok, throws, Bool-cases, inl, inr,
}

pub data AddressFamily : Type 0 where
  ipv4 ipv6 ip_unspec : AddressFamily

pub data FamilyError : Type 0 where
  unspec_not_allowed unknown_integer port_out_of_range : FamilyError
  unknown_family : Bytes → FamilyError

unfoldable pub address_family : Bytes → Bool → Outcome FamilyError AddressFamily
address_family desc allow_unspec =
    if equal (codes "ip4") desc || equal (codes "ipv4") desc
    then ok ipv4
    else if equal (codes "ip6") desc || equal (codes "ipv6") desc
    then ok ipv6
    else if equal (codes "unspec") desc || equal (codes "any") desc
    then if allow_unspec then ok ip_unspec else throws unspec_not_allowed
    else throws (unknown_family desc)

unfoldable pub check_port_range : ℤ → Outcome FamilyError (Unit {0})
check_port_range (negsuc n) = throws port_out_of_range
check_port_range (pos n) = if leb n 65535 then ok tt else throws port_out_of_range

-- AF_INET, AF_INET6 and AF_UNSPEC.
module _ (af_inet af_inet6 af_unspec : ℕ) where
  unfoldable pub int_address_family : AddressFamily → ℕ
  int_address_family ipv4 = af_inet
  int_address_family ipv6 = af_inet6
  int_address_family ip_unspec = af_unspec

  unfoldable pub from_int_address_family : ℕ → Outcome FamilyError AddressFamily
  from_int_address_family afi =
      if afi == af_inet
      then ok ipv4
      else if afi == af_inet6
      then ok ipv6
      else if afi == af_unspec
      then ok ip_unspec
      else throws unknown_integer

  -- Where the constants differ, the integer of a family is read back as the family.
  from_int_address_family-int_address_family :
      (af : AddressFamily)
      → af_inet ≢ af_inet6
      → af_inet ≢ af_unspec
      → af_inet6 ≢ af_unspec
      → from_int_address_family (int_address_family af) ≡ ok af
  unfolding from_int_address_family int_address_family
  from_int_address_family-int_address_family ipv4 h k l = ground arith
  from_int_address_family-int_address_family ipv6 h k l = ground arith
  from_int_address_family-int_address_family ip_unspec h k l = ground arith

-- The check passes exactly for the numbers from 0 to 65535.
check_port_range_iff :
    (n : ℤ) → (check_port_range n ≡ ok tt) ↔ ((m : ℕ) × (n ≡ pos m) × (m ≤ 65535))
unfolding check_port_range
check_port_range_iff (negsuc n) = (λ h. absurd (cc h), λ r. absurd (cc r.1))
check_port_range_iff (pos n) = elim (Bool-cases (leb n 65535)) [
  | inl small ↦ rw small ((λ h. (n, refl, leb→le n 65535 small)), (λ r. refl))
  | inr large ↦
      rw large
        ((λ h. absurd (cc h)), (λ (m, e, small). absurd (too_large n m (parts n m e) large small)))
]
  where
    parts : (n m : ℕ) → pos n ≡ pos m → n ≡ m
    parts n m e = cc e

    too_large : (n m : ℕ) → n ≡ m → leb n 65535 ≡ false → m ≤ 65535 → ⊥
    too_large n m e large small = ground arith
