-- ===== src/Network/Address/Endpoints.antt =====
-- The comparison of addresses of include/nanonet/detail/net-address.h.
use nanonet.Common.{
  ℕ, ◌≡◌, ◌↔◌, refl, ap, Bool, true, false, not, ◌||◌, Bytes, [], ◌∷◌, ◌==◌, equal, equal_iff,
  ==_iff, if◌then◌else◌, Bool-cases, inl, inr,
}
use nanonet.Network.LowLevel.{Kernel}
use nanonet.Network.Address.{Names, differs, same_address}

negated : (a : Bool) → (not a ≡ false) ↔ (a ≡ true)
negated true = (λ h. refl, λ h. refl)
negated false = (λ h. absurd (cc h), λ h. absurd (cc h))

or_false : (a b : Bool) → ((not a || not b) ≡ false) ↔ ((a ≡ true) × (b ≡ true))
or_false true b = ((λ h. (refl, (negated b).0 h)), (λ h. (negated b).1 h.1))
or_false false b = ((λ h. absurd (cc h)), (λ h. absurd (cc h.0)))

refuted : (a : Bool) → not a ≡ true → a ≡ false
refuted true h = absurd (cc h)
refuted false h = refl

four_lem :
    (f p x q y : ℕ)
    → ((not (p == q) || not (x == y)) ≡ false)
      ↔ (◌≡◌ {A = ℕ × (ℕ × Bytes)} (f, (p, x ∷ [])) (f, (q, y ∷ [])))
four_lem f p x q y = (
  (λ h.
      let (e, d) = (or_false (p == q) (x == y)).0 h in
      let e' : p ≡ q = (==_iff p q).0 e in let d' : x ≡ y = (==_iff x y).0 d in rw (e', d') refl),
  (λ h.
      (or_false (p == q) (x == y)).1
        ((==_iff p q).1 (ap (λ t. t.1.0) h), (==_iff x y).1 (head_same x y (ap (λ t. t.1.1) h)))),
)
  where
    head_same : (a b : ℕ) → a ∷ [] ≡ b ∷ [] → a ≡ b
    head_same a b e = cc e

six_lem :
    (f p q : ℕ) (xs ys : Bytes)
    → ((not (p == q) || not (equal xs ys)) ≡ false)
      ↔ (◌≡◌ {A = ℕ × (ℕ × Bytes)} (f, (p, xs)) (f, (q, ys)))
six_lem f p q xs ys = (
  (λ h.
      let (e, d) = (or_false (p == q) (equal xs ys)).0 h in
      let e' : p ≡ q = (==_iff p q).0 e in
      let d' : xs ≡ ys = (equal_iff xs ys).0 d in rw (e', d') refl),
  (λ h.
      (or_false (p == q) (equal xs ys)).1
        ((==_iff p q).1 (ap (λ t. t.1.0) h), (equal_iff xs ys).1 (ap (λ t. t.1.1) h))),
)

module _ {k : Kernel} (n : Names k) where
  -- The family, the port and the number of the host, in that family.
  abbrev pub endpoint : k.Address → ℕ × (ℕ × Bytes)
  endpoint a =
      if k.af_inet == k.family a
      then (k.family a, (n.sin_port a, n.s_addr a ∷ []))
      else (k.family a, (n.sin6_port a, n.sin6_addr a))

  endpoint-family : (a b : k.Address) → endpoint a ≡ endpoint b → k.family a ≡ k.family b
  endpoint-family a b h = elim (Bool-cases (k.af_inet == k.family a)) [
    | inl four ↦ elim (Bool-cases (k.af_inet == k.family b)) [
      | inl also ↦ cc (rw (four, also) at h)
      | inr other ↦ cc (rw (four, other) at h)
    ]
    | inr six ↦ elim (Bool-cases (k.af_inet == k.family b)) [
      | inl also ↦ cc (rw (six, also) at h)
      | inr other ↦ cc (rw (six, other) at h)
    ]
  ]

  differs_iff : (a b : k.Address) → (differs n a b ≡ false) ↔ (endpoint a ≡ endpoint b)
  unfolding differs
  differs_iff a b = elim (Bool-cases (k.family a == k.family b)) [
    | inr other ↦ rw other (
      (λ h. absurd (cc h)),
      (λ h. absurd (cc (other, (==_iff (k.family a) (k.family b)).1 (endpoint-family a b h)))),
    )
    | inl alike ↦
        let same : k.family b ≡ k.family a = cc ((==_iff (k.family a) (k.family b)).0 alike) in
        elim (Bool-cases (k.af_inet == k.family a)) [
          | inl four ↦
              rw (alike, same, four)
                (four_lem (k.family a) (n.sin_port a) (n.s_addr a) (n.sin_port b) (n.s_addr b))
          | inr six ↦
              rw (alike, same, six)
                (six_lem (k.family a) (n.sin6_port a) (n.sin6_port b) (n.sin6_addr a)
                  (n.sin6_addr b))
        ]
  ]

  -- `operator==` of two addresses holds exactly when they have the same family, the same port and the
  -- same number of the host, so that it is an equivalence.
  pub same_address_iff : (a b : k.Address) → (same_address n a b ≡ true) ↔ (endpoint a ≡ endpoint b)
  unfolding same_address
  same_address_iff a b =
      let (sound, complete) = differs_iff a b in
      ((λ h. sound (refuted (differs n a b) h)), (λ h. rw (complete h) refl))
