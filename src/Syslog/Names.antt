-- ===== src/Syslog/Names.antt =====
-- The names of priorities in src/sys/syslogger.cpp.
use nanonet.Common.{
  ℕ, zero, suc, ◌+◌, ◌≡◌, refl, sym, ap, ◌∙◌, arith, ◌↔◌, ◌⊎◌, inl, inr, some, List, [], ◌∷◌,
  get_elem?, Bytes, equal, equal_iff, Bool-cases, Outcome, ok, throws,
}
use nanonet.Syslog.{
  Prio, emerg, alert, crit, err, warning, notice, info, debug, from_level, prionames, to_string,
  find_prio, prio_from_string,
}

-- Names are read back as the priorities that have them.
prio_from_string-to_string : (p : Prio) → prio_from_string (to_string p) ≡ ok p
unfolding prio_from_string to_string equal
prio_from_string-to_string emerg = refl
prio_from_string-to_string alert = refl
prio_from_string-to_string crit = refl
prio_from_string-to_string err = refl
prio_from_string-to_string warning = refl
prio_from_string-to_string notice = refl
prio_from_string-to_string info = refl
prio_from_string-to_string debug = refl

find_prio_sound :
    (s : Bytes) (i : ℕ) (names : List Bytes) (p : Prio)
    → find_prio s i names ≡ ok p
    → (j : ℕ) × (get_elem? names j ≡ some s) × (p ≡ from_level (i + j))
unfolding find_prio
find_prio_sound s i [] p h = absurd (cc h)
find_prio_sound s i (name ∷ names) p h = elim (Bool-cases (equal s name)) [
  | inl same ↦
      let here : i ≡ i + 0 = omega arith in
      (
        0,
        ap some (sym ((equal_iff s name).0 same)),
        ok_injective _ _ (sym (rw same at h)) ∙ ap from_level here,
      )
  | inr other ↦
      let (j, there, e) = find_prio_sound s (suc i) names p (rw other at h) in
      (suc j, there, e ∙ ap from_level (omega arith))
]
  where
    ok_injective : (a b : Prio) → ◌≡◌ {A = Outcome Bytes Prio} (ok a) (ok b) → a ≡ b
    ok_injective a b e = cc e

name_of_level : (j : ℕ) (s : Bytes) → get_elem? prionames j ≡ some s → s ≡ to_string (from_level j)
unfolding to_string
name_of_level zero s e = cc e
name_of_level (suc zero) s e = cc e
name_of_level (suc (suc zero)) s e = cc e
name_of_level (suc (suc (suc zero))) s e = cc e
name_of_level (suc (suc (suc (suc zero)))) s e = cc e
name_of_level (suc (suc (suc (suc (suc zero))))) s e = cc e
name_of_level (suc (suc (suc (suc (suc (suc zero)))))) s e = cc e
name_of_level (suc (suc (suc (suc (suc (suc (suc zero))))))) s e = cc e
name_of_level (suc (suc (suc (suc (suc (suc (suc (suc j)))))))) s e = absurd (cc e)

find_prio_total :
    (s : Bytes) (i : ℕ) (names : List Bytes)
    → ((q : Prio) × (find_prio s i names ≡ ok q)) ⊎ (find_prio s i names ≡ throws s)
unfolding find_prio
find_prio_total s i [] = inr refl
find_prio_total s i (name ∷ names) =
    unfold find_prio in
    elim (Bool-cases (equal s name)) [
      | inl same ↦ inl (from_level i, rw same refl)
      | inr other ↦ rw other (find_prio_total s (suc i) names)
    ]

-- `prio_from_string` gives a priority exactly for its own name, and for any other string it throws an
-- exception that names the string.
pub prio_from_string_iff :
    (s : Bytes) (p : Prio)
    → ((prio_from_string s ≡ ok p) ↔ (s ≡ to_string p))
      × (((q : Prio) × (prio_from_string s ≡ ok q)) ⊎ (prio_from_string s ≡ throws s))
prio_from_string_iff s p = (
  (
    λ h.
        let (j, there, e) = find_prio_sound s 0 prionames p (unfold prio_from_string in h) in
        name_of_level j s there ∙ ap to_string (ap from_level (omega arith) ∙ sym e),
    λ e. rw e (prio_from_string-to_string p),
  ),
  unfold prio_from_string in find_prio_total s 0 prionames,
)
