-- ===== src/Resource/Ledger.antt =====
-- What becomes of the handles that `auto_resource` of include/nanonet/util.h is given, by any measure.
use nanonet.Common.{
  ℕ, zero, suc, ◌+◌, ◌≡◌, refl, arith, false, Option, none, some, List, [], ◌∷◌, ◌++◌, get_elem?,
  Bool-cases, inl, inr,
}
use nanonet.Resource.{
  no_resources, Traits, Resources, Use, make, take_handle, move_from, move_assign, reset, destroy,
  replace, holding, get, put_object, add_object, dispose, release, use_resource, then_use, use_all,
}

module _ {A : Type 0} (g : A → ℕ) where
  abbrev pub total : List A → ℕ
  total [] = 0
  total (x ∷ xs) = g x + total xs

  abbrev pub amount : Option A → ℕ
  amount none = 0
  amount (some a) = g a

  total-append : (xs : List A) (a : A) → total (xs ++ a ∷ []) ≡ total xs + g a
  total-append [] a = omega arith
  total-append (x ∷ xs) a = omega (arith, total-append xs a)

  total-replace :
      (i : ℕ) (new old : A) (xs : List A)
      → get_elem? xs i ≡ some old
      → total (replace i new xs) + g old ≡ total xs + g new
  unfolding replace
  total-replace i new old [] h = absurd (cc h)
  total-replace zero new old (x ∷ xs) h = let e : x ≡ old = cc h in rw e (omega arith)
  total-replace (suc i) new old (x ∷ xs) h = omega (arith, total-replace i new old xs h)

  replace_there :
      (i j : ℕ) (new old : A) (xs : List A)
      → get_elem? xs i ≡ some old
      → (a : A) × (get_elem? (replace j new xs) i ≡ some a)
  unfolding replace
  replace_there i j new old [] h = absurd (cc h)
  replace_there zero zero new old (x ∷ xs) h = (new, refl)
  replace_there zero (suc j) new old (x ∷ xs) h = (x, refl)
  replace_there (suc i) zero new old (x ∷ xs) h = (old, h)
  replace_there (suc i) (suc j) new old (x ∷ xs) h = replace_there i j new old xs h

module _ {t : Traits} (f : t.Handle → ℕ) where
  -- What the objects hold, and it with what was disposed of.
  abbrev pub held : Resources t → ℕ
  held s = total (amount f) s.objects

  abbrev account : Resources t → ℕ
  account s = total f s.disposed + held s

  -- The handle that a move assignment overwrites: what the object holds once the other is released.
  overwritten : Use t → Resources t → ℕ
  unfolding get release put_object
  overwritten (move_assign i j) s = amount (amount f) (get i (release j s))
  overwritten _ s = 0

  -- Of a list of uses.
  unfoldable pub lost : List (Use t) → Resources t → ℕ
  unfolding overwritten use_resource
  lost [] s = 0
  lost (u ∷ us) s = overwritten u s + amount (lost us) (use_resource u s)

  abbrev Accounts : ℕ → Resources t → Option (Resources t) → Type 0
  Accounts gone s none = Unit
  Accounts gone s (some s') = total f s'.given + account s ≡ account s' + gone + total f s.given

  chained :
      (gone more : ℕ) (s s' : Resources t) (o : Option (Resources t))
      → Accounts gone s (some s')
      → Accounts more s' o
      → Accounts (gone + more) s o
  chained gone more s s' none h k = tt
  chained gone more s s' (some s2) h k = omega (arith, h, k)

  holding-Accounts :
      (gone : ℕ) (s : Resources t) (o : Option (Option t.Handle))
      (next : t.Handle → Option (Resources t))
      → ((h : t.Handle) → o ≡ some (some h) → Accounts gone s (next h))
      → Accounts gone s (holding o next)
  unfolding holding
  holding-Accounts gone s none next h = tt
  holding-Accounts gone s (some none) next h = tt
  holding-Accounts gone s (some (some a)) next h = h a refl

  module _ (nothing : (h : t.Handle) → t.valid h ≡ false → f h ≡ 0)
      (invalid_given : t.valid t.invalid ≡ false) where
    nothing_held : f t.invalid ≡ 0
    nothing_held = nothing t.invalid invalid_given

    dispose_lem :
        (h : t.Handle) (s : Resources t)
        → (total f (dispose h s).disposed ≡ f h + total f s.disposed)
          × ((dispose h s).objects ≡ s.objects)
          × ((dispose h s).given ≡ s.given)
    unfolding dispose
    dispose_lem h s = elim (Bool-cases (t.valid h)) [
      | inl some_handle ↦ rw some_handle (refl, refl, refl)
      | inr no_handle ↦ rw no_handle (omega (arith, nothing h no_handle), refl, refl)
    ]

    use_resource-Accounts :
        (u : Use t) (s : Resources t) → Accounts (overwritten u s) s (use_resource u s)
    unfolding use_resource add_object put_object release get overwritten
    use_resource-Accounts make s =
        omega (arith, total-append (amount f) s.objects (some t.invalid), nothing_held)
    use_resource-Accounts (take_handle h) s =
        omega (arith, total-append (amount f) s.objects (some h))
    use_resource-Accounts (move_from j) s = holding-Accounts 0 s (get j s) _ λ h e. omega (
      arith,
      total-append (amount f) (replace j (some t.invalid) s.objects) (some h),
      total-replace (amount f) j (some t.invalid) (some h) s.objects e,
      nothing_held,
    )
    use_resource-Accounts (move_assign i j) s = holding-Accounts _ s (get i s) _ λ old there.
        holding-Accounts _ s (get j s) _ λ h e.
          let (before, now) =
            replace_there (amount f) i j (some t.invalid) (some old) s.objects there in
          rw now (
            omega (
              arith,
              total-replace (amount f) i (some h) before (replace j (some t.invalid) s.objects) now,
              total-replace (amount f) j (some t.invalid) (some h) s.objects e,
              nothing_held,
            ))
    use_resource-Accounts (reset i h) s = holding-Accounts 0 s (get i s) _ λ old e.
        let (gone, same, as_given) = dispose_lem old (record s { given = h ∷ s.given }) in
        rw (gone, same, as_given)
          (omega (arith, total-replace (amount f) i (some h) (some old) s.objects e))
    use_resource-Accounts (destroy i) s = holding-Accounts 0 s (get i s) _ λ old e.
        let (gone, same, as_given) = dispose_lem old s in
        rw (gone, same, as_given)
          (omega (arith, total-replace (amount f) i none (some old) s.objects e))

    then_use-Accounts :
        (gone : ℕ) (rest : List (Use t)) (s : Resources t) (o : Option (Resources t))
        → Accounts gone s o
        → ((s' : Resources t) → Accounts (lost rest s') s' (use_all rest s'))
        → Accounts (gone + amount (lost rest) o) s (then_use o (use_all rest))
    unfolding then_use
    then_use-Accounts gone rest s none h k = tt
    then_use-Accounts gone rest s (some s') h k =
        chained gone (lost rest s') s s' (use_all rest s') h (k s')

    use_all-Accounts : (us : List (Use t)) (s : Resources t) → Accounts (lost us s) s (use_all us s)
    unfolding use_all lost
    use_all-Accounts [] s = omega arith
    use_all-Accounts (u ∷ us) s =
        then_use-Accounts (overwritten u s) us s (use_resource u s) (use_resource-Accounts u s)
          (use_all-Accounts us)

    -- By any measure of handles that counts only valid ones, the invalid handle not being one: whatever is
    -- done with the objects of `auto_resource`, in any order, starting with none, what constructors and
    -- `reset` were given is what was disposed of, with what the objects still hold, and with what move
    -- assignments have overwritten in objects that held something else. So each handle is disposed of
    -- exactly as often as it is given, once all objects are destroyed, but for those overwritten, which are never
    -- disposed of.
    pub use_all_accounted :
        (us : List (Use t)) (s : Resources t)
        → use_all us no_resources ≡ some s
        → total f s.given ≡ total f s.disposed + held s + lost us no_resources
    use_all_accounted us s h = let k = use_all-Accounts us no_resources in omega (arith, rw h at k)
