-- ===== src/Resource.antt =====
-- `auto_resource` of include/nanonet/util.h, over traits that are a parameter, and `increment_sentry`.
-- The objects stand in the order in which they were made; `none` is one that was destroyed.
pub mod Ledger
pub mod Sentry
use nanonet.Common.{
  ℕ, zero, suc, Bool, Option, none, some, List, [], ◌∷◌, ◌++◌, get_elem?, if◌then◌else◌,
}

-- The type of the handles, and the traits that are not actions.
pub record Traits : Type 1 where
  pub Handle : Type 0
  pub invalid : Handle
  pub valid : Handle → Bool

-- `T::initialize` and `T::dispose` are told by their arguments, the newest first. `given` are the
-- handles that constructors and `reset` were given, which is of the model alone.
pub record Resources (t : Traits) : Type 0 where
  pub objects : List (Option t.Handle)
  pub initialized : List t.Handle
  pub disposed : List t.Handle
  pub given : List t.Handle

-- The two constructors, the move constructor and assignment, `reset` and the destructor.
pub data Use (t : Traits) : Type 0 where
  make : Use t
  take_handle : t.Handle → Use t
  move_from : ℕ → Use t
  move_assign : ℕ → ℕ → Use t
  reset : ℕ → t.Handle → Use t
  destroy : ℕ → Use t

pub replace : {A : Type 0} → ℕ → A → List A → List A
replace i a [] = []
replace zero a (x ∷ xs) = a ∷ xs
replace (suc i) a (x ∷ xs) = x ∷ replace i a xs

module _ {t : Traits} where
  -- What is done with the handle of an object that there is.
  abbrev pub no_resources : Resources t
  no_resources = record { objects = []; initialized = []; disposed = []; given = [] }

  holding : Option (Option t.Handle) → (t.Handle → Option (Resources t)) → Option (Resources t)
  holding (some (some h)) next = next h
  holding (some none) next = none
  holding none next = none

  unfoldable pub get : ℕ → Resources t → Option (Option t.Handle)
  get i s = get_elem? s.objects i

  put_object : ℕ → Option t.Handle → Resources t → Resources t
  unfolding replace
  put_object i h s = record s { objects = replace i h s.objects }

  add_object : t.Handle → Resources t → Resources t
  add_object h s = record s { objects = s.objects ++ some h ∷ [] }

  dispose : t.Handle → Resources t → Resources t
  dispose h s = if t.valid h then record s { disposed = h ∷ s.disposed } else s

  -- `release`, of an object that holds `h`.
  release : ℕ → Resources t → Resources t
  unfolding put_object
  release j s = put_object j (some t.invalid) s

  -- One use; `none`: of an object that there is not.
  unfoldable pub use_resource : Use t → Resources t → Option (Resources t)
  unfolding holding get put_object add_object dispose release
  use_resource make s = some (add_object t.invalid s)
  use_resource (take_handle h) s =
      some (add_object h (record s { initialized = h ∷ s.initialized; given = h ∷ s.given }))
  use_resource (move_from j) s = holding (get j s) λ h. some (add_object h (release j s))
  use_resource (move_assign i j) s =
      holding (get i s) λ old. holding (get j s) λ h. some (put_object i (some h) (release j s))
  use_resource (reset i h) s =
      holding (get i s)
        λ old. some (put_object i (some h) (dispose old (record s { given = h ∷ s.given })))
  use_resource (destroy i) s = holding (get i s) λ old. some (put_object i none (dispose old s))

  then_use : Option (Resources t) → (Resources t → Option (Resources t)) → Option (Resources t)
  then_use none next = none
  then_use (some s) next = next s

  unfoldable pub use_all : List (Use t) → Resources t → Option (Resources t)
  unfolding use_resource then_use
  use_all [] s = some s
  use_all (u ∷ us) s = then_use (use_resource u s) (use_all us)
