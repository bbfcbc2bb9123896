-- ===== src/Resource/Sentry.antt =====
-- `increment_sentry` of include/nanonet/util.h: an `auto_resource` of the pointer to one counter.
use nanonet.Common.{
  ℕ, ◌+◌, ◌-◌, ◌≡◌, refl, arith, Bool, true, false, Option, none, some, List, [], ◌∷◌, map,
  if◌then◌else◌,
}
use nanonet.Resource.{
  Traits, Resources, no_resources, Use, take_handle, move_from, move_assign, destroy, holding, get,
  put_object, add_object, dispose, release, use_resource, then_use, use_all,
}
use nanonet.Resource.Ledger.{total, held, lost, use_all_accounted}

-- `auto_resource_traits_increment_sentry`: whether the pointer is not null.
abbrev pub sentry_traits : Traits
sentry_traits = record { Handle = Bool; invalid = false; valid = λ pi. pi }

-- The constructor, the moves and the destructor.
pub data SentryUse : Type 0 where
  count_up : SentryUse
  sentry_from : ℕ → SentryUse
  sentry_assign : ℕ → ℕ → SentryUse
  leave : ℕ → SentryUse

pub resource_use : SentryUse → Use sentry_traits
resource_use count_up = take_handle true
resource_use (sentry_from j) = move_from j
resource_use (sentry_assign i j) = move_assign i j
resource_use (leave i) = destroy i

unfoldable pub use_sentries : List SentryUse → Option (Resources sentry_traits)
unfolding resource_use use_all
use_sentries us = use_all (map resource_use us) no_resources

-- `initialize` and `dispose`: what they add to or take from the counter.
abbrev pub step_of : Bool → ℕ
step_of pi = if pi then 1 else 0

-- The value of the counter, from the value at the start.
unfoldable pub counter : ℕ → Resources sentry_traits → ℕ
counter value s = value + total step_of s.initialized - total step_of s.disposed

-- Each handle that was given was initialized.
abbrev Told : Option (Resources sentry_traits) → Type 0
Told none = Unit
Told (some s) = s.initialized ≡ s.given

holding-Told :
    (o : Option (Option Bool)) (next : Bool → Option (Resources sentry_traits))
    → ((h : Bool) → Told (next h))
    → Told (holding o next)
unfolding holding
holding-Told none next h = tt
holding-Told (some none) next h = tt
holding-Told (some (some a)) next h = h a

dispose-Told :
    (h : Bool) (s : Resources sentry_traits) → s.initialized ≡ s.given → Told (some (dispose h s))
unfolding dispose
dispose-Told true s e = e
dispose-Told false s e = e

use_resource-Told :
    (u : SentryUse) (s : Resources sentry_traits)
    → s.initialized ≡ s.given
    → Told (use_resource (resource_use u) s)
unfolding use_resource resource_use add_object put_object release
use_resource-Told count_up s e = rw e refl
use_resource-Told (sentry_from j) s e = holding-Told (get j s) _ (λ h. e)
use_resource-Told (sentry_assign i j) s e =
    holding-Told (get i s) _ (λ old. holding-Told (get j s) _ (λ h. e))
use_resource-Told (leave i) s e = holding-Told (get i s) _ (λ old. dispose-Told old s e)

then_use-Told :
    (o : Option (Resources sentry_traits))
    (next : Resources sentry_traits → Option (Resources sentry_traits))
    → Told o
    → ((s : Resources sentry_traits) → s.initialized ≡ s.given → Told (next s))
    → Told (then_use o next)
unfolding then_use
then_use-Told none next h k = tt
then_use-Told (some s) next h k = k s h

use_all-Told :
    (us : List SentryUse) (s : Resources sentry_traits)
    → s.initialized ≡ s.given
    → Told (use_all (map resource_use us) s)
unfolding use_all
use_all-Told [] s e = e
use_all-Told (u ∷ us) s e =
    then_use-Told (use_resource (resource_use u) s) _ (use_resource-Told u s e) (use_all-Told us)

-- Whatever is done with sentries of a counter, in any order, starting with none: the counter is above
-- its value at the start by one for each sentry that there is and that was not moved from, and one for
-- each that a move assignment has overwritten.
pub counter-held :
    (us : List SentryUse) (s : Resources sentry_traits) (value : ℕ)
    → use_sentries us ≡ some s
    → counter value s ≡ value + held step_of s + lost step_of (map resource_use us) no_resources
unfolding counter use_sentries
counter-held us s value h =
    let told : s.initialized ≡ s.given =
      unfold use_all in rw h at (use_all-Told us no_resources refl) in
    let sums =
      use_all_accounted {t = sentry_traits} step_of nothing refl (map resource_use us) s h in
    rw told (omega (arith, sums))
  where
    nothing : (pi : Bool) → pi ≡ false → step_of pi ≡ 0
    nothing true e = absurd (cc e)
    nothing false e = refl
