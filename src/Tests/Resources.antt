-- ===== src/Tests/Resources.antt =====
-- Runs of resources. A handle is valid if it is not 0.
use nanonet.Common.{ℕ, ◌+◌, ◌≡◌, refl, arith, not, true, false, some, none, List, [], ◌∷◌, ◌==◌}
use nanonet.Resource.{
  Traits, Resources, no_resources, take_handle, move_from, move_assign, reset, destroy, use_all,
  Use,
}
use nanonet.Resource.Ledger.{total, held, lost, use_all_accounted}
use nanonet.Resource.Sentry.{
  sentry_traits, count_up, sentry_from, sentry_assign, leave, use_sentries, counter, SentryUse,
}

abbrev numbers : Traits
numbers = record { Handle = ℕ; invalid = 0; valid = λ h. not (h == 0) }

-- The second handle is overwritten.
abbrev overwritten_run : Resources numbers
overwritten_run = record {
  objects = some 0 ∷ none ∷ some 7 ∷ [];
  initialized = 5 ∷ 3 ∷ [];
  disposed = 5 ∷ [];
  given = 7 ∷ 5 ∷ 3 ∷ [];
}

abbrev run : List (Use numbers)
run = take_handle 3 ∷ take_handle 5 ∷ move_from 0 ∷ move_assign 2 1 ∷ reset 2 7 ∷ destroy 1 ∷ []

run_gives : use_all run no_resources ≡ some overwritten_run
unfolding use_all
run_gives = refl

use_all_accounted_example :
    total (λ h. h) overwritten_run.given
    ≡ total (λ h. h) overwritten_run.disposed
      + held (λ h. h) overwritten_run
      + lost {t = numbers} (λ h. h) run no_resources
use_all_accounted_example =
    use_all_accounted {t = numbers} (λ h. h) nothing refl run overwritten_run
      (unfold use_all in refl)
  where
    nothing : (h : ℕ) → not (h == 0) ≡ false → h ≡ 0
    nothing h e = ground (arith, e)

abbrev sentries : List SentryUse
sentries = count_up ∷ count_up ∷ sentry_from 0 ∷ sentry_assign 0 1 ∷ leave 1 ∷ []

abbrev two_counted : Resources sentry_traits
two_counted = record {
  objects = some true ∷ none ∷ some true ∷ [];
  initialized = true ∷ true ∷ [];
  disposed = [];
  given = true ∷ true ∷ [];
}

sentries_counted : counter 10 two_counted ≡ 12
unfolding counter
sentries_counted = refl

sentries_run : use_sentries sentries ≡ some two_counted
unfolding use_sentries use_all
sentries_run = refl
