-- ===== src/Rates/Accepted.antt =====
-- What an estimator of rates of src/math-util.cpp makes of the times that it is given.
use nanonet.Common.{◌≡◌, refl, true, false, List, [], ◌∷◌, if◌then◌else◌, Bool-cases, inl, inr}
use nanonet.Double.{Floats}
use nanonet.Rates.{Arithmetic, RateEstimator, isnan, update_discrete_states, update}

module _ {fl : Floats} (ar : Arithmetic fl) where
  -- The calls of `update`, one after the other.
  pub update_all : List fl.Double → RateEstimator fl → RateEstimator fl
  update_all [] e = e
  update_all (now ∷ times) e = update_all times (update ar now e).0

  -- The times that are taken behind one: those that are numbers and no earlier than the last taken.
  unfoldable pub taken_behind : fl.Double → List fl.Double → List fl.Double
  unfolding isnan
  taken_behind last [] = []
  taken_behind last (now ∷ times) =
      let skipped = taken_behind last times in
      let taken = now ∷ taken_behind now times in
      if isnan ar now
      then skipped
      else if fl.le fl.origin (ar.minus now last)
      then taken
      else skipped

  -- All that are taken: from the first number on.
  unfoldable pub taken : List fl.Double → List fl.Double
  unfolding taken_behind isnan
  taken [] = []
  taken (now ∷ times) =
      let later = taken times in if isnan ar now then later else now ∷ taken_behind now times

  -- The average over the differences of times, of which the first stands behind another.
  pub averaged : fl.Double → fl.Double → fl.Double → List fl.Double → fl.Double
  averaged factor dt last [] = dt
  averaged factor dt last (now ∷ times) =
      averaged factor (update_discrete_states ar factor dt (ar.minus now last)) now times

  pub last_of_times : fl.Double → List fl.Double → fl.Double
  last_of_times last [] = last
  last_of_times last (now ∷ times) = last_of_times now times

  -- The state that the taken times give.
  abbrev pub state_behind :
      RateEstimator fl → fl.Double → fl.Double → List fl.Double → RateEstimator fl
  state_behind e dt last times = record e {
    dt_estimate = averaged e.factor dt last times;
    last_update = last_of_times last times;
  }

  abbrev pub state_of : RateEstimator fl → List fl.Double → RateEstimator fl
  state_of e [] = e
  state_of e (first ∷ times) = state_behind e e.dt_estimate first times

  update_all-behind :
      (times : List fl.Double) (e : RateEstimator fl)
      → isnan ar e.last_update ≡ false
      → update_all times e
        ≡ state_behind e e.dt_estimate e.last_update (taken_behind e.last_update times)
  unfolding update_all update taken_behind averaged last_of_times
  update_all-behind [] e h = refl
  update_all-behind (now ∷ times) e h = elim (Bool-cases (isnan ar now)) [
    | inl nan ↦ rw nan (update_all-behind times e h)
    | inr number ↦ elim (Bool-cases (fl.le fl.origin (ar.minus now e.last_update))) [
      | inl later ↦
          rw (number, h, later)
            (update_all-behind times
              (record e {
                dt_estimate =
                    update_discrete_states ar e.factor e.dt_estimate (ar.minus now e.last_update);
                last_update = now;
              })
              number)
      | inr earlier ↦ rw (number, h, earlier) (update_all-behind times e h)
    ]
  ]

  -- From the state that the constructor gives, whose time is not a number, `update` of any times, one after
  -- the other, ignores those that are not numbers and those from which the last that it took
  -- has a negative difference: the estimate is the moving average of the differences of the times that are left, in
  -- their order, and the last of these is remembered.
  pub update_all-state_of :
      (times : List fl.Double) (e : RateEstimator fl)
      → isnan ar e.last_update ≡ true
      → update_all times e ≡ state_of e (taken times)
  unfolding update_all update taken
  update_all-state_of [] e h = refl
  update_all-state_of (now ∷ times) e h = elim (Bool-cases (isnan ar now)) [
    | inl nan ↦ rw nan (update_all-state_of times e h)
    | inr number ↦ rw (number, h) (update_all-behind times (record e { last_update = now }) number)
  ]
