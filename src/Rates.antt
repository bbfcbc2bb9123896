-- ===== src/Rates.antt =====
-- The moving average and the estimator of rates of include/nanonet/math-util.h and src/math-util.cpp, and
-- connection_rates of src/sys/server.cpp. A failed `always_assert` is `none`.
pub mod Accepted
use nanonet.Common.{Bool, true, false, not, ◌&&◌, ◌||◌, Option, none, some, ℤ, leb_ℤ, if◌then◌else◌}
use nanonet.Double.{Floats}

-- The arithmetic of the processor, beyond the comparisons.
pub record Arithmetic (fl : Floats) : Type 0 where
  pub not_a_number : fl.Double
  pub one : fl.Double
  pub plus : fl.Double → fl.Double → fl.Double
  pub minus : fl.Double → fl.Double → fl.Double
  pub times : fl.Double → fl.Double → fl.Double
  pub over : fl.Double → fl.Double → fl.Double
  -- `std::round`, and `std::llround`.
  pub round : fl.Double → fl.Double
  pub llround : fl.Double → ℤ

module _ {fl : Floats} (ar : Arithmetic fl) where
  -- The parameter of `exponential_moving_average`, where its constructor takes it.
  unfoldable pub exponential_moving_average : fl.Double → Option fl.Double
  exponential_moving_average factor =
      if fl.lt fl.origin factor && fl.lt factor ar.one then some factor else none

  -- `isnan( x )`, and `x != x`.
  unfoldable pub isnan : fl.Double → Bool
  isnan x = not (fl.eq x x)

  unfoldable pub update_discrete_states : fl.Double → fl.Double → fl.Double → fl.Double
  unfolding isnan
  update_discrete_states factor x u =
      if isnan x then u else ar.plus (ar.times (ar.minus ar.one factor) x) (ar.times factor u)

-- `factor` is the parameter of `avg_`.
pub record RateEstimator (fl : Floats) : Type 0 where
  pub factor : fl.Double
  pub dt_estimate : fl.Double
  pub last_update : fl.Double

module _ {fl : Floats} (ar : Arithmetic fl) where
  with_factor : fl.Double → Option fl.Double → Option (RateEstimator fl)
  with_factor initial_estimate none = none
  with_factor initial_estimate (some factor) =
      if fl.lt fl.origin initial_estimate
      then some (record {
        factor = factor;
        dt_estimate = ar.over ar.one initial_estimate;
        last_update = ar.not_a_number;
      })
      else none

  unfoldable pub rate_estimator : fl.Double → fl.Double → Option (RateEstimator fl)
  unfolding with_factor exponential_moving_average
  rate_estimator factor initial_estimate =
      with_factor initial_estimate (exponential_moving_average ar factor)

  -- `update`, with its result.
  unfoldable pub update : fl.Double → RateEstimator fl → RateEstimator fl × Bool
  unfolding update_discrete_states isnan
  update now e =
      let dt = ar.minus now e.last_update in
      if isnan ar now
      then (e, false)
      else if not (isnan ar e.last_update)
      then if fl.le fl.origin dt
        then (
          record e {
            dt_estimate = update_discrete_states ar e.factor e.dt_estimate dt;
            last_update = now;
          },
          true,
        )
        else (e, false)
      else (record e { last_update = now }, true)

  -- `estimate()`, and `estimate( now )`.
  unfoldable pub estimate : RateEstimator fl → fl.Double
  estimate e = ar.over ar.one e.dt_estimate

  unfoldable pub estimate_at : fl.Double → RateEstimator fl → fl.Double
  unfolding update estimate
  estimate_at now e = estimate (update now e).0

  -- `round_to_integer`, for an integer type with these limits; `none`: it throws.
  unfoldable pub round_to_integer : ℤ → ℤ → fl.Double → Option ℤ
  round_to_integer least greatest x =
      if fl.lt (ar.round x) (fl.of_long least) || fl.lt (fl.of_long greatest) (ar.round x)
      then none
      else if leb_ℤ least (ar.llround x) && leb_ℤ (ar.llround x) greatest
      then some (ar.llround x)
      else none

-- `connection_rates` of the server, which is updated for each connection.
pub record ConnectionRates (fl : Floats) : Type 0 where
  pub re_slow : RateEstimator fl
  pub re_medium : RateEstimator fl
  pub re_fast : RateEstimator fl

module _ {fl : Floats} (ar : Arithmetic fl) where
  all_rates :
      Option (RateEstimator fl)
      → Option (RateEstimator fl)
      → Option (RateEstimator fl)
      → Option (ConnectionRates fl)
  all_rates (some slow) (some medium) (some fast) =
      some (record { re_slow = slow; re_medium = medium; re_fast = fast })
  all_rates _ _ _ = none

  -- With the three factors of the server's parameters, and the initial estimate 1.
  unfoldable pub connection_rates : fl.Double → fl.Double → fl.Double → Option (ConnectionRates fl)
  unfolding all_rates rate_estimator
  connection_rates slow medium fast =
      all_rates (rate_estimator ar slow ar.one) (rate_estimator ar medium ar.one)
        (rate_estimator ar fast ar.one)

  unfoldable pub update_rates : fl.Double → ConnectionRates fl → ConnectionRates fl
  unfolding update
  update_rates now r = record {
    re_slow = (update ar now r.re_slow).0;
    re_medium = (update ar now r.re_medium).0;
    re_fast = (update ar now r.re_fast).0;
  }

  -- `update_status`: the slow, the medium and the fast estimate.
  unfoldable pub update_status : ConnectionRates fl → fl.Double × (fl.Double × fl.Double)
  unfolding estimate
  update_status r = (estimate ar r.re_slow, (estimate ar r.re_medium, estimate ar r.re_fast))
