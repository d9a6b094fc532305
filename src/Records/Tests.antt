-- ===== src/Records/Tests.antt =====
-- Tests of the household-load histories, and the theorems at concrete histories.
use energy_optimizer.Prelude.{◌≡◌, ◌*◌, refl, arith, ok, lookup, ℕ, Option}
use energy_optimizer.Hours.{Instant, hour, hourly}
use energy_optimizer.Samples.{hundredths, stored, fetched}
use energy_optimizer.Series.{HouseholdLoadData}
use energy_optimizer.Records.{
  household_load_points, bridge_household_load_gap, merge_household_load_history, is_invalid_load,
  slice_household_load, bounded_household_load,
}
use energy_optimizer.Records.Points.{
  IsHistory, household_load_points-IsHistory, IsHistory-household_load_points,
}
use energy_optimizer.Records.Slice.{IsSlice, slice_household_load-IsSlice}
use energy_optimizer.Records.Bounded.{IsBounded, bounded_household_load-IsBounded}
use energy_optimizer.Records.Bridge.{IsBridged, bridge_household_load_gap-IsBridged}
use energy_optimizer.Records.Merge.{IsMerged, merge_household_load_history-IsMerged}

stored-IsHistory : IsHistory (10 * hour) stored
unfolding lookup hourly is_invalid_load
stored-IsHistory = record {
  starts = refl;
  aligned = omega arith;
  minutes = refl;
  in_kw = refl;
  retrieved = (13 * hour, refl);
  observed = (13 * hour, refl);
  nonempty = omega arith;
  values_valid = (refl, (refl, (refl, tt)));
  one_exclusion = (refl, tt);
  explained = λ t. ground arith;
}

fetched-IsHistory : IsHistory (15 * hour) fetched
unfolding lookup hourly is_invalid_load
fetched-IsHistory = record {
  starts = refl;
  aligned = omega arith;
  minutes = refl;
  in_kw = refl;
  retrieved = (17 * hour, refl);
  observed = (13 * hour, refl);
  nonempty = omega arith;
  values_valid = (refl, (refl, tt));
  one_exclusion = tt;
  explained = λ t. ground arith;
}

household_load_points-IsHistory_example :
    household_load_points stored ≡ ok (hourly (10 * hour) stored.load_kw)
household_load_points-IsHistory_example =
    household_load_points-IsHistory (10 * hour) stored stored-IsHistory

bridge_household_load_gap-IsBridged_example :
    (bridged : HouseholdLoadData ℕ) × (bridge_household_load_gap stored fetched ≡ ok bridged)
    × IsBridged (10 * hour) (15 * hour) stored fetched bridged
bridge_household_load_gap-IsBridged_example =
    bridge_household_load_gap-IsBridged (10 * hour) (15 * hour) stored fetched stored-IsHistory
      fetched-IsHistory

merge_household_load_history-IsMerged_example :
    (merged : HouseholdLoadData ℕ) × (merge_household_load_history stored fetched ≡ ok merged)
    × IsMerged (10 * hour) (15 * hour) stored fetched merged
merge_household_load_history-IsMerged_example =
    merge_household_load_history-IsMerged (10 * hour) (15 * hour) stored fetched stored-IsHistory
      fetched-IsHistory (omega arith)

IsHistory-household_load_points_example :
    (start : Instant) × IsHistory start stored
    × (hourly (10 * hour) stored.load_kw ≡ hourly start stored.load_kw)
IsHistory-household_load_points_example =
    IsHistory-household_load_points stored (hourly (10 * hour) stored.load_kw)
      (household_load_points-IsHistory (10 * hour) stored stored-IsHistory)

slice_household_load-IsSlice_example :
    (r : Option (HouseholdLoadData ℕ)) × (slice_household_load stored (11 * hour) (13 * hour)
      ≡ ok r)
    × IsSlice (10 * hour) (11 * hour) (13 * hour) stored r
slice_household_load-IsSlice_example =
    slice_household_load-IsSlice (10 * hour) (11 * hour) (13 * hour) stored stored-IsHistory

bounded_household_load-IsBounded_example :
    (bounded : HouseholdLoadData ℕ) × (bounded_household_load stored ≡ ok bounded)
    × IsBounded (10 * hour) stored bounded
bounded_household_load-IsBounded_example =
    bounded_household_load-IsBounded (10 * hour) stored stored-IsHistory
