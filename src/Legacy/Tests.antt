-- ===== src/Legacy/Tests.antt =====
-- Tests of the upgrade, and the theorems at concrete histories.
use native.Mathlib.Decide.{ℕ_discrete}
use energy_optimizer.Prelude.{
  ℕ, ◌*◌, ◌≡◌, refl, some, none, List, [], ◌∷◌, arith, Eq, if◌then◌else◌, nat_eq, ok, length,
  lookup, eq_of_discrete,
}
use energy_optimizer.Hours.{Instant, hour, hourly}
use energy_optimizer.Samples.{hundredths, stored, stored_flow}
use energy_optimizer.Exclusions.{ExclusionCause, cause-discrete}
use energy_optimizer.Series.{
  HouseholdLoadData, GridFlowData, IntervalQuality, QualityStatus, valid, suspect,
}
use energy_optimizer.Records.{is_invalid_load}
use energy_optimizer.Records.Missing.{value_at}
use energy_optimizer.Records.Points.{IsHistory}
use energy_optimizer.Grid.{is_valid_flow}
use energy_optimizer.Grid.Accepted.{IsFlowHistory}
use energy_optimizer.Legacy.{upgrade_household_load, upgrade_grid_flow}
use energy_optimizer.Legacy.Blank.{flagged}
use energy_optimizer.Legacy.Upgrade.{upgrade_household_load-IsHistory}
use energy_optimizer.Legacy.Flow.{upgrade_grid_flow-IsFlowHistory}

instance abbrev cause_eq : Eq (ExclusionCause ℕ)
cause_eq = eq_of_discrete (cause-discrete ℕ_discrete)

abbrev entry : QualityStatus → IntervalQuality
entry status = record { status = status; reason = some "counter_reset"; entity_id = none }

-- The third hour was flagged.
abbrev stored_quality : List IntervalQuality
stored_quality = entry valid ∷ entry valid ∷ entry suspect ∷ []

abbrev old_load : HouseholdLoadData ℕ
old_load = record stored { quality = stored_quality }

abbrev flow_quality : List IntervalQuality
flow_quality = entry suspect ∷ entry valid ∷ []

abbrev old_flow : GridFlowData ℕ
old_flow = record stored_flow { quality = flow_quality }

old_load-IsHistory : IsHistory (10 * hour) old_load
unfolding lookup hourly is_invalid_load
old_load-IsHistory = record {
  starts = refl;
  aligned = omega arith;
  minutes = refl;
  in_kw = refl;
  retrieved = (13 * hour, refl);
  observed = (13 * hour, refl);
  nonempty = omega arith;
  values_valid = (refl, (refl, (refl, tt)));
  one_exclusion = (refl, tt);
  explained = λ t. ground arith;
}

old_flow-IsFlowHistory : IsFlowHistory (10 * hour) old_flow
unfolding lookup hourly is_valid_flow
old_flow-IsFlowHistory = record {
  starts = refl;
  aligned = omega arith;
  minutes = refl;
  in_kw = refl;
  retrieved = (13 * hour, refl);
  observed = (13 * hour, refl);
  nonempty = omega arith;
  same_length = refl;
  pairs_valid = (refl, (refl, tt));
  one_exclusion = (refl, tt);
  explained = λ t. ground arith;
}

upgrade_household_load-IsHistory_example :
    (upgraded : HouseholdLoadData ℕ) × (upgrade_household_load old_load ≡ ok upgraded)
    × IsHistory (10 * hour) upgraded
    × (length upgraded.quality ≡ 0)
    × ((t : Instant)
        → value_at (10 * hour) t upgraded ≡ (
            if flagged (lookup t (hourly (10 * hour) stored_quality))
            then some none
            else value_at (10 * hour) t old_load))
upgrade_household_load-IsHistory_example =
    upgrade_household_load-IsHistory (10 * hour) old_load old_load-IsHistory (omega arith) refl

upgrade_grid_flow-IsFlowHistory_example :
    (upgraded : GridFlowData ℕ) × (upgrade_grid_flow old_flow ≡ ok upgraded)
    × IsFlowHistory (10 * hour) upgraded
    × (length upgraded.quality ≡ 0)
    × ((t : Instant)
        → (lookup t (hourly (10 * hour) upgraded.import_kw) ≡ (
            if flagged (lookup t (hourly (10 * hour) flow_quality))
            then some none
            else lookup t (hourly (10 * hour) old_flow.import_kw)))
          × (lookup t (hourly (10 * hour) upgraded.export_kw) ≡ (
              if flagged (lookup t (hourly (10 * hour) flow_quality))
              then some none
              else lookup t (hourly (10 * hour) old_flow.export_kw))))
upgrade_grid_flow-IsFlowHistory_example =
    upgrade_grid_flow-IsFlowHistory (10 * hour) old_flow old_flow-IsFlowHistory (omega arith) refl
