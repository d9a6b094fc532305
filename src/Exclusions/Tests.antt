-- ===== src/Exclusions/Tests.antt =====
-- Tests of the exclusions, and the theorems at concrete ones.
use native.Mathlib.Decide.{ℕ_discrete}
use energy_optimizer.Prelude.{
  ℕ, ◌≡◌, ◌+◌, ◌*◌, refl, min, map, List, [], ◌∷◌, Option, String, Eq, eq_of_discrete, All,
  replicate,
}
use energy_optimizer.Hours.{Instant, hour, hourly}
use energy_optimizer.Samples.{excluded_hour, cause, point}
use energy_optimizer.Exclusions.{
  ExclusionCause, HourExclusion, merge_exclusions, cause-discrete, cap_data_points,
  history_unavailable_exclusions, unavailable, round_hours,
}
use energy_optimizer.Exclusions.Merge.{
  merge_exclusions-union, HoursRise, excludes, any_excludes, IsDistinct,
}
use energy_optimizer.Exclusions.Cap.{cap_data_points-stored, stored, AreTruncations}
use energy_optimizer.Exclusions.Gap.{gap-hourly, gap_cause, entry}

instance abbrev cause_eq : Eq (ExclusionCause ℕ)
cause_eq = eq_of_discrete (cause-discrete ℕ_discrete)

abbrev groups : List (List (HourExclusion ℕ))
groups = (excluded_hour (2 * hour) ∷ excluded_hour hour ∷ []) ∷ (excluded_hour (2 * hour) ∷ []) ∷ []

merge_exclusions-union_example :
    HoursRise (merge_exclusions groups)
    × ((t : Instant) (c : ExclusionCause ℕ)
        → excludes t c (merge_exclusions groups) ≡ any_excludes t c groups)
    × All (λ item. IsDistinct item.causes) (merge_exclusions groups)
merge_exclusions-union_example = merge_exclusions-union groups

abbrev two_causes : List (ExclusionCause ℕ)
two_causes =
    cause unavailable (replicate 40 (point 0)) ∷ cause unavailable (replicate 20 (point 1)) ∷ []

cap_data_points-stored_example :
    ((entity : Option String)
      → stored entity (cap_data_points two_causes) ≡ min 50 (stored entity two_causes))
    × AreTruncations two_causes (cap_data_points two_causes)
cap_data_points-stored_example = cap_data_points-stored two_causes

gap-hourly_example :
    map (entry {Num = ℕ}) (history_unavailable_exclusions (5 * hour) (5 * hour + 2 * hour))
    ≡ hourly (5 * hour) (replicate 2 (gap_cause (5 * hour) 2 ∷ []))
gap-hourly_example = gap-hourly (5 * hour) 2

-- A half is rounded to the even hour.
round_hours_half : (round_hours (hour + 1800000000) ≡ 2) × (round_hours (2 * hour + 1800000000) ≡ 2)
unfolding round_hours
round_hours_half = (refl, refl)
