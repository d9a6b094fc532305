-- ===== src/Records/Laid.antt =====
-- `merge_household_load_history`: a history laid over another one that it meets or overlaps.
use energy_optimizer.Prelude.{
  ℕ, ◌+◌, ◌-◌, ◌*◌, ◌≤◌, ◌<◌, ◌≡◌, true, Option, none, some, List, [], refl, arith, leb, nat_eq,
  if◌then◌else◌, length, drop, Dict, lookup, is_some, or_else, min, ap, ◌∙◌, All, subst, ok, update,
  lookup-update, take_last, Option-cases, inl, inr, All-drop,
}
use energy_optimizer.Prelude.Sorting.{IsSorted, sorted_items}
use energy_optimizer.Hours.{Instant, hour, hourly, hourly-IsSorted, values, aware}
use energy_optimizer.Floats.{FloatOps}
use energy_optimizer.Exclusions.{HourExclusion}
use energy_optimizer.Series.{HouseholdLoadData, household_load, household_load_max_values}
use energy_optimizer.Records.{
  household_load_exclusion_points, bridge_household_load_gap, without_keys,
  merge_household_load_history,
}
use energy_optimizer.Records.Members.{lacks_value}
use energy_optimizer.Records.Index.{by_hour, index_exclusions-Unique}
use energy_optimizer.Records.Points.{IsHistory, IsValidValue, household_load_points-IsHistory}
use energy_optimizer.Records.Exclude.{
  IsKeyed, by_hour-IsKeyed, update-IsKeyed, without_keys-IsKeyed, lookup-without_keys,
  lookup-exclusions_of, exclusions_of-IsSorted,
}
use energy_optimizer.Records.Rebuild.{
  rebuilt, with_points-hourly, rebuilt-IsHistory, require_contiguous_hours-hourly, All-lookup,
  lookup-All,
}
use energy_optimizer.Records.Missing.{value_at, exclusion_at, history_end}
use energy_optimizer.Records.Overlay.{
  overlaid, overlay_start, span, retained, lookup-overlaid, overlaid-IsSorted,
}

module _ {Num : Type 0} ⦃f : FloatOps Num⦄ where
  pub household_load_exclusion_points-IsHistory :
      (start : Instant) (d : HouseholdLoadData Num)
      → IsHistory start d
      → household_load_exclusion_points d ≡ ok (by_hour d.exclusions)
  unfolding household_load_exclusion_points
  household_load_exclusion_points-IsHistory start d h =
      index_exclusions-Unique household_load d.exclusions h.one_exclusion

-- A history `new` laid over a history `old` that it meets or overlaps.
module _ {Num : Type 0} ⦃f : FloatOps Num⦄ (s₁ s₂ : Instant) (old new : HouseholdLoadData Num)
    (h₁ : IsHistory s₁ old) (h₂ : IsHistory s₂ new) (m₁ : s₁ ≤ history_end s₂ new)
    (m₂ : s₂ ≤ history_end s₁ old) where
  abbrev pub hours_kept : ℕ
  hours_kept = min household_load_max_values (span s₁ s₂ old.load_kw new.load_kw)

  abbrev pub kept_start : Instant
  kept_start =
      overlay_start s₁ s₂ old.load_kw new.load_kw
      + (span s₁ s₂ old.load_kw new.load_kw - household_load_max_values) * hour

  abbrev kept_values : List (Option Num)
  kept_values =
      drop (span s₁ s₂ old.load_kw new.load_kw - household_load_max_values)
        (values (sorted_items (overlaid s₁ s₂ old.load_kw new.load_kw)))

  abbrev kept_exclusions : Dict Instant (HourExclusion Num)
  kept_exclusions =
      update (without_keys (by_hour old.exclusions) (hourly s₂ new.load_kw))
        (by_hour new.exclusions)

  kept_exclusions-IsKeyed : IsKeyed kept_exclusions
  kept_exclusions-IsKeyed =
      update-IsKeyed _ (by_hour new.exclusions)
        (without_keys-IsKeyed _ (hourly s₂ new.load_kw) (by_hour-IsKeyed old.exclusions))
        (by_hour-IsKeyed new.exclusions)

  lookup-kept_exclusions :
      (t : Instant)
      → lookup t kept_exclusions
        ≡ or_else
            (exclusion_at t new)
            (if is_some (value_at s₂ t new) then none else exclusion_at t old)
  lookup-kept_exclusions t =
      lookup-update _ (by_hour new.exclusions) t h₂.one_exclusion
      ∙ ap (or_else (exclusion_at t new))
          (lookup-without_keys t (by_hour old.exclusions) (hourly s₂ new.load_kw))

  valid_value :
      (t : Instant) (v : Option Num)
      → lookup t (sorted_items (overlaid s₁ s₂ old.load_kw new.load_kw)) ≡ some v
      → IsValidValue v
  valid_value t v e = elim (Option-cases (value_at s₂ t new)) [
    | inl absent ↦
        lookup-All _ s₁ t old.load_kw v h₁.values_valid
          (ground (arith, absent, e, lookup-overlaid s₁ s₂ old.load_kw new.load_kw t))
    | inr (w, there) ↦
        subst (λ x. IsValidValue x)
          (ground (arith, there, e, lookup-overlaid s₁ s₂ old.load_kw new.load_kw t))
          (lookup-All _ s₂ t new.load_kw w h₂.values_valid there)
  ]

  kept_values-valid : All (λ v. IsValidValue v) kept_values
  kept_values-valid = All-drop _ _ _ (
      All-lookup _ (sorted_items (overlaid s₁ s₂ old.load_kw new.load_kw))
        (overlaid-IsSorted s₁ s₂ old.load_kw new.load_kw) valid_value)

  kept_values-retained :
      (take_last household_load_max_values (sorted_items (overlaid s₁ s₂ old.load_kw new.load_kw))
        ≡ hourly kept_start kept_values)
      × (length kept_values ≡ hours_kept)
      × ((t : Instant)
          → lookup t (hourly kept_start kept_values)
            ≡ (if leb kept_start t then or_else (value_at s₂ t new) (value_at s₁ t old) else none))
  kept_values-retained =
      retained s₁ s₂ old.load_kw new.load_kw h₁.aligned h₂.aligned m₁ m₂ household_load_max_values

  kept_some : 0 < length kept_values
  kept_some = omega (arith, kept_values-retained.1, h₁.nonempty, h₁.aligned, h₂.aligned)

  -- A kept hour lacks a value exactly if it has an exclusion.
  kept_matched :
      (t : Instant)
      → is_some (lookup t (hourly kept_start kept_values)) ≡ true
      → lacks_value t (hourly kept_start kept_values) ≡ is_some (lookup t kept_exclusions)
  kept_matched t there = ground (
    arith,
    there,
    kept_values-retained.2 t,
    lookup-kept_exclusions t,
    h₁.explained t,
    h₂.explained t,
  )

  pub overlaid_history : HouseholdLoadData Num
  overlaid_history = rebuilt new kept_start kept_values kept_exclusions

  pub overlaid_history-IsHistory : IsHistory kept_start overlaid_history
  unfolding overlaid_history
  overlaid_history-IsHistory =
      rebuilt-IsHistory s₂ kept_start new kept_values kept_exclusions h₂
        (omega (arith, h₁.aligned, h₂.aligned)) kept_some kept_values-valid kept_exclusions-IsKeyed
        kept_matched

  pub merge-overlaid :
      (incoming : HouseholdLoadData Num)
      → bridge_household_load_gap old incoming ≡ ok new
      → merge_household_load_history old incoming ≡ ok overlaid_history
  unfolding merge_household_load_history overlaid_history
  merge-overlaid incoming bridged = rw (
    bridged,
    household_load_points-IsHistory s₁ old h₁,
    household_load_points-IsHistory s₂ new h₂,
    household_load_exclusion_points-IsHistory s₁ old h₁,
    household_load_exclusion_points-IsHistory s₂ new h₂,
    kept_values-retained.0,
    require_contiguous_hours-hourly,
    with_points-hourly s₂ kept_start new kept_values kept_exclusions h₂ kept_some,
  )

  pub exclusion_at-overlaid_history :
      (t : Instant)
      → exclusion_at t overlaid_history ≡ (
          if leb kept_start t
          then or_else
              (exclusion_at t new)
              (if is_some (value_at s₂ t new) then none else exclusion_at t old)
          else none)
  unfolding overlaid_history
  exclusion_at-overlaid_history t =
      lookup-exclusions_of t (hourly kept_start kept_values) kept_exclusions kept_exclusions-IsKeyed
      ∙ ground (
        arith,
        kept_values-retained.2 t,
        lookup-kept_exclusions t,
        h₁.explained t,
        h₂.explained t,
      )

  pub value_at-overlaid_history :
      (t : Instant)
      → value_at kept_start t overlaid_history
        ≡ (if leb kept_start t then or_else (value_at s₂ t new) (value_at s₁ t old) else none)
  unfolding overlaid_history
  value_at-overlaid_history t = kept_values-retained.2 t

  pub length-overlaid_history : length overlaid_history.load_kw ≡ hours_kept
  unfolding overlaid_history
  length-overlaid_history = kept_values-retained.1

  -- The exclusions are in the order of their hours.
  pub overlaid_history-IsSorted : IsSorted (by_hour overlaid_history.exclusions)
  unfolding overlaid_history
  overlaid_history-IsSorted =
      exclusions_of-IsSorted (hourly kept_start kept_values) kept_exclusions kept_exclusions-IsKeyed
        (hourly-IsSorted kept_start kept_values)

  -- All else is said by the new history.
  pub overlaid_history-meta : overlaid_history ≡ record new {
    start_time = aware kept_start;
    load_kw = overlaid_history.load_kw;
    exclusions = overlaid_history.exclusions;
    quality = [];
  }
  unfolding overlaid_history
  overlaid_history-meta = refl
