-- ===== src/Records.antt =====
-- src/energy_optimizer/household_load_records.py: the validated hours of a household-load history,
-- and the pure transformations of histories.
pub mod Members
pub mod Index
pub mod Points
pub mod Exclude
pub mod Rebuild
pub mod Missing
pub mod Bridge
pub mod Overlay
pub mod Laid
pub mod Merge
pub mod Slice
pub mod Bounded
mod Tests
use energy_optimizer.Prelude.{
  ℕ, zero, suc, ◌+◌, ◌-◌, ◌*◌, String, Bool, true, false, not, ◌&&◌, ◌||◌, Option, none, some, List,
  [], ◌∷◌, ◌++◌, map, ◌==◌, nat_eq, string_eq, ltb, leb, if◌then◌else◌, length, take_last,
  replicate, any, Dict, lookup, contains, insert, update, Result, ok, err, ◌>>=◌, ◌>>◌, raise_if,
  is_none,
}
use energy_optimizer.Prelude.Sorting.{sorted_items}
use energy_optimizer.Hours.{Instant, hour, Datetime, naive, aware, has_subhour_component}
use energy_optimizer.Floats.{FloatOps}
use energy_optimizer.Exclusions.{HourExclusion, history_unavailable_exclusions}
use energy_optimizer.Series.{
  HouseholdLoadData, Label, household_load, StoreError, missing_timezone, not_aligned, not_hourly,
  empty_history, invalid_value, two_exclusions, exclusion_mismatch, not_contiguous,
  household_load_max_values,
}

unfoldable pub as_utc : Datetime → Result StoreError Instant
as_utc (naive _) = err missing_timezone
as_utc (aware t) = ok t

-- `set(a) == set(b)`, for two sets of hours given as lists
abbrev pub member : Instant → List Instant → Bool
member t ts = any (λ x. x == t) ts

abbrev pub all_member : List Instant → List Instant → Bool
all_member [] us = true
all_member (t ∷ ts) us = member t us && all_member ts us

abbrev pub same_members : List Instant → List Instant → Bool
same_members ts us = all_member ts us && all_member us ts

module _ {V : Type 0} where
  abbrev pub keys : Dict Instant V → List Instant
  keys d = map (λ e. e.0) d

  -- `{timestamp for timestamp, value in points.items() if value is None}`
  abbrev pub keys_without_value : Dict Instant (Option V) → List Instant
  keys_without_value [] = []
  keys_without_value ((t, v) ∷ d) =
      if is_none v then t ∷ keys_without_value d else keys_without_value d

  -- `any(later - earlier != _HOUR ...)`; the times rise, so that the difference is no debt
  unfoldable pub skips_hour : List (Instant × V) → Bool
  skips_hour [] = false
  skips_hour (e ∷ []) = false
  skips_hour (e ∷ f ∷ l) = not (f.0 - e.0 == hour) || skips_hour (f ∷ l)

  unfoldable pub require_contiguous_hours :
      List (Instant × V) → Label → Result StoreError (Unit {0})
  require_contiguous_hours points label = raise_if (skips_hour points) (not_contiguous label)

module _ {Num : Type 0} where
  index_loop :
      Label
      → Dict Instant (HourExclusion Num)
      → List (HourExclusion Num)
      → Result StoreError (Dict Instant (HourExclusion Num))
  index_loop label indexed [] = ok indexed
  index_loop label indexed (item ∷ items) =
      let rest = index_loop label (insert item.hour_start item indexed) items in
      if contains item.hour_start indexed then err (two_exclusions label) else rest

  unfoldable pub index_exclusions :
      List (HourExclusion Num) → Label → Result StoreError (Dict Instant (HourExclusion Num))
  unfolding index_loop
  index_exclusions exclusions label = index_loop label [] exclusions

  unfoldable pub household_load_exclusion_points :
      HouseholdLoadData Num → Result StoreError (Dict Instant (HourExclusion Num))
  household_load_exclusion_points d = index_exclusions d.exclusions household_load

module _ {Num : Type 0} ⦃f : FloatOps Num⦄ where
  -- `value is not None and (not math.isfinite(value) or value < 0)`
  unfoldable pub is_invalid_load : Option Num → Bool
  is_invalid_load none = false
  is_invalid_load (some v) = not (f.is_finite v) || f.lt v (f.decimal 0 0)

  unfoldable pub points_loop :
      Instant
      → ℕ
      → List (Option Num)
      → Dict Instant (Option Num)
      → Result StoreError (Dict Instant (Option Num))
  points_loop start index [] points = ok points
  points_loop start index (v ∷ vs) points =
      let rest = points_loop start (index + 1) vs (insert (start + index * hour) v points) in
      if is_invalid_load v then err (invalid_value household_load) else rest

  unfoldable pub household_load_points :
      HouseholdLoadData Num → Result StoreError (Dict Instant (Option Num))
  household_load_points d = do
    start ← as_utc d.start_time
    raise_if (has_subhour_component start) (not_aligned household_load)
    raise_if (not (d.interval_minutes == 60) || not (d.unit == "kW")) (not_hourly household_load)
    _ ← as_utc d.retrieved_at
    _ ← as_utc d.latest_observation_at
    raise_if (length d.load_kw == 0) (empty_history household_load)
    points ← points_loop start 0 d.load_kw []
    exclusions ← household_load_exclusion_points d
    raise_if (not (same_members (keys_without_value points) (keys exclusions)))
        (exclusion_mismatch household_load)
    ok points

module _ {Num : Type 0} where
  -- `exclusions[timestamp] for timestamp, _ in points if timestamp in exclusions`
  unfoldable pub exclusions_of :
      List (Instant × Option Num) → Dict Instant (HourExclusion Num) → List (HourExclusion Num)
  exclusions_of [] exclusions = []
  exclusions_of ((t, _) ∷ points) exclusions = elim (lookup t exclusions) [
    | none ↦ exclusions_of points exclusions
    | some item ↦ item ∷ exclusions_of points exclusions
  ]

  -- `points[0][0]`; the callers pass no empty list, which would be an `IndexError`
  abbrev pub first_hour : List (Instant × Option Num) → Instant
  first_hour [] = 0
  first_hour (e ∷ points) = e.0

  unfoldable pub with_points :
      HouseholdLoadData Num
      → List (Instant × Option Num)
      → Dict Instant (HourExclusion Num)
      → Result StoreError (HouseholdLoadData Num)
  with_points template points exclusions = do
    retrieved ← as_utc template.retrieved_at
    observed ← as_utc template.latest_observation_at
    ok (record template {
      start_time = aware (first_hour points);
      load_kw = map (λ e. e.1) points;
      retrieved_at = aware retrieved;
      latest_observation_at = aware observed;
      exclusions = exclusions_of points exclusions;
      quality = [];
    })

  -- `{... if timestamp not in incoming_points}`
  unfoldable pub without_keys :
      Dict Instant (HourExclusion Num)
      → Dict Instant (Option Num)
      → Dict Instant (HourExclusion Num)
  without_keys [] points = []
  without_keys ((t, item) ∷ d) points =
      let rest = without_keys d points in if contains t points then rest else (t, item) ∷ rest

  abbrev pub in_period :
      Instant → Instant → List (Instant × Option Num) → List (Instant × Option Num)
  in_period start stop [] = []
  in_period start stop ((t, v) ∷ l) =
      if leb start t && ltb t stop then (t, v) ∷ in_period start stop l else in_period start stop l

module _ {Num : Type 0} ⦃f : FloatOps Num⦄ where
  unfoldable pub bridge_household_load_gap :
      HouseholdLoadData Num → HouseholdLoadData Num → Result StoreError (HouseholdLoadData Num)
  bridge_household_load_gap existing incoming = do
    existing_start ← as_utc existing.start_time
    let existing_end = existing_start + length existing.load_kw * hour
    incoming_start ← as_utc incoming.start_time
    let gap = history_unavailable_exclusions existing_end incoming_start
    if leb incoming_start existing_end
        then ok incoming
        else (household_load_points incoming >>= λ _. ok (record incoming {
          start_time = aware existing_end;
          load_kw = replicate (length gap) none ++ incoming.load_kw;
          exclusions = gap ++ incoming.exclusions;
          quality = [];
        }))

  unfoldable pub merge_household_load_history :
      HouseholdLoadData Num → HouseholdLoadData Num → Result StoreError (HouseholdLoadData Num)
  merge_household_load_history existing incoming' = do
    incoming ← bridge_household_load_gap existing incoming'
    existing_points ← household_load_points existing
    incoming_points ← household_load_points incoming
    let points = update existing_points incoming_points
    old ← household_load_exclusion_points existing
    new ← household_load_exclusion_points incoming
    let exclusions = update (without_keys old incoming_points) new
    let ordered_points = take_last household_load_max_values (sorted_items points)
    require_contiguous_hours ordered_points household_load
    with_points incoming ordered_points exclusions

  unfoldable pub slice_household_load :
      HouseholdLoadData Num → Instant → Instant → Result StoreError (Option (HouseholdLoadData Num))
  slice_household_load d start_time end_time = do
    points ← household_load_points d
    exclusions ← household_load_exclusion_points d
    let selected = in_period start_time end_time (sorted_items points)
    if length selected == 0
        then ok none
        else (with_points d selected exclusions >>= λ s. ok (some s))

  unfoldable pub bounded_household_load :
      HouseholdLoadData Num → Result StoreError (HouseholdLoadData Num)
  bounded_household_load d = do
    all ← household_load_points d
    let all_points = sorted_items all
    require_contiguous_hours all_points household_load
    let points = take_last household_load_max_values all_points
    exclusions ← household_load_exclusion_points d
    if length points == length d.load_kw then ok d else with_points d points exclusions
