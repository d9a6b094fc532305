-- ===== src/Grid.antt =====
-- src/energy_optimizer/history_merge.py, the grid flow: validated hours and the retained history.
-- The history has import and export for an hour, or an exclusion for both.
pub mod Points
pub mod Accepted
pub mod Lookups
pub mod Rebuild
pub mod Gap
pub mod Laid
pub mod Merge
pub mod First
mod Tests
use mathlib.Core.Option
use energy_optimizer.Prelude.{
  ℕ, zero, suc, ◌+◌, ◌*◌, String, Bool, true, false, not, ◌&&◌, ◌||◌, Option, none, some, List, [],
  ◌∷◌, map, ◌==◌, nat_eq, string_eq, option_eq, ltb, if◌then◌else◌, length, take_last, Dict, lookup,
  insert, update, Result, ok, err, ◌>>=◌, ◌>>◌, raise_if, is_none, is_some, min, max,
}
use energy_optimizer.Prelude.Sorting.{sorted_items}
use energy_optimizer.Hours.{Instant, hour, Datetime, aware, has_subhour_component}
use energy_optimizer.Floats.{FloatOps}
use energy_optimizer.Exclusions.{HourExclusion, history_unavailable_exclusions}
use energy_optimizer.Series.{
  GridFlowData, SourceMetadata, Label, grid_flow, StoreError, not_aligned, not_hourly,
  empty_history, invalid_value, unpaired_exclusion, exclusion_mismatch, source_mismatch,
  household_load_max_values,
}
use energy_optimizer.Records.{
  as_utc, index_exclusions, require_contiguous_hours, same_members, keys,
}

-- `HISTORY_RETENTION_HOURS`
abbrev pub history_retention_hours : ℕ
history_retention_hours = household_load_max_values

unfoldable pub require_hourly_start : Datetime → Label → Result StoreError Instant
require_hourly_start value label = do
  timestamp ← as_utc value
  raise_if (has_subhour_component timestamp) (not_aligned label)
  ok timestamp

-- `existing.source != incoming.source` compares both fields
abbrev pub same_source : SourceMetadata → SourceMetadata → Bool
same_source a b = a.provider == b.provider && a.entity_id == b.entity_id

-- `max(as_utc(item.…) for item in [*previous, incoming])`
abbrev pub latest_time : Option Datetime → Datetime → Result StoreError Instant
latest_time none incoming = as_utc incoming
latest_time (some existing) incoming = do a ← as_utc existing; b ← as_utc incoming; ok (max a b)

pub record GridFlowPoint (Num : Type 0) : Type 0 where
  pub imported : Option Num
  pub exported : Option Num
  pub exclusion : Option (HourExclusion Num)

module _ {Num : Type 0} where
  -- `{timestamp for timestamp, point in points.items() if point[0] is None}`
  abbrev pub keys_without_import : Dict Instant (GridFlowPoint Num) → List Instant
  keys_without_import [] = []
  keys_without_import ((t, p) ∷ d) =
      if is_none p.imported then t ∷ keys_without_import d else keys_without_import d

  -- `max(points)` and `min(points)`; the points are never empty
  abbrev pub max_key : Dict Instant (GridFlowPoint Num) → Instant
  max_key [] = 0
  max_key ((t, p) ∷ d) = max t (max_key d)

  abbrev pub min_key : Instant → Dict Instant (GridFlowPoint Num) → Instant
  min_key t [] = t
  min_key t ((u, p) ∷ d) = min_key (min t u) d

  abbrev pub first_key : Dict Instant (GridFlowPoint Num) → Instant
  first_key [] = 0
  first_key ((t, p) ∷ d) = min_key t d

  abbrev pub gap_points : List (HourExclusion Num) → Dict Instant (GridFlowPoint Num)
  gap_points items =
      map
        (λ item.
          (item.hour_start, record { imported = none; exported = none; exclusion = some item }))
        items

  abbrev pub exclusions_in : List (Instant × GridFlowPoint Num) → List (HourExclusion Num)
  exclusions_in [] = []
  exclusions_in ((t, p) ∷ points) = elim p.exclusion [
    | none ↦ exclusions_in points
    | some item ↦ item ∷ exclusions_in points
  ]

  abbrev pub first_time : List (Instant × GridFlowPoint Num) → Instant
  first_time [] = 0
  first_time (e ∷ points) = e.0

  -- `points[item.hour_start] = (None, None, item)` over the hours of a gap
  abbrev pub fill_gap :
      Option Instant → Instant → Dict Instant (GridFlowPoint Num) → Dict Instant (GridFlowPoint Num)
  fill_gap none incoming_start points = points
  fill_gap (some existing_end) incoming_start points =
      if ltb existing_end incoming_start
      then update points (gap_points (history_unavailable_exclusions existing_end incoming_start))
      else points

module _ {Num : Type 0} ⦃f : FloatOps Num⦄ where
  -- `math.isfinite(imported) and ... and imported >= 0 and exported >= 0`
  unfoldable pub is_valid_flow : Num → Num → Bool
  is_valid_flow imported exported =
      f.is_finite imported
      && (f.is_finite exported && (f.le (f.decimal 0 0) imported && f.le (f.decimal 0 0) exported))

  -- The point of one hour, or what is raised for it.
  unfoldable pub flow_point :
      Dict Instant (HourExclusion Num)
      → Instant
      → Option Num
      → Option Num
      → Result StoreError (GridFlowPoint Num)
  flow_point exclusions t (some imported) (some exported) =
      if is_valid_flow imported exported
      then ok (record { imported = some imported; exported = some exported; exclusion = none })
      else err (invalid_value grid_flow)
  flow_point exclusions t none none =
      ok (record { imported = none; exported = none; exclusion = lookup t exclusions })
  flow_point exclusions t _ _ = err unpaired_exclusion

  -- `zip` stops at the shorter of two series; they have been found equally long.
  unfoldable pub flow_loop :
      Instant
      → Dict Instant (HourExclusion Num)
      → ℕ
      → List (Option Num)
      → List (Option Num)
      → Dict Instant (GridFlowPoint Num)
      → Result StoreError (Dict Instant (GridFlowPoint Num))
  flow_loop start exclusions index [] exports points = ok points
  flow_loop start exclusions index (i ∷ imports) [] points = ok points
  flow_loop start exclusions index (i ∷ imports) (e ∷ exports) points =
      flow_point exclusions (start + index * hour) i e >>= λ p.
      flow_loop start exclusions (index + 1) imports exports
        (insert (start + index * hour) p points)

  unfoldable pub grid_flow_points :
      GridFlowData Num → Result StoreError (Dict Instant (GridFlowPoint Num))
  grid_flow_points d = do
    start ← require_hourly_start d.start_time grid_flow
    raise_if (not (d.interval_minutes == 60) || not (d.unit == "kW")) (not_hourly grid_flow)
    _ ← as_utc d.retrieved_at
    _ ← as_utc d.latest_observation_at
    raise_if (length d.import_kw == 0 || not (length d.import_kw == length d.export_kw))
        (empty_history grid_flow)
    exclusions ← index_exclusions d.exclusions grid_flow
    points ← flow_loop start exclusions 0 d.import_kw d.export_kw []
    raise_if (not (same_members (keys_without_import points) (keys exclusions)))
        (exclusion_mismatch grid_flow)
    ok points

  -- The retained history and the first hour after it, if there is a history.
  abbrev pub retained_points :
      Option (GridFlowData Num)
      → GridFlowData Num
      → Result StoreError (Dict Instant (GridFlowPoint Num) × Option Instant)
  retained_points none incoming = ok ([], none)
  retained_points (some existing) incoming = do
    raise_if (not (same_source existing.source incoming.source)) (source_mismatch grid_flow)
    points ← grid_flow_points existing
    ok (points, some (max_key points + hour))

  unfoldable pub merge_grid_flow_history :
      Option (GridFlowData Num) → GridFlowData Num → Result StoreError (GridFlowData Num)
  merge_grid_flow_history existing incoming = do
    (retained, existing_end) ← retained_points existing incoming
    incoming_points ← grid_flow_points incoming
    let points = fill_gap existing_end (first_key incoming_points) retained
    let ordered = take_last history_retention_hours (sorted_items (update points incoming_points))
    require_contiguous_hours ordered grid_flow
    retrieved ← latest_time (Option.map (λ d. d.retrieved_at) existing) incoming.retrieved_at
    observed ←
        latest_time (Option.map (λ d. d.latest_observation_at) existing)
          incoming.latest_observation_at
    ok (record {
      schema_version = incoming.schema_version;
      start_time = aware (first_time ordered);
      interval_minutes = 60;
      import_kw = map (λ e. e.1.imported) ordered;
      export_kw = map (λ e. e.1.exported) ordered;
      unit = incoming.unit;
      source = incoming.source;
      retrieved_at = aware retrieved;
      latest_observation_at = aware observed;
      exclusions = exclusions_in ordered;
      quality = [];
    })
