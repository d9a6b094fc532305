-- ===== src/Grid/First.antt =====
-- `merge_grid_flow_history` without a retained series.
use energy_optimizer.Prelude.{
  ◌+◌, ◌-◌, ◌*◌, ◌≡◌, ◌≤◌, refl, ◌∙◌, none, some, List, [], arith, nat_eq, lookup, length,
  if◌then◌else◌, leb, ok, subst,
}
use energy_optimizer.Hours.{Instant, hour, hourly}
use energy_optimizer.Floats.{FloatOps}
use energy_optimizer.Series.{GridFlowData, household_load_max_values}
use energy_optimizer.Records.Index.{by_hour}
use energy_optimizer.Records.Rebuild.{require_contiguous_hours-hourly, as_utc-aware}
use energy_optimizer.Grid.{GridFlowPoint, merge_grid_flow_history}
use energy_optimizer.Grid.Points.{length-flows}
use energy_optimizer.Grid.Accepted.{flows_of, IsFlowHistory, grid_flow_points-IsFlowHistory}
use energy_optimizer.Grid.Lookups.{IsPoint}
use energy_optimizer.Grid.Laid.{
  point_at, kept_start, kept, kept-retained, kept_some, kept_record, kept_record-IsFlowHistory,
  point_at-kept_record, first_time-hourly,
}
use energy_optimizer.Grid.Merge.{map-hourly_values}

module _ {Num : Type 0} ⦃f : FloatOps Num⦄ (s : Instant) (incoming : GridFlowData Num)
    (h : IsFlowHistory s incoming) where
  no_points : (t : Instant) (p : GridFlowPoint Num) → lookup t (hourly s []) ≡ some p → IsPoint t p
  unfolding lookup hourly
  no_points t p there = cc

  no_hour : (t : Instant) → lookup t (hourly {V = GridFlowPoint Num} s []) ≡ none
  unfolding lookup hourly
  no_hour t = refl

  size : length (flows_of s incoming) ≡ length incoming.import_kw
  size =
      length-flows s (by_hour incoming.exclusions) incoming.import_kw incoming.export_kw
        h.same_length

  meets : s ≤ s + length (flows_of s incoming) * hour
  meets = omega arith

  follows : s ≤ s + 0 * hour
  follows = omega arith

  abbrev first_record : GridFlowData Num
  first_record =
      kept_record s s h.retrieved.0 h.observed.0 [] incoming h h.aligned meets follows no_points

  abbrev first_start : Instant
  first_start = kept_start s s 0 0 [] incoming h h.aligned meets follows no_points

  abbrev first_hours : List (GridFlowPoint Num)
  first_hours = kept s s 0 0 [] incoming h h.aligned meets follows no_points

  merge-first_record : merge_grid_flow_history none incoming ≡ ok first_record
  unfolding merge_grid_flow_history
  merge-first_record =
      let ordered = kept-retained s s 0 0 [] incoming h h.aligned meets follows no_points in
      let some_first = kept_some s s 0 0 [] incoming h h.aligned meets follows no_points in
      let nothing : hourly {V = GridFlowPoint Num} s [] ≡ [] = unfold hourly in refl in
      rw (
        grid_flow_points-IsFlowHistory s incoming h,
        ← nothing,
        ordered.0,
        require_contiguous_hours-hourly,
        as_utc-aware incoming.retrieved_at _ h.retrieved.1,
        as_utc-aware incoming.latest_observation_at _ h.observed.1,
        first_time-hourly first_start first_hours some_first,
        map-hourly_values (λ p. p.imported) first_start first_hours,
        map-hourly_values (λ p. p.exported) first_start first_hours,
      )

  first_start-last_hours :
      first_start ≡ s + (length incoming.import_kw - household_load_max_values) * hour
  first_start-last_hours = omega (arith, size, h.aligned)

  point_at-first_record :
      (t : Instant)
      → point_at first_start t first_record
        ≡ (if leb first_start t then point_at s t incoming else none)
  point_at-first_record t =
      point_at-kept_record s s h.retrieved.0 h.observed.0 [] incoming h h.aligned meets follows
        no_points t
      ∙ ground (arith, no_hour t)

module _ {Num : Type 0} ⦃f : FloatOps Num⦄ where
  -- A well-formed grid-flow series starts a history: the first retained history has its last 87,672
  -- hours with their points, and is well formed.
  pub merge_grid_flow_history-first :
      (s : Instant) (incoming : GridFlowData Num)
      → IsFlowHistory s incoming
      → let m = s + (length incoming.import_kw - household_load_max_values) * hour in
        (merged : GridFlowData Num) × (merge_grid_flow_history none incoming ≡ ok merged)
        × IsFlowHistory m merged
        × ((t : Instant) → point_at m t merged ≡ (if leb m t then point_at s t incoming else none))
  merge_grid_flow_history-first s incoming h =
      let from = first_start-last_hours s incoming h in
      let merged = first_record s incoming h in
      (
        merged,
        merge-first_record s incoming h,
        subst (λ m. IsFlowHistory m merged) from
            (kept_record-IsFlowHistory s s h.retrieved.0 h.observed.0 [] incoming h h.aligned
              (meets s incoming h) (follows s incoming h) (no_points s incoming h)),
        λ t.
            subst (λ m. point_at m t merged ≡ (if leb m t then point_at s t incoming else none))
              from (point_at-first_record s incoming h t),
      )
