-- ===== src/Grid/Laid.antt =====
-- `merge_grid_flow_history`: a series laid over points that it meets or overlaps.
use energy_optimizer.Prelude.{
  ◌+◌, ◌-◌, ◌*◌, ◌%◌, ◌≡◌, ◌<◌, ◌≤◌, refl, none, some, Option, List, [], ◌∷◌, arith, nat_eq, lookup,
  or_else, ap, ◌∙◌, length, Option-cases, inl, inr, if◌then◌else◌, min, leb, drop, take_last,
  string_eq, option_eq,
}
use energy_optimizer.Prelude.Sorting.{sorted_items}
use energy_optimizer.Hours.{Instant, hour, hourly, values}
use energy_optimizer.Floats.{FloatOps}
use energy_optimizer.Series.{GridFlowData, household_load_max_values}
use energy_optimizer.Records.Overlay.{overlaid, overlay_start, span, retained}
use energy_optimizer.Grid.{GridFlowPoint, first_time}
use energy_optimizer.Grid.Points.{length-flows}
use energy_optimizer.Grid.Accepted.{flows_of, IsFlowHistory}
use energy_optimizer.Grid.Lookups.{IsPoint, flows_of-IsPoint}
use energy_optimizer.Grid.Rebuild.{flow_record, flow_record-IsFlowHistory, flows_of-flow_record}

module _ {Num : Type 0} where
  -- The point of the hour `t`, if the series has that hour.
  abbrev pub point_at : Instant → Instant → GridFlowData Num → Option (GridFlowPoint Num)
  point_at start t d = lookup t (hourly start (flows_of start d))

  -- The first instant after a series.
  abbrev pub flow_end : Instant → GridFlowData Num → Instant
  flow_end start d = start + length d.import_kw * hour

-- Points `old` from `s₁` on, and the points of a series laid over them.
module _ {Num : Type 0} ⦃f : FloatOps Num⦄ (s₁ s₂ retrieved observed : Instant)
    (old : List (GridFlowPoint Num)) (incoming : GridFlowData Num) (h : IsFlowHistory s₂ incoming)
    (a₁ : s₁ % hour ≡ 0) (m₁ : s₁ ≤ s₂ + length (flows_of s₂ incoming) * hour)
    (m₂ : s₂ ≤ s₁ + length old * hour)
    (old_points : (t : Instant) (p : GridFlowPoint Num)
      → lookup t (hourly s₁ old) ≡ some p
      → IsPoint t p) where
  abbrev pub new : List (GridFlowPoint Num)
  new = flows_of s₂ incoming

  abbrev pub kept_start : Instant
  kept_start = overlay_start s₁ s₂ old new + (span s₁ s₂ old new - household_load_max_values) * hour

  abbrev pub kept : List (GridFlowPoint Num)
  kept =
      drop (span s₁ s₂ old new - household_load_max_values)
        (values (sorted_items (overlaid s₁ s₂ old new)))

  pub kept-retained :
      (take_last household_load_max_values (sorted_items (overlaid s₁ s₂ old new))
        ≡ hourly kept_start kept)
      × (length kept ≡ min household_load_max_values (span s₁ s₂ old new))
      × ((t : Instant)
          → lookup t (hourly kept_start kept) ≡ (
              if leb kept_start t
              then or_else (lookup t (hourly s₂ new)) (lookup t (hourly s₁ old))
              else none))
  kept-retained = retained s₁ s₂ old new a₁ h.aligned m₁ m₂ household_load_max_values

  pub kept_some : 0 < length kept
  kept_some = omega (
    arith,
    kept-retained.1,
    h.nonempty,
    a₁,
    h.aligned,
    length-flows s₂ _ incoming.import_kw incoming.export_kw h.same_length,
  )

  pub kept_points :
      (t : Instant) (p : GridFlowPoint Num)
      → lookup t (hourly kept_start kept) ≡ some p
      → IsPoint t p
  kept_points t p there = elim (Option-cases (lookup t (hourly s₂ new))) [
    | inl absent ↦ old_points t p (ground (arith, absent, there, kept-retained.2 t))
    | inr (q, found) ↦
        flows_of-IsPoint s₂ incoming h t p (ground (arith, found, there, kept-retained.2 t))
  ]

  abbrev pub kept_record : GridFlowData Num
  kept_record = flow_record incoming kept_start retrieved observed kept

  pub kept_record-IsFlowHistory : IsFlowHistory kept_start kept_record
  kept_record-IsFlowHistory =
      flow_record-IsFlowHistory s₂ kept_start retrieved observed incoming kept h kept_points
        (omega (arith, a₁, h.aligned)) kept_some

  pub point_at-kept_record :
      (t : Instant)
      → point_at kept_start t kept_record ≡ (
          if leb kept_start t
          then or_else (lookup t (hourly s₂ new)) (lookup t (hourly s₁ old))
          else none)
  point_at-kept_record t =
      ap (lookup t)
        (flows_of-flow_record s₂ kept_start retrieved observed incoming kept h kept_points)
      ∙ kept-retained.2 t

pub first_time-hourly :
    {Num : Type 0} (start : Instant) (w : List (GridFlowPoint Num))
    → 0 < length w
    → first_time (hourly start w) ≡ start
unfolding hourly
first_time-hourly start [] h = absurd (omega arith)
first_time-hourly start (p ∷ w) h = refl
