-- ===== src/Grid/Merge.antt =====
-- `merge_grid_flow_history`: what the merged series holds.
use energy_optimizer.Prelude.{
  ◌+◌, ◌*◌, ◌≡◌, ◌<◌, ◌≤◌, refl, sym, none, some, Option, List, [], ◌∷◌, ◌++◌, arith, nat_eq,
  lookup, or_else, ap, ◌∙◌, map, length, Option-cases, inl, inr, ap₂, if◌then◌else◌, max,
  length-append, length-map, ok, subst, leb, true, string_eq, option_eq, String,
}
use energy_optimizer.Hours.{Instant, hour, hourly, aware, Datetime}
use energy_optimizer.Floats.{FloatOps}
use energy_optimizer.Series.{SourceMetadata, GridFlowData}
use energy_optimizer.Records.Index.{by_hour}
use energy_optimizer.Records.Missing.{gap_hours}
use energy_optimizer.Records.Merge.{merged_start}
use energy_optimizer.Records.Rebuild.{require_contiguous_hours-hourly}
use energy_optimizer.Grid.{GridFlowPoint, merge_grid_flow_history, same_source}
use energy_optimizer.Grid.Points.{length-flows}
use energy_optimizer.Grid.Accepted.{flows_of, IsFlowHistory, grid_flow_points-IsFlowHistory}
use energy_optimizer.Grid.Lookups.{IsPoint, flows_of-IsPoint}
use energy_optimizer.Grid.Gap.{
  max_key-hourly, first_key-hourly, fill_gap-hourly, gap_flows, lookup-extended, length-gap_flows,
  gap_flows-IsPoint, latest_time-aware,
}
use energy_optimizer.Grid.Laid.{
  point_at, flow_end, kept_start, kept, kept-retained, kept_some, kept_record,
  kept_record-IsFlowHistory, point_at-kept_record, first_time-hourly,
}

pub map-hourly_values :
    {Num V : Type 0} (g : GridFlowPoint Num → V) (start : Instant) (w : List (GridFlowPoint Num))
    → map (λ e. g e.1) (hourly start w) ≡ map g w
unfolding hourly
map-hourly_values g start [] = refl
map-hourly_values g start (p ∷ w) = ap (λ l. g p ∷ l) (map-hourly_values g (start + hour) w)

aware_same : (d : Datetime) (t u : Instant) → d ≡ aware t → d ≡ aware u → t ≡ u
aware_same d t u a b = cc (a, b)

pub same_source_refl : (a b : SourceMetadata) → a ≡ b → same_source a b ≡ true
same_source_refl a b e = ground (
  arith,
  string_eq.eqb_iff a.provider b.provider,
  (option_eq {A = String}).eqb_iff a.entity_id b.entity_id,
  ap (λ (m : SourceMetadata). m.provider) e,
  ap (λ (m : SourceMetadata). m.entity_id) e,
)

module _ {Num : Type 0} ⦃f : FloatOps Num⦄ (s₁ s₂ : Instant) (existing incoming : GridFlowData Num)
    (h₁ : IsFlowHistory s₁ existing) (h₂ : IsFlowHistory s₂ incoming)
    (same : existing.source ≡ incoming.source) (meet : s₁ ≤ flow_end s₂ incoming) where
  abbrev stored_end : Instant
  stored_end = s₁ + length (flows_of s₁ existing) * hour

  stored_end-flow_end : stored_end ≡ flow_end s₁ existing
  stored_end-flow_end =
      ap (λ n. s₁ + n * hour)
        (length-flows s₁ _ existing.import_kw existing.export_kw h₁.same_length)

  abbrev extended : List (GridFlowPoint Num)
  extended = flows_of s₁ existing ++ gap_flows stored_end s₂

  length-extended : length extended ≡ length existing.import_kw + gap_hours stored_end s₂
  length-extended =
      length-append (flows_of s₁ existing) _
      ∙ ap₂ (λ m n. m + n) (length-flows s₁ _ existing.import_kw existing.export_kw h₁.same_length)
          (length-gap_flows Num stored_end s₂)

  extended_points :
      (t : Instant) (p : GridFlowPoint Num) → lookup t (hourly s₁ extended) ≡ some p → IsPoint t p
  extended_points t p there = elim (Option-cases (point_at s₁ t existing)) [
    | inl absent ↦
        gap_flows-IsPoint stored_end s₂ t p
          (ground (arith, absent, there, lookup-extended t s₁ s₂ (flows_of s₁ existing)))
    | inr (q, found) ↦
        flows_of-IsPoint s₁ existing h₁ t p
          (ground (arith, found, there, lookup-extended t s₁ s₂ (flows_of s₁ existing)))
  ]

  starts_before : s₁ ≤ s₂ + length (flows_of s₂ incoming) * hour
  starts_before =
      omega (arith, meet, length-flows s₂ _ incoming.import_kw incoming.export_kw h₂.same_length)

  ends_after : s₂ ≤ s₁ + length extended * hour
  ends_after = omega (arith, length-extended, stored_end-flow_end, h₁.aligned, h₂.aligned)

  abbrev merged_record : GridFlowData Num
  merged_record =
      kept_record s₁ s₂ (max h₁.retrieved.0 h₂.retrieved.0) (max h₁.observed.0 h₂.observed.0)
        extended incoming h₂ h₁.aligned starts_before ends_after extended_points

  abbrev hours_from : Instant
  hours_from =
      kept_start s₁ s₂ 0 0 extended incoming h₂ h₁.aligned starts_before ends_after extended_points

  abbrev kept_hours : List (GridFlowPoint Num)
  kept_hours =
      kept s₁ s₂ 0 0 extended incoming h₂ h₁.aligned starts_before ends_after extended_points

  merge-merged_record : merge_grid_flow_history (some existing) incoming ≡ ok merged_record
  unfolding merge_grid_flow_history
  merge-merged_record =
      let size₁ =
        length-flows s₁ (by_hour existing.exclusions) existing.import_kw existing.export_kw
          h₁.same_length in
      let size₂ =
        length-flows s₂ (by_hour incoming.exclusions) incoming.import_kw incoming.export_kw
          h₂.same_length in
      let some₁ : 0 < length (flows_of s₁ existing) = omega (arith, size₁, h₁.nonempty) in
      let some₂ : 0 < length (flows_of s₂ incoming) = omega (arith, size₂, h₂.nonempty) in
      let ordered =
        kept-retained s₁ s₂ 0 0 extended incoming h₂ h₁.aligned starts_before ends_after
          extended_points in
      let first =
        kept_some s₁ s₂ 0 0 extended incoming h₂ h₁.aligned starts_before ends_after
          extended_points in
      rw (
        same_source_refl existing.source incoming.source same,
        grid_flow_points-IsFlowHistory s₁ existing h₁,
        grid_flow_points-IsFlowHistory s₂ incoming h₂,
        max_key-hourly s₁ (flows_of s₁ existing) some₁,
        first_key-hourly s₂ (flows_of s₂ incoming) some₂,
        fill_gap-hourly s₁ s₂ (flows_of s₁ existing) h₁.aligned h₂.aligned,
        ordered.0,
        require_contiguous_hours-hourly,
        latest_time-aware existing.retrieved_at incoming.retrieved_at _ _ h₁.retrieved.1
            h₂.retrieved.1,
        latest_time-aware existing.latest_observation_at incoming.latest_observation_at _ _
            h₁.observed.1 h₂.observed.1,
        first_time-hourly (hours_from) kept_hours first,
        map-hourly_values (λ p. p.imported) hours_from kept_hours,
        map-hourly_values (λ p. p.exported) hours_from kept_hours,
      )

  -- The first hour that is kept is as many hours before the later end as are retained.
  hours_from-merged_start :
      hours_from ≡ merged_start s₁ (flow_end s₁ existing) s₂ (flow_end s₂ incoming)
  hours_from-merged_start = omega (
    arith,
    length-extended,
    stored_end-flow_end,
    length-flows s₂ (by_hour incoming.exclusions) incoming.import_kw incoming.export_kw
        h₂.same_length,
    h₁.aligned,
    h₂.aligned,
  )

  merged_end :
      hours_from + length merged_record.import_kw * hour
      ≡ max (flow_end s₁ existing) (flow_end s₂ incoming)
  merged_end = omega (
    arith,
    (kept-retained s₁ s₂ 0 0 extended incoming h₂ h₁.aligned starts_before ends_after
        extended_points).1,
    length-map (λ (p : GridFlowPoint Num). p.imported) kept_hours,
    length-extended,
    stored_end-flow_end,
    length-flows s₂ (by_hour incoming.exclusions) incoming.import_kw incoming.export_kw
        h₂.same_length,
    h₁.aligned,
    h₂.aligned,
    h₂.nonempty,
  )

  merged_record-IsFlowHistory : IsFlowHistory hours_from merged_record
  merged_record-IsFlowHistory =
      kept_record-IsFlowHistory s₁ s₂ (max h₁.retrieved.0 h₂.retrieved.0)
        (max h₁.observed.0 h₂.observed.0) extended incoming h₂ h₁.aligned starts_before ends_after
        extended_points

  point_at-merged_record :
      (t : Instant)
      → point_at hours_from t merged_record ≡ (
          if leb hours_from t
          then or_else (point_at s₂ t incoming) (
              or_else
                (point_at s₁ t existing)
                (lookup t (hourly stored_end (gap_flows stored_end s₂))))
          else none)
  point_at-merged_record t =
      point_at-kept_record s₁ s₂ (max h₁.retrieved.0 h₂.retrieved.0)
        (max h₁.observed.0 h₂.observed.0) extended incoming h₂ h₁.aligned starts_before ends_after
        extended_points t
      ∙ ap
          (λ (o : Option (GridFlowPoint Num)).
            if leb hours_from t then or_else (point_at s₂ t incoming) o else none)
          (lookup-extended t s₁ s₂ (flows_of s₁ existing))

module _ {Num : Type 0} ⦃f : FloatOps Num⦄ where
  -- What `merged` has to be, for series that start at `s₁` and `s₂`.
  pub record IsFlowMerged (s₁ s₂ : Instant) (existing incoming merged : GridFlowData Num)
      : Type 0 where
    pub history :
        IsFlowHistory (merged_start s₁ (flow_end s₁ existing) s₂ (flow_end s₂ incoming)) merged
    pub same_end :
        flow_end (merged_start s₁ (flow_end s₁ existing) s₂ (flow_end s₂ incoming)) merged
        ≡ max (flow_end s₁ existing) (flow_end s₂ incoming)
    pub merged_points :
        (t : Instant)
        → point_at (merged_start s₁ (flow_end s₁ existing) s₂ (flow_end s₂ incoming)) t merged ≡ (
            if leb (merged_start s₁ (flow_end s₁ existing) s₂ (flow_end s₂ incoming)) t
            then or_else (point_at s₂ t incoming) (
                or_else
                  (point_at s₁ t existing)
                  (lookup t (hourly (flow_end s₁ existing) (gap_flows (flow_end s₁ existing) s₂))))
            else none)
    pub latest_retrieval :
        (t u : Instant)
        → existing.retrieved_at ≡ aware t
        → incoming.retrieved_at ≡ aware u
        → merged.retrieved_at ≡ aware (max t u)

  -- A grid-flow series is merged into the retained one whenever both are well formed and of one
  -- source and the incoming one ends no earlier than the retained one starts. The merged series is
  -- well formed, ends at the later of the two ends and keeps the last 87,672 hours. Of the hours
  -- that it keeps, it has the incoming point where the incoming series has the hour, the retained
  -- point where only the retained one has it, and the exclusion of the gap in between; its
  -- retrieval is the later one.
  pub merge_grid_flow_history-IsFlowMerged :
      (s₁ s₂ : Instant) (existing incoming : GridFlowData Num)
      → IsFlowHistory s₁ existing
      → IsFlowHistory s₂ incoming
      → existing.source ≡ incoming.source
      → s₁ ≤ flow_end s₂ incoming
      → (merged : GridFlowData Num) × (merge_grid_flow_history (some existing) incoming ≡ ok merged)
        × IsFlowMerged s₁ s₂ existing incoming merged
  merge_grid_flow_history-IsFlowMerged s₁ s₂ existing incoming h₁ h₂ same meet =
      let merged = merged_record s₁ s₂ existing incoming h₁ h₂ same meet in
      let start = hours_from-merged_start s₁ s₂ existing incoming h₁ h₂ same meet in
      let points_apart : Instant → Instant → Option (GridFlowPoint Num) = λ e t.
        or_else (point_at s₂ t incoming)
          (or_else (point_at s₁ t existing) (lookup t (hourly e (gap_flows e s₂)))) in
      let end_eq = stored_end-flow_end s₁ s₂ existing incoming h₁ h₂ same meet in
      (
        merged,
        merge-merged_record s₁ s₂ existing incoming h₁ h₂ same meet,
        record {
          history =
              subst (λ k. IsFlowHistory k merged) start
                (merged_record-IsFlowHistory s₁ s₂ existing incoming h₁ h₂ same meet);
          same_end =
              ap (λ k. flow_end k merged) (sym start)
              ∙ merged_end s₁ s₂ existing incoming h₁ h₂ same meet;
          merged_points = λ t.
              ap (λ k. point_at k t merged) (sym start)
              ∙ point_at-merged_record s₁ s₂ existing incoming h₁ h₂ same meet t
              ∙ ap₂ (λ k e. if leb k t then points_apart e t else none) start end_eq;
          latest_retrieval = λ t u a b.
              ap₂ (λ x y. aware (max x y)) (aware_same _ _ _ h₁.retrieved.1 a)
                (aware_same _ _ _ h₂.retrieved.1 b);
        },
      )
