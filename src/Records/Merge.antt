-- ===== src/Records/Merge.antt =====
-- `merge_household_load_history`: what the merged history holds.
use energy_optimizer.Prelude.{
  ◌+◌, ◌-◌, ◌*◌, ◌/◌, ◌≤◌, ◌≡◌, Option, none, List, arith, leb, nat_eq, if◌then◌else◌, length,
  lookup, is_some, or_else, min, max, ap, ap₂, ◌∙◌, sym, subst, ok,
}
use energy_optimizer.Hours.{Instant, hour, hourly, lookup-hourly_domain}
use energy_optimizer.Floats.{FloatOps}
use energy_optimizer.Exclusions.{HourExclusion}
use energy_optimizer.Exclusions.Gap.{gap_own_hours}
use energy_optimizer.Series.{HouseholdLoadData, household_load_max_values}
use energy_optimizer.Records.{merge_household_load_history}
use energy_optimizer.Records.Points.{IsHistory}
use energy_optimizer.Records.Missing.{
  value_at, exclusion_at, history_end, gap_value, gap_hours, gap_exclusions, exclusion_in_range,
  ranges_apart, gap_apart,
}
use energy_optimizer.Records.Bridge.{IsBridged, bridge_household_load_gap-IsBridged}
use energy_optimizer.Records.Laid.{
  kept_start, overlaid_history, overlaid_history-IsHistory, merge-overlaid,
  exclusion_at-overlaid_history, value_at-overlaid_history, length-overlaid_history,
}

-- The first hour that a merge keeps: the earlier of the two starts, or as many hours before the
-- later of the two ends as are retained.
abbrev pub merged_start : Instant → Instant → Instant → Instant → Instant
merged_start s₁ e₁ s₂ e₂ =
    min s₁ s₂ + ((max e₁ e₂ - min s₁ s₂) / hour - household_load_max_values) * hour

module _ {Num : Type 0} ⦃f : FloatOps Num⦄ where
  -- What `merged` has to be, for histories that start at `s₁` and `s₂`.
  pub record IsMerged (s₁ s₂ : Instant) (existing incoming merged : HouseholdLoadData Num)
      : Type 0 where
    pub history :
        IsHistory (merged_start s₁ (history_end s₁ existing) s₂ (history_end s₂ incoming)) merged
    pub same_end :
        history_end (merged_start s₁ (history_end s₁ existing) s₂ (history_end s₂ incoming)) merged
        ≡ max (history_end s₁ existing) (history_end s₂ incoming)
    pub merged_values :
        (t : Instant)
        → value_at (merged_start s₁ (history_end s₁ existing) s₂ (history_end s₂ incoming)) t merged
          ≡ (if leb (merged_start s₁ (history_end s₁ existing) s₂ (history_end s₂ incoming)) t
              then or_else (value_at s₂ t incoming) (
                  or_else (value_at s₁ t existing) (
                    gap_value (history_end s₁ existing) (gap_hours (history_end s₁ existing) s₂) t))
              else none)
    pub merged_exclusions :
        (t : Instant)
        → exclusion_at t merged ≡ (
            if leb (merged_start s₁ (history_end s₁ existing) s₂ (history_end s₂ incoming)) t
            then or_else (exclusion_at t incoming) (
                if is_some (value_at s₂ t incoming)
                then none
                else or_else (exclusion_at t existing) (
                    lookup t (
                      hourly
                        (history_end s₁ existing)
                        (gap_exclusions (history_end s₁ existing) s₂))))
            else none)

  values-order :
      (s₁ s₂ t : Instant) (existing incoming bridged : HouseholdLoadData Num)
      → IsBridged s₁ s₂ existing incoming bridged
      → or_else (value_at (min s₂ (history_end s₁ existing)) t bridged) (value_at s₁ t existing)
        ≡ or_else (value_at s₂ t incoming) (
            or_else
              (value_at s₁ t existing)
              (gap_value (history_end s₁ existing) (gap_hours (history_end s₁ existing) s₂) t))
  values-order s₁ s₂ t existing incoming bridged b =
      let n = gap_hours (history_end s₁ existing) s₂ in
      ground (
        arith,
        b.bridged_values t,
        lookup-hourly_domain s₁ existing.load_kw t,
        lookup-hourly_domain s₂ incoming.load_kw t,
        ranges_apart s₁ (length existing.load_kw) n t,
        gap_apart (history_end s₁ existing) s₂ (length incoming.load_kw) t,
      )

  exclusions-order :
      (s₁ s₂ t : Instant) (existing incoming bridged : HouseholdLoadData Num)
      → IsHistory s₁ existing
      → IsHistory s₂ incoming
      → IsBridged s₁ s₂ existing incoming bridged
      → or_else (exclusion_at t bridged) (
          if is_some (value_at (min s₂ (history_end s₁ existing)) t bridged)
          then none
          else exclusion_at t existing)
        ≡ or_else (exclusion_at t incoming) (
            if is_some (value_at s₂ t incoming)
            then none
            else or_else (exclusion_at t existing) (
                lookup t
                  (hourly (history_end s₁ existing) (gap_exclusions (history_end s₁ existing) s₂))))
  exclusions-order s₁ s₂ t existing incoming bridged h₁ h₂ b =
      let e₁ = history_end s₁ existing in
      let n = gap_hours e₁ s₂ in
      let gap : List (HourExclusion Num) = gap_exclusions e₁ s₂ in
      ground (
        arith,
        b.bridged_values t,
        b.bridged_exclusions t,
        lookup-hourly_domain s₁ existing.load_kw t,
        lookup-hourly_domain s₂ incoming.load_kw t,
        lookup-hourly_domain e₁ gap t,
        (gap_own_hours {Num = Num} e₁ n).1,
        exclusion_in_range s₁ t existing h₁,
        exclusion_in_range s₂ t incoming h₂,
        ranges_apart s₁ (length existing.load_kw) n t,
        gap_apart e₁ s₂ (length incoming.load_kw) t,
      )

  -- Two well-formed histories are merged whenever the incoming one ends no earlier than the stored
  -- one starts. The merged history is well formed, ends at the later of the two ends and keeps the
  -- last 87,672 hours. Of the hours that it keeps, it has the incoming value and exclusion where
  -- the incoming history has the hour, the stored ones where only the stored one has it, and no
  -- value and the exclusion of the gap where the hour lies between the two.
  pub merge_household_load_history-IsMerged :
      (s₁ s₂ : Instant) (existing incoming : HouseholdLoadData Num)
      → IsHistory s₁ existing
      → IsHistory s₂ incoming
      → s₁ ≤ history_end s₂ incoming
      → (merged : HouseholdLoadData Num) × (merge_household_load_history existing incoming
          ≡ ok merged)
        × IsMerged s₁ s₂ existing incoming merged
  merge_household_load_history-IsMerged s₁ s₂ existing incoming h₁ h₂ meet =
      let (bridged, eq, b) = bridge_household_load_gap-IsBridged s₁ s₂ existing incoming h₁ h₂ in
      let e₁ = history_end s₁ existing in
      let s = min s₂ e₁ in
      let m₁ : s₁ ≤ history_end s bridged = omega (arith, b.same_end) in
      let m₂ : s ≤ e₁ = omega arith in
      let start : kept_start s₁ s existing bridged h₁ b.history m₁ m₂
          ≡ merged_start s₁ e₁ s₂ (history_end s₂ incoming) =
        omega (arith, b.same_end) in
      let merged = overlaid_history s₁ s existing bridged h₁ b.history m₁ m₂ in
      (
        merged,
        merge-overlaid s₁ s existing bridged h₁ b.history m₁ m₂ incoming eq,
        record {
          history =
              subst (λ k. IsHistory k merged) start
                (overlaid_history-IsHistory s₁ s existing bridged h₁ b.history m₁ m₂);
          same_end = omega (
            arith,
            length-overlaid_history s₁ s existing bridged h₁ b.history m₁ m₂,
            b.same_end,
            h₁.aligned,
            h₂.aligned,
          );
          merged_values = λ t.
              ap (λ k. value_at k t merged) (sym start)
              ∙ value_at-overlaid_history s₁ s existing bridged h₁ b.history m₁ m₂ t
              ∙ ap₂ (λ k (o : Option (Option Num)). if leb k t then o else none) start
                  (values-order s₁ s₂ t existing incoming bridged b);
          merged_exclusions = λ t.
              exclusion_at-overlaid_history s₁ s existing bridged h₁ b.history m₁ m₂ t
              ∙ ap₂ (λ k (o : Option (HourExclusion Num)). if leb k t then o else none) start
                  (exclusions-order s₁ s₂ t existing incoming bridged h₁ h₂ b);
        },
      )
