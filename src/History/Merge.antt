-- ===== src/History/Merge.antt =====
-- The merges of stored energy and PV histories are that of a household load.
use energy_optimizer.Prelude.{◌≤◌, ◌≡◌, some, ok, string_eq, refl, sym, ◌∙◌}
use energy_optimizer.Hours.{Instant}
use energy_optimizer.Floats.{FloatOps}
use energy_optimizer.Series.{HouseholdLoadData}
use energy_optimizer.Records.Points.{IsHistory}
use energy_optimizer.Records.Missing.{history_end}
use energy_optimizer.Records.Merge.{IsMerged, merge_household_load_history-IsMerged}
use energy_optimizer.Grid.Merge.{same_source_refl}
use energy_optimizer.History.{
  EnergyHistoryData, PvGenerationHistoryData, as_load, as_energy_history, pv_actuals, with_merged,
  pv_generation_source, merge_energy_history, merge_pv_history,
}

module _ {Num : Type 0} ⦃f : FloatOps Num⦄ where
  -- What the incoming history says of itself is kept, and is right.
  with_merged-IsMerged :
      (s₁ s₂ : Instant) (existing incoming : EnergyHistoryData Num) (m : HouseholdLoadData Num)
      → IsHistory s₂ (as_load incoming)
      → IsMerged s₁ s₂ (as_load existing) (as_load incoming) m
      → IsMerged s₁ s₂ (as_load existing) (as_load incoming) (as_load (with_merged incoming m))
  with_merged-IsMerged s₁ s₂ existing incoming m h merged = record {
    history = record {
      starts = merged.history.starts;
      aligned = merged.history.aligned;
      minutes = h.minutes;
      in_kw = h.in_kw;
      retrieved = merged.history.retrieved;
      observed = merged.history.observed;
      nonempty = merged.history.nonempty;
      values_valid = merged.history.values_valid;
      one_exclusion = merged.history.one_exclusion;
      explained = merged.history.explained;
    };
    same_end = merged.same_end;
    merged_values = merged.merged_values;
    merged_exclusions = merged.merged_exclusions;
  }

  merge_energy_history-IsMerged :
      (s₁ s₂ : Instant) (existing incoming : EnergyHistoryData Num)
      → IsHistory s₁ (as_load existing)
      → IsHistory s₂ (as_load incoming)
      → s₁ ≤ history_end s₂ (as_load incoming)
      → existing.source ≡ incoming.source
      → (merged : EnergyHistoryData Num) × (merge_energy_history (some existing) incoming
          ≡ ok merged)
        × (merged.source ≡ incoming.source)
        × IsMerged s₁ s₂ (as_load existing) (as_load incoming) (as_load merged)
  unfolding merge_energy_history
  merge_energy_history-IsMerged s₁ s₂ existing incoming h₁ h₂ meet source =
      let (m, e, merged) =
        merge_household_load_history-IsMerged s₁ s₂ (as_load existing) (as_load incoming) h₁ h₂
          meet in
      (
        with_merged incoming m,
        rw (same_source_refl existing.source incoming.source source, e) refl,
        refl,
        with_merged-IsMerged s₁ s₂ existing incoming m h₂ merged,
      )

  abbrev pub pv_load : PvGenerationHistoryData Num → HouseholdLoadData Num
  pv_load d = as_load (as_energy_history d)

  -- Two well-formed histories of measured PV generation, of which the incoming one does not end
  -- before the stored one starts, are merged to a history of that source with the hours, values and
  -- exclusions that the merge of household loads gives, the hours of a gap and the retention
  -- included.
  pub merge_pv_history-IsMerged :
      (s₁ s₂ : Instant) (existing incoming : PvGenerationHistoryData Num)
      → IsHistory s₁ (pv_load existing)
      → IsHistory s₂ (pv_load incoming)
      → s₁ ≤ history_end s₂ (pv_load incoming)
      → existing.source ≡ pv_generation_source
      → incoming.source ≡ pv_generation_source
      → (merged : PvGenerationHistoryData Num) × (merge_pv_history (some existing) incoming
          ≡ ok merged)
        × (merged.source ≡ pv_generation_source)
        × IsMerged s₁ s₂ (pv_load existing) (pv_load incoming) (pv_load merged)
  unfolding merge_pv_history
  merge_pv_history-IsMerged s₁ s₂ existing incoming h₁ h₂ meet source measured =
      let (m, e, same_incoming, merged) =
        merge_energy_history-IsMerged s₁ s₂ (as_energy_history existing)
          (as_energy_history incoming) h₁ h₂ meet (source ∙ sym measured) in
      (
        pv_actuals m,
        rw (same_source_refl incoming.source pv_generation_source measured, e) refl,
        same_incoming ∙ measured,
        merged,
      )
