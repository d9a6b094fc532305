-- ===== src/Legacy.antt =====
-- src/energy_optimizer/legacy_quality.py: interval quality that earlier versions stored becomes
-- excluded hours. The start of a stored history counts as an instant; a history with a naive start
-- is rejected when it is validated.
pub mod Blank
pub mod Upgrade
pub mod Flow
mod Tests
use energy_optimizer.Prelude.{
  ℕ, zero, suc, ◌+◌, ◌*◌, String, Bool, true, false, not, ◌||◌, Option, none, some, List, [], ◌∷◌,
  map, Eq, ◌==◌, nat_eq, string_eq, if◌then◌else◌, length, Dict, contains, Result, ok, err, ◌>>=◌,
  ◌>>◌, raise_if, any,
}
use energy_optimizer.Hours.{Instant, hour, Datetime, naive, aware}
use energy_optimizer.Exclusions.{
  ExclusionCause, HourExclusion, flagged_by_earlier_version, flagged_suspect, cause_of,
  merge_exclusions,
}
use energy_optimizer.Series.{
  HouseholdLoadData, GridFlowData, BatteryEfficiencyHistoryData, IntervalQuality, QualityStatus,
  valid, suspect,
}

-- `ValueError`: the quality is not as long as the values
pub data UpgradeError : Type 0 where
  misaligned_quality : UpgradeError

-- `if reason`: an empty text counts as none
abbrev pub shown : Option String → Option String
shown none = none
shown (some s) = if s == "" then none else some s

abbrev pub is_suspect : IntervalQuality → Bool
is_suspect q = elim q.status [ suspect ↦ true | valid ↦ false ]

abbrev pub instant_of : Datetime → Instant
instant_of (naive t) = t
instant_of (aware t) = t

module _ {Num : Type 0} where
  unfoldable pub legacy_exclusion : Instant → Option String → Option String → HourExclusion Num
  legacy_exclusion hour_start reason entity_id = record {
    hour_start = hour_start;
    causes =
        cause_of flagged_by_earlier_version (flagged_suspect (shown reason) (shown entity_id))
          entity_id []
        ∷ [];
  }

  unfoldable pub suspect_loop : Instant → ℕ → List IntervalQuality → Dict ℕ (HourExclusion Num)
  suspect_loop start_time index [] = []
  suspect_loop start_time index (item ∷ quality) =
      let rest = suspect_loop start_time (index + 1) quality in
      if is_suspect item
      then (index, legacy_exclusion (start_time + index * hour) item.reason item.entity_id) ∷ rest
      else rest

  unfoldable pub suspect_hours :
      List IntervalQuality → Instant → ℕ → Result UpgradeError (Dict ℕ (HourExclusion Num))
  unfolding suspect_loop
  suspect_hours quality start_time count =
      raise_if (not (length quality == count)) misaligned_quality
      >> ok (suspect_loop start_time 0 quality)

  unfoldable pub drop_loop : ℕ → (ℕ → Bool) → List (Option Num) → List (Option Num)
  drop_loop index indices [] = []
  drop_loop index indices (value ∷ values) =
      (if indices index then none else value) ∷ drop_loop (index + 1) indices values

  unfoldable pub drop_values : List (Option Num) → (ℕ → Bool) → List (Option Num)
  unfolding drop_loop
  drop_values values indices = drop_loop 0 indices values

  -- `legacy.values()`
  abbrev pub exclusions_of_hours : Dict ℕ (HourExclusion Num) → List (HourExclusion Num)
  exclusions_of_hours legacy = map (λ e. e.1) legacy

  -- `legacy.keys() | {index + 1 for index in legacy}`
  abbrev pub is_boundary : Dict ℕ (HourExclusion Num) → ℕ → Bool
  is_boundary legacy index = contains index legacy || any (λ e. e.0 + 1 == index) legacy

module _ {Num : Type 0} ⦃same : Eq (ExclusionCause Num)⦄ where
  unfoldable pub upgrade_household_load :
      HouseholdLoadData Num → Result UpgradeError (HouseholdLoadData Num)
  upgrade_household_load d =
      if length d.quality == 0
      then ok d
      else (suspect_hours d.quality (instant_of d.start_time) (length d.load_kw) >>= λ legacy.
          ok (record d {
            load_kw = drop_values d.load_kw (λ index. contains index legacy);
            exclusions = merge_exclusions (d.exclusions ∷ exclusions_of_hours legacy ∷ []);
            quality = [];
          }))

  unfoldable pub upgrade_grid_flow : GridFlowData Num → Result UpgradeError (GridFlowData Num)
  upgrade_grid_flow d =
      if length d.quality == 0
      then ok d
      else (suspect_hours d.quality (instant_of d.start_time) (length d.import_kw) >>= λ legacy.
          ok (record d {
            import_kw = drop_values d.import_kw (λ index. contains index legacy);
            export_kw = drop_values d.export_kw (λ index. contains index legacy);
            exclusions = merge_exclusions (d.exclusions ∷ exclusions_of_hours legacy ∷ []);
            quality = [];
          }))

  unfoldable pub upgrade_efficiency_history :
      BatteryEfficiencyHistoryData Num → Result UpgradeError (BatteryEfficiencyHistoryData Num)
  upgrade_efficiency_history d =
      if length d.quality == 0
      then ok d
      else (suspect_hours d.quality (instant_of d.start_time) (length d.battery_energy_in_kwh)
          >>= λ legacy.
              let drop_legacy : List (Option Num) → List (Option Num) =
                λ values. drop_values values (λ index. contains index legacy) in
              ok (record d {
                battery_energy_in_kwh = drop_legacy d.battery_energy_in_kwh;
                battery_energy_out_kwh = drop_legacy d.battery_energy_out_kwh;
                inverter_charge_energy_in_kwh = drop_legacy d.inverter_charge_energy_in_kwh;
                inverter_charge_energy_out_kwh = drop_legacy d.inverter_charge_energy_out_kwh;
                inverter_discharge_energy_in_kwh = drop_legacy d.inverter_discharge_energy_in_kwh;
                inverter_discharge_energy_out_kwh = drop_legacy d.inverter_discharge_energy_out_kwh;
                state_of_charge_percent =
                    drop_values d.state_of_charge_percent (is_boundary legacy);
                exclusions = merge_exclusions (d.exclusions ∷ exclusions_of_hours legacy ∷ []);
                quality = [];
              }))
