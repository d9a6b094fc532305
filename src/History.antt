-- ===== src/History.antt =====
-- The hourly histories that are stored like a household load:
-- src/energy_optimizer/providers/home_assistant_energy_history.py, of any source of energy, and
-- src/energy_optimizer/providers/home_assistant_pv.py, of measured PV generation.
pub mod Merge
mod Tests
use mathlib.Core.Option
use energy_optimizer.Prelude.{
  ℕ, String, not, string_eq, option_eq, Bool, false, Option, none, some, List, [], Result, ok,
  ◌>>=◌, ◌>>◌, raise_if,
}
use energy_optimizer.Hours.{Datetime}
use energy_optimizer.Floats.{FloatOps}
use energy_optimizer.Exclusions.{HourExclusion}
use energy_optimizer.Series.{
  HouseholdLoadData, SourceMetadata, StoreError, source_mismatch, energy_history, not_measured,
}
use energy_optimizer.Records.{bounded_household_load, merge_household_load_history}
use energy_optimizer.Grid.{same_source}

pub record EnergyHistoryData (Num : Type 0) : Type 0 where
  pub schema_version : String
  pub start_time : Datetime
  pub interval_minutes : ℕ
  pub power_kw : List (Option Num)
  pub unit : String
  pub source : SourceMetadata
  pub retrieved_at : Datetime
  pub latest_observation_at : Datetime
  pub exclusions : List (HourExclusion Num)

-- `scenario_kind` is always "actual", and left out.
pub record PvGenerationHistoryData (Num : Type 0) : Type 0 where
  pub schema_version : String
  pub start_time : Datetime
  pub interval_minutes : ℕ
  pub generation_kw : List (Option Num)
  pub unit : String
  pub source : SourceMetadata
  pub retrieved_at : Datetime
  pub latest_observation_at : Datetime
  pub exclusions : List (HourExclusion Num)

abbrev pub pv_generation_source : SourceMetadata
pv_generation_source = record { provider = "home-assistant"; entity_id = some "pv_generation" }

module _ {Num : Type 0} where
  abbrev pub as_load : EnergyHistoryData Num → HouseholdLoadData Num
  as_load d = record {
    schema_version = d.schema_version;
    start_time = d.start_time;
    interval_minutes = d.interval_minutes;
    load_kw = d.power_kw;
    unit = d.unit;
    source = d.source;
    retrieved_at = d.retrieved_at;
    latest_observation_at = d.latest_observation_at;
    exclusions = d.exclusions;
    quality = [];
  }

  abbrev pub as_energy_history : PvGenerationHistoryData Num → EnergyHistoryData Num
  as_energy_history d = record {
    schema_version = d.schema_version;
    start_time = d.start_time;
    interval_minutes = d.interval_minutes;
    power_kw = d.generation_kw;
    unit = d.unit;
    source = d.source;
    retrieved_at = d.retrieved_at;
    latest_observation_at = d.latest_observation_at;
    exclusions = d.exclusions;
  }

  abbrev pub pv_actuals : EnergyHistoryData Num → PvGenerationHistoryData Num
  pv_actuals d = record {
    schema_version = d.schema_version;
    start_time = d.start_time;
    interval_minutes = d.interval_minutes;
    generation_kw = d.power_kw;
    unit = d.unit;
    source = d.source;
    retrieved_at = d.retrieved_at;
    latest_observation_at = d.latest_observation_at;
    exclusions = d.exclusions;
  }

  abbrev pub other_source : Option (EnergyHistoryData Num) → EnergyHistoryData Num → Bool
  other_source none incoming = false
  other_source (some existing) incoming = not (same_source existing.source incoming.source)

  -- `replace(incoming, ...)` of `merge_energy_history`
  abbrev pub with_merged : EnergyHistoryData Num → HouseholdLoadData Num → EnergyHistoryData Num
  with_merged incoming merged = record incoming {
    start_time = merged.start_time;
    power_kw = merged.load_kw;
    retrieved_at = merged.retrieved_at;
    latest_observation_at = merged.latest_observation_at;
    exclusions = merged.exclusions;
  }

module _ {Num : Type 0} ⦃f : FloatOps Num⦄ where
  abbrev pub merged_load :
      Option (EnergyHistoryData Num)
      → EnergyHistoryData Num
      → Result StoreError (HouseholdLoadData Num)
  merged_load none incoming = bounded_household_load (as_load incoming)
  merged_load (some existing) incoming =
      merge_household_load_history (as_load existing) (as_load incoming)

  unfoldable pub merge_energy_history :
      Option (EnergyHistoryData Num)
      → EnergyHistoryData Num
      → Result StoreError (EnergyHistoryData Num)
  merge_energy_history existing incoming = do
    raise_if (other_source existing incoming) (source_mismatch energy_history)
    merged ← merged_load existing incoming
    ok (with_merged incoming merged)

  unfoldable pub merge_pv_history :
      Option (PvGenerationHistoryData Num)
      → PvGenerationHistoryData Num
      → Result StoreError (PvGenerationHistoryData Num)
  merge_pv_history existing incoming = do
    raise_if (not (same_source incoming.source pv_generation_source)) not_measured
    merged ←
        merge_energy_history (Option.map as_energy_history existing) (as_energy_history incoming)
    ok (pv_actuals merged)
