-- ===== src/Series.antt =====
-- src/energy_optimizer/providers/interfaces.py: the normalized data of the providers, and
-- src/energy_optimizer/storage_errors.py: what the histories raise, one constructor a message.
use energy_optimizer.Prelude.{ℕ, String, Option, List}
use energy_optimizer.Hours.{Datetime}
use energy_optimizer.Exclusions.{HourExclusion}

-- `HOUSEHOLD_LOAD_MAX_VALUES`: ten years of hours
abbrev pub household_load_max_values : ℕ
household_load_max_values = 87672

pub record SourceMetadata : Type 0 where
  pub provider : String
  pub entity_id : Option String

pub data QualityStatus : Type 0 where
  valid suspect : QualityStatus

pub record IntervalQuality : Type 0 where
  pub status : QualityStatus
  pub reason : Option String
  pub entity_id : Option String

pub record HouseholdLoadData (Num : Type 0) : Type 0 where
  pub schema_version : String
  pub start_time : Datetime
  pub interval_minutes : ℕ
  pub load_kw : List (Option Num)
  pub unit : String
  pub source : SourceMetadata
  pub retrieved_at : Datetime
  pub latest_observation_at : Datetime
  pub exclusions : List (HourExclusion Num)
  pub quality : List IntervalQuality

pub record GridFlowData (Num : Type 0) : Type 0 where
  pub schema_version : String
  pub start_time : Datetime
  pub interval_minutes : ℕ
  pub import_kw : List (Option Num)
  pub export_kw : List (Option Num)
  pub unit : String
  pub source : SourceMetadata
  pub retrieved_at : Datetime
  pub latest_observation_at : Datetime
  pub exclusions : List (HourExclusion Num)
  pub quality : List IntervalQuality

pub record BatteryEfficiencyHistoryData (Num : Type 0) : Type 0 where
  pub schema_version : String
  pub start_time : Datetime
  pub interval_minutes : ℕ
  pub battery_energy_in_kwh : List (Option Num)
  pub battery_energy_out_kwh : List (Option Num)
  pub inverter_charge_energy_in_kwh : List (Option Num)
  pub inverter_charge_energy_out_kwh : List (Option Num)
  pub inverter_discharge_energy_in_kwh : List (Option Num)
  pub inverter_discharge_energy_out_kwh : List (Option Num)
  pub state_of_charge_percent : List (Option Num)
  pub unit : String
  pub source : SourceMetadata
  pub retrieved_at : Datetime
  pub latest_observation_at : Datetime
  pub exclusions : List (HourExclusion Num)
  pub quality : List IntervalQuality

pub record ElectricityPriceData (Num : Type 0) : Type 0 where
  pub schema_version : String
  pub timestamps : List Datetime
  pub interval_minutes : ℕ
  pub import_price_eur_per_kwh : List Num
  pub export_price_eur_per_kwh : List Num
  pub unit : String
  pub source : SourceMetadata
  pub retrieved_at : Datetime
  pub expires_at : Datetime

-- Which history a message names.
pub data Label : Type 0 where
  household_load grid_flow electricity_price energy_history : Label

-- `ProviderDataStoreError`
pub data StoreError : Type 0 where
  missing_timezone : StoreError
  not_aligned : Label → StoreError
  not_hourly : Label → StoreError
  empty_history : Label → StoreError
  invalid_value : Label → StoreError
  unpaired_exclusion : StoreError
  two_exclusions : Label → StoreError
  exclusion_mismatch : Label → StoreError
  not_contiguous : Label → StoreError
  source_mismatch : Label → StoreError
  failed_validation invalid_data unreadable unwritable : StoreError
  empty_record malformed_json invalid_record no_complete_record inconsistent_source : StoreError
  empty_range wrong_data_type not_measured : StoreError
