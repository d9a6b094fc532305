-- ===== src/Ndjson.antt =====
-- src/energy_optimizer/household_load_records.py: the records of a household-load file, their JSON
-- values and the reading of a file. Paths, which are only named in messages, are left out.
pub mod Decode
pub mod Encode
pub mod Parse
pub mod Valid
pub mod Validated
pub mod Lines
pub mod Cut
pub mod Ordered
pub mod Reading
pub mod Retained
pub mod Written
pub mod RoundTrip
pub mod Window
pub mod Joined
pub mod Appended
use energy_optimizer.Prelude.{
  ℕ, zero, suc, ◌+◌, String, Bool, true, false, not, ◌&&◌, ◌||◌, Option, none, some, List, [], ◌∷◌,
  ◌++◌, map, ◌==◌, nat_eq, string_eq, option_eq, if◌then◌else◌, length, take_last, any, Dict,
  lookup, update, Result, ok, err, ◌>>=◌, ◌>>◌, raise_if, is_none, is_some,
}
use energy_optimizer.Prelude.Sorting.{sorted_items}
use energy_optimizer.Hours.{Instant, hour, Datetime, naive, aware, has_subhour_component}
use energy_optimizer.Floats.{FloatOps}
use energy_optimizer.Exclusions.{HourExclusion}
use energy_optimizer.Legacy.{legacy_exclusion}
use energy_optimizer.Series.{
  HouseholdLoadData, SourceMetadata, QualityStatus, valid, suspect, household_load, StoreError,
  empty_history, empty_record, malformed_json, invalid_record, no_complete_record,
  inconsistent_source, household_load_max_values,
}
use energy_optimizer.Records.{
  as_utc, require_contiguous_hours, household_load_points, household_load_exclusion_points,
}
use energy_optimizer.Bytes.{Bytes, is_line_end, split_lines, strip, strip_right, is_terminated}
use energy_optimizer.Json.{
  Json, null, bool, number, text, array, object, Fields, end, field, get, field_names, Format,
}
use energy_optimizer.Scan.{looks_like_incomplete_household_record}

-- `_HouseholdLoadRecordSource`
pub record RecordSource : Type 0 where
  pub provider : String
  pub entity_id : Option String

-- `_HouseholdLoadRecordQuality`
pub record RecordQuality : Type 0 where
  pub status : QualityStatus
  pub reason : Option String
  pub entity_id : Option String

-- The validators turn the times into UTC.
pub record HouseholdLoadRecord (Num : Type 0) : Type 0 where
  pub timestamp : Instant
  pub load_kw : Option Num
  pub exclusion : Option (HourExclusion Num)
  pub quality : Option RecordQuality
  pub schema_version : String
  pub unit : String
  pub source : RecordSource
  pub retrieved_at : Instant
  pub latest_observation_at : Instant

-- What pydantic's validation of a record raises; `decode` turns it into a `ValueError`.
pub data ValidationError : Type 0 where
  not_on_contract : ValidationError

abbrev pub Validated : Type 0 → Type 0
Validated A = Result ValidationError A

abbrev pub refused : {A : Type 0} → Result ValidationError A
refused = err not_on_contract

-- `_normalize_record_timestamp`, of a `datetime`
unfoldable pub normalize_record_timestamp : Datetime → Validated Instant
normalize_record_timestamp (naive _) = refused
normalize_record_timestamp (aware t) = ok t

unfoldable pub validate_hourly_timestamp : Instant → Validated Instant
validate_hourly_timestamp value = if has_subhour_component value then refused else ok value

abbrev pub has_suspect_quality : Option RecordQuality → Bool
has_suspect_quality none = false
has_suspect_quality (some q) = elim q.status [ suspect ↦ true | valid ↦ false ]

module _ {Num : Type 0} where
  -- `(load is None) != (exclusion is not None)`
  abbrev pub mismatched : Option Num → Option (HourExclusion Num) → Bool
  mismatched none exclusion = is_none exclusion
  mismatched (some v) exclusion = is_some exclusion

  abbrev pub of_another_hour : Instant → Option (HourExclusion Num) → Bool
  of_another_hour t none = false
  of_another_hour t (some item) = not (item.hour_start == t)

  -- The model validator.
  unfoldable pub validate_exclusion : HouseholdLoadRecord Num → Validated (HouseholdLoadRecord Num)
  validate_exclusion r =
      if mismatched r.load_kw r.exclusion && not (has_suspect_quality r.quality)
      then refused
      else if of_another_hour r.timestamp r.exclusion
      then refused
      else ok r

module _ {Num : Type 0} ⦃f : FloatOps Num⦄ where
  -- `validate_load`, of a value that a model or a JSON number holds
  unfoldable pub validate_load : Option Num → Validated (Option Num)
  validate_load none = ok none
  validate_load (some v) =
      if not (f.is_finite v) || f.lt v (f.decimal 0 0) then refused else ok (some v)

  -- `HouseholdLoadRecord(...)`: the fields, each by its validator, and then the whole
  unfoldable pub validated_record :
      Datetime
      → Option Num
      → Option (HourExclusion Num)
      → Option RecordQuality
      → String
      → String
      → RecordSource
      → Datetime
      → Datetime
      → Validated (HouseholdLoadRecord Num)
  validated_record timestamp load exclusion quality schema unit source retrieved observed = do
    utc ← normalize_record_timestamp timestamp
    hour_start ← validate_hourly_timestamp utc
    load_kw ← validate_load load
    raise_if (not (schema == "1") || not (unit == "kW")) not_on_contract
    retrieved_at ← normalize_record_timestamp retrieved
    observed_at ← normalize_record_timestamp observed
    validate_exclusion (record {
      timestamp = hour_start;
      load_kw = load_kw;
      exclusion = exclusion;
      quality = quality;
      schema_version = schema;
      unit = unit;
      source = source;
      retrieved_at = retrieved_at;
      latest_observation_at = observed_at;
    })
