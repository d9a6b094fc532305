-- ===== src/Ndjson/Encode.antt =====
-- `HouseholdLoadRecord.encode`, and the records of a history.
use energy_optimizer.Prelude.{
  String, Option, none, some, List, [], ◌∷◌, ◌++◌, nat_eq, string_eq, option_eq, Dict, lookup,
  Result, ok, err, ◌>>=◌,
}
use energy_optimizer.Prelude.Sorting.{sorted_items}
use energy_optimizer.Hours.{Instant, aware}
use energy_optimizer.Floats.{FloatOps}
use energy_optimizer.Exclusions.{HourExclusion}
use energy_optimizer.Series.{HouseholdLoadData, StoreError}
use energy_optimizer.Records.{as_utc, household_load_points, household_load_exclusion_points}
use energy_optimizer.Bytes.{Bytes}
use energy_optimizer.Json.{Json, null, number, text, object, Fields, end, field, Format}
use energy_optimizer.Ndjson.{HouseholdLoadRecord, ValidationError, validated_record}

module _ {Num : Type 0} where
  abbrev pub optional_text : Option String → Json Num
  optional_text none = null
  optional_text (some s) = text s

  abbrev pub optional_number : Option Num → Json Num
  optional_number none = null
  optional_number (some v) = number v

module _ {Num : Type 0} (format : Format Num) where
  -- `payload["exclusion"]`, which is set where there is one
  abbrev pub exclusion_field : Option (HourExclusion Num) → Fields Num
  exclusion_field none = end
  exclusion_field (some item) = field "exclusion" (format.dump_exclusion item) end

  -- the payload of `HouseholdLoadRecord.encode`
  unfoldable pub payload : HouseholdLoadRecord Num → Json Num
  payload r = object (
      field "timestamp" (text (format.isoformat r.timestamp)) (
        field "load_kw" (optional_number r.load_kw) (
          field "schema_version" (text r.schema_version) (
            field "unit" (text r.unit) (
              field "source"
                (object (
                  field "provider" (text r.source.provider)
                    (field "entity_id" (optional_text r.source.entity_id) end)))
                (field "retrieved_at" (text (format.isoformat r.retrieved_at)) (
                  field "latest_observation_at" (text (format.isoformat r.latest_observation_at))
                    (exclusion_field r.exclusion))))))))

  -- `HouseholdLoadRecord.encode`
  unfoldable pub encode : HouseholdLoadRecord Num → Bytes
  encode r = format.dumps (payload r) ++ b'\n' ∷ []

  unfoldable pub encode_household_records : List (HouseholdLoadRecord Num) → Bytes
  encode_household_records [] = []
  encode_household_records (r ∷ rs) = encode r ++ encode_household_records rs

-- What storing a history can raise: an error of the store, that of a record, which nothing
-- catches, or that of the file system.
pub data Failure : Type 0 where
  of_store : StoreError → Failure
  of_record : ValidationError → Failure
  os_error : Failure

abbrev pub raised {ℓ} : {A : Type ℓ} → Result StoreError A → Result Failure A
raised (ok a) = ok a
raised (err e) = err (of_store e)

abbrev pub raised_by_record {ℓ} : {A : Type ℓ} → Result ValidationError A → Result Failure A
raised_by_record (ok a) = ok a
raised_by_record (err e) = err (of_record e)

module _ {Num : Type 0} ⦃f : FloatOps Num⦄ where
  unfoldable pub records_loop :
      HouseholdLoadData Num
      → Dict Instant (HourExclusion Num)
      → List (Instant × Option Num)
      → Result Failure (List (HouseholdLoadRecord Num))
  records_loop d exclusions [] = ok []
  records_loop d exclusions ((timestamp, value) ∷ points) = do
    retrieved ← raised (as_utc d.retrieved_at)
    observed ← raised (as_utc d.latest_observation_at)
    r ← raised_by_record (
        validated_record (aware timestamp) value (lookup timestamp exclusions) none d.schema_version
          d.unit (record { provider = d.source.provider; entity_id = d.source.entity_id })
          (aware retrieved) (aware observed))
    rest ← records_loop d exclusions points
    ok (r ∷ rest)

  unfoldable pub household_load_records :
      HouseholdLoadData Num → Result Failure (List (HouseholdLoadRecord Num))
  household_load_records d = do
    points ← raised (household_load_points d)
    exclusions ← raised (household_load_exclusion_points d)
    records_loop d exclusions (sorted_items points)

  unfoldable pub encode_household_load : Format Num → HouseholdLoadData Num → Result Failure Bytes
  encode_household_load format d = do
    records ← household_load_records d
    ok (encode_household_records format records)
