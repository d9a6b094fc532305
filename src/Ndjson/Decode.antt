-- ===== src/Ndjson/Decode.antt =====
-- `HouseholdLoadRecord.decode`: a record from its JSON value.
use energy_optimizer.Prelude.{
  String, Bool, true, not, ◌&&◌, Option, none, some, List, [], ◌∷◌, ◌==◌, nat_eq, string_eq,
  option_eq, if◌then◌else◌, any, ok, ◌>>=◌, ◌>>◌, raise_if,
}
use energy_optimizer.Hours.{Datetime}
use energy_optimizer.Floats.{FloatOps}
use energy_optimizer.Exclusions.{HourExclusion}
use energy_optimizer.Legacy.{legacy_exclusion}
use energy_optimizer.Series.{QualityStatus, valid, suspect}
use energy_optimizer.Json.{Json, null, number, text, object, get, field_names, Format}
use energy_optimizer.Ndjson.{
  RecordSource, RecordQuality, HouseholdLoadRecord, not_on_contract, Validated, refused,
  validated_record,
}

-- `extra="forbid"`
abbrev pub all_known : List String → List String → Bool
all_known known [] = true
all_known known (k ∷ ks) = any (λ name. name == k) known && all_known known ks

abbrev pub required : {A : Type 0} → Option A → Validated A
required none = refused
required (some a) = ok a

module _ {Num : Type 0} where
  abbrev pub read_text : Json Num → Validated String
  read_text (text s) = ok s
  read_text _ = refused

  abbrev pub read_optional_text : Json Num → Validated (Option String)
  read_optional_text null = ok none
  read_optional_text (text s) = ok (some s)
  read_optional_text _ = refused

  -- A number, or null; a truth value is no number.
  abbrev pub read_load : Json Num → Validated (Option Num)
  read_load null = ok none
  read_load (number v) = ok (some v)
  read_load _ = refused

  unfoldable pub read_source : Json Num → Validated RecordSource
  read_source (object fields) = do
    raise_if (not (all_known ("provider" ∷ "entity_id" ∷ []) (field_names fields))) not_on_contract
    provider ← required (get "provider" fields) >>= read_text
    entity_id ← required (get "entity_id" fields) >>= read_optional_text
    ok (record { provider = provider; entity_id = entity_id })
  read_source _ = refused

  abbrev pub read_status : Json Num → Validated QualityStatus
  read_status (text s) =
      if s == "valid" then ok valid else if s == "suspect" then ok suspect else refused
  read_status _ = refused

  unfoldable pub read_quality : Option (Json Num) → Validated (Option RecordQuality)
  read_quality none = ok none
  read_quality (some null) = ok none
  read_quality (some (object fields)) = do
    raise_if (not (all_known ("status" ∷ "reason" ∷ "entity_id" ∷ []) (field_names fields)))
        not_on_contract
    status ← required (get "status" fields) >>= read_status
    reason ← required (get "reason" fields) >>= read_optional_text
    entity_id ← required (get "entity_id" fields) >>= read_optional_text
    ok (some (record { status = status; reason = reason; entity_id = entity_id }))
  read_quality (some _) = refused

-- The fields that a record may have.
abbrev pub record_fields : List String
record_fields =
    "timestamp" ∷ "load_kw" ∷ "exclusion" ∷ "quality" ∷ "schema_version" ∷ "unit" ∷ "source"
    ∷ "retrieved_at" ∷ "latest_observation_at" ∷ []

module _ {Num : Type 0} where
  -- The update of a validated record: a suspect one becomes an excluded hour.
  unfoldable pub without_quality : HouseholdLoadRecord Num → HouseholdLoadRecord Num
  without_quality r = elim r.quality [
    | none ↦ r
    | some q ↦ elim q.status [
      | valid ↦ record r { quality = none }
      | suspect ↦ record r {
        load_kw = none;
        exclusion = some (legacy_exclusion r.timestamp q.reason q.entity_id);
        quality = none;
      }
    ]
  ]

module _ {Num : Type 0} (format : Format Num) where
  -- `_normalize_record_timestamp`, of a JSON value: the time that its text names
  unfoldable pub read_timestamp : Json Num → Validated Datetime
  read_timestamp (text s) = required (format.fromisoformat s)
  read_timestamp _ = refused

  unfoldable pub read_exclusion : Option (Json Num) → Validated (Option (HourExclusion Num))
  read_exclusion none = ok none
  read_exclusion (some null) = ok none
  read_exclusion (some value) = required (format.read_exclusion value) >>= λ item. ok (some item)

module _ {Num : Type 0} ⦃f : FloatOps Num⦄ (format : Format Num) where
  -- `HouseholdLoadRecord.model_validate`
  unfoldable pub model_validate : Json Num → Validated (HouseholdLoadRecord Num)
  model_validate (object fields) = do
    raise_if (not (all_known record_fields (field_names fields))) not_on_contract
    timestamp ← required (get "timestamp" fields) >>= read_timestamp format
    load_kw ← required (get "load_kw" fields) >>= read_load
    exclusion ← read_exclusion format (get "exclusion" fields)
    quality ← read_quality (get "quality" fields)
    schema ← required (get "schema_version" fields) >>= read_text
    unit ← required (get "unit" fields) >>= read_text
    source ← required (get "source" fields) >>= read_source
    retrieved ← required (get "retrieved_at" fields) >>= read_timestamp format
    observed ← required (get "latest_observation_at" fields) >>= read_timestamp format
    validated_record timestamp load_kw exclusion quality schema unit source retrieved observed
  model_validate _ = refused

  -- `HouseholdLoadRecord.decode`
  unfoldable pub decode : Json Num → Validated (HouseholdLoadRecord Num)
  decode value = do r ← model_validate value; ok (without_quality r)
