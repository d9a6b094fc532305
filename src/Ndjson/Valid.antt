-- ===== src/Ndjson/Valid.antt =====
-- Records that the validators accept, and records whose text reads back.
use energy_optimizer.Prelude.{
  ℕ, ◌%◌, ◌<◌, String, true, false, Option, none, some, nat_eq, string_eq, ◌≡◌, refl, sym, ap,
  length, take, ok,
}
use energy_optimizer.Hours.{hour, aware}
use energy_optimizer.Floats.{FloatOps}
use energy_optimizer.Exclusions.{HourExclusion}
use energy_optimizer.Records.{is_invalid_load}
use energy_optimizer.Records.Points.{unit_test}
use energy_optimizer.Bytes.Lines.{IsText}
use energy_optimizer.Json.{Fields, object, Format, get, field_names}
use energy_optimizer.Scan.Balanced.{IsObjectText}
use energy_optimizer.Ndjson.{
  HouseholdLoadRecord, validated_record, validate_load, validate_exclusion,
  validate_hourly_timestamp, normalize_record_timestamp, mismatched, of_another_hour,
}
use energy_optimizer.Ndjson.Decode.{
  decode, model_validate, without_quality, read_source, read_quality, read_exclusion,
  read_timestamp, read_optional_text, read_load, all_known, record_fields,
}
use energy_optimizer.Ndjson.Encode.{payload, exclusion_field, optional_text, optional_number}

module _ {Num : Type 0} ⦃f : FloatOps Num⦄ where
  -- A record as the program makes it: on the hour, with a valid value or an exclusion of its hour.
  pub record IsRecord (r : HouseholdLoadRecord Num) : Type 0 where
    pub aligned : r.timestamp % hour ≡ 0
    pub valid_load : is_invalid_load r.load_kw ≡ false
    pub version : r.schema_version ≡ "1"
    pub in_kw : r.unit ≡ "kW"
    pub no_quality : r.quality ≡ none
    pub explained : mismatched r.load_kw r.exclusion ≡ false
    pub own_hour : of_another_hour r.timestamp r.exclusion ≡ false

module _ {Num : Type 0} (format : Format Num) where
  -- The texts of the record read back: those of its times and of its exclusion, and that of the
  -- whole, which is an object on one line, and no JSON if its end is cut off.
  pub record IsFaithful (r : HouseholdLoadRecord Num) : Type 0 where
    pub value_back : format.loads (format.dumps (payload format r)) ≡ some (payload format r)
    pub one_object : IsObjectText (format.dumps (payload format r))
    pub one_line : IsText (format.dumps (payload format r))
    pub cut_off :
        (n : ℕ)
        → 0 < n
        → n < length (format.dumps (payload format r))
        → format.loads (take n (format.dumps (payload format r))) ≡ none
    pub timestamp_back :
        format.fromisoformat (format.isoformat r.timestamp) ≡ some (aware r.timestamp)
    pub retrieved_back :
        format.fromisoformat (format.isoformat r.retrieved_at) ≡ some (aware r.retrieved_at)
    pub observed_back :
        format.fromisoformat (format.isoformat r.latest_observation_at)
        ≡ some (aware r.latest_observation_at)
    pub exclusion_back :
        (item : HourExclusion Num)
        → r.exclusion ≡ some item
        → (fields : Fields Num) × (format.dump_exclusion item ≡ object fields)
          × (format.read_exclusion (object fields) ≡ some item)

module _ {Num : Type 0} ⦃f : FloatOps Num⦄ where
  validate_load-valid : (v : Option Num) → is_invalid_load v ≡ false → validate_load v ≡ ok v
  unfolding validate_load is_invalid_load
  validate_load-valid none h = refl
  validate_load-valid (some v) h = rw h refl

  -- The fields of a valid record pass the validators, and give the record.
  pub validated_record-IsRecord :
      (r : HouseholdLoadRecord Num)
      → IsRecord r
      → validated_record
          (aware r.timestamp)
          r.load_kw
          r.exclusion
          none
          r.schema_version
          r.unit
          r.source
          (aware r.retrieved_at)
          (aware r.latest_observation_at)
        ≡ ok r
  unfolding validated_record normalize_record_timestamp validate_hourly_timestamp validate_exclusion
  validated_record-IsRecord r h =
      rw
        (
          h.aligned,
          validate_load-valid r.load_kw h.valid_load,
          (string_eq.eqb_iff r.schema_version "1").1 h.version,
          unit_test r.unit h.in_kw,
          h.explained,
          h.own_hour,
        )
        (ap (λ q. ok (record r { quality = q })) (sym h.no_quality))

  read_load-optional_number : (v : Option Num) → read_load (optional_number v) ≡ ok v
  read_load-optional_number none = refl
  read_load-optional_number (some v) = refl

read_optional_text-optional_text :
    (Num : Type 0) (o : Option String) → read_optional_text {Num = Num} (optional_text o) ≡ ok o
read_optional_text-optional_text Num none = refl
read_optional_text-optional_text Num (some s) = refl

module _ {Num : Type 0} (format : Format Num) where
  exclusion_field-known :
      (o : Option (HourExclusion Num))
      → all_known record_fields (field_names (exclusion_field format o)) ≡ true
  exclusion_field-known none = refl
  exclusion_field-known (some item) = refl

  get-exclusion_field :
      (o : Option (HourExclusion Num)) → get "quality" (exclusion_field format o) ≡ none
  unfolding get
  get-exclusion_field none = refl
  get-exclusion_field (some item) = refl

  read_exclusion-exclusion_field :
      (o : Option (HourExclusion Num))
      → ((item : HourExclusion Num)
          → o ≡ some item
          → (fields : Fields Num) × (format.dump_exclusion item ≡ object fields)
            × (format.read_exclusion (object fields) ≡ some item))
      → read_exclusion format (get "exclusion" (exclusion_field format o)) ≡ ok o
  unfolding get read_exclusion
  read_exclusion-exclusion_field none back = refl
  read_exclusion-exclusion_field (some item) back =
      let (fields, dumped, found) = back item refl in rw (dumped, found)

module _ {Num : Type 0} ⦃f : FloatOps Num⦄ (format : Format Num) where
  -- What stands in the payload of a record is read back.
  model_validate-payload :
      (r : HouseholdLoadRecord Num)
      → IsRecord r
      → IsFaithful format r
      → model_validate format (payload format r) ≡ ok r
  unfolding model_validate payload read_source read_timestamp read_quality get
  model_validate-payload r h back =
      rw
        (
          exclusion_field-known format r.exclusion,
          back.timestamp_back,
          read_load-optional_number r.load_kw,
          read_exclusion-exclusion_field format r.exclusion back.exclusion_back,
          get-exclusion_field format r.exclusion,
          read_optional_text-optional_text Num r.source.entity_id,
          back.retrieved_back,
          back.observed_back,
        )
        (validated_record-IsRecord r h)

  -- Decoding undoes the making of the JSON value.
  pub decode-payload :
      (r : HouseholdLoadRecord Num)
      → IsRecord r
      → IsFaithful format r
      → decode format (payload format r) ≡ ok r
  unfolding decode without_quality
  decode-payload r h back = rw (model_validate-payload r h back, h.no_quality) refl
