-- ===== src/Ndjson/Validated.antt =====
-- `HouseholdLoadRecord.decode`: what any JSON value that is decoded gives.
use energy_optimizer.Prelude.{
  ◌%◌, String, false, not, ◌&&◌, ◌||◌, Option, none, some, ◌==◌, nat_eq, string_eq, ◌≡◌, ◌⊎◌, refl,
  sym, arith, Option-cases, inl, inr, ok, ◌>>=◌, >>=-eq-ok, raise_if-then, subst, nat_beq_iff,
}
use energy_optimizer.Hours.{hour, Datetime}
use energy_optimizer.Floats.{FloatOps}
use energy_optimizer.Exclusions.{HourExclusion}
use energy_optimizer.Legacy.{legacy_exclusion}
use energy_optimizer.Series.{QualityStatus, valid, suspect}
use energy_optimizer.Records.{is_invalid_load}
use energy_optimizer.Json.{Json, object, Format, get, field_names}
use energy_optimizer.Ndjson.{
  RecordSource, HouseholdLoadRecord, validated_record, validate_load, validate_exclusion,
  validate_hourly_timestamp, normalize_record_timestamp, mismatched, of_another_hour,
  has_suspect_quality, RecordQuality, not_on_contract,
}
use energy_optimizer.Ndjson.Decode.{
  decode, model_validate, without_quality, read_source, read_quality, read_exclusion,
  read_timestamp, read_load, read_text, required, all_known, record_fields,
}
use energy_optimizer.Ndjson.Valid.{IsRecord}

status-cases : (s : QualityStatus) → (s ≡ valid) ⊎ (s ≡ suspect)
status-cases valid = inl refl
status-cases suspect = inr refl

module _ {Num : Type 0} ⦃f : FloatOps Num⦄ where
  -- What the validators leave: a record, but for the quality that an earlier version stored.
  record IsValidated (r : HouseholdLoadRecord Num) : Type 0 where
    on_hour : r.timestamp % hour ≡ 0
    load_valid : is_invalid_load r.load_kw ≡ false
    version_1 : r.schema_version ≡ "1"
    kw : r.unit ≡ "kW"
    matched : (mismatched r.load_kw r.exclusion && not (has_suspect_quality r.quality)) ≡ false
    own : of_another_hour r.timestamp r.exclusion ≡ false

  without_quality-none : (r : HouseholdLoadRecord Num) → r.quality ≡ none → without_quality r ≡ r
  unfolding without_quality
  without_quality-none r e = rw e refl

  without_quality-valid :
      (r : HouseholdLoadRecord Num) (q : RecordQuality)
      → r.quality ≡ some q
      → q.status ≡ valid
      → without_quality r ≡ record r { quality = none }
  unfolding without_quality
  without_quality-valid r q e v = rw (e, v) refl

  without_quality-suspect :
      (r : HouseholdLoadRecord Num) (q : RecordQuality)
      → r.quality ≡ some q
      → q.status ≡ suspect
      → without_quality r ≡ record r {
        load_kw = none;
        exclusion = some (legacy_exclusion r.timestamp q.reason q.entity_id);
        quality = none;
      }
  unfolding without_quality
  without_quality-suspect r q e s = rw (e, s) refl

  without_quality-IsRecord :
      (r : HouseholdLoadRecord Num) → IsValidated r → IsRecord (without_quality r)
  unfolding is_invalid_load legacy_exclusion
  without_quality-IsRecord r h = elim (Option-cases r.quality) [
    | inl nothing ↦
        subst (λ x. IsRecord x) (sym (without_quality-none r nothing))
          (record {
            aligned = h.on_hour;
            valid_load = h.load_valid;
            version = h.version_1;
            in_kw = h.kw;
            no_quality = nothing;
            explained = ground (arith, h.matched, nothing);
            own_hour = h.own;
          })
    | inr (q, e) ↦ elim (status-cases q.status) [
      | inl v ↦
          subst (λ x. IsRecord x) (sym (without_quality-valid r q e v))
            (record {
              aligned = h.on_hour;
              valid_load = h.load_valid;
              version = h.version_1;
              in_kw = h.kw;
              no_quality = refl;
              explained = ground (arith, h.matched, e, v);
              own_hour = h.own;
            })
      | inr s ↦
          subst (λ x. IsRecord x) (sym (without_quality-suspect r q e s))
            (record {
              aligned = h.on_hour;
              valid_load = refl;
              version = h.version_1;
              in_kw = h.kw;
              no_quality = refl;
              explained = refl;
              own_hour = ground (arith, nat_beq_iff r.timestamp r.timestamp);
            })
    ]
  ]

  validate_load-eq-ok :
      (v w : Option Num) → validate_load v ≡ ok w → (w ≡ v) × (is_invalid_load v ≡ false)
  unfolding validate_load is_invalid_load
  validate_load-eq-ok none w e = ground arith
  validate_load-eq-ok (some v) w e = ground arith

  validate_exclusion-eq-ok :
      (q r : HouseholdLoadRecord Num)
      → validate_exclusion q ≡ ok r
      → (q ≡ r)
        × ((mismatched q.load_kw q.exclusion && not (has_suspect_quality q.quality)) ≡ false)
        × (of_another_hour q.timestamp q.exclusion ≡ false)
  unfolding validate_exclusion
  validate_exclusion-eq-ok q r e = ground arith

  IsValidated-validated_record :
      (t retrieved observed : Datetime) (load : Option Num) (x : Option (HourExclusion Num))
      (q : Option RecordQuality) (schema unit : String) (source : RecordSource)
      (r : HouseholdLoadRecord Num)
      → validated_record t load x q schema unit source retrieved observed ≡ ok r
      → IsValidated r
  unfolding validated_record
  IsValidated-validated_record t retrieved observed load x q schema unit source r e =
      let (utc, e0, e1) = >>=-eq-ok (normalize_record_timestamp t) _ e in
      let (start, e2, e3) = >>=-eq-ok (validate_hourly_timestamp utc) _ e1 in
      let (kw, e4, e5) = >>=-eq-ok (validate_load load) _ e3 in
      let (b, e6) =
        raise_if-then (not (schema == "1") || not (unit == "kW")) not_on_contract _ e5 in
      let (at, e7, e8) = >>=-eq-ok (normalize_record_timestamp retrieved) _ e6 in
      let (seen, e9, e10) = >>=-eq-ok (normalize_record_timestamp observed) _ e8 in
      let (same, matched, own) = validate_exclusion-eq-ok _ r e10 in
      let (kept, fine) = validate_load-eq-ok load kw e4 in
      subst IsValidated same (record {
        on_hour = unfold validate_hourly_timestamp in ground (arith, e2);
        load_valid = rw kept fine;
        version_1 = (string_eq.eqb_iff schema "1").0 (ground (arith, b));
        kw = (string_eq.eqb_iff unit "kW").0 (ground (arith, b));
        matched = matched;
        own = own;
      })

  IsValidated-model_validate :
      (format : Format Num) (value : Json Num) (r : HouseholdLoadRecord Num)
      → model_validate format value ≡ ok r
      → IsValidated r
  unfolding model_validate
  IsValidated-model_validate format (object fields) r e =
      let (a, e1) =
        raise_if-then (not (all_known record_fields (field_names fields))) not_on_contract _ e in
      let (t, e2, e3) =
        >>=-eq-ok (required (get "timestamp" fields) >>= read_timestamp format) _ e1 in
      let (l, e4, e5) = >>=-eq-ok (required (get "load_kw" fields) >>= read_load) _ e3 in
      let (x, e6, e7) = >>=-eq-ok (read_exclusion format (get "exclusion" fields)) _ e5 in
      let (q, e8, e9) = >>=-eq-ok (read_quality (get "quality" fields)) _ e7 in
      let (schema, e10, e11) =
        >>=-eq-ok (required (get "schema_version" fields) >>= read_text) _ e9 in
      let (unit, e12, e13) = >>=-eq-ok (required (get "unit" fields) >>= read_text) _ e11 in
      let (source, e14, e15) = >>=-eq-ok (required (get "source" fields) >>= read_source) _ e13 in
      let (at, e16, e17) =
        >>=-eq-ok (required (get "retrieved_at" fields) >>= read_timestamp format) _ e15 in
      let (seen, e18, e19) =
        >>=-eq-ok (required (get "latest_observation_at" fields) >>= read_timestamp format) _ e17 in
      IsValidated-validated_record t at seen l x q schema unit source r e19
  IsValidated-model_validate format _ r e = cc

  -- Whatever value is decoded, the record is on its hour, with a valid load or an exclusion of that
  -- hour, and without quality.
  pub decode-IsRecord :
      (format : Format Num) (value : Json Num) (r : HouseholdLoadRecord Num)
      → decode format value ≡ ok r
      → IsRecord r
  unfolding decode
  decode-IsRecord format value r e =
      let (v, e0, e1) = >>=-eq-ok (model_validate format value) _ e in
      subst (λ (x : HouseholdLoadRecord Num). IsRecord x) (ground (arith, e1))
        (without_quality-IsRecord v (IsValidated-model_validate format value v e0))
