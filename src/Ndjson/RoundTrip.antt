-- ===== src/Ndjson/RoundTrip.antt =====
-- A history that is written and read again.
use energy_optimizer.Prelude.{
  ℕ, ◌-◌, ◌<◌, ◌≤◌, true, false, List, ◌∷◌, [], map, ◌==◌, nat_eq, string_eq, option_eq,
  option_beq_iff, ◌≡◌, refl, sym, ap, ◌∙◌, arith, length, drop, take_last, ok, All, subst, lookup,
  update, lookup-update, update-Unique,
}
use energy_optimizer.Prelude.Sorting.{
  sorted_items, sorted_items-IsSorted, IsSorted-Unique, lookup-sorted_items, sorted_ext,
}
use energy_optimizer.Hours.{Instant, hourly, hourly-IsSorted, aware}
use energy_optimizer.Floats.{FloatOps}
use energy_optimizer.Series.{HouseholdLoadData, household_load_max_values}
use energy_optimizer.Records.Index.{by_hour}
use energy_optimizer.Records.Points.{IsHistory}
use energy_optimizer.Records.Rebuild.{require_contiguous_hours-hourly, rebuilt}
use energy_optimizer.Records.Slice.{length-hourly}
use energy_optimizer.Bytes.{Bytes, split_lines}
use energy_optimizer.Json.{Format}
use energy_optimizer.Ndjson.{HouseholdLoadRecord, RecordSource}
use energy_optimizer.Ndjson.Encode.{encode_household_records, encode_household_load}
use energy_optimizer.Ndjson.Parse.{
  Reading, parse_lines, same_record_source, is_of_source, by_timestamp, record_exclusions,
  last_record, model_of_records, parse_household_history,
}
use energy_optimizer.Ndjson.Valid.{IsRecord, IsFaithful}
use energy_optimizer.Ndjson.Lines.{IsWritable, parse_lines-encode_records}
use energy_optimizer.Ndjson.Retained.{last_record-All}
use energy_optimizer.Ndjson.Written.{
  records_of, records_of-IsRecord, household_load_records-IsHistory, by_timestamp-records_of,
  record_exclusions-records_of, loads-records_of, length-records_of, Speaks, records_from-Speaks,
  model_of-Speaks,
}
use energy_optimizer.Ndjson.Ordered.{load_of}

same_record_source_refl : (a : RecordSource) → same_record_source a a ≡ true
same_record_source_refl a = ground (
  arith,
  (string_eq.eqb_iff a.provider a.provider).1 refl,
  (option_beq_iff string_eq a.entity_id a.entity_id).1 refl,
)

pub is_of_source-All :
    {Num : Type 0} (source : RecordSource) (rs : List (HouseholdLoadRecord Num))
    → All (λ r. r.source ≡ source) rs
    → is_of_source source rs ≡ true
is_of_source-All source [] h = refl
is_of_source-All source (r ∷ rs) h =
    rw h.0 (ground (arith, same_record_source_refl source, is_of_source-All source rs h.1))

-- Hourly entries are a dictionary, in order.
sorted_items-update :
    {V : Type 0} (start : Instant) (w : List V)
    → sorted_items (update [] (hourly start w)) ≡ hourly start w
unfolding lookup
sorted_items-update start w =
    let sorted = hourly-IsSorted start w in
    sorted_ext _ _ (sorted_items-IsSorted _ (update-Unique [] (hourly start w) tt)) sorted (λ t.
      lookup-sorted_items t (update [] (hourly start w))
      ∙ lookup-update [] (hourly start w) t (IsSorted-Unique _ sorted)
      ∙ ground arith)

take_last-all : {V : Type 0} (n : ℕ) (l : List V) → length l ≤ n → take_last n l ≡ l
take_last-all n l h =
    let none_dropped : length l - n ≡ 0 = omega (arith, h) in ap (λ k. drop k l) none_dropped

module _ {Num : Type 0} ⦃f : FloatOps Num⦄ (format : Format Num) where
  -- Records come from lines.
  lines_with_records :
      (lines : List Bytes) (reading : Reading Num) (m : HouseholdLoadData Num)
      → parse_lines format lines ≡ ok reading
      → model_of_records reading.records ≡ ok m
      → (length lines == 0) ≡ false
  unfolding parse_lines model_of_records
  lines_with_records [] reading m e e' =
      let same : record { records = []; incomplete = false } ≡ reading = ground (arith, e) in
      absurd
        (no_model (subst (λ (q : Reading Num). model_of_records q.records ≡ ok m) (sym same) e'))
    where
      no_model : ¬ (model_of_records [] ≡ ok m)
      no_model p = cc
  lines_with_records (l ∷ lines) reading m e e' = ground arith

  pub parse_household_history-lines :
      (bytes : Bytes) (reading : Reading Num) (m : HouseholdLoadData Num)
      → parse_lines format (split_lines bytes) ≡ ok reading
      → model_of_records reading.records ≡ ok m
      → parse_household_history format bytes
        ≡ ok (record {
          model = m;
          record_count = length reading.records;
          ignored_incomplete_final_line = reading.incomplete;
        })
  unfolding parse_household_history
  parse_household_history-lines bytes reading m e e' =
      rw (lines_with_records (split_lines bytes) reading m e e', e, e') refl

module _ {Num : Type 0} ⦃f : FloatOps Num⦄ (start : Instant) (d : HouseholdLoadData Num)
    (h : IsHistory start d) where
  -- A history as it is stored: its exclusions in the order of their hours, and no quality.
  abbrev pub as_stored : HouseholdLoadData Num
  as_stored = rebuilt d start d.load_kw (by_hour d.exclusions)

  of_one_source :
      (r : HouseholdLoadRecord Num) (rs : List (HouseholdLoadRecord Num))
      → All (λ q. Speaks start d h q) (r ∷ rs)
      → is_of_source r.source (r ∷ rs) ≡ true
  of_one_source r rs s = is_of_source-All r.source (r ∷ rs) (origins (r ∷ rs) s)
    where
      origins :
          (qs : List (HouseholdLoadRecord Num))
          → All (λ q. Speaks start d h q) qs
          → All (λ q. q.source ≡ r.source) qs
      origins [] s' = tt
      origins (q ∷ qs) s' = (s'.0.origin ∙ sym s.0.origin, origins qs s'.1)

  model_of_records-hourly :
      (rs : List (HouseholdLoadRecord Num))
      → 0 < length rs
      → length rs ≤ household_load_max_values
      → by_timestamp rs ≡ hourly start rs
      → All (λ r. Speaks start d h r) rs
      → model_of_records rs
        ≡ ok (record d {
          start_time = aware start;
          load_kw = map load_of rs;
          exclusions = record_exclusions rs;
          quality = [];
        })
  unfolding model_of_records
  model_of_records-hourly [] some_hour limit e s = absurd (omega arith)
  model_of_records-hourly (r ∷ rs) some_hour limit e s =
      rw
        (
          of_one_source r rs s,
          e,
          sorted_items-update start (r ∷ rs),
          take_last-all household_load_max_values (hourly start (r ∷ rs)) (rw length-hourly limit),
          require_contiguous_hours-hourly,
        )
        (ap ok (
          model_of-Speaks start d h start (r ∷ rs) (last_record r rs) some_hour
            (last_record-All (λ q. Speaks start d h q) r rs s)))

  -- The records of a history give it back.
  pub model_of_records-records_of :
      length d.load_kw ≤ household_load_max_values
      → model_of_records (records_of start d h) ≡ ok as_stored
  model_of_records-records_of limit =
      model_of_records-hourly (records_of start d h)
        (omega (arith, length-records_of start d h, h.nonempty))
        (omega (arith, length-records_of start d h, limit)) (by_timestamp-records_of start d h)
        (records_from-Speaks start d h (hourly start d.load_kw))
      ∙ rw (loads-records_of start d h, record_exclusions-records_of start d h) refl

  pub All-IsWritable :
      (format : Format Num) (rs : List (HouseholdLoadRecord Num))
      → All (λ r. IsRecord r) rs
      → All (λ r. IsFaithful format r) rs
      → All (λ r. IsWritable format r) rs
  All-IsWritable format [] v b = tt
  All-IsWritable format (r ∷ rs) v b = ((v.0, b.0), All-IsWritable format rs v.1 b.1)

module _ {Num : Type 0} ⦃f : FloatOps Num⦄ where
  -- A well-formed history of version 1 and of at most 87,672 hours whose records have texts that
  -- read back is encoded, and parsing the encoding gives the history back, with its exclusions in
  -- the order of their hours and without quality, from one record an hour and no incomplete line.
  pub parse_household_history-encode_household_load :
      (format : Format Num) (start : Instant) (d : HouseholdLoadData Num) (h : IsHistory start d)
      → d.schema_version ≡ "1"
      → length d.load_kw ≤ household_load_max_values
      → All (λ r. IsFaithful format r) (records_of start d h)
      → (bytes : Bytes) × (encode_household_load format d ≡ ok bytes)
        × (parse_household_history format bytes
            ≡ ok (record {
              model = as_stored start d h;
              record_count = length d.load_kw;
              ignored_incomplete_final_line = false;
            }))
  unfolding encode_household_load
  parse_household_history-encode_household_load format start d h version limit faithful =
      let rs = records_of start d h in
      (
        encode_household_records format rs,
        rw (household_load_records-IsHistory start d h version) refl,
        parse_household_history-lines format (encode_household_records format rs)
              (record { records = rs; incomplete = false }) (as_stored start d h)
              (parse_lines-encode_records format rs (
                All-IsWritable start d h format rs (records_of-IsRecord start d h version)
                  faithful))
              (model_of_records-records_of start d h limit)
            ∙ rw length-records_of refl,
      )
