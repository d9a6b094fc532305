-- ===== src/Ndjson/Retained.antt =====
-- `parse_household_history`: what a file that is read gives, whatever its bytes are.
use energy_optimizer.Prelude.{
  ◌-◌, ◌%◌, ◌<◌, ◌≤◌, false, not, string_eq, option_eq, List, ◌∷◌, [], ◌==◌, nat_eq, ◌≡◌, refl, sym,
  ap, ◌∙◌, arith, length, take_last, ok, >>=-eq-ok, raise_if-then, All, All-drop, subst, update,
  update-Unique, length-drop, length-map,
}
use energy_optimizer.Prelude.Sorting.{
  IsSorted, sorted_items, sorted_items-IsSorted, All-sorted_items, All-update, drop-IsSorted,
  length-sorted_items, length-update,
}
use energy_optimizer.Hours.{Instant, hour, hourly, values}
use energy_optimizer.Floats.{FloatOps}
use energy_optimizer.Series.{
  HouseholdLoadData, household_load, not_contiguous, empty_history, inconsistent_source,
  household_load_max_values,
}
use energy_optimizer.Records.{skips_hour, require_contiguous_hours}
use energy_optimizer.Records.Points.{IsHistory}
use energy_optimizer.Bytes.{Bytes, split_lines}
use energy_optimizer.Json.{Format}
use energy_optimizer.Ndjson.{HouseholdLoadRecord}
use energy_optimizer.Ndjson.Parse.{
  HouseholdLoadHistory, parse_lines, is_of_source, by_timestamp, model_of, last_record,
  model_of_records, parse_household_history,
}
use energy_optimizer.Ndjson.Valid.{IsRecord}
use energy_optimizer.Ndjson.Ordered.{
  start_key, skips_hour-eq-hourly, IsEntry, model_of-IsHistory, loads-hourly,
}
use energy_optimizer.Ndjson.Reading.{parse_lines-IsRecord, All-is_of_source, All-source}

-- What is retained of the records `rs`: the records `w` of the hours from `start` on.
module _ {Num : Type 0} ⦃f : FloatOps Num⦄ where
  abbrev pub retained_records :
      List (HouseholdLoadRecord Num) → List (Instant × HouseholdLoadRecord Num)
  retained_records rs =
      take_last household_load_max_values (sorted_items (update [] (by_timestamp rs)))

  pub record AreRetained (rs : List (HouseholdLoadRecord Num)) (start : Instant)
      (w : List (HouseholdLoadRecord Num)) : Type 0 where
    pub laid : retained_records rs ≡ hourly start w
    pub aligned : start % hour ≡ 0
    pub some_hour : 0 < length w
    pub bounded : length w ≤ household_load_max_values
    pub entries : All IsEntry (hourly start w)

  pub by_timestamp-IsEntry :
      (rs : List (HouseholdLoadRecord Num))
      → All (λ r. IsRecord r) rs
      → All IsEntry (by_timestamp rs)
  by_timestamp-IsEntry [] h = tt
  by_timestamp-IsEntry (r ∷ rs) h = ((refl, h.0), by_timestamp-IsEntry rs h.1)

  retained_records-IsEntry :
      (rs : List (HouseholdLoadRecord Num))
      → All (λ r. IsRecord r) rs
      → All IsEntry (retained_records rs)
  retained_records-IsEntry rs h = All-drop IsEntry _ _ (
      All-sorted_items IsEntry _
        (All-update IsEntry [] (by_timestamp rs) tt (by_timestamp-IsEntry rs h)))

  retained_records-IsSorted : (rs : List (HouseholdLoadRecord Num)) → IsSorted (retained_records rs)
  retained_records-IsSorted rs =
      drop-IsSorted _ _ (sorted_items-IsSorted _ (update-Unique [] (by_timestamp rs) tt))

  length-retained_records :
      (r : HouseholdLoadRecord Num) (rs : List (HouseholdLoadRecord Num))
      → (0 < length (retained_records (r ∷ rs)))
        × (length (retained_records (r ∷ rs)) ≤ household_load_max_values)
  length-retained_records r rs =
      let d = update [] (by_timestamp (r ∷ rs)) in
      omega (
        arith,
        length-drop (length (sorted_items d) - household_load_max_values) (sorted_items d),
        length-sorted_items d,
        length-update [] r.timestamp r (by_timestamp rs),
      )

  pub last_record-All :
      (P : HouseholdLoadRecord Num → Type 0) (r : HouseholdLoadRecord Num)
      (rs : List (HouseholdLoadRecord Num))
      → All P (r ∷ rs)
      → P (last_record r rs)
  last_record-All P r [] h = h.0
  last_record-All P r (s ∷ rs) h = last_record-All P s rs h.1

  starts_on_hour :
      (start : Instant) (w : List (HouseholdLoadRecord Num))
      → 0 < length w
      → All IsEntry (hourly start w)
      → start % hour ≡ 0
  unfolding hourly
  starts_on_hour start [] h e = absurd (omega arith)
  starts_on_hour start (r ∷ w) h e = omega (arith, e.0.0, e.0.1.aligned)

  -- Records that skip no hour are retained hour by hour.
  AreRetained-skips_hour :
      (r : HouseholdLoadRecord Num) (rs : List (HouseholdLoadRecord Num))
      → All (λ q. IsRecord q) (r ∷ rs)
      → skips_hour (retained_records (r ∷ rs)) ≡ false
      → AreRetained
          (r ∷ rs)
          (start_key (retained_records (r ∷ rs)))
          (values (retained_records (r ∷ rs)))
  AreRetained-skips_hour r rs h e =
      let l = retained_records (r ∷ rs) in
      let laid = skips_hour-eq-hourly l (retained_records-IsSorted (r ∷ rs)) e in
      let entries = subst (λ x. All IsEntry x) laid (retained_records-IsEntry (r ∷ rs) h) in
      let (some_hour, bounded) = length-retained_records r rs in
      let size = length-map {0, 0} (λ (x : Instant × HouseholdLoadRecord Num). x.1) l in
      let nonempty : 0 < length (values l) = omega (arith, size, some_hour) in
      record {
        laid = laid;
        aligned = starts_on_hour (start_key l) (values l) nonempty entries;
        some_hour = nonempty;
        bounded = omega (arith, size, bounded);
        entries = entries;
      }

  -- The records give a history exactly of the retained hours.
  pub model_of_records-eq-ok :
      (rs : List (HouseholdLoadRecord Num)) (m : HouseholdLoadData Num)
      → All (λ r. IsRecord r) rs
      → model_of_records rs ≡ ok m
      → (start : Instant) × (w : List (HouseholdLoadRecord Num)) × AreRetained rs start w
        × (latest : HouseholdLoadRecord Num) × IsRecord latest
        × (m ≡ model_of (hourly start w) latest)
        × All (λ q. q.source ≡ latest.source) rs
  unfolding model_of_records require_contiguous_hours
  model_of_records-eq-ok [] m h e = cc
  model_of_records-eq-ok (r ∷ rs) m h e =
      let (one, e1) =
        raise_if-then (not (is_of_source r.source (r ∷ rs))) inconsistent_source _ e in
      let sources = All-is_of_source r.source (r ∷ rs) (ground (arith, one)) in
      let last_source = last_record-All (λ q. q.source ≡ r.source) r rs sources in
      let (gapless, e2) =
        raise_if-then (skips_hour (retained_records (r ∷ rs))) (not_contiguous household_load) _
          e1 in
      let l = retained_records (r ∷ rs) in
      let kept = AreRetained-skips_hour r rs h gapless in
      let same : model_of l (last_record r rs) ≡ m = ground (arith, e2) in
      (
        start_key l,
        values l,
        kept,
        last_record r rs,
        last_record-All (λ q. IsRecord q) r rs h,
        sym same ∙ ap (λ x. model_of x (last_record r rs)) kept.laid,
        All-source (last_record r rs).source r.source (r ∷ rs) (sym last_source) sources,
      )

  -- What a file has to give: a well-formed history of at most ten years, of the version that is
  -- written.
  pub record IsRead (start : Instant) (history : HouseholdLoadHistory Num) : Type 0 where
    pub well_formed : IsHistory start history.model
    pub within_limit : length history.model.load_kw ≤ household_load_max_values
    pub version : history.model.schema_version ≡ "1"

  model_of-bounded :
      (start : Instant) (w : List (HouseholdLoadRecord Num)) (latest : HouseholdLoadRecord Num)
      → length w ≤ household_load_max_values
      → length (model_of (hourly start w) latest).load_kw ≤ household_load_max_values
  unfolding model_of
  model_of-bounded start w latest h = rw (loads-hourly, length-map) h

  model_of-version :
      (start : Instant) (w : List (HouseholdLoadRecord Num)) (latest : HouseholdLoadRecord Num)
      → IsRecord latest
      → (model_of (hourly start w) latest).schema_version ≡ "1"
  unfolding model_of
  model_of-version start w latest h = h.version

  -- Records that give a history give a well-formed one.
  pub model_of_records-IsHistory :
      (rs : List (HouseholdLoadRecord Num)) (m : HouseholdLoadData Num)
      → All (λ r. IsRecord r) rs
      → model_of_records rs ≡ ok m
      → (start : Instant) × IsHistory start m
        × (length m.load_kw ≤ household_load_max_values)
        × (m.schema_version ≡ "1")
  model_of_records-IsHistory rs m h e =
      let (start, w, kept, latest, last, same, _) = model_of_records-eq-ok rs m h e in
      (
        start,
        subst (λ (x : HouseholdLoadData Num). IsHistory start x) (sym same)
            (model_of-IsHistory start w latest kept.aligned kept.some_hour kept.entries last),
        subst (λ (x : HouseholdLoadData Num). length x.load_kw ≤ household_load_max_values)
            (sym same) (model_of-bounded start w latest kept.bounded),
        subst (λ (x : HouseholdLoadData Num). x.schema_version ≡ "1") (sym same)
            (model_of-version start w latest last),
      )

  -- Whatever bytes a file holds, if it is read, then the history that it gives is well formed,
  -- has at most 87,672 hours and is of version 1.
  pub parse_household_history-IsRead :
      (format : Format Num) (bytes : Bytes) (history : HouseholdLoadHistory Num)
      → parse_household_history format bytes ≡ ok history
      → (start : Instant) × IsRead start history
  unfolding parse_household_history
  parse_household_history-IsRead format bytes history e =
      let (_, e1) =
        raise_if-then (length (split_lines bytes) == 0) (empty_history household_load) _ e in
      let (reading, e2, e3) = >>=-eq-ok (parse_lines format (split_lines bytes)) _ e1 in
      let (m, e4, e5) = >>=-eq-ok (model_of_records reading.records) _ e3 in
      let (start, h, n, v) =
        model_of_records-IsHistory reading.records m
          (parse_lines-IsRecord format (split_lines bytes) reading e2) e4 in
      let same : m ≡ history.model = ground (arith, e5) in
      (
        start,
        record {
          well_formed = subst (λ (x : HouseholdLoadData Num). IsHistory start x) same h;
          within_limit =
              subst (λ (x : HouseholdLoadData Num). length x.load_kw ≤ household_load_max_values)
                same n;
          version = subst (λ (x : HouseholdLoadData Num). x.schema_version ≡ "1") same v;
        },
      )
