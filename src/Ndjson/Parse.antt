-- ===== src/Ndjson/Parse.antt =====
-- `parse_household_history`: a history from the bytes of its file.
use energy_optimizer.Prelude.{
  ℕ, Bool, true, false, not, ◌&&◌, Option, none, some, List, [], ◌∷◌, map, ◌==◌, nat_eq, string_eq,
  option_eq, if◌then◌else◌, length, take_last, Dict, update, Result, ok, err, ◌>>=◌, ◌>>◌, raise_if,
}
use energy_optimizer.Prelude.Sorting.{sorted_items}
use energy_optimizer.Hours.{Instant, aware}
use energy_optimizer.Floats.{FloatOps}
use energy_optimizer.Exclusions.{HourExclusion}
use energy_optimizer.Series.{
  HouseholdLoadData, household_load, StoreError, empty_history, empty_record, malformed_json,
  invalid_record, no_complete_record, inconsistent_source, household_load_max_values,
}
use energy_optimizer.Records.{require_contiguous_hours}
use energy_optimizer.Bytes.{Bytes, is_line_end, split_lines, strip, strip_right, is_terminated}
use energy_optimizer.Json.{Json, Format}
use energy_optimizer.Scan.{looks_like_incomplete_household_record}
use energy_optimizer.Ndjson.{RecordSource, HouseholdLoadRecord, Validated}
use energy_optimizer.Ndjson.Decode.{decode}

-- `HouseholdLoadHistory`
pub record HouseholdLoadHistory (Num : Type 0) : Type 0 where
  pub model : HouseholdLoadData Num
  pub record_count : ℕ
  pub ignored_incomplete_final_line : Bool

-- The records of the lines that are read, and whether an incomplete line ended the reading.
pub record Reading (Num : Type 0) : Type 0 where
  pub records : List (HouseholdLoadRecord Num)
  pub incomplete : Bool

abbrev pub behind : {Num : Type 0} → HouseholdLoadRecord Num → Reading Num → Reading Num
behind r reading = record reading { records = r ∷ reading.records }

module _ {Num : Type 0} where
  -- What one line and those behind it give: an error or an incomplete line ends the reading.
  abbrev pub read_on :
      Result StoreError (Option (HouseholdLoadRecord Num))
      → Result StoreError (Reading Num)
      → Result StoreError (Reading Num)
  read_on (err e) rest = err e
  read_on (ok none) rest = ok (record { records = []; incomplete = true })
  read_on (ok (some r)) (err e) = err e
  read_on (ok (some r)) (ok reading) = ok (behind r reading)

module _ {Num : Type 0} ⦃f : FloatOps Num⦄ (format : Format Num) where
  abbrev pub decoded :
      Validated (HouseholdLoadRecord Num) → Result StoreError (Option (HouseholdLoadRecord Num))
  decoded (ok r) = ok (some r)
  decoded (err e) = err invalid_record

  -- What `json.loads` gave, of a line that may be one whose end was cut off.
  abbrev pub read_value :
      Bool → Option (Json Num) → Result StoreError (Option (HouseholdLoadRecord Num))
  read_value cut_off none = if cut_off then ok none else err malformed_json
  read_value cut_off (some value) = decoded (decode format value)

  -- The record of one line, `none` where the reading ends there with an incomplete line.
  unfoldable pub parse_line : Bytes → Result StoreError (Option (HouseholdLoadRecord Num))
  parse_line raw_line =
      let content = strip_right is_line_end raw_line in
      let is_unterminated = not (is_terminated raw_line) in
      if length (strip content) == 0
      then (if is_unterminated then ok none else err empty_record)
      else read_value (is_unterminated && looks_like_incomplete_household_record content)
          (format.loads content)

  -- The loop: a line after the others, which are only read if it is no reason to stop.
  unfoldable pub parse_lines : List Bytes → Result StoreError (Reading Num)
  parse_lines [] = ok (record { records = []; incomplete = false })
  parse_lines (raw_line ∷ lines) = read_on (parse_line raw_line) (parse_lines lines)

-- `record.source != records[0].source`
abbrev pub same_record_source : RecordSource → RecordSource → Bool
same_record_source a b = a.provider == b.provider && a.entity_id == b.entity_id

module _ {Num : Type 0} where
  abbrev pub is_of_source : RecordSource → List (HouseholdLoadRecord Num) → Bool
  is_of_source source [] = true
  is_of_source source (r ∷ rs) = same_record_source r.source source && is_of_source source rs

  -- `((record.timestamp, record) for record in records)`
  abbrev pub by_timestamp : List (HouseholdLoadRecord Num) → Dict Instant (HouseholdLoadRecord Num)
  by_timestamp records = map (λ r. (r.timestamp, r)) records

  abbrev pub record_exclusions : List (HouseholdLoadRecord Num) → List (HourExclusion Num)
  record_exclusions [] = []
  record_exclusions (r ∷ rs) = elim r.exclusion [
    | none ↦ record_exclusions rs
    | some item ↦ item ∷ record_exclusions rs
  ]

  -- `ordered[0][0]`; there is a record
  abbrev pub first_timestamp : List (Instant × HouseholdLoadRecord Num) → Instant
  first_timestamp [] = 0
  first_timestamp (e ∷ l) = e.0

  -- The model of the retained records, with what the latest record says of all.
  unfoldable pub model_of :
      List (Instant × HouseholdLoadRecord Num) → HouseholdLoadRecord Num → HouseholdLoadData Num
  model_of ordered latest = record {
    schema_version = latest.schema_version;
    start_time = aware (first_timestamp ordered);
    interval_minutes = 60;
    load_kw = map (λ e. e.1.load_kw) ordered;
    unit = latest.unit;
    source = record { provider = latest.source.provider; entity_id = latest.source.entity_id };
    retrieved_at = aware latest.retrieved_at;
    latest_observation_at = aware latest.latest_observation_at;
    exclusions = record_exclusions (map (λ e. e.1) ordered);
    quality = [];
  }

  -- `records[-1]`, of the records `r ∷ rs`
  abbrev pub last_record :
      HouseholdLoadRecord Num → List (HouseholdLoadRecord Num) → HouseholdLoadRecord Num
  last_record r [] = r
  last_record r (s ∷ rs) = last_record s rs

  -- The end of `parse_household_history`, behind the loop.
  unfoldable pub model_of_records :
      List (HouseholdLoadRecord Num) → Result StoreError (HouseholdLoadData Num)
  model_of_records [] = err no_complete_record
  model_of_records (r ∷ rs) = do
    raise_if (not (is_of_source r.source (r ∷ rs))) inconsistent_source
    let latest_by_hour = update [] (by_timestamp (r ∷ rs))
    let ordered = take_last household_load_max_values (sorted_items latest_by_hour)
    require_contiguous_hours ordered household_load
    ok (model_of ordered (last_record r rs))

module _ {Num : Type 0} ⦃f : FloatOps Num⦄ (format : Format Num) where
  unfoldable pub parse_household_history : Bytes → Result StoreError (HouseholdLoadHistory Num)
  parse_household_history payload' = do
    let lines = split_lines payload'
    raise_if (length lines == 0) (empty_history household_load)
    reading ← parse_lines format lines
    model ← model_of_records reading.records
    ok (record {
      model = model;
      record_count = length reading.records;
      ignored_incomplete_final_line = reading.incomplete;
    })
