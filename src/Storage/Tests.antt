-- ===== src/Storage/Tests.antt =====
-- Tests of the record files and of the store, and the theorems at two hours.
use energy_optimizer.Prelude.{
  ℕ, zero, suc, ◌*◌, ◌<◌, ◌≡◌, refl, ap, arith, take, false, if◌then◌else◌, Option, none, some, [],
  ◌∷◌, ◌++◌, lookup, insert, update, All, ok,
}
use energy_optimizer.Hours.{Instant, hour, hourly}
use energy_optimizer.Samples.{hundredths, one_hour, next_hour}
use energy_optimizer.Series.{HouseholdLoadData}
use energy_optimizer.Records.{
  is_invalid_load, require_contiguous_hours, skips_hour, as_utc, bridge_household_load_gap,
  merge_household_load_history,
}
use energy_optimizer.Records.Points.{IsHistory}
use energy_optimizer.Bytes.{Bytes, split_lines, strip_left, strip_right, is_terminated}
use energy_optimizer.Json.{get}
use energy_optimizer.Scan.Balanced.{done, plain}
use energy_optimizer.Ndjson.{
  HouseholdLoadRecord, validated_record, normalize_record_timestamp, validate_hourly_timestamp,
  validate_load, validate_exclusion,
}
use energy_optimizer.Scan.{looks_like_incomplete_household_record}
use energy_optimizer.Prelude.Sorting.{sorted_items}
use energy_optimizer.Ndjson.Encode.{payload, encode_household_records, encode_household_load}
use energy_optimizer.Ndjson.Parse.{
  HouseholdLoadHistory, parse_household_history, parse_lines, parse_line, model_of,
  model_of_records,
}
use energy_optimizer.Ndjson.Decode.{
  decode, model_validate, read_timestamp, read_exclusion, read_quality, read_source,
  without_quality,
}
use energy_optimizer.Ndjson.Valid.{IsRecord, IsFaithful, decode-payload}
use energy_optimizer.Ndjson.Validated.{decode-IsRecord}
use energy_optimizer.Ndjson.Written.{records_of}
use energy_optimizer.Ndjson.RoundTrip.{as_stored, parse_household_history-encode_household_load}
use energy_optimizer.Ndjson.Retained.{parse_household_history-IsRead}
use energy_optimizer.Ndjson.Retained.{IsRead}
use energy_optimizer.Ndjson.Appended.{model_of_records-merge}
use energy_optimizer.Storage.{
  ndjson, primary_of, Files, Disk, works, fails_late, stops_after, set_file, append,
}
use energy_optimizer.Storage.Appended.{HasPart, left_by, append-HasPart}
use energy_optimizer.Storage.Household.{parsed, load_history, save}
use energy_optimizer.Storage.Outcome.{Outcome}
use energy_optimizer.Storage.Stored.{IsLoaded, IsKept, load_history-IsLoaded}
use energy_optimizer.Storage.Recovery.{quiet, load, load_history-recovers}
use energy_optimizer.Storage.Saved.{load_history-save}
use energy_optimizer.Storage.Samples.{sample_format, sample_dumps, hour_record, hour_value}

one_hour-IsHistory : IsHistory (10 * hour) one_hour
unfolding lookup hourly is_invalid_load
one_hour-IsHistory = record {
  starts = refl;
  aligned = omega arith;
  minutes = refl;
  in_kw = refl;
  retrieved = (11 * hour, refl);
  observed = (11 * hour, refl);
  nonempty = omega arith;
  values_valid = (refl, tt);
  one_exclusion = tt;
  explained = λ t. ground arith;
}

next_hour-IsHistory : IsHistory (11 * hour) next_hour
unfolding lookup hourly is_invalid_load
next_hour-IsHistory = record {
  starts = refl;
  aligned = omega arith;
  minutes = refl;
  in_kw = refl;
  retrieved = (12 * hour, refl);
  observed = (12 * hour, refl);
  nonempty = omega arith;
  values_valid = (refl, tt);
  one_exclusion = tt;
  explained = λ t. ground arith;
}

abbrev first_record : HouseholdLoadRecord ℕ
first_record = hour_record (10 * hour) 50 (11 * hour)

abbrev second_record : HouseholdLoadRecord ℕ
second_record = hour_record (11 * hour) 70 (12 * hour)

first_record-IsRecord : IsRecord first_record
unfolding is_invalid_load
first_record-IsRecord = record {
  aligned = omega arith;
  valid_load = refl;
  version = refl;
  in_kw = refl;
  no_quality = refl;
  explained = refl;
  own_hour = refl;
}

second_record-IsRecord : IsRecord second_record
unfolding is_invalid_load
second_record-IsRecord = record {
  aligned = omega arith;
  valid_load = refl;
  version = refl;
  in_kw = refl;
  no_quality = refl;
  explained = refl;
  own_hour = refl;
}

first_record-IsFaithful : IsFaithful sample_format first_record
unfolding payload get sample_dumps
first_record-IsFaithful = record {
  value_back = refl;
  one_object = record { inner = []; balanced = done; braced = refl };
  one_line = (refl, (refl, tt));
  cut_off = λ n some_byte cut. ground arith;
  timestamp_back = refl;
  retrieved_back = refl;
  observed_back = refl;
  exclusion_back = λ item e. absurd (nothing item e);
}
  where
    nothing : {A : Type 0} (a : A) → ¬ (none ≡ some a)
    nothing a e = cc

second_record-IsFaithful : IsFaithful sample_format second_record
unfolding payload get sample_dumps
second_record-IsFaithful = record {
  value_back = refl;
  one_object = record { inner = b' ' ∷ []; balanced = plain b' ' refl done; braced = refl };
  one_line = (refl, (refl, (refl, tt)));
  cut_off = cuts;
  timestamp_back = refl;
  retrieved_back = refl;
  observed_back = refl;
  exclusion_back = λ item e. absurd (nothing item e);
}
  where
    nothing : {A : Type 0} (a : A) → ¬ (none ≡ some a)
    nothing a e = cc

    cuts : (n : ℕ) → 0 < n → n < 3 → sample_format.loads (take n (b'{' ∷ b' ' ∷ b'}' ∷ [])) ≡ none
    cuts zero some_byte cut = absurd (omega arith)
    cuts (suc zero) some_byte cut = refl
    cuts (suc (suc zero)) some_byte cut = refl
    cuts (suc (suc (suc n))) some_byte cut = absurd (omega arith)

-- The text of the first hour's file.
abbrev one_hour_file : Bytes
one_hour_file = b'{' ∷ b'}' ∷ b'\n' ∷ []

decode-IsRecord_example : IsRecord first_record
decode-IsRecord_example = decode-IsRecord sample_format (hour_value "10" 50 "11") first_record (
    unfold payload in
    decode-payload sample_format first_record first_record-IsRecord first_record-IsFaithful)

one_hour_records-IsFaithful :
    All (λ r. IsFaithful sample_format r) (records_of (10 * hour) one_hour one_hour-IsHistory)
unfolding one_hour-IsHistory hourly lookup
one_hour_records-IsFaithful = (first_record-IsFaithful, tt)

parse_household_history-encode_household_load_example :
    (bytes : Bytes) × (encode_household_load sample_format one_hour ≡ ok bytes)
    × (parse_household_history sample_format bytes
        ≡ ok (record {
          model = as_stored (10 * hour) one_hour one_hour-IsHistory;
          record_count = 1;
          ignored_incomplete_final_line = false;
        }))
parse_household_history-encode_household_load_example =
    parse_household_history-encode_household_load sample_format (10 * hour) one_hour
      one_hour-IsHistory refl (omega arith) one_hour_records-IsFaithful

one_hour_file_read :
    parse_household_history sample_format one_hour_file
    ≡ ok (record { model = one_hour; record_count = 1; ignored_incomplete_final_line = false })
unfolding parse_household_history split_lines parse_lines parse_line strip_left strip_right decode
    model_validate get read_timestamp read_exclusion read_quality read_source validated_record
    normalize_record_timestamp validate_hourly_timestamp validate_load is_terminated without_quality
    model_of model_of_records validate_exclusion update insert sorted_items require_contiguous_hours
    skips_hour looks_like_incomplete_household_record sample_dumps
one_hour_file_read = refl

abbrev one_hour_history : HouseholdLoadHistory ℕ
one_hour_history = record {
  model = one_hour;
  record_count = 1;
  ignored_incomplete_final_line = false;
}

abbrev no_legacy : Bytes → Option (HouseholdLoadData ℕ)
no_legacy _ = none

parse_household_history-IsRead_example : (start : Instant) × IsRead start one_hour_history
parse_household_history-IsRead_example =
    parse_household_history-IsRead sample_format one_hour_file one_hour_history one_hour_file_read

first_record_read : model_of_records (first_record ∷ []) ≡ ok one_hour
unfolding model_of model_of_records update insert sorted_items require_contiguous_hours skips_hour
first_record_read = refl

model_of_records-merge_example :
    (merged : HouseholdLoadData ℕ) × (merge_household_load_history one_hour next_hour ≡ ok merged)
    × (model_of_records (first_record ∷ records_of (11 * hour) next_hour next_hour-IsHistory)
        ≡ ok merged)
model_of_records-merge_example =
    model_of_records-merge (first_record ∷ []) (10 * hour) (11 * hour) one_hour next_hour
      next_hour-IsHistory (first_record-IsRecord, tt) first_record_read one_hour-IsHistory refl refl
      (omega arith) (omega arith)

one_hour_lines :
    parse_lines sample_format (split_lines one_hour_file)
    ≡ ok (record { records = first_record ∷ []; incomplete = false })
unfolding split_lines parse_lines parse_line strip_left strip_right decode model_validate get
    read_timestamp read_exclusion read_quality read_source validated_record
    normalize_record_timestamp validate_hourly_timestamp validate_load is_terminated without_quality
    validate_exclusion looks_like_incomplete_household_record sample_dumps
one_hour_lines = refl

-- The append stops after one byte.
abbrev full_disk : Disk
full_disk = record { files = λ _. some one_hour_file; faults = stops_after 1 ∷ [] }

append-HasPart_example :
    (part : HasPart sample_format (first_record ∷ []) (second_record ∷ []) (
      left_by sample_format
        (primary_of ndjson)
        (append
          (primary_of ndjson)
          (encode_household_records sample_format (second_record ∷ []))
          full_disk).1))
    × ((append
            (primary_of ndjson)
            (encode_household_records sample_format (second_record ∷ []))
            full_disk).0
          ≡ ok tt
        → part.complete ≡ 1)
append-HasPart_example =
    append-HasPart sample_format (primary_of ndjson) full_disk (first_record ∷ [])
      (second_record ∷ []) one_hour_lines ((second_record-IsRecord, second_record-IsFaithful), tt)

abbrev only_backup : Files
only_backup path = if path.is_backup then some one_hour_file else none

load_history-recovers_example :
    (bytes : Bytes) × (load sample_format no_legacy 100 only_backup
      ≡ (ok (some one_hour_history), quiet (set_file (primary_of ndjson) (some bytes) only_backup)))
    × (load sample_format no_legacy 100 (set_file (primary_of ndjson) (some bytes) only_backup) ≡ (
      ok (
          some (record {
            model = as_stored (10 * hour) one_hour one_hour-IsHistory;
            record_count = 1;
            ignored_incomplete_final_line = false;
          })),
      quiet (set_file (primary_of ndjson) (some bytes) only_backup),
    ))
load_history-recovers_example =
    load_history-recovers sample_format no_legacy 100 only_backup one_hour_history (10 * hour)
      one_hour-IsHistory refl
      (ap (λ r. (parsed sample_format no_legacy 100 r).value) one_hour_file_read) refl (omega arith)
      one_hour_records-IsFaithful

-- The write of the primary file fails when all is done.
abbrev late_disk : Disk
late_disk = record { files = only_backup; faults = works ∷ works ∷ works ∷ fails_late ∷ [] }

load_history-IsLoaded_example :
    Outcome
      (IsLoaded sample_format no_legacy 100 only_backup)
      (IsKept sample_format no_legacy 100 only_backup)
      (load_history sample_format no_legacy 100 late_disk)
load_history-IsLoaded_example = load_history-IsLoaded sample_format no_legacy 100 late_disk refl

next_hour_near : bridge_household_load_gap one_hour next_hour ≡ ok next_hour
unfolding bridge_household_load_gap as_utc
next_hour_near = refl

next_hour_records-IsFaithful :
    All (λ r. IsFaithful sample_format r) (records_of (11 * hour) next_hour next_hour-IsHistory)
unfolding next_hour-IsHistory hourly lookup
next_hour_records-IsFaithful = (second_record-IsFaithful, tt)

abbrev both_files : Files
both_files _ = some one_hour_file

load_history-save_example :
    (merged : HouseholdLoadData ℕ) × (added : Bytes) × (merge_household_load_history one_hour
        next_hour
      ≡ ok merged)
    × (save sample_format no_legacy 100 next_hour (quiet both_files) ≡ (
      ok merged,
      quiet (set_file (primary_of ndjson) (some (one_hour_file ++ added)) both_files),
    ))
    × (load sample_format no_legacy 100
          (set_file (primary_of ndjson) (some (one_hour_file ++ added)) both_files)
        ≡ (
          ok (
              some (record {
                model = merged;
                record_count = 2;
                ignored_incomplete_final_line = false;
              })),
          quiet (set_file (primary_of ndjson) (some (one_hour_file ++ added)) both_files),
        ))
load_history-save_example =
    load_history-save sample_format no_legacy 100 both_files one_hour_file one_hour_history
      one_hour_history next_hour next_hour (10 * hour) (11 * hour) (11 * hour) next_hour-IsHistory
      refl one_hour_file_read refl
      (ap (λ r. (parsed sample_format no_legacy 100 r).value) one_hour_file_read) one_hour-IsHistory
      next_hour-IsHistory refl refl refl refl next_hour_near (omega arith) (omega arith)
      next_hour_records-IsFaithful refl
