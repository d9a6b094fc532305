-- ===== src/Storage/Saved.antt =====
-- `HouseholdLoadStore.save` on a disk on which every call works: what is loaded afterwards.
use energy_optimizer.Prelude.{
  ℕ, ◌+◌, false, ◌≤◌, Option, some, List, ◌++◌, ◌≡◌, refl, sym, ap, ◌∙◌, arith, length, All, ok,
  >>=-eq-ok, raise_if-then, ltb, nat_eq, ◌==◌, string_eq, option_eq, length-append,
}
use energy_optimizer.Hours.{Instant}
use energy_optimizer.Floats.{FloatOps}
use energy_optimizer.Series.{HouseholdLoadData, empty_history, household_load}
use energy_optimizer.Records.{bridge_household_load_gap, merge_household_load_history}
use energy_optimizer.Records.Points.{IsHistory}
use energy_optimizer.Records.Missing.{history_end}
use energy_optimizer.Bytes.{Bytes, split_lines}
use energy_optimizer.Json.{Format}
use energy_optimizer.Ndjson.{HouseholdLoadRecord}
use energy_optimizer.Ndjson.Encode.{household_load_records, encode_household_records}
use energy_optimizer.Ndjson.Parse.{
  HouseholdLoadHistory, parse_lines, model_of_records, parse_household_history,
}
use energy_optimizer.Ndjson.Valid.{IsFaithful}
use energy_optimizer.Ndjson.Reading.{parse_lines-IsRecord}
use energy_optimizer.Ndjson.Written.{
  records_of, records_of-IsRecord, household_load_records-IsHistory, length-records_of,
}
use energy_optimizer.Ndjson.RoundTrip.{parse_household_history-lines, All-IsWritable}
use energy_optimizer.Ndjson.Appended.{model_of_records-merge}
use energy_optimizer.Grid.Merge.{same_source_refl}
use energy_optimizer.Storage.{
  ndjson, primary_of, backup_of, Files, set_file, mkdir, append, addition,
}
use energy_optimizer.Storage.Appended.{whole, parse_lines-append_records}
use energy_optimizer.Storage.Household.{
  parsed, write_missing_backup, mend, ensure_backup, save_onto, save,
}
use energy_optimizer.Storage.Recovery.{quiet, load, file, read-quiet, load-primary, load-bytes}

module _ {Num : Type 0} ⦃f : FloatOps Num⦄ (format : Format Num) where
  -- The records of a file that is read to its end.
  record IsComplete (bytes : Bytes) (history : HouseholdLoadHistory Num) : Type 0 where
    records : List (HouseholdLoadRecord Num)
    lines_read : parse_lines format (split_lines bytes) ≡ ok (whole format records)
    gives : model_of_records records ≡ ok history.model
    counted : length records ≡ history.record_count

  IsComplete-parse :
      (bytes : Bytes) (history : HouseholdLoadHistory Num)
      → parse_household_history format bytes ≡ ok history
      → history.ignored_incomplete_final_line ≡ false
      → IsComplete bytes history
  unfolding parse_household_history
  IsComplete-parse bytes history e complete =
      let (_, e1) =
        raise_if-then (length (split_lines bytes) == 0) (empty_history household_load) _ e in
      let (reading, e2, e3) = >>=-eq-ok (parse_lines format (split_lines bytes)) _ e1 in
      let (m, e4, e5) = >>=-eq-ok (model_of_records reading.records) _ e3 in
      let ended : reading.incomplete ≡ false = ground (arith, e5, complete) in
      let same : m ≡ history.model = ground (arith, e5) in
      record {
        records = reading.records;
        lines_read = e2 ∙ ap (λ b. ok (record { records = reading.records; incomplete = b })) ended;
        gives = e4 ∙ ap ok same;
        counted = ground (arith, e5);
      }

  -- Added to the file of a history, the records of a history that meets it are read as the merged
  -- history.
  appended-parse :
      (bytes : Bytes) (history : HouseholdLoadHistory Num) (s₁ s : Instant)
      (d : HouseholdLoadData Num) (h : IsHistory s d)
      → IsComplete bytes history
      → IsHistory s₁ history.model
      → d.schema_version ≡ "1"
      → d.source ≡ history.model.source
      → s₁ ≤ history_end s d
      → s ≤ history_end s₁ history.model
      → All (λ r. IsFaithful format r) (records_of s d h)
      → (merged : HouseholdLoadData Num) × (merge_household_load_history history.model d
          ≡ ok merged)
        × (parse_household_history format
              (bytes ++ addition bytes (encode_household_records format (records_of s d h)))
            ≡ ok (record {
              model = merged;
              record_count = history.record_count + length d.load_kw;
              ignored_incomplete_final_line = false;
            }))
  appended-parse bytes history s₁ s d h c h₁ version source m₁ m₂ faithful =
      let new = records_of s d h in
      let (merged, merges, reads) =
        model_of_records-merge c.records s₁ s history.model d h
          (parse_lines-IsRecord format (split_lines bytes) (whole format c.records) c.lines_read)
          c.gives h₁ version source m₁ m₂ in
      let read =
        parse_lines-append_records format bytes c.records new c.lines_read
          (All-IsWritable s d h format new (records_of-IsRecord s d h version) faithful) in
      let count : length (c.records ++ new) ≡ history.record_count + length d.load_kw =
        omega (arith, length-append c.records new, c.counted, length-records_of s d h) in
      (
        merged,
        merges,
        parse_household_history-lines format _ (whole format (c.records ++ new)) merged read reads
            ∙ ap
                (λ n. ok (record {
                  model = merged;
                  record_count = n;
                  ignored_incomplete_final_line = false;
                }))
                count,
      )

-- A store whose primary file holds `history`, and what the provider has fetched since.
module _ {Num : Type 0} ⦃f : FloatOps Num⦄ (format : Format Num)
    (read_legacy : Bytes → Option (HouseholdLoadData Num)) (threshold : ℕ) where
  mend_complete :
      (files : Files) (history : HouseholdLoadHistory Num)
      → history.ignored_incomplete_final_line ≡ false
      → mend format read_legacy threshold history (quiet files)
        ≡ (ok history.record_count, quiet files)
  unfolding mend
  mend_complete files history e = rw e refl

  ensure_backup-valid :
      (files : Files) (history backup : HouseholdLoadHistory Num)
      → (file format read_legacy threshold (files (backup_of ndjson))).value ≡ some backup
      → ensure_backup format read_legacy threshold history (quiet files) ≡ (ok tt, quiet files)
  unfolding ensure_backup
  ensure_backup-valid files history backup e =
      rw read-quiet refl
      ∙ ap (λ o. write_missing_backup format read_legacy threshold history.model o (quiet files)) e

  append-quiet :
      (files : Files) (bytes payload : Bytes)
      → files (primary_of ndjson) ≡ some bytes
      → append (primary_of ndjson) payload (quiet files) ≡ (
        ok tt,
        quiet (set_file (primary_of ndjson) (some (bytes ++ addition bytes payload)) files),
      )
  unfolding append
  append-quiet files bytes payload e = rw e refl

  save_onto-quiet :
      (files : Files) (bytes : Bytes) (history backup : HouseholdLoadHistory Num)
      (incoming bridged merged : HouseholdLoadData Num) (records : List (HouseholdLoadRecord Num))
      → files (primary_of ndjson) ≡ some bytes
      → history.ignored_incomplete_final_line ≡ false
      → (file format read_legacy threshold (files (backup_of ndjson))).value ≡ some backup
      → incoming.source ≡ history.model.source
      → bridge_household_load_gap history.model incoming ≡ ok bridged
      → household_load_records bridged ≡ ok records
      → merge_household_load_history history.model bridged ≡ ok merged
      → ltb threshold (history.record_count + length records) ≡ false
      → save_onto format read_legacy threshold history incoming (quiet files) ≡ (
        ok merged,
        quiet (
            set_file
              (primary_of ndjson)
              (some (bytes ++ addition bytes (encode_household_records format records)))
              files),
      )
  unfolding save_onto
  save_onto-quiet files bytes history backup incoming bridged merged records p complete valid source
        bridges recorded merges few =
      rw
        (
          same_source_refl history.model.source incoming.source (sym source),
          bridges,
          recorded,
          merges,
          mend_complete files history complete,
          ensure_backup-valid files history backup valid,
          append-quiet files bytes (encode_household_records format records) p,
          few,
        )
        refl

  save-history :
      (files : Files) (history : HouseholdLoadHistory Num) (incoming : HouseholdLoadData Num)
      (records : List (HouseholdLoadRecord Num))
      → household_load_records incoming ≡ ok records
      → load format read_legacy threshold files ≡ (ok (some history), quiet files)
      → save format read_legacy threshold incoming (quiet files)
        ≡ save_onto format read_legacy threshold history incoming (quiet files)
  unfolding save mkdir
  save-history files history incoming records recorded loaded = rw (recorded, loaded) refl

  file-bytes :
      (files : Files) (bytes : Bytes) (history : HouseholdLoadHistory Num)
      → files (primary_of ndjson) ≡ some bytes
      → parse_household_history format bytes ≡ ok history
      → (file format read_legacy threshold (files (primary_of ndjson))).value ≡ some history
  file-bytes files bytes history p read =
      ap (λ c. (file format read_legacy threshold c).value) p
      ∙ ap (λ r. (parsed format read_legacy threshold r).value) read

  -- On a disk on which every call works, the primary file is read to its end, to a well-formed
  -- history, and the backup is read. A well-formed history of version 1 and of the same source is
  -- saved. What it becomes when a gap is bridged is well formed, of version 1 and of that source,
  -- too; it ends no earlier than the stored history starts, starts no later than that one ends,
  -- its records have texts that read back, and so few records are in the file with them that it is
  -- not compacted. Then saving returns the merge of the stored history and the bridged one, writes
  -- nothing but more bytes at the end of the primary file, and what is loaded afterwards, on a
  -- disk on which every call works, is the history that saving has returned, from the records that
  -- were there and one for each hour of the bridged history.
  pub load_history-save :
      (files : Files) (bytes : Bytes) (history backup : HouseholdLoadHistory Num)
      (incoming bridged : HouseholdLoadData Num) (s₁ s₂ s : Instant) (h : IsHistory s bridged)
      → files (primary_of ndjson) ≡ some bytes
      → parse_household_history format bytes ≡ ok history
      → history.ignored_incomplete_final_line ≡ false
      → (file format read_legacy threshold (files (backup_of ndjson))).value ≡ some backup
      → IsHistory s₁ history.model
      → IsHistory s₂ incoming
      → incoming.schema_version ≡ "1"
      → bridged.schema_version ≡ "1"
      → incoming.source ≡ history.model.source
      → bridged.source ≡ history.model.source
      → bridge_household_load_gap history.model incoming ≡ ok bridged
      → s₁ ≤ history_end s bridged
      → s ≤ history_end s₁ history.model
      → All (λ r. IsFaithful format r) (records_of s bridged h)
      → ltb threshold (history.record_count + length bridged.load_kw) ≡ false
      → (merged : HouseholdLoadData Num) × (added : Bytes) × (merge_household_load_history
            history.model bridged
          ≡ ok merged)
        × (save format read_legacy threshold incoming (quiet files)
            ≡ (ok merged, quiet (set_file (primary_of ndjson) (some (bytes ++ added)) files)))
        × (load format read_legacy threshold
              (set_file (primary_of ndjson) (some (bytes ++ added)) files)
            ≡ (
              ok (
                  some (record {
                    model = merged;
                    record_count = history.record_count + length bridged.load_kw;
                    ignored_incomplete_final_line = false;
                  })),
              quiet (set_file (primary_of ndjson) (some (bytes ++ added)) files),
            ))
  load_history-save files bytes history backup incoming bridged s₁ s₂ s h p read complete valid h₁
        h₂ version version' source source' bridges m₁ m₂ faithful few =
      let (merged, merges, reads) =
        appended-parse format bytes history s₁ s bridged h
          (IsComplete-parse format bytes history read complete) h₁ version' source' m₁ m₂
          faithful in
      let records = records_of s bridged h in
      let added = addition bytes (encode_household_records format records) in
      (
        merged,
        added,
        merges,
        save-history files history incoming (records_of s₂ incoming h₂)
              (household_load_records-IsHistory s₂ incoming h₂ version)
              (load-primary format read_legacy threshold files history
                (file-bytes files bytes history p read))
            ∙ save_onto-quiet files bytes history backup incoming bridged merged records p complete
                valid source bridges (household_load_records-IsHistory s bridged h version') merges
                (ap (λ n. ltb threshold (history.record_count + n)) (length-records_of s bridged h)
                  ∙ few),
        load-bytes format read_legacy threshold files (bytes ++ added) _ reads,
      )
