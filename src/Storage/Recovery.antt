-- ===== src/Storage/Recovery.antt =====
-- `load_history` on a disk on which every call works: what it returns, and what it writes.
use energy_optimizer.Prelude.{
  ℕ, false, ◌≤◌, Option, none, some, [], ◌≡◌, refl, ap, ◌∙◌, length, All, Result, ok,
}
use energy_optimizer.Hours.{Instant}
use energy_optimizer.Floats.{FloatOps}
use energy_optimizer.Series.{HouseholdLoadData, household_load_max_values}
use energy_optimizer.Records.Points.{IsHistory}
use energy_optimizer.Bytes.{Bytes}
use energy_optimizer.Json.{Format}
use energy_optimizer.Ndjson.Encode.{Failure, encode_household_load}
use energy_optimizer.Ndjson.Parse.{HouseholdLoadHistory, parse_household_history}
use energy_optimizer.Ndjson.Valid.{IsFaithful}
use energy_optimizer.Ndjson.Written.{records_of}
use energy_optimizer.Ndjson.RoundTrip.{as_stored, parse_household_history-encode_household_load}
use energy_optimizer.Storage.Outcome.{set_file_same}
use energy_optimizer.Storage.{
  ndjson, FilePath, path_eq, primary_of, backup_of, Files, Disk, set_file, mkdir, read_bytes,
  atomic_write,
}
use energy_optimizer.Storage.Household.{
  Found, parsed, parsed_file, read_household_file, recover, with_primary, with_backup, load_history,
}

-- A disk on which every call works.
abbrev pub quiet : Files → Disk
quiet files = record { files = files; faults = [] }

module _ {Num : Type 0} ⦃f : FloatOps Num⦄ (format : Format Num)
    (read_legacy : Bytes → Option (HouseholdLoadData Num)) (threshold : ℕ) where
  abbrev pub load : Files → Result Failure (Option (HouseholdLoadHistory Num)) × Disk
  load files = load_history format read_legacy threshold (quiet files)

  abbrev pub file : Option Bytes → Found (HouseholdLoadHistory Num)
  file content = parsed_file format read_legacy threshold content

  pub read-quiet :
      (path : FilePath) (files : Files)
      → read_household_file format read_legacy threshold path (quiet files)
        ≡ (ok (file (files path)), quiet files)
  unfolding read_household_file read_bytes
  read-quiet path files = refl

  load-with_primary :
      (files : Files)
      → load files
        ≡ with_primary format read_legacy threshold
            (file (files (primary_of ndjson))).exists
            (file (files (primary_of ndjson))).value
            (quiet files)
  unfolding load_history
  load-with_primary files = rw read-quiet refl

  -- A primary file that is read is the history, and nothing is written.
  pub load-primary :
      (files : Files) (history : HouseholdLoadHistory Num)
      → (file (files (primary_of ndjson))).value ≡ some history
      → load files ≡ (ok (some history), quiet files)
  unfolding with_primary
  load-primary files history e =
      load-with_primary files
      ∙ ap
          (λ o.
            with_primary format read_legacy threshold (file (files (primary_of ndjson))).exists o
              (quiet files))
          e

  load-backup :
      (files : Files)
      → (file (files (primary_of ndjson))).value ≡ none
      → load files
        ≡ with_backup format read_legacy threshold
            (file (files (primary_of ndjson))).exists
            (file (files (backup_of ndjson))).exists
            (file (files (backup_of ndjson))).value
            (quiet files)
  unfolding with_primary
  load-backup files e =
      load-with_primary files
      ∙ ap
          (λ o.
            with_primary format read_legacy threshold (file (files (primary_of ndjson))).exists o
              (quiet files))
          e
      ∙ rw read-quiet refl

  recover-quiet :
      (files : Files) (history : HouseholdLoadHistory Num) (bytes : Bytes)
      → encode_household_load format history.model ≡ ok bytes
      → recover format read_legacy threshold history (quiet files)
        ≡ (ok (some history), quiet (set_file (primary_of ndjson) (some bytes) files))
  unfolding recover mkdir atomic_write
  recover-quiet files history bytes e = rw e refl

  pub load-bytes :
      (files : Files) (bytes : Bytes) (history : HouseholdLoadHistory Num)
      → parse_household_history format bytes ≡ ok history
      → load (set_file (primary_of ndjson) (some bytes) files)
        ≡ (ok (some history), quiet (set_file (primary_of ndjson) (some bytes) files))
  load-bytes files bytes history e =
      let after = set_file (primary_of ndjson) (some bytes) files in
      load-primary after history (
        ap (λ c. (file c).value) (set_file_same (primary_of ndjson) (some bytes) files)
        ∙ ap (λ r. (parsed format read_legacy threshold r).value) e)

  -- On a disk on which every call works: where the primary file is missing or not read and the backup
  -- is read, to a well-formed history of version 1 within the limit whose records have texts that
  -- read back, loading returns the history of the backup and writes it to the primary file, and
  -- changes no other file. Loading again reads it from there, and writes nothing.
  pub load_history-recovers :
      (files : Files) (history : HouseholdLoadHistory Num) (start : Instant)
      (h : IsHistory start history.model)
      → (file (files (primary_of ndjson))).value ≡ none
      → (file (files (backup_of ndjson))).value ≡ some history
      → history.model.schema_version ≡ "1"
      → length history.model.load_kw ≤ household_load_max_values
      → All (λ r. IsFaithful format r) (records_of start history.model h)
      → (bytes : Bytes) × (load files
          ≡ (ok (some history), quiet (set_file (primary_of ndjson) (some bytes) files)))
        × (load (set_file (primary_of ndjson) (some bytes) files) ≡ (
          ok (
              some (record {
                model = as_stored start history.model h;
                record_count = length history.model.load_kw;
                ignored_incomplete_final_line = false;
              })),
          quiet (set_file (primary_of ndjson) (some bytes) files),
        ))
  unfolding with_backup
  load_history-recovers files history start h lost backup version limit faithful =
      let (bytes, encoded, read) =
        parse_household_history-encode_household_load format start history.model h version limit
          faithful in
      (
        bytes,
        load-backup files lost
            ∙ ap
                (λ o.
                  with_backup format read_legacy threshold (file (files (primary_of ndjson))).exists
                    (file (files (backup_of ndjson))).exists o (quiet files))
                backup
            ∙ recover-quiet files history bytes encoded,
        load-bytes files bytes _ read,
      )
