-- ===== src/Storage/Household.antt =====
-- src/energy_optimizer/household_load_store.py: `HouseholdLoadStore`, for one key. Logging and the
-- measured durations are left out.
use energy_optimizer.Prelude.{
  ℕ, ◌+◌, Bool, true, false, not, ◌||◌, Option, none, some, List, nat_eq, string_eq, option_eq,
  if◌then◌else◌, length, leb, ltb, Result, ok, err,
}
use energy_optimizer.Hours.{Datetime}
use energy_optimizer.Floats.{FloatOps}
use energy_optimizer.Series.{
  HouseholdLoadData, StoreError, unreadable, unwritable, invalid_data, source_mismatch, empty_range,
  household_load,
}
use energy_optimizer.Records.{
  as_utc, bridge_household_load_gap, merge_household_load_history, household_load_points,
  slice_household_load, bounded_household_load,
}
use energy_optimizer.Grid.{same_source}
use energy_optimizer.Bytes.{Bytes}
use energy_optimizer.Json.{Format}
use energy_optimizer.Ndjson.{HouseholdLoadRecord}
use energy_optimizer.Ndjson.Encode.{
  Failure, of_store, os_error, raised, household_load_records, encode_household_records,
  encode_household_load,
}
use energy_optimizer.Ndjson.Parse.{HouseholdLoadHistory, parse_household_history}
use energy_optimizer.Storage.{
  ndjson, json, FilePath, primary_of, backup_of, Action, pure, lift, raise, ◌>>=◌, ◌>>◌, mkdir,
  read_bytes, unlink, atomic_write, append,
}

-- `except OSError as error: raise ProviderDataStoreError(...)`
abbrev pub rescued {ℓ} : {A : Type ℓ} → StoreError → Result Failure A → Result Failure A
rescued e (ok a) = ok a
rescued e (err os_error) = err (of_store e)
rescued e (err (of_store s)) = err (of_store s)
rescued e (err r) = err r

abbrev pub or_os_error {ℓ} : {A : Type ℓ} → StoreError → Action A → Action A
or_os_error e m disk = (rescued e (m disk).0, (m disk).1)

-- `except (OSError, ProviderDataStoreError) as error: raise ProviderDataStoreError(...)`
abbrev pub rescued_all {ℓ} : {A : Type ℓ} → StoreError → Result Failure A → Result Failure A
rescued_all e (ok a) = ok a
rescued_all e (err os_error) = err (of_store e)
rescued_all e (err (of_store s)) = err (of_store e)
rescued_all e (err r) = err r

abbrev pub or_error {ℓ} : {A : Type ℓ} → StoreError → Action A → Action A
or_error e m disk = (rescued_all e (m disk).0, (m disk).1)

-- What a file was read as, and whether it is there.
pub record Found (A : Type 0) : Type 0 where
  pub value : Option A
  pub exists : Bool

abbrev pub found_none : {A : Type 0} → Bool → Found A
found_none there = record { value = none; exists = there }

-- `legacy_primary or legacy_backup`
abbrev pub either {ℓ} : {A : Type ℓ} → Option A → Option A → Option A
either none o = o
either (some a) o = some a

module _ {Num : Type 0} ⦃f : FloatOps Num⦄ (format : Format Num)
    -- pydantic's reading of a monolithic file of an earlier version, its quality upgraded
    (read_legacy : Bytes → Option (HouseholdLoadData Num)) (compaction_threshold : ℕ) where
  abbrev pub parsed :
      Result StoreError (HouseholdLoadHistory Num) → Found (HouseholdLoadHistory Num)
  parsed (ok history) = record { value = some history; exists = true }
  parsed (err e) = found_none true

  abbrev pub parsed_file : Option Bytes → Found (HouseholdLoadHistory Num)
  parsed_file none = found_none false
  parsed_file (some payload) = parsed (parse_household_history format payload)

  -- `_read_household_file`
  unfoldable pub read_household_file : FilePath → Action (Found (HouseholdLoadHistory Num))
  read_household_file path = do
    payload ← or_os_error unreadable (read_bytes path)
    pure (parsed_file payload)

  abbrev pub legacy_file : Option Bytes → Found (HouseholdLoadData Num)
  legacy_file none = found_none false
  legacy_file (some payload) = record { value = read_legacy payload; exists = true }

  -- `_read_legacy_file`
  unfoldable pub read_legacy_file : FilePath → Action (Found (HouseholdLoadData Num))
  read_legacy_file path = do
    payload ← or_os_error unreadable (read_bytes path)
    pure (legacy_file payload)

  -- The writes of `_migrate_legacy`.
  unfoldable pub replace_legacy : Bytes → Bytes → Action (Unit {0})
  replace_legacy current_payload backup_payload = or_error unwritable (do
    mkdir
    atomic_write (backup_of ndjson) backup_payload
    atomic_write (primary_of ndjson) current_payload
    unlink (primary_of json)
    unlink (backup_of json))

  unfoldable pub migrate_models :
      Option (HouseholdLoadData Num)
      → Option (HouseholdLoadData Num)
      → Bool
      → Action (Option (HouseholdLoadHistory Num))
  migrate_models none none exists = if exists then raise (of_store invalid_data) else pure none
  migrate_models legacy_primary legacy_backup exists = elim (either legacy_primary legacy_backup) [
    | none ↦ pure none
    | some current_source ↦ do
      current ← lift (raised (bounded_household_load current_source))
      backup ←
          lift
            (raised (bounded_household_load (elim legacy_backup [ none ↦ current | some b ↦ b ])))
      current_payload ← lift (encode_household_load format current)
      backup_payload ← lift (encode_household_load format backup)
      replace_legacy current_payload backup_payload
      points ← lift (raised (household_load_points current))
      pure (
          some (record {
            model = current;
            record_count = length points;
            ignored_incomplete_final_line = false;
          }))
  ]

  -- `_migrate_legacy`
  unfoldable pub migrate_legacy : Action (Option (HouseholdLoadHistory Num))
  migrate_legacy = do
    primary ← read_legacy_file (primary_of json)
    backup ← read_legacy_file (backup_of json)
    migrate_models primary.value backup.value (primary.exists || backup.exists)

  -- The backup is the history from now on, and is written to the primary file.
  unfoldable pub recover : HouseholdLoadHistory Num → Action (Option (HouseholdLoadHistory Num))
  recover backup = do
    mkdir
    payload ← lift (encode_household_load format backup.model)
    atomic_write (primary_of ndjson) payload
    pure (some backup)

  -- What it does once the backup is read, too.
  unfoldable pub with_backup :
      Bool → Bool → Option (HouseholdLoadHistory Num) → Action (Option (HouseholdLoadHistory Num))
  with_backup primary_exists backup_exists (some history) = recover history
  with_backup primary_exists backup_exists none =
      if primary_exists || backup_exists then raise (of_store invalid_data) else migrate_legacy

  -- What `load_history` does once the primary file is read.
  unfoldable pub with_primary :
      Bool → Option (HouseholdLoadHistory Num) → Action (Option (HouseholdLoadHistory Num))
  with_primary exists (some history) = pure (some history)
  with_primary exists none = do
    backup ← read_household_file (backup_of ndjson)
    with_backup exists backup.exists backup.value

  -- `load_history`
  unfoldable pub load_history : Action (Option (HouseholdLoadHistory Num))
  load_history = do
    primary ← read_household_file (primary_of ndjson)
    with_primary primary.exists primary.value

  -- `load_range`
  unfoldable pub load_range : Datetime → Datetime → Action (Option (HouseholdLoadData Num))
  load_range start_time end_time = do
    start ← lift (raised (as_utc start_time))
    stop ← lift (raised (as_utc end_time))
    if leb stop start then raise (of_store empty_range) else do
      history ← load_history
      elim history [
        | none ↦ pure none
        | some h ↦ lift (raised (slice_household_load h.model start stop))
      ]

  -- `compact`
  unfoldable pub compact : HouseholdLoadData Num → HouseholdLoadData Num → Action (Unit {0})
  compact previous current = do
    previous_payload ← lift (encode_household_load format previous)
    current_payload ← lift (encode_household_load format current)
    atomic_write (backup_of ndjson) previous_payload
    atomic_write (primary_of ndjson) current_payload

  -- The lines of `save` that mend a file whose last line is incomplete; the records counted then.
  unfoldable pub mend : HouseholdLoadHistory Num → Action ℕ
  mend history =
      if history.ignored_incomplete_final_line
      then (do
        compact history.model history.model
        points ← lift (raised (household_load_points history.model))
        pure (length points))
      else pure history.record_count

  abbrev pub write_missing_backup :
      HouseholdLoadData Num → Option (HouseholdLoadHistory Num) → Action (Unit {0})
  write_missing_backup model (some _) = pure tt
  write_missing_backup model none = do
    payload ← lift (encode_household_load format model)
    atomic_write (backup_of ndjson) payload

  -- The lines of `save` that write a backup where there is no valid one.
  unfoldable pub ensure_backup : HouseholdLoadHistory Num → Action (Unit {0})
  ensure_backup history = do
    backup ← read_household_file (backup_of ndjson)
    write_missing_backup history.model backup.value

  -- `save`, where there is no history yet
  unfoldable pub first_save :
      HouseholdLoadData Num → List (HouseholdLoadRecord Num) → Action (HouseholdLoadData Num)
  first_save incoming incoming_records = do
    let payload = encode_household_records format incoming_records
    atomic_write (backup_of ndjson) payload
    atomic_write (primary_of ndjson) payload
    pure incoming

  -- `save`, onto a history. Where no gap is bridged, the records of `bridged` are those of the
  -- incoming history, and making them again makes no difference.
  unfoldable pub save_onto :
      HouseholdLoadHistory Num → HouseholdLoadData Num → Action (HouseholdLoadData Num)
  save_onto history incoming =
      if not (same_source history.model.source incoming.source)
      then raise (of_store (source_mismatch household_load))
      else do
        bridged ← lift (raised (bridge_household_load_gap history.model incoming))
        incoming_records ← lift (household_load_records bridged)
        merged ← lift (raised (merge_household_load_history history.model bridged))
        record_count ← mend history
        ensure_backup history
        append (primary_of ndjson) (encode_household_records format incoming_records)
        if ltb compaction_threshold (record_count + length incoming_records)
            then (compact history.model merged >> pure merged)
            else pure merged

  abbrev pub save_after :
      HouseholdLoadData Num
      → List (HouseholdLoadRecord Num)
      → Option (HouseholdLoadHistory Num)
      → Action (HouseholdLoadData Num)
  save_after incoming incoming_records none = first_save incoming incoming_records
  save_after incoming incoming_records (some history) = save_onto history incoming

  -- `HouseholdLoadStore.save`
  unfoldable pub save : HouseholdLoadData Num → Action (HouseholdLoadData Num)
  save incoming = do
    incoming_records ← lift (household_load_records incoming)
    or_os_error unwritable mkdir
    history ← load_history
    save_after incoming incoming_records history
