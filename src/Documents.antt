-- ===== src/Documents.antt =====
-- src/energy_optimizer/storage.py: what `ProviderDataStore` stores as one JSON document, for one
-- key. Logging is left out.
pub mod Quiet
pub mod Stored
pub mod Replaced
pub mod Saved
mod Tests
use energy_optimizer.Prelude.{
  ℕ, String, Bool, true, false, not, ◌&&◌, ◌==◌, string_eq, Option, none, some, List, [], ◌∷◌, ◌++◌,
  if◌then◌else◌, Result, ok, err, is_some, is_none, Eq,
}
use energy_optimizer.Floats.{FloatOps}
use energy_optimizer.Exclusions.{ExclusionCause}
use energy_optimizer.Series.{
  HouseholdLoadData, GridFlowData, BatteryEfficiencyHistoryData, StoreError, unreadable, unwritable,
  invalid_data, failed_validation,
}
use energy_optimizer.Legacy.{
  UpgradeError, upgrade_household_load, upgrade_grid_flow, upgrade_efficiency_history,
}
use energy_optimizer.Records.{household_load_points}
use energy_optimizer.Grid.{same_source, merge_grid_flow_history}
use energy_optimizer.History.{
  EnergyHistoryData, PvGenerationHistoryData, as_load, as_energy_history, pv_generation_source,
  merge_energy_history, merge_pv_history,
}
use energy_optimizer.Bytes.{Bytes}
use energy_optimizer.Ndjson.Encode.{of_store, raised}
use energy_optimizer.Storage.{
  Extension, json, FilePath, primary_of, backup_of, Action, pure, lift, raise, ◌>>=◌, ◌>>◌, mkdir,
  read_bytes, atomic_write, Disk,
}
use energy_optimizer.Storage.Household.{or_os_error}

-- The type that a `TypeAdapter` is of, as far as the store tells them apart.
pub data Kind : Type 0 where
  household_load grid_flow efficiency energy_history pv_history other : Kind

module _ (Num Other : Type 0) where
  abbrev pub Document : Kind → Type 0
  Document household_load = HouseholdLoadData Num
  Document grid_flow = GridFlowData Num
  Document efficiency = BatteryEfficiencyHistoryData Num
  Document energy_history = EnergyHistoryData Num
  Document pv_history = PvGenerationHistoryData Num
  Document other = Other

  -- pydantic's adapter, with the conversion of exceptions to an absent value
  pub record TypeAdapter (k : Kind) : Type 0 where
    pub validate_json : Bytes → Option (Document k)
    pub dump_json : Document k → Bytes

abbrev pub is_ok {ℓ κ} : {E : Type ℓ} {A : Type κ} → Result E A → Bool
is_ok (ok a) = true
is_ok (err e) = false

-- Whether `_save_json` merges; the data type counts for a grid flow.
abbrev pub is_merged : String → Kind → Bool
is_merged data_type grid_flow = data_type == "grid-flow"
is_merged data_type energy_history = true
is_merged data_type pv_history = true
is_merged data_type _ = false

module _ (Num Other : Type 0) ⦃f : FloatOps Num⦄ ⦃same : Eq (ExclusionCause Num)⦄ where
  -- `upgrade_legacy_quality`
  abbrev pub upgrade_legacy_quality :
      (k : Kind) → Document Num Other k → Result UpgradeError (Document Num Other k)
  upgrade_legacy_quality household_load d = upgrade_household_load d
  upgrade_legacy_quality grid_flow d = upgrade_grid_flow d
  upgrade_legacy_quality efficiency d = upgrade_efficiency_history d
  upgrade_legacy_quality energy_history d = ok d
  upgrade_legacy_quality pv_history d = ok d
  upgrade_legacy_quality other d = ok d

  -- What `_read_valid` asks of a measured PV history.
  abbrev pub is_accepted : (k : Kind) → Document Num Other k → Bool
  is_accepted pv_history d =
      is_ok (household_load_points (as_load (as_energy_history d)))
      && same_source d.source pv_generation_source
  is_accepted _ d = true

  -- The document that a validated one is read as.
  unfoldable pub accepted : (k : Kind) → Document Num Other k → Option (Document Num Other k)
  accepted k d = elim (upgrade_legacy_quality k d) [
    | err e ↦ none
    | ok upgraded ↦ if is_accepted k upgraded then some upgraded else none
  ]

  -- The merges of `_save_json`.
  abbrev pub merged_document :
      (k : Kind)
      → Option (Document Num Other k)
      → Document Num Other k
      → Result StoreError (Document Num Other k)
  merged_document grid_flow existing d = merge_grid_flow_history existing d
  merged_document energy_history existing d = merge_energy_history existing d
  merged_document pv_history existing d = merge_pv_history existing d
  merged_document _ existing d = ok d

module _ {Num Other : Type 0} ⦃f : FloatOps Num⦄ ⦃same : Eq (ExclusionCause Num)⦄ (k : Kind)
    (adapter : TypeAdapter Num Other k) where
  abbrev pub with_payload :
      Bytes → Option (Document Num Other k) → Option (Bytes × Document Num Other k)
  with_payload payload none = none
  with_payload payload (some d) = some (payload, d)

  abbrev pub accept : Option (Document Num Other k) → Option (Document Num Other k)
  accept none = none
  accept (some d) = accepted Num Other k d

  -- The document in some bytes, with them.
  abbrev pub valid_document : Option Bytes → Option (Bytes × Document Num Other k)
  valid_document none = none
  valid_document (some payload) = with_payload payload (accept (adapter.validate_json payload))

  -- `_read_valid`
  unfoldable pub read_valid : FilePath → Action (Option (Bytes × Document Num Other k))
  read_valid path = do
    payload ← or_os_error unreadable (read_bytes path)
    pure (valid_document payload)

  -- `path.exists()`
  abbrev pub exists : FilePath → Action Bool
  exists path disk = (ok (is_some (disk.files path)), disk)

  abbrev pub none_or_invalid : Bool → Action (Option (Document Num Other k))
  none_or_invalid true = pure none
  none_or_invalid false = raise (of_store invalid_data)

  -- What `load` does where neither file is valid.
  unfoldable pub load_none : Action (Option (Document Num Other k))
  load_none = do
    primary ← exists (primary_of json)
    backup ← exists (backup_of json)
    none_or_invalid (not primary && not backup)

  -- What `load` does with the backup.
  unfoldable pub restore :
      Option (Bytes × Document Num Other k) → Action (Option (Document Num Other k))
  restore none = load_none
  restore (some (payload, d)) = do mkdir; atomic_write (primary_of json) payload; pure (some d)

  unfoldable pub load_after :
      Option (Bytes × Document Num Other k) → Action (Option (Document Num Other k))
  load_after (some (payload, d)) = pure (some d)
  load_after none = do backup ← read_valid (backup_of json); restore backup

  -- `ProviderDataStore.load`, of another data type than "household-load"
  unfoldable pub load_json : Action (Option (Document Num Other k))
  load_json = do primary ← read_valid (primary_of json); load_after primary

  -- The document to store: the stored one and the new one are merged, if they are histories.
  unfoldable pub merge_stored : String → Document Num Other k → Action (Document Num Other k)
  merge_stored data_type d =
      if is_merged data_type k
      then (do existing ← load_json; lift (raised (merged_document Num Other k existing d)))
      else pure d

  -- The bytes of a document.
  abbrev pub dumped : Document Num Other k → Bytes
  dumped d = adapter.dump_json d ++ b'\n' ∷ []

  -- The write to the backup: the document there was, or the new one where there was none.
  unfoldable pub write_backup :
      Option (Bytes × Document Num Other k)
      → Option (Bytes × Document Num Other k)
      → Bytes
      → Action (Unit {0})
  write_backup (some (current, _)) backup payload = atomic_write (backup_of json) current
  write_backup none none payload = atomic_write (backup_of json) payload
  write_backup none (some _) payload = pure tt

  -- The rest of `_save_json`.
  unfoldable pub replace_document : Bytes → Action (Unit {0})
  replace_document payload = do
    or_os_error unwritable mkdir
    current ← read_valid (primary_of json)
    backup ← read_valid (backup_of json)
    write_backup current backup payload
    atomic_write (primary_of json) payload

  -- `_save_json`
  unfoldable pub save_json : String → Document Num Other k → Action (Document Num Other k)
  save_json data_type d = do
    model ← merge_stored data_type d
    replace_document (dumped model)
    pure model
