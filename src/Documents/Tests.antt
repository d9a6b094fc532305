-- ===== src/Documents/Tests.antt =====
-- Tests of the documents, and the theorems at a stored grid flow.
use native.Mathlib.Decide.{ℕ_discrete}
use energy_optimizer.Prelude.{
  ℕ, Option, none, some, [], ◌∷◌, if◌then◌else◌, Result, ok, err, length, ◌==◌, nat_eq, Eq,
  eq_of_discrete, ◌≡◌, ◌⊎◌, refl, sym, ap, ◌∙◌, subst, arith, lookup, insert, update,
}
use energy_optimizer.Exclusions.{ExclusionCause, cause-discrete}
use energy_optimizer.Samples.{hundredths, stored_flow, fetched_flow}
use energy_optimizer.Series.{GridFlowData, StoreError}
use energy_optimizer.Exclusions.{history_unavailable_exclusions, round_hours}
use energy_optimizer.Prelude.Sorting.{sorted_items}
use energy_optimizer.Records.{as_utc, index_exclusions, require_contiguous_hours, skips_hour}
use energy_optimizer.Grid.{
  merge_grid_flow_history, grid_flow_points, require_hourly_start, flow_loop, flow_point,
  is_valid_flow,
}
use energy_optimizer.Legacy.{upgrade_grid_flow}
use energy_optimizer.Storage.{Files, Disk, works, fails_late}
use energy_optimizer.Storage.Recovery.{quiet}
use energy_optimizer.Documents.Quiet.{load_json-save_json}
use energy_optimizer.Storage.Outcome.{Outcome}
use energy_optimizer.Documents.{grid_flow, TypeAdapter, accepted, load_json, save_json}
use energy_optimizer.Documents.Stored.{stored, stored_file, load_json-stored}
use energy_optimizer.Documents.Saved.{to_store, IsReadBack, save_json-stored}

instance abbrev cause_eq : Eq (ExclusionCause ℕ)
cause_eq = eq_of_discrete (cause-discrete ℕ_discrete)

abbrev merged_or : Result StoreError (GridFlowData ℕ) → GridFlowData ℕ
merged_or (ok m) = m
merged_or (err e) = stored_flow

abbrev merged_flow : GridFlowData ℕ
merged_flow = merged_or (merge_grid_flow_history (some stored_flow) fetched_flow)

-- A file with one byte has the merge, any other the stored flow.
abbrev flow_adapter : TypeAdapter ℕ ℕ grid_flow
flow_adapter = record {
  validate_json = λ payload. if length payload == 1 then some merged_flow else some stored_flow;
  dump_json = λ _. [];
}

abbrev flow_files : Files
flow_files path = if path.is_backup then none else some []

-- The write of the primary file fails when all is done.
abbrev flow_disk : Disk
flow_disk = record {
  files = flow_files;
  faults = works ∷ works ∷ works ∷ works ∷ works ∷ fails_late ∷ [];
}

merged_flow-accepted : accepted ℕ ℕ grid_flow merged_flow ≡ some merged_flow
unfolding merge_grid_flow_history accepted upgrade_grid_flow grid_flow_points require_hourly_start
    as_utc index_exclusions lookup flow_loop flow_point is_valid_flow insert
    require_contiguous_hours skips_hour sorted_items update history_unavailable_exclusions
    round_hours
merged_flow-accepted = refl

stored_flow-stored : stored grid_flow flow_adapter flow_files ≡ some stored_flow
unfolding accepted upgrade_grid_flow
stored_flow-stored = refl

abbrev flow_stored : Option (GridFlowData ℕ)
flow_stored = stored grid_flow flow_adapter flow_files

load_json-stored_example :
    Outcome
      (λ o files.
        (o ≡ flow_stored)
        × (stored_file grid_flow flow_adapter files
            ≡ stored_file grid_flow flow_adapter flow_files))
      (λ files.
        stored_file grid_flow flow_adapter files ≡ stored_file grid_flow flow_adapter flow_files)
      (load_json grid_flow flow_adapter flow_disk)
load_json-stored_example = load_json-stored grid_flow flow_adapter flow_disk

merged_flow-IsReadBack :
    (m : GridFlowData ℕ)
    → to_store grid_flow flow_adapter "grid-flow" flow_stored fetched_flow ≡ ok m
    → IsReadBack grid_flow flow_adapter m
merged_flow-IsReadBack m e =
    let merged : merged_flow ≡ m =
      ap merged_or
        (ap (λ o. merge_grid_flow_history o fetched_flow) (sym stored_flow-stored) ∙ e) in
    subst (λ d. (some merged_flow ≡ some d) × (accepted ℕ ℕ grid_flow d ≡ some d)) merged
      (refl, merged_flow-accepted)

save_json-stored_example :
    Outcome
      (λ m files.
        (to_store grid_flow flow_adapter "grid-flow" flow_stored fetched_flow ≡ ok m)
        × (stored grid_flow flow_adapter files ≡ some m))
      (λ files.
        (stored grid_flow flow_adapter files ≡ flow_stored)
        ⊎ ((m : GridFlowData ℕ) × (to_store grid_flow flow_adapter "grid-flow" flow_stored
                fetched_flow
              ≡ ok m)
            × (stored grid_flow flow_adapter files ≡ some m)))
      (save_json grid_flow flow_adapter "grid-flow" fetched_flow flow_disk)
save_json-stored_example =
    save_json-stored grid_flow flow_adapter "grid-flow" fetched_flow flow_disk
      merged_flow-IsReadBack

flow_merge : merge_grid_flow_history (some stored_flow) fetched_flow ≡ ok merged_flow
unfolding merge_grid_flow_history grid_flow_points require_hourly_start as_utc index_exclusions
    lookup flow_loop flow_point is_valid_flow insert require_contiguous_hours skips_hour
    sorted_items update history_unavailable_exclusions round_hours
flow_merge = refl

load_json-save_json_example :
    (after last : Files) × (save_json grid_flow flow_adapter "grid-flow" fetched_flow
        (quiet flow_files)
      ≡ (ok merged_flow, quiet after))
    × (load_json grid_flow flow_adapter (quiet after) ≡ (ok (some merged_flow), quiet last))
load_json-save_json_example =
    load_json-save_json grid_flow flow_adapter "grid-flow" fetched_flow merged_flow flow_files
      (λ nothing. ground (arith, nothing, stored_flow-stored))
      (ap (λ o. merge_grid_flow_history o fetched_flow) stored_flow-stored ∙ flow_merge)
      (refl, merged_flow-accepted)
