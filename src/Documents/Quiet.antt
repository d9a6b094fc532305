-- ===== src/Documents/Quiet.antt =====
-- `ProviderDataStore.save` and `load` of a document on a disk on which every call works.
use energy_optimizer.Prelude.{
  String, Option, none, some, Result, ok, ◌≡◌, inl, inr, refl, sym, ap, ◌∙◌, subst, Eq, Bool-cases,
}
use energy_optimizer.Floats.{FloatOps}
use energy_optimizer.Exclusions.{ExclusionCause}
use energy_optimizer.Series.{StoreError}
use energy_optimizer.Bytes.{Bytes}
use energy_optimizer.Ndjson.Encode.{Failure}
use energy_optimizer.Storage.{
  json, FilePath, primary_of, backup_of, Files, Disk, set_file, mkdir, read_bytes, atomic_write,
}
use energy_optimizer.Storage.Recovery.{quiet}
use energy_optimizer.Storage.Outcome.{Outcome, returning}
use energy_optimizer.Documents.{
  Kind, Document, TypeAdapter, is_merged, merged_document, read_valid, load_none, restore,
  load_after, load_json, merge_stored, dumped, write_backup, replace_document, save_json,
}
use energy_optimizer.Documents.Stored.{valid_at, stored}
use energy_optimizer.Documents.Saved.{to_store, IsReadBack, save_json-stored}

Outcome-ok {ℓ} :
    {A : Type ℓ} {P : A → Files → Type 0} {E : Files → Type 0} (a : A) (disk : Disk)
    → Outcome P E (ok a, disk)
    → P a disk.files
Outcome-ok a disk (returning p) = p

module _ {Num Other : Type 0} ⦃f : FloatOps Num⦄ ⦃same : Eq (ExclusionCause Num)⦄ (k : Kind)
    (adapter : TypeAdapter Num Other k) where
  -- Neither file is there but invalid, where there is no stored document.
  abbrev pub IsSound : Files → Type 0
  IsSound files =
      stored k adapter files ≡ none
      → (files (primary_of json) ≡ none) × (files (backup_of json) ≡ none)

  read_valid-quiet :
      (path : FilePath) (files : Files)
      → read_valid k adapter path (quiet files) ≡ (ok (valid_at k adapter path files), quiet files)
  unfolding read_valid read_bytes
  read_valid-quiet path files = refl

  restore-quiet :
      (o : Option (Bytes × Document Num Other k)) (files : Files)
      → IsSound files
      → valid_at k adapter (primary_of json) files ≡ none
      → valid_at k adapter (backup_of json) files ≡ o
      → (after : Files) × (restore k adapter o (quiet files)
          ≡ (ok (stored k adapter files), quiet after))
  unfolding restore load_none mkdir atomic_write
  restore-quiet none files sound lost e =
      let (primary, backup) = sound (rw (lost, e) refl) in (files, rw (primary, backup) refl)
  restore-quiet (some (payload, d)) files sound lost e =
      (set_file (primary_of json) (some payload) files, rw (lost, e) refl)

  load_after-quiet :
      (o : Option (Bytes × Document Num Other k)) (files : Files)
      → IsSound files
      → valid_at k adapter (primary_of json) files ≡ o
      → (after : Files) × (load_after k adapter o (quiet files)
          ≡ (ok (stored k adapter files), quiet after))
  unfolding load_after
  load_after-quiet (some (payload, d)) files sound e = (files, rw e refl)
  load_after-quiet none files sound e =
      let (after, h) =
        restore-quiet (valid_at k adapter (backup_of json) files) files sound e refl in
      (after, rw read_valid-quiet h)

  load_json-quiet :
      (files : Files)
      → IsSound files
      → (after : Files) × (load_json k adapter (quiet files)
          ≡ (ok (stored k adapter files), quiet after))
  unfolding load_json
  load_json-quiet files sound =
      let (after, h) =
        load_after-quiet (valid_at k adapter (primary_of json) files) files sound refl in
      (after, rw read_valid-quiet h)

  ok_same :
      (d m : Document Num Other k)
      → ◌≡◌ {A = Result StoreError (Document Num Other k)} (ok d) (ok m)
      → ◌≡◌ {A = Result Failure (Document Num Other k)} (ok d) (ok m)
  ok_same d m e = cc

  merge_stored-quiet :
      (data_type : String) (d m : Document Num Other k) (files : Files)
      → IsSound files
      → to_store k adapter data_type (stored k adapter files) d ≡ ok m
      → (after : Files) × (merge_stored k adapter data_type d (quiet files) ≡ (ok m, quiet after))
  unfolding merge_stored
  merge_stored-quiet data_type d m files sound e = elim (Bool-cases (is_merged data_type k)) [
    | inl merged ↦
        let (after, h) = load_json-quiet files sound in
        let same_document : merged_document Num Other k (stored k adapter files) d ≡ ok m =
          sym (rw merged refl) ∙ e in
        (after, rw (merged, h, same_document) refl)
    | inr plain ↦
        let same_document : ◌≡◌ {A = Result StoreError (Document Num Other k)} (ok d) (ok m) =
          sym (rw plain refl) ∙ e in
        (files, rw plain (ap (λ x. (x, quiet files)) (ok_same d m same_document)))
  ]

  write_backup-quiet :
      (current backup : Option (Bytes × Document Num Other k)) (payload : Bytes) (files : Files)
      → (after : Files) × (write_backup k adapter current backup payload (quiet files)
          ≡ (ok tt, quiet after))
  unfolding write_backup atomic_write
  write_backup-quiet (some (bytes, d)) backup payload files =
      (set_file (backup_of json) (some bytes) files, refl)
  write_backup-quiet none none payload files =
      (set_file (backup_of json) (some payload) files, refl)
  write_backup-quiet none (some b) payload files = (files, refl)

  replace_document-quiet :
      (payload : Bytes) (files : Files)
      → (after : Files) × (replace_document k adapter payload (quiet files) ≡ (ok tt, quiet after))
  unfolding replace_document mkdir atomic_write
  replace_document-quiet payload files =
      let (after, h) =
        write_backup-quiet (valid_at k adapter (primary_of json) files)
          (valid_at k adapter (backup_of json) files) payload files in
      (
        set_file (primary_of json) (some payload) after,
        rw (read_valid-quiet (primary_of json) files, read_valid-quiet (backup_of json) files, h)
            refl,
      )

  save-quiet :
      (data_type : String) (d m : Document Num Other k) (files : Files)
      → IsSound files
      → to_store k adapter data_type (stored k adapter files) d ≡ ok m
      → (after : Files) × (save_json k adapter data_type d (quiet files) ≡ (ok m, quiet after))
  unfolding save_json
  save-quiet data_type d m files sound e =
      let (between, h) = merge_stored-quiet data_type d m files sound e in
      let (after, w) = replace_document-quiet (dumped k adapter m) between in
      (after, rw (h, w) refl)

  -- Where every call works, no file is there without a stored document, and the stored document and
  -- the new one are merged to one whose bytes are read back, a save returns that document, and a load
  -- after it returns it, too.
  pub load_json-save_json :
      (data_type : String) (d m : Document Num Other k) (files : Files)
      → IsSound files
      → to_store k adapter data_type (stored k adapter files) d ≡ ok m
      → IsReadBack k adapter m
      → (after last : Files) × (save_json k adapter data_type d (quiet files) ≡ (ok m, quiet after))
        × (load_json k adapter (quiet after) ≡ (ok (some m), quiet last))
  load_json-save_json data_type d m files sound e reads =
      let (after, saved) = save-quiet data_type d m files sound e in
      let only : (x : Document Num Other k)
          → to_store k adapter data_type (stored k adapter files) d ≡ ok x
          → IsReadBack k adapter x =
        λ x h. subst (IsReadBack k adapter) (cc) reads in
      let (_, left) =
        Outcome-ok m (quiet after)
          (subst (Outcome _ _) saved (save_json-stored k adapter data_type d (quiet files) only)) in
      let (last, loaded) = load_json-quiet after (λ none_stored. cc) in
      (after, last, saved, loaded ∙ ap (λ o. (ok o, quiet last)) left)
