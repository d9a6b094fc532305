-- ===== src/Documents/Saved.antt =====
-- `_save_json` of src/energy_optimizer/storage.py: a save replaces the stored document by the merge,
-- or leaves it, whatever becomes of its calls.
use mathlib.Core.Option
use energy_optimizer.Prelude.{
  String, Option, some, if◌then◌else◌, Result, ok, err, ◌≡◌, ◌⊎◌, inl, inr, refl, sym, ap, ◌∙◌, Eq,
  Bool-cases,
}
use energy_optimizer.Floats.{FloatOps}
use energy_optimizer.Exclusions.{ExclusionCause}
use energy_optimizer.Series.{StoreError}
use energy_optimizer.Ndjson.Encode.{raised}
use energy_optimizer.Storage.{path_eq, Files, Disk, pure, lift, ◌>>◌}
use energy_optimizer.Storage.Outcome.{Outcome, returning, raising, Outcome-bind, Outcome-weaker}
use energy_optimizer.Documents.{
  Kind, Document, TypeAdapter, accepted, accept, with_payload, valid_document, is_merged,
  merged_document, load_json, merge_stored, dumped, replace_document, save_json,
}
use energy_optimizer.Documents.Replaced.{Outcome-replace_document}
use energy_optimizer.Documents.Stored.{stored_file, stored, load_json-stored}

module _ {Num Other : Type 0} ⦃f : FloatOps Num⦄ ⦃same : Eq (ExclusionCause Num)⦄ (k : Kind)
    (adapter : TypeAdapter Num Other k) where
  -- The document that a save is to leave.
  abbrev pub to_store :
      String
      → Option (Document Num Other k)
      → Document Num Other k
      → Result StoreError (Document Num Other k)
  to_store data_type existing d =
      if is_merged data_type k then merged_document Num Other k existing d else ok d

  -- The bytes that a document is written as are read as that document.
  abbrev pub IsReadBack : Document Num Other k → Type 0
  IsReadBack m =
      (adapter.validate_json (dumped k adapter m) ≡ some m) × (accepted Num Other k m ≡ some m)

  valid_document-dumped :
      (m : Document Num Other k)
      → IsReadBack m
      → valid_document k adapter (some (dumped k adapter m)) ≡ some (dumped k adapter m, m)
  valid_document-dumped m (e, a) =
      ap (λ o. with_payload k adapter (dumped k adapter m) (accept k adapter o)) e
      ∙ ap (with_payload k adapter (dumped k adapter m)) a

  Outcome-raised :
      {P : Document Num Other k → Files → Type 0} {E : Files → Type 0}
      (r : Result StoreError (Document Num Other k)) (disk : Disk)
      → ((m : Document Num Other k) → r ≡ ok m → P m disk.files)
      → E disk.files
      → Outcome P E (lift (raised r) disk)
  Outcome-raised (ok m) disk p e = returning (p m refl)
  Outcome-raised (err s) disk p e = raising e

  Outcome-merge_stored :
      (data_type : String) (d : Document Num Other k) (disk : Disk)
      → Outcome
          (λ m files.
            (to_store data_type (stored k adapter disk.files) d ≡ ok m)
            × (stored_file k adapter files ≡ stored_file k adapter disk.files))
          (λ files. stored_file k adapter files ≡ stored_file k adapter disk.files)
          (merge_stored k adapter data_type d disk)
  unfolding merge_stored
  Outcome-merge_stored data_type d disk = elim (Bool-cases (is_merged data_type k)) [
    | inl merged ↦ rw merged (
        Outcome-bind (load_json k adapter)
          (λ existing. lift (raised (merged_document Num Other k existing d))) disk
          (load_json-stored k adapter disk)
          λ existing left (e, kept).
            Outcome-raised (merged_document Num Other k existing d) left
              (λ m x. (ap (λ o. merged_document Num Other k o d) (sym e) ∙ x, kept)) kept)
    | inr plain ↦ rw plain (returning (refl, refl))
  ]

  -- A save of a document, whatever becomes of its calls: if it returns, it returns the merge of the
  -- stored document with the new one, or the new one where the store does not merge, and this is the
  -- stored document from then on. If it raises, then the stored document is as it was before, or is
  -- that merge. The condition is that the bytes of the merge are read back as that document.
  pub save_json-stored :
      (data_type : String) (d : Document Num Other k) (disk : Disk)
      → ((m : Document Num Other k)
          → to_store data_type (stored k adapter disk.files) d ≡ ok m
          → IsReadBack m)
      → Outcome
          (λ m files.
            (to_store data_type (stored k adapter disk.files) d ≡ ok m)
            × (stored k adapter files ≡ some m))
          (λ files.
            (stored k adapter files ≡ stored k adapter disk.files)
            ⊎ ((m : Document Num Other k) × (to_store data_type (stored k adapter disk.files) d
                  ≡ ok m)
                × (stored k adapter files ≡ some m)))
          (save_json k adapter data_type d disk)
  unfolding save_json
  save_json-stored data_type d disk reads =
      Outcome-bind (merge_stored k adapter data_type d)
        (λ model. replace_document k adapter (dumped k adapter model) >> pure model) disk
        (Outcome-weaker (merge_stored k adapter data_type d disk)
          (Outcome-merge_stored data_type d disk) (λ m files x. x)
          (λ files x. inl (ap (Option.map (λ e. e.1)) x)))
        λ m left (e, kept).
          Outcome-bind (replace_document k adapter (dumped k adapter m)) (λ _. pure m) left
            (Outcome-weaker (replace_document k adapter (dumped k adapter m) left)
              (Outcome-replace_document k adapter disk.files (dumped k adapter m) m left
                (valid_document-dumped m (reads m e)) kept)
              (λ _ files x. x)
              λ files x. elim x [
                | inl y ↦ inl (ap (Option.map (λ e. e.1)) y)
                | inr y ↦ inr (m, e, ap (Option.map (λ e. e.1)) y)
              ])
            λ _ last new. returning (e, ap (Option.map (λ e. e.1)) new)
