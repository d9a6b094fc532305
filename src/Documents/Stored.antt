-- ===== src/Documents/Stored.antt =====
-- The document that the files of a key stand for: that of the primary file, or of the backup where
-- the primary file is not valid. `ProviderDataStore.load` returns it, and leaves it as it is.
use mathlib.Core.Option
use energy_optimizer.Prelude.{
  Bool, true, false, not, ◌&&◌, Option, none, some, is_some, ◌≡◌, inl, inr, refl, sym, ap, ◌∙◌, Eq,
}
use energy_optimizer.Floats.{FloatOps}
use energy_optimizer.Exclusions.{ExclusionCause}
use energy_optimizer.Series.{unreadable}
use energy_optimizer.Bytes.{Bytes}
use energy_optimizer.Storage.{
  json, FilePath, path_eq, primary_of, backup_of, Files, Disk, set_file, pure, mkdir, read_bytes,
  atomic_write, ◌>>◌,
}
use energy_optimizer.Storage.Household.{either, or_os_error}
use energy_optimizer.Storage.Outcome.{
  set_file_same, Outcome, returning, raising, Outcome-bind, Outcome-or_os_error, Outcome-weaker,
  Outcome-mkdir, Outcome-read_bytes, Outcome-atomic_write,
}
use energy_optimizer.Documents.{
  Kind, Document, TypeAdapter, with_payload, accept, valid_document, none_or_invalid, read_valid,
  load_none, restore, load_after, load_json,
}

module _ {Num Other : Type 0} ⦃f : FloatOps Num⦄ ⦃same : Eq (ExclusionCause Num)⦄ (k : Kind)
    (adapter : TypeAdapter Num Other k) where
  abbrev pub valid_at : FilePath → Files → Option (Bytes × Document Num Other k)
  valid_at path files = valid_document k adapter (files path)

  -- The stored document, with its bytes.
  abbrev pub stored_file : Files → Option (Bytes × Document Num Other k)
  stored_file files = either (valid_at (primary_of json) files) (valid_at (backup_of json) files)

  abbrev pub stored : Files → Option (Document Num Other k)
  stored files = Option.map (λ e. e.1) (stored_file files)

  with_payload-bytes :
      (content payload : Bytes) (o : Option (Document Num Other k)) (d : Document Num Other k)
      → with_payload k adapter content o ≡ some (payload, d)
      → content ≡ payload
  with_payload-bytes content payload none d e = cc
  with_payload-bytes content payload (some x) d e = cc

  -- A document that is read comes with the bytes that it is read from.
  pub valid_document-bytes :
      (o : Option Bytes) (payload : Bytes) (d : Document Num Other k)
      → valid_document k adapter o ≡ some (payload, d)
      → o ≡ some payload
  valid_document-bytes none payload d e = cc
  valid_document-bytes (some content) payload d e =
      ap some
        (with_payload-bytes content payload (accept k adapter (adapter.validate_json content)) d e)

  -- A primary file that is written is the stored document, whatever the backup is.
  pub stored_file-set :
      (files : Files) (payload : Bytes) (d : Document Num Other k)
      → valid_document k adapter (some payload) ≡ some (payload, d)
      → stored_file (set_file (primary_of json) (some payload) files) ≡ some (payload, d)
  stored_file-set files payload d e =
      ap
        (λ o.
          either (valid_document k adapter o)
            (valid_at (backup_of json) (set_file (primary_of json) (some payload) files)))
        (set_file_same (primary_of json) (some payload) files)
      ∙ ap
          (λ o.
            either o (valid_at (backup_of json) (set_file (primary_of json) (some payload) files)))
          e

  pub Outcome-read_valid :
      (path : FilePath) (disk : Disk)
      → Outcome
          (λ o files. (files ≡ disk.files) × (o ≡ valid_at path disk.files))
          (λ files. files ≡ disk.files)
          (read_valid k adapter path disk)
  unfolding read_valid
  Outcome-read_valid path disk =
      Outcome-bind (or_os_error unreadable (read_bytes path))
        (λ content. pure (valid_document k adapter content)) disk
        (Outcome-or_os_error unreadable (read_bytes path) disk (Outcome-read_bytes path disk))
        λ content left (same_files, e). returning (same_files, ap (valid_document k adapter) e)

  abbrev Loaded : Files → Option (Document Num Other k) → Files → Type 0
  Loaded before o files = (o ≡ stored before) × (stored_file files ≡ stored_file before)

  abbrev Unchanged : Files → Files → Type 0
  Unchanged before files = stored_file files ≡ stored_file before

  Outcome-none_or_invalid :
      (before : Files) (b : Bool) (disk : Disk)
      → disk.files ≡ before
      → stored before ≡ none
      → Outcome (Loaded before) (Unchanged before) (none_or_invalid k adapter b disk)
  Outcome-none_or_invalid before true disk at e = returning (sym e, ap stored_file at)
  Outcome-none_or_invalid before false disk at e = raising (ap stored_file at)

  -- The backup's bytes, written to the primary file, leave the stored document as it is.
  restored :
      (before files : Files) (payload : Bytes) (d : Document Num Other k)
      → valid_at (primary_of json) before ≡ none
      → valid_at (backup_of json) before ≡ some (payload, d)
      → stored_file (set_file (primary_of json) (some payload) files) ≡ stored_file before
  restored before files payload d lost e =
      stored_file-set files payload d (
        ap (valid_document k adapter)
          (sym (valid_document-bytes (before (backup_of json)) payload d e))
        ∙ e)
      ∙ sym (rw (lost, e) refl)

  Outcome-restore :
      (before : Files) (o : Option (Bytes × Document Num Other k)) (disk : Disk)
      → disk.files ≡ before
      → valid_at (primary_of json) before ≡ none
      → valid_at (backup_of json) before ≡ o
      → Outcome (Loaded before) (Unchanged before) (restore k adapter o disk)
  unfolding restore load_none
  Outcome-restore before none disk at lost e =
      Outcome-none_or_invalid before
        (not (is_some (disk.files (primary_of json)))
          && not (is_some (disk.files (backup_of json))))
        disk at (rw (lost, e) refl)
  Outcome-restore before (some (payload, d)) disk at lost e =
      Outcome-bind mkdir (λ _. atomic_write (primary_of json) payload >> pure (some d)) disk
        (Outcome-weaker (mkdir disk) (Outcome-mkdir disk) (λ _ files x. x ∙ at)
          (λ files x. ap stored_file (x ∙ at)))
        λ _ left at'.
          Outcome-bind (atomic_write (primary_of json) payload) (λ _. pure (some d)) left
            (Outcome-weaker (atomic_write (primary_of json) payload left)
              (Outcome-atomic_write (primary_of json) payload left)
              (λ _ files x. ap stored_file x ∙ restored before left.files payload d lost e)
              λ files x. elim x [
                | inl y ↦ ap stored_file (y ∙ at')
                | inr y ↦ ap stored_file y ∙ restored before left.files payload d lost e
              ])
            λ _ last kept. returning (rw (lost, e) refl, kept)

  Outcome-load_after :
      (before : Files) (o : Option (Bytes × Document Num Other k)) (disk : Disk)
      → disk.files ≡ before
      → valid_at (primary_of json) before ≡ o
      → Outcome (Loaded before) (Unchanged before) (load_after k adapter o disk)
  unfolding load_after
  Outcome-load_after before (some (payload, d)) disk at e = returning (rw e refl, ap stored_file at)
  Outcome-load_after before none disk at e =
      Outcome-bind {P = λ o files. (files ≡ before) × (o ≡ valid_at (backup_of json) before)}
        (read_valid k adapter (backup_of json)) (λ o. restore k adapter o) disk
        (Outcome-weaker (read_valid k adapter (backup_of json) disk)
          (Outcome-read_valid (backup_of json) disk)
          (λ o files x. (x.0 ∙ at, x.1 ∙ ap (valid_at (backup_of json)) at))
          (λ files x. ap stored_file (x ∙ at)))
        λ o left (at', e'). Outcome-restore before o left at' e (sym e')

  -- Whatever becomes of the calls that it makes, `load` leaves the stored document and its bytes as
  -- they are, and what it returns, if it returns, is the stored document.
  pub load_json-stored :
      (disk : Disk)
      → Outcome
          (λ o files. (o ≡ stored disk.files) × (stored_file files ≡ stored_file disk.files))
          (λ files. stored_file files ≡ stored_file disk.files)
          (load_json k adapter disk)
  unfolding load_json
  load_json-stored disk =
      Outcome-bind (read_valid k adapter (primary_of json)) (λ o. load_after k adapter o) disk
        (Outcome-weaker (read_valid k adapter (primary_of json) disk)
          (Outcome-read_valid (primary_of json) disk) (λ o files x. x)
          (λ files x. ap stored_file x))
        λ o left (at, e). Outcome-load_after disk.files o left at (sym e)
