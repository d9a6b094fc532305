-- ===== src/Documents/Replaced.antt =====
-- The writes of `_save_json` of src/energy_optimizer/storage.py: each leaves the stored document as it
-- was, or is the step that replaces it.
use energy_optimizer.Prelude.{
  true, false, Option, none, some, Result, ◌≡◌, ◌⊎◌, inl, inr, refl, sym, ap, ◌∙◌, Eq, Bool-cases,
  ◌==◌,
}
use energy_optimizer.Floats.{FloatOps}
use energy_optimizer.Exclusions.{ExclusionCause}
use energy_optimizer.Series.{unwritable}
use energy_optimizer.Bytes.{Bytes}
use energy_optimizer.Ndjson.Encode.{Failure}
use energy_optimizer.Storage.{
  json, FilePath, path_eq, primary_of, backup_of, Files, Disk, set_file, Action, mkdir,
  atomic_write, ◌>>=◌, ◌>>◌,
}
use energy_optimizer.Storage.Household.{or_os_error}
use energy_optimizer.Storage.Outcome.{
  set_file_same, Outcome, returning, Outcome-bind, Outcome-or_os_error, Outcome-weaker,
  Outcome-mkdir, Outcome-atomic_write,
}
use energy_optimizer.Documents.{
  Kind, Document, TypeAdapter, valid_document, read_valid, write_backup, replace_document,
}
use energy_optimizer.Documents.Stored.{valid_at, stored_file, stored_file-set, Outcome-read_valid}

-- A write to the backup leaves the primary file.
primary-set_file :
    (content : Option Bytes) (files : Files)
    → set_file (backup_of json) content files (primary_of json) ≡ files (primary_of json)
primary-set_file content files = elim (Bool-cases (backup_of json == primary_of json)) [
  | inl e ↦
      let one : true ≡ false =
        ap (λ (p : FilePath). p.is_backup)
          ((path_eq.eqb_iff (backup_of json) (primary_of json)).0 e) in
      cc
  | inr e ↦ rw e refl
]

module _ {Num Other : Type 0} ⦃f : FloatOps Num⦄ ⦃same : Eq (ExclusionCause Num)⦄ (k : Kind)
    (adapter : TypeAdapter Num Other k) where
  -- The backup does not matter where the primary file is valid.
  stored_file-backup :
      (files : Files) (content : Bytes) (e : Bytes × Document Num Other k)
      → valid_at k adapter (primary_of json) files ≡ some e
      → stored_file k adapter (set_file (backup_of json) (some content) files)
        ≡ stored_file k adapter files
  stored_file-backup files content e there = rw (primary-set_file (some content) files, there) refl

  stored_file-first :
      (files : Files) (payload : Bytes) (m : Document Num Other k)
      → valid_at k adapter (primary_of json) files ≡ none
      → valid_document k adapter (some payload) ≡ some (payload, m)
      → stored_file k adapter (set_file (backup_of json) (some payload) files) ≡ some (payload, m)
  stored_file-first files payload m lost e =
      rw
        (
          primary-set_file (some payload) files,
          lost,
          set_file_same (backup_of json) (some payload) files,
          e,
        )
        refl

  -- The stored document, with its bytes, is the one before or the new one.
  abbrev pub Safe : Files → Bytes → Document Num Other k → Files → Type 0
  Safe before payload m files =
      (stored_file k adapter files ≡ stored_file k adapter before)
      ⊎ (stored_file k adapter files ≡ some (payload, m))

  Safe-same :
      (before files other : Files) (payload : Bytes) (m : Document Num Other k)
      → Safe before payload m files
      → stored_file k adapter other ≡ stored_file k adapter files
      → Safe before payload m other
  Safe-same before files other payload m (inl e) s = inl (s ∙ e)
  Safe-same before files other payload m (inr e) s = inr (s ∙ e)

  -- A write that leaves `Safe` when it is done leaves it when it fails.
  Outcome-write :
      (before : Files) (path : FilePath) (content payload : Bytes) (m : Document Num Other k)
      (disk : Disk)
      → Safe before payload m disk.files
      → Safe before payload m (set_file path (some content) disk.files)
      → Outcome
          (λ _ files. Safe before payload m files)
          (Safe before payload m)
          (atomic_write path content disk)
  Outcome-write before path content payload m disk old new =
      Outcome-weaker (atomic_write path content disk) (Outcome-atomic_write path content disk)
        (λ _ files x.
          Safe-same before (set_file path (some content) disk.files) files payload m new
            (ap (stored_file k adapter) x))
        λ files x. elim x [
          | inl y ↦ Safe-same before disk.files files payload m old (ap (stored_file k adapter) y)
          | inr y ↦
              Safe-same before (set_file path (some content) disk.files) files payload m new
                (ap (stored_file k adapter) y)
        ]

  Outcome-write_backup :
      (before : Files) (current backup : Option (Bytes × Document Num Other k)) (payload : Bytes)
      (m : Document Num Other k) (disk : Disk)
      → valid_document k adapter (some payload) ≡ some (payload, m)
      → Safe before payload m disk.files
      → current ≡ valid_at k adapter (primary_of json) disk.files
      → Outcome
          (λ _ files. Safe before payload m files)
          (Safe before payload m)
          (write_backup k adapter current backup payload disk)
  unfolding write_backup
  Outcome-write_backup before (some (bytes, d)) backup payload m disk read safe e =
      Outcome-write before (backup_of json) bytes payload m disk safe (
        Safe-same before disk.files (set_file (backup_of json) (some bytes) disk.files) payload m
          safe (stored_file-backup disk.files bytes (bytes, d) (sym e)))
  Outcome-write_backup before none none payload m disk read safe e =
      Outcome-write before (backup_of json) payload payload m disk safe
        (inr (stored_file-first disk.files payload m (sym e) read))
  Outcome-write_backup before none (some b) payload m disk read safe e = returning safe

  -- A call that changes no file, before the writes.
  Outcome-quiet {ℓ} :
      {A : Type ℓ} {P : A → Files → Type 0} (before : Files) (payload : Bytes)
      (m : Document Num Other k) (r : Result Failure A × Disk) (disk : Disk)
      → stored_file k adapter disk.files ≡ stored_file k adapter before
      → Outcome P (λ files. files ≡ disk.files) r
      → Outcome P (Safe before payload m) r
  Outcome-quiet before payload m r disk kept h =
      Outcome-weaker r h (λ a files x. x) (λ files x. inl (ap (stored_file k adapter) x ∙ kept))

  Outcome-write_primary :
      (before : Files) (payload : Bytes) (m : Document Num Other k) (disk : Disk)
      → valid_document k adapter (some payload) ≡ some (payload, m)
      → Safe before payload m disk.files
      → Outcome
          (λ _ files. stored_file k adapter files ≡ some (payload, m))
          (Safe before payload m)
          (atomic_write (primary_of json) payload disk)
  Outcome-write_primary before payload m disk read safe =
      let new = stored_file-set k adapter disk.files payload m read in
      Outcome-weaker (atomic_write (primary_of json) payload disk)
        (Outcome-atomic_write (primary_of json) payload disk)
        (λ _ files x. ap (stored_file k adapter) x ∙ new)
        λ files x. elim x [
          | inl y ↦ Safe-same before disk.files files payload m safe (ap (stored_file k adapter) y)
          | inr y ↦ inr (ap (stored_file k adapter) y ∙ new)
        ]

  pub Outcome-replace_document :
      (before : Files) (payload : Bytes) (m : Document Num Other k) (disk : Disk)
      → valid_document k adapter (some payload) ≡ some (payload, m)
      → stored_file k adapter disk.files ≡ stored_file k adapter before
      → Outcome
          (λ _ files. stored_file k adapter files ≡ some (payload, m))
          (Safe before payload m)
          (replace_document k adapter payload disk)
  unfolding replace_document
  Outcome-replace_document before payload m disk read kept =
      let after_backup : Option (Bytes × Document Num Other k)
          → Option (Bytes × Document Num Other k)
          → Action (Unit {0}) =
        λ current backup.
          write_backup k adapter current backup payload >> atomic_write (primary_of json) payload in
      let after_primary : Option (Bytes × Document Num Other k) → Action (Unit {0}) =
        λ current. read_valid k adapter (backup_of json) >>= after_backup current in
      Outcome-bind {P = λ _ files. files ≡ disk.files} (or_os_error unwritable mkdir)
        (λ _. read_valid k adapter (primary_of json) >>= after_primary) disk
        (Outcome-quiet before payload m (or_os_error unwritable mkdir disk) disk kept
          (Outcome-or_os_error unwritable mkdir disk (Outcome-mkdir disk)))
        λ _ made at.
          Outcome-bind (read_valid k adapter (primary_of json)) after_primary made
            (Outcome-quiet before payload m (read_valid k adapter (primary_of json) made) made
              (ap (stored_file k adapter) at ∙ kept)
              (Outcome-read_valid k adapter (primary_of json) made))
            λ current seen (at', e).
              Outcome-bind (read_valid k adapter (backup_of json)) (after_backup current) seen
                (Outcome-quiet before payload m (read_valid k adapter (backup_of json) seen) seen
                  (ap (stored_file k adapter) (at' ∙ at) ∙ kept)
                  (Outcome-read_valid k adapter (backup_of json) seen))
                λ backup left (same_files, _).
                  Outcome-bind (write_backup k adapter current backup payload)
                    (λ _. atomic_write (primary_of json) payload) left
                    (Outcome-write_backup before current backup payload m left read
                      (inl (ap (stored_file k adapter) (same_files ∙ at' ∙ at) ∙ kept))
                      (e ∙ ap (valid_at k adapter (primary_of json)) (sym (same_files ∙ at'))))
                    λ _ last safe. Outcome-write_primary before payload m last read safe
