-- ===== src/Storage/Stored.antt =====
-- `load_history` where a file is there, whatever becomes of the calls that it makes.
use energy_optimizer.Prelude.{
  ℕ, Bool, true, ◌||◌, Option, none, some, Result, ok, err, is_some, ◌≡◌, ◌⊎◌, inl, inr, refl, sym,
  ap, ap₂, ◌∙◌, subst,
}
use energy_optimizer.Floats.{FloatOps}
use energy_optimizer.Series.{HouseholdLoadData, StoreError, unreadable}
use energy_optimizer.Bytes.{Bytes}
use energy_optimizer.Json.{Format}
use energy_optimizer.Ndjson.Encode.{encode_household_load}
use energy_optimizer.Ndjson.Parse.{HouseholdLoadHistory, parse_household_history}
use energy_optimizer.Storage.{
  ndjson, FilePath, primary_of, backup_of, Files, Disk, set_file, pure, lift, mkdir, read_bytes,
  atomic_write, ◌>>=◌, ◌>>◌,
}
use energy_optimizer.Storage.Household.{
  parsed, parsed_file, or_os_error, read_household_file, recover, with_primary, with_backup,
  load_history,
}
use energy_optimizer.Storage.Outcome.{
  Outcome, returning, raising, Outcome-bind, Outcome-or_os_error, Outcome-weaker, Outcome-lift,
  Outcome-mkdir, Outcome-read_bytes, Outcome-atomic_write,
}
use energy_optimizer.Storage.Recovery.{file}

module _ {Num : Type 0} ⦃f : FloatOps Num⦄ (format : Format Num)
    (read_legacy : Bytes → Option (HouseholdLoadData Num)) (threshold : ℕ) where
  -- The history that a file is read as.
  abbrev pub history_at : FilePath → Files → Option (HouseholdLoadHistory Num)
  history_at path files = (file format read_legacy threshold (files path)).value

  -- The primary file was not read, the backup was, and its history is in the primary file now.
  pub record IsRestored (before : Files) (history : HouseholdLoadHistory Num) (after : Files)
      : Type 0 where
    pub lost : history_at (primary_of ndjson) before ≡ none
    pub backup : history_at (backup_of ndjson) before ≡ some history
    pub payload : Bytes
    pub encoded : encode_household_load format history.model ≡ ok payload
    pub written : after ≡ set_file (primary_of ndjson) (some payload) before

  -- What a load that returns leaves, and one that raises.
  abbrev pub IsLoaded : Files → Option (HouseholdLoadHistory Num) → Files → Type 0
  IsLoaded before o after =
      (history : HouseholdLoadHistory Num) × (o ≡ some history)
      × (((history_at (primary_of ndjson) before ≡ some history) × (after ≡ before))
          ⊎ IsRestored before history after)

  abbrev pub IsKept : Files → Files → Type 0
  IsKept before after =
      (after ≡ before) ⊎ ((history : HouseholdLoadHistory Num) × IsRestored before history after)

  parsed-exists :
      (r : Result StoreError (HouseholdLoadHistory Num))
      → (parsed format read_legacy threshold r).exists ≡ true
  parsed-exists (ok history) = refl
  parsed-exists (err e) = refl

  file-exists : (o : Option Bytes) → (file format read_legacy threshold o).exists ≡ is_some o
  file-exists none = refl
  file-exists (some payload) = parsed-exists (parse_household_history format payload)

  Outcome-read_household_file :
      (path : FilePath) (disk : Disk)
      → Outcome
          (λ found files.
            (files ≡ disk.files) × (found ≡ file format read_legacy threshold (disk.files path)))
          (λ files. files ≡ disk.files)
          (read_household_file format read_legacy threshold path disk)
  unfolding read_household_file
  Outcome-read_household_file path disk =
      Outcome-bind (or_os_error unreadable (read_bytes path))
        (λ content. pure (parsed_file format read_legacy threshold content)) disk
        (Outcome-or_os_error unreadable (read_bytes path) disk (Outcome-read_bytes path disk))
        λ content left (same_files, e).
          returning (same_files, ap (parsed_file format read_legacy threshold) e)

  Outcome-recover :
      (before : Files) (history : HouseholdLoadHistory Num) (disk : Disk)
      → disk.files ≡ before
      → history_at (primary_of ndjson) before ≡ none
      → history_at (backup_of ndjson) before ≡ some history
      → Outcome
          (IsLoaded before)
          (IsKept before)
          (recover format read_legacy threshold history disk)
  unfolding recover
  Outcome-recover before history disk at lost backup =
      Outcome-bind mkdir
        (λ _. lift (encode_household_load format history.model) >>= λ payload.
          atomic_write (primary_of ndjson) payload >> pure (some history))
        disk
        (Outcome-weaker (mkdir disk) (Outcome-mkdir disk) (λ _ files x. x ∙ at)
          (λ files x. inl (x ∙ at)))
        λ _ made at'.
          Outcome-bind
            {P = λ payload files.
              (encode_household_load format history.model ≡ ok payload) × (files ≡ before)}
            (lift (encode_household_load format history.model))
            (λ payload. atomic_write (primary_of ndjson) payload >> pure (some history)) made
            (Outcome-lift (encode_household_load format history.model) made (λ payload e. (e, at'))
              (inl at'))
            λ payload left (e, at'').
              let restored : (files : Files)
                  → files ≡ set_file (primary_of ndjson) (some payload) left.files
                  → IsRestored before history files =
                λ files x. record {
                  lost = lost;
                  backup = backup;
                  payload = payload;
                  encoded = e;
                  written = x ∙ ap (set_file (primary_of ndjson) (some payload)) at'';
                } in
              Outcome-bind (atomic_write (primary_of ndjson) payload) (λ _. pure (some history))
                left
                (Outcome-weaker (atomic_write (primary_of ndjson) payload left)
                  (Outcome-atomic_write (primary_of ndjson) payload left)
                  (λ _ files x. restored files x)
                  λ files x. elim x [
                    | inl y ↦ inl (y ∙ at'')
                    | inr y ↦ inr (history, restored files y)
                  ])
                λ _ last done. returning (history, refl, inr done)

  Outcome-with_backup :
      (before : Files) (primary_exists backup_exists : Bool) (o : Option (HouseholdLoadHistory Num))
      (disk : Disk)
      → disk.files ≡ before
      → (primary_exists || backup_exists) ≡ true
      → history_at (primary_of ndjson) before ≡ none
      → history_at (backup_of ndjson) before ≡ o
      → Outcome
          (IsLoaded before)
          (IsKept before)
          (with_backup format read_legacy threshold primary_exists backup_exists o disk)
  unfolding with_backup
  Outcome-with_backup before p b (some history) disk at there lost backup =
      Outcome-recover before history disk at lost backup
  Outcome-with_backup before p b none disk at there lost backup = rw there (raising (inl at))

  Outcome-with_primary :
      (before : Files) (o : Option (HouseholdLoadHistory Num)) (disk : Disk)
      → disk.files ≡ before
      → (is_some (before (primary_of ndjson)) || is_some (before (backup_of ndjson))) ≡ true
      → history_at (primary_of ndjson) before ≡ o
      → Outcome (IsLoaded before) (IsKept before) (
          with_primary format read_legacy threshold
            (file format read_legacy threshold (before (primary_of ndjson))).exists
            o
            disk)
  unfolding with_primary
  Outcome-with_primary before (some history) disk at there e =
      returning (history, refl, inl (e, at))
  Outcome-with_primary before none disk at there e =
      let primary_exists =
        (file format read_legacy threshold (before (primary_of ndjson))).exists in
      Outcome-bind
        {P = λ found files.
          (files ≡ before)
          × (found ≡ file format read_legacy threshold (before (backup_of ndjson)))}
        (read_household_file format read_legacy threshold (backup_of ndjson))
        (λ found. with_backup format read_legacy threshold primary_exists found.exists found.value)
        disk
        (Outcome-weaker (read_household_file format read_legacy threshold (backup_of ndjson) disk)
          (Outcome-read_household_file (backup_of ndjson) disk)
          (λ found files x. (
            x.0 ∙ at,
            x.1 ∙ ap (λ fs. file format read_legacy threshold (fs (backup_of ndjson))) at,
          ))
          (λ files x. inl (x ∙ at)))
        λ found left (at', e').
          Outcome-with_backup before primary_exists found.exists found.value left at'
            (ap₂ (λ p b. p || b) (file-exists (before (primary_of ndjson)))
                (ap (λ x. x.exists) e' ∙ file-exists (before (backup_of ndjson)))
              ∙ there)
            e (sym (ap (λ x. x.value) e'))

  -- The primary file or its backup is there, and the calls of `load_history` meet any faults. If it
  -- returns, it returns the history of the primary file and has written nothing, or the primary file
  -- was not read, and it returns the history of the backup and has written just that to the primary
  -- file. If it raises, it has written nothing, or just that, where the primary file was not read.
  -- So it never returns where neither file is read, and then writes nothing.
  pub load_history-IsLoaded :
      (disk : Disk)
      → (is_some (disk.files (primary_of ndjson)) || is_some (disk.files (backup_of ndjson))) ≡ true
      → Outcome
          (IsLoaded disk.files)
          (IsKept disk.files)
          (load_history format read_legacy threshold disk)
  unfolding load_history
  load_history-IsLoaded disk there =
      Outcome-bind
        {P = λ found files.
          (files ≡ disk.files)
          × (found ≡ file format read_legacy threshold (disk.files (primary_of ndjson)))}
        (read_household_file format read_legacy threshold (primary_of ndjson))
        (λ found. with_primary format read_legacy threshold found.exists found.value) disk
        (Outcome-weaker (read_household_file format read_legacy threshold (primary_of ndjson) disk)
          (Outcome-read_household_file (primary_of ndjson) disk) (λ found files x. x)
          (λ files x. inl x))
        λ found left (at, e).
          subst
            (λ x.
              Outcome (IsLoaded disk.files) (IsKept disk.files)
                (with_primary format read_legacy threshold x.exists x.value left))
            (sym e)
            (Outcome-with_primary disk.files
              (file format read_legacy threshold (disk.files (primary_of ndjson))).value left at
              there refl)
