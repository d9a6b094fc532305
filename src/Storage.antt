-- ===== src/Storage.antt =====
-- src/energy_optimizer/storage.py: the files of one key of the provider data store, and the calls
-- that read and write them. Files of other keys have other names. The temporary file of an atomic
-- write is never read, and is left out. Every call meets the next of the faults that the disk has
-- in store; a crash is a fault after which nothing is done.
pub mod Appended
pub mod Household
pub mod Outcome
pub mod Recovery
pub mod Saved
pub mod Stored
mod Samples
mod Tests
use energy_optimizer.Prelude.{
  ℕ, zero, suc, String, Bool, true, false, not, ◌&&◌, Option, none, some, List, [], ◌∷◌, ◌++◌, take,
  Eq, ◌==◌, if◌then◌else◌, eq_of_discrete, length, ltb, Result, ok, err, or_default,
}
use energy_optimizer.Bytes.{Bytes, is_terminated}
use energy_optimizer.Series.{StoreError, unreadable, unwritable}
use energy_optimizer.Ndjson.Encode.{Failure, of_store, os_error}

pub data Extension : Type 0 where
  ndjson json : Extension

-- The name of a file of the key, but for the parts that all of them share.
pub record FilePath : Type 0 where
  pub extension : Extension
  pub is_backup : Bool

pub FilePath-discrete : Discrete FilePath
FilePath-discrete = hlevel

instance abbrev pub path_eq : Eq FilePath
path_eq = eq_of_discrete FilePath-discrete

-- `_paths`: the primary file and its backup
abbrev pub primary_of : Extension → FilePath
primary_of extension = record { extension = extension; is_backup = false }

abbrev pub backup_of : Extension → FilePath
backup_of extension = record { extension = extension; is_backup = true }

-- What becomes of one call.
pub data Fault : Type 0 where
  works : Fault
  -- it fails and changes nothing
  fails : Fault
  -- it fails once this many bytes are in the file, if it appends
  stops_after : ℕ → Fault
  -- it fails when all is done: the last `fsync` does
  fails_late : Fault

abbrev pub Files : Type 0
Files = FilePath → Option Bytes

pub record Disk : Type 0 where
  pub files : Files
  pub faults : List Fault

abbrev pub set_file : FilePath → Option Bytes → Files → Files
set_file path content files other = if path == other then content else files other

-- When no fault is left, calls work.
abbrev pub next_fault : Disk → Fault
next_fault disk = elim disk.faults [ [] ↦ works | f ∷ rest ↦ f ]

abbrev pub past_fault : Disk → Disk
past_fault disk = record disk { faults = elim disk.faults [ [] ↦ [] | f ∷ rest ↦ rest ] }

abbrev pub write_file : FilePath → Option Bytes → Disk → Disk
write_file path content disk = record (past_fault disk) { files = set_file path content disk.files }

-- A method: what it returns or raises, and the disk that it leaves.
abbrev pub Action {ℓ} : Type ℓ → Type ℓ
Action A = Disk → Result Failure A × Disk

abbrev pub pure {ℓ} : {A : Type ℓ} → A → Action A
pure a disk = (ok a, disk)

abbrev pub lift {ℓ} : {A : Type ℓ} → Result Failure A → Action A
lift r disk = (r, disk)

abbrev pub raise {ℓ} : {A : Type ℓ} → Failure → Action A
raise e disk = (err e, disk)

abbrev pub go_on {ℓ κ} : {A : Type ℓ} {B : Type κ} → (A → Action B) → Result Failure A → Action B
go_on rest (ok a) disk = rest a disk
go_on rest (err e) disk = (err e, disk)

infixl 5 ◌>>=◌ ◌>>◌
abbrev pub ◌>>=◌ {ℓ κ} : {A : Type ℓ} {B : Type κ} → Action A → (A → Action B) → Action B
(m >>= rest) disk = go_on rest (m disk).0 (m disk).1

abbrev pub ◌>>◌ {κ} : {B : Type κ} → Action (Unit {0}) → Action B → Action B
m >> rest = m >>= λ _. rest

-- `self.directory.mkdir(parents=True, exist_ok=True)`
unfoldable pub mkdir : Action (Unit {0})
mkdir disk = elim (next_fault disk) [
  | works ↦ (ok tt, past_fault disk)
  | _ ↦ (err os_error, past_fault disk)
]

-- `path.read_bytes()`, `none` for a `FileNotFoundError`
unfoldable pub read_bytes : FilePath → Action (Option Bytes)
read_bytes path disk = elim (next_fault disk) [
  | works ↦ (ok (disk.files path), past_fault disk)
  | _ ↦ (err os_error, past_fault disk)
]

-- `path.unlink(missing_ok=True)`
unfoldable pub unlink : FilePath → Action (Unit {0})
unlink path disk = elim (next_fault disk) [
  | works ↦ (ok tt, write_file path none disk)
  | fails_late ↦ (err os_error, write_file path none disk)
  | _ ↦ (err os_error, past_fault disk)
]

abbrev pub write_under : Fault → FilePath → Bytes → Action (Unit {0})
write_under works path payload disk = (ok tt, write_file path (some payload) disk)
write_under fails_late path payload disk =
    (err (of_store unwritable), write_file path (some payload) disk)
write_under _ path payload disk = (err (of_store unwritable), past_fault disk)

-- `_atomic_write`: the file has its old bytes or the new ones, never some of these
unfoldable pub atomic_write : FilePath → Bytes → Action (Unit {0})
atomic_write path payload disk = write_under (next_fault disk) path payload disk

-- What `_append` writes behind the bytes of a file: a line end first, if they lack one.
unfoldable pub addition : Bytes → Bytes → Bytes
addition existing payload =
    if ltb 0 (length existing) && not (is_terminated existing) then b'\n' ∷ payload else payload

abbrev pub append_under : Fault → FilePath → Bytes → Bytes → Action (Unit {0})
append_under works path existing added disk =
    (ok tt, write_file path (some (existing ++ added)) disk)
append_under fails path existing added disk = (err (of_store unwritable), past_fault disk)
append_under (stops_after n) path existing added disk =
    (err (of_store unwritable), write_file path (some (existing ++ take n added)) disk)
append_under fails_late path existing added disk =
    (err (of_store unwritable), write_file path (some (existing ++ added)) disk)

-- `_append`
unfoldable pub append : FilePath → Bytes → Action (Unit {0})
append path payload disk =
    let existing = or_default [] (disk.files path) in
    append_under (next_fault disk) path existing (addition existing payload) disk
