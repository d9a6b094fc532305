-- ===== src/Storage/Outcome.antt =====
-- What a method of the store leaves, whatever becomes of the calls that it makes: rules for its
-- steps, which the proofs about the documents apply.
use energy_optimizer.Prelude.{Option, some, Result, ok, err, ◌≡◌, refl, ◌⊎◌, inl, inr}
use energy_optimizer.Series.{StoreError}
use energy_optimizer.Bytes.{Bytes}
use energy_optimizer.Ndjson.Encode.{Failure, of_store, of_record, os_error}
use energy_optimizer.Storage.{
  path_eq, FilePath, Fault, works, fails, stops_after, fails_late, Files, Disk, set_file,
  next_fault, Action, lift, go_on, ◌>>=◌, mkdir, read_bytes, write_under, atomic_write,
}
use energy_optimizer.Storage.Household.{rescued, or_os_error}

pub set_file_same :
    (path : FilePath) (content : Option Bytes) (files : Files)
    → set_file path content files path ≡ content
set_file_same path content files = rw ((path_eq.eqb_iff path path).1 refl) refl

-- `P` of the value and the files where a value is returned, `E` of the files where an error is
-- raised.
pub data Outcome {ℓ} {A : Type ℓ} (P : A → Files → Type 0) (E : Files → Type 0)
    : Result Failure A × Disk → Type ℓ where
  returning : {a : A} {disk : Disk} → P a disk.files → Outcome P E (ok a, disk)
  raising : {e : Failure} {disk : Disk} → E disk.files → Outcome P E (err e, disk)

Outcome-go_on {ℓ κ} :
    {A : Type ℓ} {P : A → Files → Type 0} {E : Files → Type 0} {B : Type κ} {Q : B → Files → Type 0}
    (rest : A → Action B) (r : Result Failure A) (disk : Disk)
    → Outcome P E (r, disk)
    → ((a : A) (left : Disk) → P a left.files → Outcome Q E (rest a left))
    → Outcome Q E (go_on rest r disk)
Outcome-go_on rest (ok a) disk (returning p) k = k a disk p
Outcome-go_on rest (err e) disk (raising q) k = raising q

pub Outcome-bind {ℓ κ} :
    {A : Type ℓ} {P : A → Files → Type 0} {E : Files → Type 0} {B : Type κ} {Q : B → Files → Type 0}
    (m : Action A) (rest : A → Action B) (disk : Disk)
    → Outcome P E (m disk)
    → ((a : A) (left : Disk) → P a left.files → Outcome Q E (rest a left))
    → Outcome Q E ((m >>= rest) disk)
Outcome-bind m rest disk h k = Outcome-go_on rest (m disk).0 (m disk).1 h k

Outcome-rescued {ℓ} :
    {A : Type ℓ} {P : A → Files → Type 0} {E : Files → Type 0} (e : StoreError)
    (r : Result Failure A) (disk : Disk)
    → Outcome P E (r, disk)
    → Outcome P E (rescued e r, disk)
Outcome-rescued e (ok a) disk (returning p) = returning p
Outcome-rescued e (err os_error) disk (raising q) = raising q
Outcome-rescued e (err (of_store s)) disk (raising q) = raising q
Outcome-rescued e (err (of_record s)) disk (raising q) = raising q

pub Outcome-or_os_error {ℓ} :
    {A : Type ℓ} {P : A → Files → Type 0} {E : Files → Type 0} (e : StoreError) (m : Action A)
    (disk : Disk)
    → Outcome P E (m disk)
    → Outcome P E (or_os_error e m disk)
Outcome-or_os_error e m disk h = Outcome-rescued e (m disk).0 (m disk).1 h

Outcome-weaker_result {ℓ} :
    {A : Type ℓ} {P : A → Files → Type 0} {E : Files → Type 0} {Q : A → Files → Type 0}
    {F : Files → Type 0} (r : Result Failure A) (disk : Disk)
    → Outcome P E (r, disk)
    → ((a : A) (files : Files) → P a files → Q a files)
    → ((files : Files) → E files → F files)
    → Outcome Q F (r, disk)
Outcome-weaker_result (ok a) disk (returning h) p q = returning (p a disk.files h)
Outcome-weaker_result (err e) disk (raising h) p q = raising (q disk.files h)

pub Outcome-weaker {ℓ} :
    {A : Type ℓ} {P : A → Files → Type 0} {E : Files → Type 0} {Q : A → Files → Type 0}
    {F : Files → Type 0} (r : Result Failure A × Disk)
    → Outcome P E r
    → ((a : A) (files : Files) → P a files → Q a files)
    → ((files : Files) → E files → F files)
    → Outcome Q F r
Outcome-weaker r h p q = Outcome-weaker_result r.0 r.1 h p q

pub Outcome-lift {ℓ} :
    {A : Type ℓ} {P : A → Files → Type 0} {E : Files → Type 0} (r : Result Failure A) (disk : Disk)
    → ((a : A) → r ≡ ok a → P a disk.files)
    → E disk.files
    → Outcome P E (lift r disk)
Outcome-lift (ok a) disk p e = returning (p a refl)
Outcome-lift (err x) disk p e = raising e

Outcome-mkdir_under :
    (f : Fault) (disk : Disk)
    → next_fault disk ≡ f
    → Outcome (λ _ files. files ≡ disk.files) (λ files. files ≡ disk.files) (mkdir disk)
unfolding mkdir
Outcome-mkdir_under works disk e = rw (e, mkdir) (returning refl)
Outcome-mkdir_under fails disk e = rw (e, mkdir) (raising refl)
Outcome-mkdir_under (stops_after n) disk e = rw (e, mkdir) (raising refl)
Outcome-mkdir_under fails_late disk e = rw (e, mkdir) (raising refl)

pub Outcome-mkdir :
    (disk : Disk)
    → Outcome (λ _ files. files ≡ disk.files) (λ files. files ≡ disk.files) (mkdir disk)
Outcome-mkdir disk = Outcome-mkdir_under (next_fault disk) disk refl

Outcome-read_under :
    (f : Fault) (path : FilePath) (disk : Disk)
    → next_fault disk ≡ f
    → Outcome
        (λ content files. (files ≡ disk.files) × (content ≡ disk.files path))
        (λ files. files ≡ disk.files)
        (read_bytes path disk)
unfolding read_bytes
Outcome-read_under works path disk e = rw (e, read_bytes) (returning (refl, refl))
Outcome-read_under fails path disk e = rw (e, read_bytes) (raising refl)
Outcome-read_under (stops_after n) path disk e = rw (e, read_bytes) (raising refl)
Outcome-read_under fails_late path disk e = rw (e, read_bytes) (raising refl)

pub Outcome-read_bytes :
    (path : FilePath) (disk : Disk)
    → Outcome
        (λ content files. (files ≡ disk.files) × (content ≡ disk.files path))
        (λ files. files ≡ disk.files)
        (read_bytes path disk)
Outcome-read_bytes path disk = Outcome-read_under (next_fault disk) path disk refl

-- A write that fails has written nothing or all.
Outcome-write_under :
    (f : Fault) (path : FilePath) (payload : Bytes) (disk : Disk)
    → Outcome
        (λ _ files. files ≡ set_file path (some payload) disk.files)
        (λ files. (files ≡ disk.files) ⊎ (files ≡ set_file path (some payload) disk.files))
        (write_under f path payload disk)
Outcome-write_under works path payload disk = returning refl
Outcome-write_under fails path payload disk = raising (inl refl)
Outcome-write_under (stops_after n) path payload disk = raising (inl refl)
Outcome-write_under fails_late path payload disk = raising (inr refl)

pub Outcome-atomic_write :
    (path : FilePath) (payload : Bytes) (disk : Disk)
    → Outcome
        (λ _ files. files ≡ set_file path (some payload) disk.files)
        (λ files. (files ≡ disk.files) ⊎ (files ≡ set_file path (some payload) disk.files))
        (atomic_write path payload disk)
unfolding atomic_write
Outcome-atomic_write path payload disk = Outcome-write_under (next_fault disk) path payload disk
