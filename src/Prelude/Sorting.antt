-- ===== src/Prelude/Sorting.antt =====
-- `sorted(d.items())` for a dictionary with number keys.
use Prim.Native.Nat.{ℕ, zero, suc, ◌<◌}
use mathlib.Core.Path.{◌≡◌, refl, sym, ap, ◌∙◌, subst}
use mathlib.Core.Option.{some, none}
use mathlib.Core.List.{List, [], ◌∷◌}
use mathlib.Core.Logic.{inl, inr}
use native.Mathlib.Omega.{arith}
use energy_optimizer.Prelude.Tests.{ltb, if◌then◌else◌, nat_eq, ◌==◌, Bool-cases, nat_beq_iff}
use energy_optimizer.Prelude.Lists.{All, drop, length}
use energy_optimizer.Prelude.Dicts.{Dict, lookup, insert, update, Unique}

module _ {ℓ} {V : Type ℓ} where
  place : ℕ → V → List (ℕ × V) → List (ℕ × V)
  place k v [] = (k, v) ∷ []
  place k v ((j, w) ∷ l) = if ltb j k then (j, w) ∷ place k v l else (k, v) ∷ (j, w) ∷ l

  -- The keys of a dictionary differ, so that the values are never compared.
  unfoldable pub sorted_items : Dict ℕ V → List (ℕ × V)
  unfolding place
  sorted_items [] = []
  sorted_items ((k, v) ∷ d) = place k v (sorted_items d)

  -- The keys rise.
  abbrev pub IsSorted : List (ℕ × V) → Type ℓ
  IsSorted [] = Unit
  IsSorted ((k, v) ∷ l) = All (λ e. k < e.0) l × IsSorted l

  lookup-place :
      (k j : ℕ) (v : V) (l : List (ℕ × V))
      → lookup j (place k v l) ≡ (if k == j then some v else lookup j l)
  unfolding lookup place
  lookup-place k j v [] = refl
  lookup-place k j v ((i, w) ∷ l) = ground (arith, lookup-place k j v l)

  -- Sorting a dictionary changes no entry.
  pub lookup-sorted_items : (j : ℕ) (d : Dict ℕ V) → lookup j (sorted_items d) ≡ lookup j d
  unfolding lookup sorted_items
  lookup-sorted_items j [] = refl
  lookup-sorted_items j ((k, v) ∷ d) =
      lookup-place k j v (sorted_items d) ∙ rw (lookup-sorted_items j d)

  -- A key below all others is not there.
  pub lookup-below : (j : ℕ) (l : List (ℕ × V)) → All (λ e. j < e.0) l → lookup j l ≡ none
  unfolding lookup
  lookup-below j [] h = refl
  lookup-below j ((k, v) ∷ l) h = ground (arith, lookup-below j l h.1)

  pub All-below : (i j : ℕ) (l : List (ℕ × V)) → i < j → All (λ e. j < e.0) l → All (λ e. i < e.0) l
  All-below i j [] lt h = tt
  All-below i j (e ∷ l) lt h = (omega arith, All-below i j l lt h.1)

  All-place :
      (i k : ℕ) (v : V) (l : List (ℕ × V))
      → i < k
      → All (λ e. i < e.0) l
      → All (λ e. i < e.0) (place k v l)
  unfolding place
  All-place i k v [] lt h = (lt, tt)
  All-place i k v ((j, w) ∷ l) lt h = elim (Bool-cases (ltb j k)) [
    | inl below ↦ rw below (h.0, All-place i k v l lt h.1)
    | inr above ↦ rw above (lt, h)
  ]

  place-IsSorted :
      (k : ℕ) (v : V) (l : List (ℕ × V)) → lookup k l ≡ none → IsSorted l → IsSorted (place k v l)
  unfolding place lookup
  place-IsSorted k v [] new h = (tt, tt)
  place-IsSorted k v ((j, w) ∷ l) new h = elim (Bool-cases (ltb j k)) [
    | inl below ↦
        rw below (All-place j k v l (ground arith) h.0, place-IsSorted k v l (ground arith) h.1)
    | inr above ↦ let lt : k < j = ground arith in rw above ((lt, All-below k j l lt h.0), h)
  ]

  pub sorted_items-IsSorted : (d : Dict ℕ V) → Unique d → IsSorted (sorted_items d)
  unfolding sorted_items
  sorted_items-IsSorted [] h = tt
  sorted_items-IsSorted ((k, v) ∷ d) h =
      place-IsSorted k v (sorted_items d) (lookup-sorted_items k d ∙ h.0)
        (sorted_items-IsSorted d h.1)

  pub IsSorted-Unique : (l : List (ℕ × V)) → IsSorted l → Unique l
  IsSorted-Unique [] h = tt
  IsSorted-Unique ((k, v) ∷ l) h = (lookup-below k l h.0, IsSorted-Unique l h.1)

  pub drop-IsSorted : (n : ℕ) (l : List (ℕ × V)) → IsSorted l → IsSorted (drop n l)
  drop-IsSorted zero l h = h
  drop-IsSorted (suc n) [] h = h
  drop-IsSorted (suc n) (e ∷ l) h = drop-IsSorted n l h.1

  ext-tail :
      (k : ℕ) (v w : V) (l m : List (ℕ × V))
      → All (λ e. k < e.0) l
      → All (λ e. k < e.0) m
      → ((j : ℕ) → lookup j ((k, v) ∷ l) ≡ lookup j ((k, w) ∷ m))
      → (j : ℕ) → lookup j l ≡ lookup j m
  unfolding lookup
  ext-tail k v w l m hl hm same j = ground (arith, same j, lookup-below k l hl, lookup-below k m hm)

  ext-key :
      (k i : ℕ) (v w : V) (l m : List (ℕ × V))
      → All (λ e. k < e.0) l
      → All (λ e. i < e.0) m
      → ((j : ℕ) → lookup j ((k, v) ∷ l) ≡ lookup j ((i, w) ∷ m))
      → ¬ (k < i)
  unfolding lookup
  ext-key k i v w l m hl hm same lt =
      ground (arith, same k, lookup-below k m (All-below k i m lt hm))

  ext-head :
      (k : ℕ) (v w : V) (l m : List (ℕ × V))
      → ((j : ℕ) → lookup j ((k, v) ∷ l) ≡ lookup j ((k, w) ∷ m))
      → v ≡ w
  unfolding lookup
  ext-head k v w l m same = ground (arith, same k)

  sorted_ext_cons :
      (k i : ℕ) (v w : V) (l m : List (ℕ × V))
      → All (λ e. k < e.0) l
      → All (λ e. i < e.0) m
      → k ≡ i
      → ((j : ℕ) → lookup j ((k, v) ∷ l) ≡ lookup j ((i, w) ∷ m))
      → (((j : ℕ) → lookup j l ≡ lookup j m) → l ≡ m)
      → (k, v) ∷ l ≡ (i, w) ∷ m
  sorted_ext_cons k i v w l m hl hm e same tails =
      let same' =
        subst (λ x. (j : ℕ) → lookup j ((k, v) ∷ l) ≡ lookup j ((x, w) ∷ m)) (sym e) same in
      let hm' = subst (λ x. All (λ e. x < e.0) m) (sym e) hm in
      cc (e, ext-head k v w l m same', tails (ext-tail k v w l m hl hm' same'))

  -- Two sorted lists with the same entries are one.
  pub sorted_ext :
      (l m : List (ℕ × V)) → IsSorted l → IsSorted m → ((j : ℕ) → lookup j l ≡ lookup j m) → l ≡ m
  unfolding lookup
  sorted_ext [] [] hl hm same = refl
  sorted_ext [] ((k, v) ∷ m) hl hm same = ground (arith, same k)
  sorted_ext ((k, v) ∷ l) [] hl hm same = ground (arith, same k)
  sorted_ext ((k, v) ∷ l) ((i, w) ∷ m) hl hm same =
      let e : k ≡ i = omega (
        arith,
        ext-key k i v w l m hl.0 hm.0 same,
        ext-key i k w v m l hm.0 hl.0 (λ j. sym (same j)),
      ) in
      sorted_ext_cons k i v w l m hl.0 hm.0 e same (λ rest. sorted_ext l m hl.1 hm.1 rest)

module _ {V : Type 0} (P : ℕ × V → Type 0) where
  All-placed : (k : ℕ) (v : V) (l : List (ℕ × V)) → P (k, v) → All P l → All P (place k v l)
  unfolding place
  All-placed k v [] p h = (p, tt)
  All-placed k v ((j, w) ∷ l) p h = elim (Bool-cases (ltb j k)) [
    | inl below ↦ rw below (h.0, All-placed k v l p h.1)
    | inr above ↦ rw above (p, h)
  ]

  -- Sorting keeps what holds of all entries.
  pub All-sorted_items : (d : Dict ℕ V) → All P d → All P (sorted_items d)
  unfolding sorted_items
  All-sorted_items [] h = tt
  All-sorted_items ((k, v) ∷ d) h = All-placed k v (sorted_items d) h.0 (All-sorted_items d h.1)

  -- So does setting an entry for which it holds.
  pub All-insert : (k : ℕ) (v : V) (d : Dict ℕ V) → P (k, v) → All P d → All P (insert k v d)
  unfolding insert
  All-insert k v [] p h = (p, tt)
  All-insert k v ((j, w) ∷ d) p h = elim (Bool-cases (j == k)) [
    | inl same ↦ rw same (subst (λ i. P (i, v)) (sym ((nat_beq_iff j k).0 same)) p, h.1)
    | inr other ↦ rw other (h.0, All-insert k v d p h.1)
  ]

  pub All-update : (d new : Dict ℕ V) → All P d → All P new → All P (update d new)
  unfolding update
  All-update d [] h n = h
  All-update d ((k, v) ∷ new) h n = All-update (insert k v d) new (All-insert k v d n.0 h) n.1

module _ {V : Type 0} where
  length-place : (k : ℕ) (v : V) (l : List (ℕ × V)) → length (place k v l) ≡ suc (length l)
  unfolding place
  length-place k v [] = refl
  length-place k v ((j, w) ∷ l) = elim (Bool-cases (ltb j k)) [
    | inl below ↦ rw below (ap suc (length-place k v l))
    | inr above ↦ rw above refl
  ]

  pub length-sorted_items : (d : Dict ℕ V) → length (sorted_items d) ≡ length d
  unfolding sorted_items
  length-sorted_items [] = refl
  length-sorted_items ((k, v) ∷ d) =
      length-place k v (sorted_items d) ∙ ap suc (length-sorted_items d)

  length-insert : (k : ℕ) (v : V) (d : Dict ℕ V) → 0 < length (insert k v d)
  unfolding insert
  length-insert k v [] = omega arith
  length-insert k v ((j, w) ∷ d) = ground (arith, Bool-cases (j == k))

  -- A dictionary to which entries are added is not empty.
  pub length-update :
      (d : Dict ℕ V) (k : ℕ) (v : V) (new : Dict ℕ V) → 0 < length (update d ((k, v) ∷ new))
  unfolding update
  length-update d k v [] = length-insert k v d
  length-update d k v ((j, w) ∷ new) = length-update (insert k v d) j w new
