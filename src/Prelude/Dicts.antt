-- ===== src/Prelude/Dicts.antt =====
-- Python's `dict`, in insertion order.
use mathlib.Core.Path.{◌≡◌, refl, ◌∙◌}
use mathlib.Core.Bool.{Bool, true}
use mathlib.Core.Option.{Option, none, some}
use mathlib.Core.List.{List, [], ◌∷◌, ◌++◌}
use native.Mathlib.Omega.{arith}
use mathlib.Core.Logic.{inl, inr}
use energy_optimizer.Prelude.Tests.{
  Eq, ◌==◌, if◌then◌else◌, is_some, or_default, or_else, Bool-cases,
}

abbrev pub Dict {ℓ κ} : Type ℓ → Type κ → Type (ℓ ⊔ κ)
Dict K V = List (K × V)

module _ {ℓ κ} {K : Type ℓ} {V : Type κ} ⦃e : Eq K⦄ where
  -- `d.get(k)`
  unfoldable pub lookup : K → Dict K V → Option V
  lookup k [] = none
  lookup k ((j, v) ∷ d) = if j == k then some v else lookup k d

  -- `k in d`
  abbrev pub contains : K → Dict K V → Bool
  contains k d = is_some (lookup k d)

  -- `d.get(k, default)`
  abbrev pub get_default : K → V → Dict K V → V
  get_default k v d = or_default v (lookup k d)

  -- `d[k] = v`: an old key keeps its place
  unfoldable pub insert : K → V → Dict K V → Dict K V
  insert k v [] = (k, v) ∷ []
  insert k v ((j, w) ∷ d) = if j == k then (j, v) ∷ d else (j, w) ∷ insert k v d

  -- `d.update(e)`, and `d | e`
  unfoldable pub update : Dict K V → Dict K V → Dict K V
  update d [] = d
  update d ((k, v) ∷ new) = update (insert k v d) new

  pub lookup-insert :
      (k j : K) (v : V) (d : Dict K V)
      → lookup j (insert k v d) ≡ (if k == j then some v else lookup j d)
  unfolding lookup insert
  lookup-insert k j v [] = refl
  lookup-insert k j v ((i, w) ∷ d) =
      ground (arith, e.eqb_iff k j, e.eqb_iff i k, e.eqb_iff i j, lookup-insert k j v d)

  pub get_default-insert :
      (k j : K) (v w : V) (d : Dict K V)
      → get_default j w (insert k v d) ≡ (if k == j then v else get_default j w d)
  get_default-insert k j v w d = ground (arith, lookup-insert k j v d)

  pub lookup-append :
      (k : K) (d new : Dict K V) → lookup k (d ++ new) ≡ or_else (lookup k d) (lookup k new)
  unfolding lookup
  lookup-append k [] new = refl
  lookup-append k ((j, v) ∷ d) new = ground (arith, lookup-append k d new)

  -- No key stands twice.
  abbrev pub Unique : Dict K V → Type (ℓ ⊔ κ)
  Unique [] = Unit
  Unique ((k, v) ∷ d) = (lookup k d ≡ none) × Unique d

  pub insert-Unique : (k : K) (v : V) (d : Dict K V) → Unique d → Unique (insert k v d)
  unfolding lookup insert
  insert-Unique k v [] h = (refl, tt)
  insert-Unique k v ((j, w) ∷ d) h = elim (Bool-cases (j == k)) [
    | inl same ↦ rw same h
    | inr other ↦ rw other (
      ground (arith, lookup-insert k j v d, e.eqb_iff k j, e.eqb_iff j k),
      insert-Unique k v d h.1,
    )
  ]

  pub update-Unique : (d new : Dict K V) → Unique d → Unique (update d new)
  unfolding update
  update-Unique d [] h = h
  update-Unique d ((k, v) ∷ new) h = update-Unique (insert k v d) new (insert-Unique k v d h)

  -- The new entries win.
  pub lookup-update :
      (d new : Dict K V) (j : K)
      → Unique new
      → lookup j (update d new) ≡ or_else (lookup j new) (lookup j d)
  unfolding lookup update
  lookup-update d [] j h = refl
  lookup-update d ((k, v) ∷ new) j h =
      ground (arith, lookup-update (insert k v d) new j, lookup-insert k j v d, e.eqb_iff k j)

  pub Unique-append :
      (d new : Dict K V)
      → Unique d
      → Unique new
      → ((k : K) → is_some (lookup k d) ≡ true → lookup k new ≡ none)
      → Unique (d ++ new)
  unfolding lookup
  Unique-append [] new h u apart = u
  Unique-append ((k, v) ∷ d) new h u apart = (
    lookup-append k d new ∙ rw h.0 (apart k (rw ((e.eqb_iff k k).1 refl) refl)),
    Unique-append d new h.1 u (λ j m. apart j (ground (arith, m))),
  )
