-- ===== src/Exclusions/Cap.antt =====
-- `cap_data_points`: the stored data points are bounded, and the counts are kept.
use energy_optimizer.Prelude.{
  ℕ, zero, suc, ◌+◌, ◌-◌, ◌≡◌, refl, sym, min, Option, String, List, [], ◌∷◌, arith, length, take,
  ◌==◌, nat_eq, string_eq, option_eq, if◌then◌else◌, Dict, lookup, insert, get_default,
  get_default-insert, length-take, Bool-cases, inl, inr, ap,
}
use energy_optimizer.Exclusions.{
  ExclusionCause, max_data_points_per_entity_hour, cap_cause, cap_loop, cap_data_points,
}

take-all {ℓ} : {A : Type ℓ} (n : ℕ) (xs : List A) → length (take n xs) ≡ length xs → take n xs ≡ xs
take-all zero [] h = refl
take-all zero (x ∷ xs) h = absurd (omega arith)
take-all (suc n) [] h = refl
take-all (suc n) (x ∷ xs) h = ap (λ l. x ∷ l) (take-all n xs (omega arith))

abbrev budget : Dict (Option String) ℕ → Option String → ℕ
budget remaining entity = get_default entity max_data_points_per_entity_hour remaining

-- What an entity's causes hold before and after one cause, in numbers.
min_step : (b l s : ℕ) → min b l + min (b - min b l) s ≡ min b (l + s)
min_step b l s = omega arith

module _ {Num : Type 0} where
  -- The data points that are stored for an entity.
  pub stored : Option String → List (ExclusionCause Num) → ℕ
  stored entity [] = 0
  stored entity (c ∷ causes) =
      (if c.entity_id == entity then length c.data_points else 0) + stored entity causes

  -- The cause with its first `n` data points only.
  abbrev pub truncate : ℕ → ExclusionCause Num → ExclusionCause Num
  truncate n c = record c { data_points = take n c.data_points }

  -- Each cause of the second list is one of the first, in order, with some first data points.
  abbrev pub AreTruncations : List (ExclusionCause Num) → List (ExclusionCause Num) → Type 0
  AreTruncations [] [] = Unit
  AreTruncations [] (d ∷ ds) = ⊥
  AreTruncations (c ∷ cs) [] = ⊥
  AreTruncations (c ∷ cs) (d ∷ ds) = ((n : ℕ) × (d ≡ truncate n c)) × AreTruncations cs ds

  cap_cause-take :
      (n : ℕ) (c : ExclusionCause Num) → cap_cause (take n c.data_points) c ≡ truncate n c
  unfolding cap_cause
  cap_cause-take n c = elim (Bool-cases (length (take n c.data_points) == length c.data_points)) [
    | inl whole ↦
        rw whole
          (sym (ap (λ l. record c { data_points = l }) (take-all n c.data_points (ground arith))))
    | inr cut ↦ rw cut
  ]

  stored-step :
      (entity : Option String) (remaining : Dict (Option String) ℕ) (c : ExclusionCause Num) (s : ℕ)
      → let b = budget remaining c.entity_id in
        (if c.entity_id == entity then length (take b c.data_points) else 0)
          + min (budget (insert c.entity_id (b - length (take b c.data_points)) remaining) entity) s
        ≡ min
            (budget remaining entity)
            ((if c.entity_id == entity then length c.data_points else 0) + s)
  stored-step entity remaining c s = elim (Bool-cases (c.entity_id == entity)) [
    | inl same ↦
        rw (get_default-insert, same)
          (rw ((option_eq.eqb_iff c.entity_id entity).0 same)
            (omega (arith, length-take (budget remaining entity) c.data_points)))
    | inr other ↦ rw (get_default-insert, other) (omega arith)
  ]

  stored-cap_loop :
      (entity : Option String) (remaining : Dict (Option String) ℕ)
      (causes : List (ExclusionCause Num))
      → stored entity (cap_loop remaining causes)
        ≡ min (budget remaining entity) (stored entity causes)
  unfolding stored cap_loop
  stored-cap_loop entity remaining [] = omega arith
  stored-cap_loop entity remaining (c ∷ causes) =
      let b = budget remaining c.entity_id in
      let remaining' = insert c.entity_id (b - length (take b c.data_points)) remaining in
      rw cap_cause-take (
        omega (
          arith,
          stored-cap_loop entity remaining' causes,
          stored-step entity remaining c (stored entity causes),
        ))

  cap_loop-AreTruncations :
      (remaining : Dict (Option String) ℕ) (causes : List (ExclusionCause Num))
      → AreTruncations causes (cap_loop remaining causes)
  unfolding cap_loop
  cap_loop-AreTruncations remaining [] = tt
  cap_loop-AreTruncations remaining (c ∷ causes) =
      let b = budget remaining c.entity_id in
      let remaining' = insert c.entity_id (b - length (take b c.data_points)) remaining in
      ((b, cap_cause-take b c), cap_loop-AreTruncations remaining' causes)

  -- Of every entity, at most 50 data points are stored over all causes, and all of them where
  -- there are no more. Every cause stays, in its place, with its reason, message, entity and full
  -- count, and with its first data points.
  pub cap_data_points-stored :
      (causes : List (ExclusionCause Num))
      → ((entity : Option String)
          → stored entity (cap_data_points causes) ≡ min 50 (stored entity causes))
        × AreTruncations causes (cap_data_points causes)
  unfolding cap_data_points lookup
  cap_data_points-stored causes =
      (λ entity. stored-cap_loop entity [] causes, cap_loop-AreTruncations [] causes)
