-- ===== src/Legacy/Blank.antt =====
-- The values that are left after an upgrade: those of the hours that were not flagged.
use energy_optimizer.Prelude.{
  ℕ, zero, suc, ◌+◌, ◌*◌, ◌≡◌, ◌<◌, refl, ap, ap₂, ◌∙◌, Bool, false, Option, none, some, List, [],
  ◌∷◌, arith, nat_eq, if◌then◌else◌, length, get_elem?, lookup, contains, Bool-cases, inl, inr,
}
use energy_optimizer.Prelude.Sorting.{lookup-below}
use energy_optimizer.Hours.{Instant, hour, hourly, hourly-above}
use energy_optimizer.Exclusions.Union.{names_hour}
use energy_optimizer.Series.{IntervalQuality}
use energy_optimizer.Legacy.{
  is_suspect, legacy_exclusion, suspect_loop, drop_loop, exclusions_of_hours,
}

-- The hour is listed, and flagged.
abbrev pub flagged : Option IntervalQuality → Bool
flagged none = false
flagged (some q) = is_suspect q

later : (start index : ℕ) → start + (index + 1) * hour ≡ start + index * hour + hour
later start index = omega arith

hour_absent :
    (t start : Instant) (qs : List IntervalQuality)
    → t < start + hour
    → lookup t (hourly (start + hour) qs) ≡ none
hour_absent t start qs lt =
    lookup-below t (hourly (start + hour) qs) (hourly-above t (start + hour) qs lt)

module _ (Num : Type 0) where
  lookup-suspect_loop :
      (start : Instant) (index j : ℕ) (qs : List IntervalQuality)
      → j < index
      → lookup j (suspect_loop {Num = Num} start index qs) ≡ none
  unfolding suspect_loop lookup
  lookup-suspect_loop start index j [] lt = refl
  lookup-suspect_loop start index j (q ∷ qs) lt =
      let rest = lookup-suspect_loop start (index + 1) j qs (omega arith) in
      elim (Bool-cases (is_suspect q)) [
        | inl marked ↦ rw marked (ground (arith, rest, lt))
        | inr clear ↦ rw clear rest
      ]

  pub contains-suspect_loop :
      (start : Instant) (index k : ℕ) (qs : List IntervalQuality)
      → contains (index + k) (suspect_loop {Num = Num} start index qs) ≡ flagged (get_elem? qs k)
  unfolding suspect_loop lookup
  contains-suspect_loop start index k [] = refl
  contains-suspect_loop start index zero (q ∷ qs) =
      let rest = lookup-suspect_loop start (index + 1) (index + 0) qs (omega arith) in
      elim (Bool-cases (is_suspect q)) [
        | inl marked ↦ rw marked (ground (arith, rest))
        | inr clear ↦ rw clear (ground (arith, rest))
      ]
  contains-suspect_loop start index (suc k) (q ∷ qs) =
      let rest : contains (index + suc k) (suspect_loop {Num = Num} start (index + 1) qs)
          ≡ flagged (get_elem? qs k) =
        ap (λ j. contains j (suspect_loop {Num = Num} start (index + 1) qs)) (omega arith)
        ∙ contains-suspect_loop start (index + 1) k qs in
      elim (Bool-cases (is_suspect q)) [
        | inl marked ↦ rw marked (ground (arith, rest))
        | inr clear ↦ rw clear rest
      ]

  pub names_hour-suspect_loop :
      (t start : Instant) (index : ℕ) (qs : List IntervalQuality)
      → names_hour {Num = Num} t (exclusions_of_hours (suspect_loop start index qs))
        ≡ flagged (lookup t (hourly (start + index * hour) qs))
  unfolding suspect_loop lookup hourly legacy_exclusion
  names_hour-suspect_loop t start index [] = refl
  names_hour-suspect_loop t start index (q ∷ qs) =
      let rest =
        names_hour-suspect_loop t start (index + 1) qs
        ∙ ap (λ s. flagged (lookup t (hourly s qs))) (later start index) in
      elim (Bool-cases (is_suspect q)) [
        | inl marked ↦ rw marked (ground (arith, rest))
        | inr clear ↦ rw clear (ground (arith, rest, hour_absent t (start + index * hour) qs))
      ]

module _ {Num : Type 0} where
  -- The values without those of the flagged hours.
  abbrev pub blanked : List (Option Num) → List IntervalQuality → List (Option Num)
  blanked (v ∷ vs) (q ∷ qs) = (if is_suspect q then none else v) ∷ blanked vs qs
  blanked vs _ = vs

  pub drop_loop-blanked :
      (index : ℕ) (c : ℕ → Bool) (vs : List (Option Num)) (qs : List IntervalQuality)
      → length vs ≡ length qs
      → ((k : ℕ) → c (index + k) ≡ flagged (get_elem? qs k))
      → drop_loop index c vs ≡ blanked vs qs
  unfolding drop_loop
  drop_loop-blanked index c [] qs h same = refl
  drop_loop-blanked index c (v ∷ vs) [] h same = absurd (omega (arith, h))
  drop_loop-blanked index c (v ∷ vs) (q ∷ qs) h same =
      ap₂ (λ x l. x ∷ l) (ap (λ b. if b then none else v) (ap c (omega arith) ∙ same 0))
        (drop_loop-blanked (index + 1) c vs qs (omega (arith, h))
          (λ k. ap c (omega arith) ∙ same (suc k)))

  pub lookup-blanked :
      (t start : Instant) (vs : List (Option Num)) (qs : List IntervalQuality)
      → length vs ≡ length qs
      → lookup t (hourly start (blanked vs qs))
        ≡ (if flagged (lookup t (hourly start qs)) then some none else lookup t (hourly start vs))
  unfolding lookup hourly
  lookup-blanked t start [] [] h = refl
  lookup-blanked t start [] (q ∷ qs) h = absurd (omega (arith, h))
  lookup-blanked t start (v ∷ vs) [] h = absurd (omega (arith, h))
  lookup-blanked t start (v ∷ vs) (q ∷ qs) h =
      ground (arith, lookup-blanked t (start + hour) vs qs (omega (arith, h)))
