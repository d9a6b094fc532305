-- ===== src/Counter/Returns.antt =====
-- `normalize_counter_history` returns a series: no step falls outside the hours that it counts.
use energy_optimizer.Prelude.{
  ℕ, zero, suc, ◌-◌, ◌/◌, ◌%◌, ◌≡◌, ◌≤◌, ◌<◌, refl, Option, none, some, List, [], ◌∷◌, arith, ◌==◌,
  nat_eq, ltb, length, length-replicate, drop, is_some, ok, All, All-drop, false, Bool-cases, inl,
  inr, true,
}
use energy_optimizer.Hours.{Instant, aware, hour}
use energy_optimizer.Floats.{FloatOps}
use energy_optimizer.Exclusions.{ExcludedDataPoint, ExclusionCause, ExclusionReason}
use energy_optimizer.Readings.{
  EnergyEntity, HistorySample, EnergySeries, count_until, Observation, hour_ordinal,
  validate_samples, align_to_next_hour, sample_reason,
}
use energy_optimizer.Counter.{
  Progress, add_energy, count_step, observe, take_sample, sample_loop, observation_of,
  note_observation, baseline, first_progress, finish, normalize_counter_history,
}
use energy_optimizer.Counter.Within.{IsWithin, take_sample-IsWithin}

module _ {Num : Type 0} ⦃f : FloatOps Num⦄ where
  add_energy_returns :
      (h : ℕ) (step_kwh : Num) (energy : List Num)
      → h < length energy
      → (new : List Num) × (add_energy h step_kwh energy ≡ ok new)
  add_energy_returns h step_kwh [] lt = let none_left : true ≡ false = ground (arith, lt) in cc
  add_energy_returns zero step_kwh (e ∷ energy) lt = (f.add e step_kwh ∷ energy, refl)
  add_energy_returns (suc h) step_kwh (e ∷ energy) lt =
      let (new, eq) = add_energy_returns h step_kwh energy (omega arith) in (e ∷ new, rw eq refl)

-- The hour of a time on the axis.
hour_ordinal-within :
    (axis end t : Instant)
    → axis % hour ≡ 0
    → end % hour ≡ 0
    → axis < t
    → t ≤ end
    → hour_ordinal axis t - 1 < (end - axis) / hour
unfolding hour_ordinal
hour_ordinal-within axis end t aligned ends after before = omega arith

-- A sample that no reason excludes has a value.
abbrev pub IsUsable {ℓ} : {A : Type ℓ} → Option ExclusionReason → Option A → Type 0
IsUsable reason value = reason ≡ none → is_some value ≡ true

next_hour-aligned : (t : Instant) → align_to_next_hour t % hour ≡ 0
next_hour-aligned t = elim (Bool-cases (t % hour == 0)) [
  | inl whole ↦ rw whole (ground (arith, whole))
  | inr part ↦ rw part (omega arith)
]

module _ {Num : Type 0} ⦃f : FloatOps Num⦄ (entity : EnergyEntity Num) (axis end : Instant)
    (aligned : axis % hour ≡ 0) (ends : end % hour ≡ 0) where
  abbrev hour_count : ℕ
  hour_count = (end - axis) / hour

  count_step_returns :
      (earlier later : Observation Num) (step_kwh : Num) (causes : List (ExclusionCause Num))
      (p : Progress Num)
      → later.timestamp ≤ end
      → length p.energy ≡ hour_count
      → (q : Progress Num) × (count_step entity axis hour_count earlier later step_kwh causes p
          ≡ ok q)
  count_step_returns earlier later step_kwh [] p before size =
      elim (Bool-cases (ltb axis later.timestamp)) [
        | inl after ↦
            let within =
              hour_ordinal-within axis end later.timestamp aligned ends (ground (arith, after))
                before in
            let (energy, eq) =
              add_energy_returns (hour_ordinal axis later.timestamp - 1) step_kwh p.energy
                (omega (arith, within, size)) in
            (record p { energy = energy }, rw (after, eq) refl)
        | inr at_start ↦ (p, rw at_start refl)
      ]
  count_step_returns earlier later step_kwh (c ∷ causes) p before size = (_, refl)

  observe_returns :
      (later : Observation Num) (gap : List (ExclusionReason × ExcludedDataPoint Num))
      (last : Option (Observation Num)) (p : Progress Num)
      → later.timestamp ≤ end
      → length p.energy ≡ hour_count
      → (q : Progress Num) × (observe entity axis hour_count later gap last p ≡ ok q)
  unfolding observe
  observe_returns later (g ∷ gap) last p before size = (_, refl)
  observe_returns later [] none p before size = (p, refl)
  observe_returns later [] (some earlier) p before size =
      count_step_returns earlier later _ _ _ before size

  take_sample_returns :
      (reason : Option ExclusionReason) (value : Option Num) (s : HistorySample Num)
      (p : Progress Num)
      → IsUsable reason value
      → s.timestamp ≤ end
      → length p.energy ≡ hour_count
      → (q : Progress Num) × (take_sample entity axis hour_count reason value s p ≡ ok q)
  take_sample_returns (some reason) value s p usable before size = (_, refl)
  take_sample_returns none none s p usable before size = let no_value = usable refl in cc
  take_sample_returns none (some value) s p usable before size =
      let (q, e) = observe_returns (observation_of s value) p.gap p.last p before size in
      (note_observation entity axis hour_count (observation_of s value) q, rw e refl)

  sample_loop_returns :
      (samples : List (HistorySample Num)) (p : Progress Num)
      → All (λ s. IsUsable (sample_reason entity s) s.value) samples
      → IsWithin hour_count p
      → (q : Progress Num) × (sample_loop entity axis hour_count end samples p ≡ ok q)
  unfolding sample_loop
  sample_loop_returns [] p usable h = (p, refl)
  sample_loop_returns (s ∷ samples) p usable h = elim (Bool-cases (ltb end s.timestamp)) [
    | inl late ↦ (p, rw late refl)
    | inr early ↦
        let (q, e) =
          take_sample_returns (sample_reason entity s) s.value s p usable.0 (ground (arith, early))
            h.energies in
        let (r, rest) = sample_loop_returns samples q usable.1 (
          take_sample-IsWithin entity axis hour_count (sample_reason entity s) s.value s p q e h) in
        (r, rw (early, e) rest)
  ]

baseline-aligned :
    {Num : Type 0} ⦃f : FloatOps Num⦄ (start : Instant) (samples : List (HistorySample Num))
    → start % hour ≡ 0
    → (baseline start samples).0 % hour ≡ 0
baseline-aligned start [] aligned = aligned
baseline-aligned start (first ∷ samples) aligned =
    elim (Bool-cases (count_until start (first ∷ samples) == 0)) [
      | inl none_before ↦ rw none_before (next_hour-aligned first.timestamp)
      | inr some_before ↦ rw some_before aligned
    ]

module _ {Num : Type 0} ⦃f : FloatOps Num⦄ where
  -- Samples that the validation accepts, and of which each that no reason excludes has a value, are
  -- normalized for any whole hours: if there is an hour between the start of the axis and the end,
  -- then a series is returned, and no step raises.
  pub normalize_counter_history_returns :
      (entity : EnergyEntity Num) (samples : List (HistorySample Num)) (start end : Instant)
      → start % hour ≡ 0
      → end % hour ≡ 0
      → validate_samples samples ≡ ok tt
      → All (λ s. IsUsable (sample_reason entity s) s.value) samples
      → 0 < (end - (baseline start samples).0) / hour
      → (s : EnergySeries Num) × (normalize_counter_history entity samples (aware start) (aware end)
          ≡ ok s)
  unfolding normalize_counter_history
  normalize_counter_history_returns entity samples start end aligned ends valid usable hours =
      let axis = (baseline start samples).0 in
      let n = (end - axis) / hour in
      let rest = drop (baseline start samples).1 samples in
      let (p, e) =
        sample_loop_returns entity axis end (baseline-aligned start samples aligned) ends rest
          (first_progress axis n rest) (All-drop _ (baseline start samples).1 samples usable)
          (record { energies = length-replicate n _; on_axis = (tt, tt) }) in
      let some_hours : (n == 0) ≡ false = ground (arith, hours) in
      (finish entity axis n end p, rw (valid, some_hours, e) refl)
