-- ===== src/Counter/Within.antt =====
-- The loop over the samples stays within the hours of the axis.
use energy_optimizer.Prelude.{
  ℕ, zero, suc, ◌+◌, ◌-◌, ◌≡◌, ◌≤◌, ◌<◌, sym, ap, ◌∙◌, ◌||◌, Option, none, some, List, [], ◌∷◌,
  arith, ◌==◌, nat_eq, ltb, leb, length, min, ok, >>=-eq-ok, Result, All, Unique, insert-Unique,
  Bool-cases, inl, inr, subst,
}
use energy_optimizer.Hours.{Instant}
use energy_optimizer.Floats.{FloatOps}
use energy_optimizer.Exclusions.{
  ExcludedDataPoint, ExclusionCause, ExclusionReason, reason_eq, step_above_maximum,
}
use energy_optimizer.Prelude.Sorting.{All-insert}
use energy_optimizer.Readings.{
  EnergyEntity, HistorySample, Observation, CounterError, CausesByHour, hour_ordinal, add_to_hour,
  add_to_hours, exclude_span, add_to_ordinal, exclude_step, gap_causes, sample_reason,
}
use energy_optimizer.Counter.{
  Progress, add_energy, count_step, close_gap, observe, take_sample, sample_loop, exclude_totals,
  observation_of, last_recorded,
}

module _ {Num : Type 0} (hour_count : ℕ) where
  -- The excluded hours lie on the axis, and each is there once.
  abbrev pub OnAxis : CausesByHour Num → Type 0
  OnAxis by_hour = All (λ e. e.0 < hour_count) by_hour × Unique by_hour

  add_to_hour-OnAxis :
      (h : ℕ) (causes : List (ExclusionCause Num)) (by_hour : CausesByHour Num)
      → h < hour_count
      → OnAxis by_hour
      → OnAxis (add_to_hour h causes by_hour)
  add_to_hour-OnAxis h causes by_hour lt a =
      (All-insert (λ e. e.0 < hour_count) h _ by_hour lt a.0, insert-Unique h _ by_hour a.1)

  add_to_hours-OnAxis :
      (first n : ℕ) (causes : List (ExclusionCause Num)) (by_hour : CausesByHour Num)
      → first + n ≤ hour_count
      → OnAxis by_hour
      → OnAxis (add_to_hours first n causes by_hour)
  unfolding add_to_hours
  add_to_hours-OnAxis first zero causes by_hour le a = a
  add_to_hours-OnAxis first (suc n) causes by_hour le a =
      add_to_hours-OnAxis (first + 1) n causes (add_to_hour first causes by_hour) (omega arith)
        (add_to_hour-OnAxis first causes by_hour (omega arith) a)

  exclude_span-OnAxis :
      (axis_start span_start span_end : Instant) (causes : List (ExclusionCause Num))
      (by_hour : CausesByHour Num)
      → OnAxis by_hour
      → OnAxis (exclude_span axis_start hour_count span_start span_end causes by_hour)
  unfolding exclude_span
  exclude_span-OnAxis axis_start span_start span_end causes by_hour a =
      let first = hour_ordinal axis_start span_start - 1 in
      let last = min hour_count (hour_ordinal axis_start span_end) in
      elim (Bool-cases (leb last first)) [
        | inl nothing ↦
            let none_left : last - first ≡ 0 = ground (arith, nothing) in
            rw none_left (unfold add_to_hours in a)
        | inr some_left ↦
            add_to_hours-OnAxis first (last - first) causes by_hour (ground (arith, some_left)) a
      ]

  add_to_ordinal-OnAxis :
      (o : ℕ) (cause : ExclusionCause Num) (by_hour : CausesByHour Num)
      → OnAxis by_hour
      → OnAxis (add_to_ordinal hour_count o cause by_hour)
  add_to_ordinal-OnAxis zero cause by_hour a = a
  add_to_ordinal-OnAxis (suc h) cause by_hour a = elim (Bool-cases (ltb h hour_count)) [
    | inl within ↦ rw within (add_to_hour-OnAxis h (cause ∷ []) by_hour (ground (arith, within)) a)
    | inr beyond ↦ rw beyond a
  ]

  exclude_step-OnAxis :
      (earlier later : ℕ) (causes : List (ExclusionCause Num)) (by_hour : CausesByHour Num)
      → OnAxis by_hour
      → OnAxis (exclude_step hour_count earlier later causes by_hour)
  unfolding exclude_step
  exclude_step-OnAxis earlier later [] by_hour a = a
  exclude_step-OnAxis earlier later (cause ∷ causes) by_hour a =
      let with_later = add_to_ordinal hour_count later cause by_hour in
      let a' = add_to_ordinal-OnAxis later cause by_hour a in
      exclude_step-OnAxis earlier later causes _
        (elim (Bool-cases (cause.reason == step_above_maximum || earlier == later)) [
          | inl once ↦ rw once a'
          | inr twice ↦ rw twice (add_to_ordinal-OnAxis earlier cause with_later a')
        ])

  -- The progress keeps an energy for each hour of the axis.
  pub record IsWithin (p : Progress Num) : Type 0 where
    pub energies : length p.energy ≡ hour_count
    pub on_axis : OnAxis p.causes_by_hour

module _ {Num : Type 0} ⦃f : FloatOps Num⦄ where
  length-add_energy :
      (h : ℕ) (step_kwh : Num) (energy new : List Num)
      → add_energy h step_kwh energy ≡ ok new
      → length new ≡ length energy
  length-add_energy h step_kwh [] new e = cc
  length-add_energy zero step_kwh (x ∷ energy) new e =
      let same : f.add x step_kwh ∷ energy ≡ new = cc in sym (ap length same)
  length-add_energy (suc h) step_kwh (x ∷ energy) new e =
      let (rest, eq, last) = >>=-eq-ok (add_energy h step_kwh energy) _ e in
      let same : x ∷ rest ≡ new = cc in
      sym (ap length same) ∙ ap suc (length-add_energy h step_kwh energy rest eq)

module _ {Num : Type 0} ⦃f : FloatOps Num⦄ (entity : EnergyEntity Num) (axis_start : Instant)
    (hour_count : ℕ) where
  abbrev returned_progress : Progress Num → Result CounterError (Progress Num)
  returned_progress p = ok p

  result-IsWithin :
      (p q : Progress Num)
      → returned_progress p ≡ ok q
      → IsWithin hour_count p
      → IsWithin hour_count q
  result-IsWithin p q e h = subst (λ x. IsWithin hour_count x) (cc e) h

  count_step-IsWithin :
      (earlier later : Observation Num) (step_kwh : Num) (causes : List (ExclusionCause Num))
      (p q : Progress Num)
      → count_step entity axis_start hour_count earlier later step_kwh causes p ≡ ok q
      → IsWithin hour_count p
      → IsWithin hour_count q
  count_step-IsWithin earlier later step_kwh [] p q e h =
      elim (Bool-cases (ltb axis_start later.timestamp)) [
        | inl counted ↦
            let (energy, eq, last) =
              >>=-eq-ok (add_energy (hour_ordinal axis_start later.timestamp - 1) step_kwh p.energy)
                (λ x. ok (record p { energy = x })) (rw counted at e) in
            result-IsWithin (record p { energy = energy }) q last
              (record {
                energies = length-add_energy _ step_kwh p.energy energy eq ∙ h.energies;
                on_axis = h.on_axis;
              })
        | inr uncounted ↦ result-IsWithin p q (rw uncounted at e) h
      ]
  count_step-IsWithin earlier later step_kwh (c ∷ causes) p q e h = result-IsWithin _ q e (record {
    energies = h.energies;
    on_axis = exclude_step-OnAxis hour_count _ _ (c ∷ causes) p.causes_by_hour h.on_axis;
  })

  pub close_gap-IsWithin :
      (span_end : Instant) (after : Option Instant) (p : Progress Num)
      → IsWithin hour_count p
      → IsWithin hour_count (close_gap entity axis_start hour_count span_end after p)
  close_gap-IsWithin span_end after p h = record {
    energies = h.energies;
    on_axis =
        exclude_span-OnAxis hour_count axis_start p.gap_start span_end
          (gap_causes entity.entity_id p.gap (last_recorded p.last) after) p.causes_by_hour
          h.on_axis;
  }

  observe-IsWithin :
      (later : Observation Num) (gap : List (ExclusionReason × ExcludedDataPoint Num))
      (last : Option (Observation Num)) (p q : Progress Num)
      → observe entity axis_start hour_count later gap last p ≡ ok q
      → IsWithin hour_count p
      → IsWithin hour_count q
  unfolding observe
  observe-IsWithin later (g ∷ gap) last p q e h =
      let closed = close_gap-IsWithin later.timestamp (some later.recorded_at) p h in
      result-IsWithin _ q e (record { energies = closed.energies; on_axis = closed.on_axis })
  observe-IsWithin later [] none p q e h = result-IsWithin p q e h
  observe-IsWithin later [] (some earlier) p q e h =
      count_step-IsWithin earlier later _ _ _ q e
        (record { energies = h.energies; on_axis = h.on_axis })

  pub take_sample-IsWithin :
      (reason : Option ExclusionReason) (value : Option Num) (s : HistorySample Num)
      (p q : Progress Num)
      → take_sample entity axis_start hour_count reason value s p ≡ ok q
      → IsWithin hour_count p
      → IsWithin hour_count q
  take_sample-IsWithin (some reason) value s p q e h =
      result-IsWithin _ q e (record { energies = h.energies; on_axis = h.on_axis })
  take_sample-IsWithin none none s p q e h = cc
  take_sample-IsWithin none (some value) s p q e h =
      let o = observation_of s value in
      let (r, eq, last) = >>=-eq-ok (observe entity axis_start hour_count o p.gap p.last p) _ e in
      let within = observe-IsWithin o p.gap p.last p r eq h in
      result-IsWithin _ q last (record { energies = within.energies; on_axis = within.on_axis })

  pub sample_loop-IsWithin :
      (end : Instant) (samples : List (HistorySample Num)) (p q : Progress Num)
      → sample_loop entity axis_start hour_count end samples p ≡ ok q
      → IsWithin hour_count p
      → IsWithin hour_count q
  unfolding sample_loop
  sample_loop-IsWithin end [] p q e h = result-IsWithin p q e h
  sample_loop-IsWithin end (s ∷ samples) p q e h = elim (Bool-cases (ltb end s.timestamp)) [
    | inl late ↦ result-IsWithin p q (rw late at e) h
    | inr early ↦
        let (r, eq, rest) =
          >>=-eq-ok (take_sample entity axis_start hour_count (sample_reason entity s) s.value s p)
            (λ x. sample_loop entity axis_start hour_count end samples x) (rw early at e) in
        sample_loop-IsWithin end samples r q rest
          (take_sample-IsWithin (sample_reason entity s) s.value s p r eq h)
  ]

  pub exclude_totals-OnAxis :
      (h : ℕ) (energy : List Num) (by_hour : CausesByHour Num)
      → h + length energy ≤ hour_count
      → OnAxis hour_count by_hour
      → OnAxis hour_count (exclude_totals entity axis_start hour_count h energy by_hour)
  unfolding exclude_totals
  exclude_totals-OnAxis h [] by_hour le a = a
  exclude_totals-OnAxis h (total ∷ energy) by_hour le a =
      exclude_totals-OnAxis (h + 1) energy _ (omega arith)
        (elim (Bool-cases (f.lt entity.maximum_interval_energy_kwh total)) [
          | inl above ↦ rw above (add_to_hour-OnAxis hour_count h _ by_hour (omega arith) a)
          | inr below ↦ rw below a
        ])
