-- ===== src/Records/Bridge.antt =====
-- `bridge_household_load_gap`: the hours between two histories become excluded hours.
use energy_optimizer.Prelude.{
  ◌+◌, ◌*◌, ◌%◌, ◌≤◌, ◌<◌, ◌≡◌, refl, Option, none, List, arith, nat_eq, length, lookup, or_else,
  min, ap, ◌∙◌, replicate, sym, subst, le→leb, lt→not_leb, ok, length-append, length-replicate,
}
use native.Mathlib.Decide.{dec_le}
use energy_optimizer.Hours.{Instant, hour, hourly, in_range, lookup-hourly_domain}
use energy_optimizer.Floats.{FloatOps}
use energy_optimizer.Exclusions.{HourExclusion, history_unavailable_exclusions}
use energy_optimizer.Exclusions.Gap.{gap_own_hours}
use energy_optimizer.Series.{HouseholdLoadData}
use energy_optimizer.Records.{bridge_household_load_gap}
use energy_optimizer.Records.Rebuild.{as_utc-aware}
use energy_optimizer.Records.Points.{IsHistory, household_load_points-IsHistory}
use energy_optimizer.Records.Missing.{
  gap_hours, gap_exclusions, value_at, exclusion_at, history_end, gap_value, bridge_over,
  value_at-bridge_over, exclusion_at-bridge_over, bridge_over-IsHistory,
}

module _ {Num : Type 0} ⦃f : FloatOps Num⦄ where
  -- A history that overlaps the stored one, or follows it at once, is left as it is.
  pub bridge-near :
      (s₁ s₂ : Instant) (existing incoming : HouseholdLoadData Num)
      → IsHistory s₁ existing
      → IsHistory s₂ incoming
      → s₂ ≤ history_end s₁ existing
      → bridge_household_load_gap existing incoming ≡ ok incoming
  unfolding bridge_household_load_gap
  bridge-near s₁ s₂ existing incoming h₁ h₂ near = rw (
    as_utc-aware existing.start_time s₁ h₁.starts,
    as_utc-aware incoming.start_time s₂ h₂.starts,
    le→leb _ _ near,
  )

  bridge-far :
      (s₁ s₂ : Instant) (existing incoming : HouseholdLoadData Num)
      → IsHistory s₁ existing
      → IsHistory s₂ incoming
      → history_end s₁ existing < s₂
      → bridge_household_load_gap existing incoming
        ≡ ok (
            bridge_over
              (history_end s₁ existing)
              (history_unavailable_exclusions (history_end s₁ existing) s₂)
              incoming)
  unfolding bridge_household_load_gap
  bridge-far s₁ s₂ existing incoming h₁ h₂ far = rw (
    as_utc-aware existing.start_time s₁ h₁.starts,
    as_utc-aware incoming.start_time s₂ h₂.starts,
    lt→not_leb _ _ far,
    household_load_points-IsHistory s₂ incoming h₂,
  )

  -- What `bridged` has to be, for histories that start at `s₁` and `s₂`.
  pub record IsBridged (s₁ s₂ : Instant) (existing incoming bridged : HouseholdLoadData Num)
      : Type 0 where
    pub history : IsHistory (min s₂ (history_end s₁ existing)) bridged
    pub same_end : history_end (min s₂ (history_end s₁ existing)) bridged ≡ history_end s₂ incoming
    pub bridged_values :
        (t : Instant)
        → value_at (min s₂ (history_end s₁ existing)) t bridged
          ≡ or_else
              (gap_value (history_end s₁ existing) (gap_hours (history_end s₁ existing) s₂) t)
              (value_at s₂ t incoming)
    pub bridged_exclusions :
        (t : Instant)
        → exclusion_at t bridged
          ≡ or_else
              (lookup t
                (hourly (history_end s₁ existing) (gap_exclusions (history_end s₁ existing) s₂)))
              (exclusion_at t incoming)
    pub same_meta :
        (bridged.schema_version ≡ incoming.schema_version)
        × (bridged.source ≡ incoming.source)
        × (bridged.retrieved_at ≡ incoming.retrieved_at)
        × (bridged.latest_observation_at ≡ incoming.latest_observation_at)

  near-IsBridged :
      (s₁ s₂ : Instant) (existing incoming : HouseholdLoadData Num)
      → IsHistory s₂ incoming
      → s₂ ≤ history_end s₁ existing
      → IsBridged s₁ s₂ existing incoming incoming
  near-IsBridged s₁ s₂ existing incoming h₂ near =
      let e = history_end s₁ existing in
      let start : min s₂ e ≡ s₂ = omega arith in
      let none_between : gap_hours e s₂ ≡ 0 = omega arith in
      record {
        history = subst (λ s. IsHistory s incoming) (sym start) h₂;
        same_end = omega arith;
        bridged_values = λ t. rw start (rw none_between (unfold in_range in ground arith));
        bridged_exclusions = λ t.
            unfold in_range in
            ground (
              arith,
              lookup-hourly_domain e (gap_exclusions {Num = Num} e s₂) t,
              (gap_own_hours {Num = Num} e (gap_hours e s₂)).1,
              none_between,
            );
        same_meta = (refl, refl, refl, refl);
      }

  far-IsBridged :
      (s₁ s₂ : Instant) (existing incoming : HouseholdLoadData Num)
      → IsHistory s₁ existing
      → IsHistory s₂ incoming
      → history_end s₁ existing < s₂
      → let e = history_end s₁ existing in
        IsBridged s₁ s₂ existing incoming (bridge_over e (gap_exclusions e s₂) incoming)
  far-IsBridged s₁ s₂ existing incoming h₁ h₂ far =
      let e = history_end s₁ existing in
      let n = gap_hours e s₂ in
      let gap : List (HourExclusion Num) = gap_exclusions e s₂ in
      let bridged = bridge_over e gap incoming in
      let size = (gap_own_hours {Num = Num} e n).1 in
      let aligned : e % hour ≡ 0 = omega (arith, h₁.aligned) in
      let whole : s₂ ≡ e + n * hour = omega (arith, h₁.aligned, h₂.aligned) in
      let start : min s₂ e ≡ e = omega arith in
      record {
        history =
            subst (λ s. IsHistory s bridged) (sym start)
              (bridge_over-IsHistory e n incoming aligned
                (subst (λ s. IsHistory s incoming) whole h₂));
        same_end = omega (
          arith,
          length-append (replicate (length gap) none) incoming.load_kw,
          length-replicate {0} {A = Option Num} (length gap) none,
          size,
        );
        bridged_values = λ t.
            ap (λ s. value_at s t bridged) start
            ∙ value_at-bridge_over e t n incoming
            ∙ ap (λ s. or_else (gap_value e n t) (value_at s t incoming)) (sym whole);
        bridged_exclusions = λ t. exclusion_at-bridge_over e t n incoming;
        same_meta = (refl, refl, refl, refl);
      }

  -- Two well-formed histories are always bridged. The result is a well-formed history that starts
  -- no later than the end of the stored one and ends where the incoming one ends. Its hours in the
  -- gap have no value and the exclusions of the gap; its other hours are the incoming ones.
  pub bridge_household_load_gap-IsBridged :
      (s₁ s₂ : Instant) (existing incoming : HouseholdLoadData Num)
      → IsHistory s₁ existing
      → IsHistory s₂ incoming
      → (bridged : HouseholdLoadData Num) × (bridge_household_load_gap existing incoming
          ≡ ok bridged)
        × IsBridged s₁ s₂ existing incoming bridged
  bridge_household_load_gap-IsBridged s₁ s₂ existing incoming h₁ h₂ =
      let e = history_end s₁ existing in
      elim (dec_le s₂ e) [
        | yes near ↦ (
          incoming,
          bridge-near s₁ s₂ existing incoming h₁ h₂ near,
          near-IsBridged s₁ s₂ existing incoming h₂ near,
        )
        | no far ↦
            let far' : e < s₂ = omega arith in
            let whole : s₂ ≡ e + gap_hours e s₂ * hour = omega (arith, h₁.aligned, h₂.aligned) in
            (
              bridge_over e (gap_exclusions e s₂) incoming,
              bridge-far s₁ s₂ existing incoming h₁ h₂ far'
                  ∙ ap (λ s. ok (bridge_over e (history_unavailable_exclusions e s) incoming))
                      whole,
              far-IsBridged s₁ s₂ existing incoming h₁ h₂ far',
            )
      ]
