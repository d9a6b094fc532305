-- ===== src/Records/Missing.antt =====
-- `bridge_household_load_gap`: the hours between two histories, and a history that is extended by them.
use energy_optimizer.Prelude.{
  ℕ, zero, suc, ◌+◌, ◌-◌, ◌*◌, ◌/◌, ◌%◌, ◌≡◌, refl, true, false, Option, none, some, List, [], ◌++◌,
  arith, nat_eq, if◌then◌else◌, length, lookup, lookup-append, Unique-append, is_some, or_else, ap,
  ◌∙◌, All, Unique, replicate, sym, Option-cases, subst, ap₂, map-append, length-append,
  length-replicate, All-append,
}
use energy_optimizer.Hours.{
  Instant, hour, hourly, in_range, lookup-hourly_domain, hourly-IsSorted, aware,
}
use energy_optimizer.Hours.Ranges.{hourly-append}
use energy_optimizer.Floats.{FloatOps}
use energy_optimizer.Exclusions.{HourExclusion, history_unavailable_exclusions}
use energy_optimizer.Exclusions.Gap.{gap_own_hours}
use energy_optimizer.Series.{HouseholdLoadData}
use energy_optimizer.Records.{is_invalid_load}
use energy_optimizer.Prelude.Sorting.{IsSorted-Unique}
use energy_optimizer.Records.Members.{lacks}
use energy_optimizer.Records.Index.{by_hour}
use energy_optimizer.Records.Points.{IsHistory, IsValidValue}

-- The hours between two histories.
abbrev pub gap_hours : Instant → Instant → ℕ
gap_hours existing_end incoming_start = (incoming_start - existing_end) / hour

module _ {Num : Type 0} where
  abbrev pub gap_exclusions : Instant → Instant → List (HourExclusion Num)
  gap_exclusions existing_end incoming_start =
      history_unavailable_exclusions existing_end
        (existing_end + gap_hours existing_end incoming_start * hour)

  -- The value of the hour `t`, if the history has that hour: an excluded hour has `some none`.
  abbrev pub value_at : Instant → Instant → HouseholdLoadData Num → Option (Option Num)
  value_at start t d = lookup t (hourly start d.load_kw)

  abbrev pub exclusion_at : Instant → HouseholdLoadData Num → Option (HourExclusion Num)
  exclusion_at t d = lookup t (by_hour d.exclusions)

  -- The first instant after a history.
  abbrev pub history_end : Instant → HouseholdLoadData Num → Instant
  history_end start d = start + length d.load_kw * hour

  -- The value of an hour that lies in the gap.
  abbrev pub gap_value : Instant → ℕ → Instant → Option (Option Num)
  gap_value gap_start n t = if in_range gap_start n t then some none else none

  lookup-replicate :
      (start t : Instant) (n : ℕ) → lookup t (hourly start (replicate n none)) ≡ gap_value start n t
  unfolding lookup hourly in_range
  lookup-replicate start t zero = ground arith
  lookup-replicate start t (suc n) = ground (arith, lookup-replicate (start + hour) t n)

module _ {Num : Type 0} where
  -- The incoming history, extended to the left by the hours of a gap.
  abbrev pub bridge_over :
      Instant → List (HourExclusion Num) → HouseholdLoadData Num → HouseholdLoadData Num
  bridge_over gap_start gap incoming = record incoming {
    start_time = aware gap_start;
    load_kw = replicate (length gap) none ++ incoming.load_kw;
    exclusions = gap ++ incoming.exclusions;
    quality = [];
  }

  -- The bridged values are those of the gap and then the incoming ones.
  pub value_at-bridge_over :
      (start t : Instant) (n : ℕ) (d : HouseholdLoadData Num)
      → let gap = history_unavailable_exclusions start (start + n * hour) in
        value_at start t (bridge_over start gap d)
        ≡ or_else (gap_value start n t) (value_at (start + n * hour) t d)
  value_at-bridge_over start t n d =
      let gap = history_unavailable_exclusions {Num = Num} start (start + n * hour) in
      let size = (gap_own_hours {Num = Num} start n).1 in
      ap (λ k. lookup t (hourly start (replicate k none ++ d.load_kw))) size
      ∙ ap (lookup t) (hourly-append start (replicate n none) d.load_kw)
      ∙ lookup-append t _ _
      ∙ ap₂ or_else (lookup-replicate start t n)
          (ap (λ k. lookup t (hourly (start + k * hour) d.load_kw)) (length-replicate n none))

  pub exclusion_at-bridge_over :
      (start t : Instant) (n : ℕ) (d : HouseholdLoadData Num)
      → let gap = history_unavailable_exclusions start (start + n * hour) in
        exclusion_at t (bridge_over start gap d)
        ≡ or_else (lookup t (hourly start gap)) (exclusion_at t d)
  exclusion_at-bridge_over start t n d =
      let gap = history_unavailable_exclusions {Num = Num} start (start + n * hour) in
      ap (lookup t)
        (map-append (λ (item : HourExclusion Num). (item.hour_start, item)) gap d.exclusions)
      ∙ lookup-append t (by_hour gap) (by_hour d.exclusions)
      ∙ ap (λ g. or_else (lookup t g) (exclusion_at t d)) (gap_own_hours start n).0

All-replicate :
    (Num : Type 0) ⦃f : FloatOps Num⦄ (n : ℕ) → All (IsValidValue {Num = Num}) (replicate n none)
unfolding is_invalid_load
All-replicate Num zero = tt
All-replicate Num (suc n) = (refl, All-replicate Num n)

pub ranges_apart :
    (start n m t : ℕ) → in_range start n t ≡ true → in_range (start + n * hour) m t ≡ false
unfolding in_range
ranges_apart start n m t h = ground arith

-- The gap ends before the incoming history starts.
pub gap_apart :
    (gap_start s m t : ℕ)
    → in_range gap_start (gap_hours gap_start s) t ≡ true
    → in_range s m t ≡ false
unfolding in_range
gap_apart gap_start s m t h = ground arith

module _ {Num : Type 0} ⦃f : FloatOps Num⦄ where
  -- Only an hour of the history is excluded.
  pub exclusion_in_range :
      (start t : Instant) (d : HouseholdLoadData Num)
      → IsHistory start d
      → is_some (exclusion_at t d) ≡ true
      → in_range start (length d.load_kw) t ≡ true
  exclusion_in_range start t d h m =
      ground (arith, h.explained t, lookup-hourly_domain start d.load_kw t)

  pub bridge_over-IsHistory :
      (start : Instant) (n : ℕ) (d : HouseholdLoadData Num)
      → start % hour ≡ 0
      → IsHistory (start + n * hour) d
      → IsHistory start
          (bridge_over start (history_unavailable_exclusions start (start + n * hour)) d)
  bridge_over-IsHistory start n d aligned h = record {
    starts = refl;
    aligned = aligned;
    minutes = h.minutes;
    in_kw = h.in_kw;
    retrieved = h.retrieved;
    observed = h.observed;
    nonempty = rw length-append (omega (arith, h.nonempty));
    values_valid = All-append _ _ d.load_kw (All-replicate Num _) h.values_valid;
    one_exclusion =
        let gap = history_unavailable_exclusions {Num = Num} start (start + n * hour) in
        let (own, size) = gap_own_hours {Num = Num} start n in
        subst Unique
          (sym
            (map-append (λ (item : HourExclusion Num). (item.hour_start, item)) gap d.exclusions))
          (Unique-append (by_hour gap) (by_hour d.exclusions)
            (subst Unique (sym own) (IsSorted-Unique _ (hourly-IsSorted start gap))) h.one_exclusion
            (λ t m. ground (
              arith,
              exclusion_in_range (start + n * hour) t d h,
              ranges_apart start n (length d.load_kw) t,
              lookup-hourly_domain start gap t,
              ap (λ l. is_some (lookup t l)) own,
              size,
              m,
              Option-cases (exclusion_at t d),
            )));
    explained = λ t.
        let gap = history_unavailable_exclusions {Num = Num} start (start + n * hour) in
        ap lacks (value_at-bridge_over start t n d)
        ∙ ground (
          arith,
          lookup-hourly_domain start gap t,
          (gap_own_hours {Num = Num} start n).1,
          h.explained t,
        )
        ∙ sym (ap is_some (exclusion_at-bridge_over start t n d));
  }
