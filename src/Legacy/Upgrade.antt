-- ===== src/Legacy/Upgrade.antt =====
-- An upgraded household-load history is a well-formed one.
use energy_optimizer.Prelude.{
  suc, ◌≡◌, ◌<◌, refl, ap, ◌∙◌, true, false, Option, none, some, List, [], ◌∷◌, arith, Eq, ◌==◌,
  nat_eq, if◌then◌else◌, length, lookup, contains, All, ok,
}
use energy_optimizer.Hours.{Instant, hourly}
use energy_optimizer.Floats.{FloatOps}
use energy_optimizer.Exclusions.{ExclusionCause, HourExclusion, merge_exclusions}
use energy_optimizer.Exclusions.Union.{names_hour, merge_exclusions-hours, merge_exclusions-Unique}
use energy_optimizer.Series.{HouseholdLoadData, IntervalQuality}
use energy_optimizer.Records.{is_invalid_load}
use energy_optimizer.Records.Missing.{value_at}
use energy_optimizer.Records.Points.{IsHistory, IsValidValue}
use energy_optimizer.Legacy.{
  suspect_loop, suspect_hours, drop_values, exclusions_of_hours, instant_of, upgrade_household_load,
}
use energy_optimizer.Legacy.Blank.{
  flagged, blanked, contains-suspect_loop, drop_loop-blanked, lookup-blanked,
  names_hour-suspect_loop,
}

module _ {Num : Type 0} ⦃f : FloatOps Num⦄ where
  All-blanked :
      (vs : List (Option Num)) (qs : List IntervalQuality)
      → All IsValidValue vs
      → All IsValidValue (blanked vs qs)
  unfolding is_invalid_load
  All-blanked [] qs h = tt
  All-blanked (v ∷ vs) [] h = h
  All-blanked (v ∷ vs) (q ∷ qs) h = (ground (arith, h.0), All-blanked vs qs h.1)

pub length-blanked :
    {Num : Type 0} (vs : List (Option Num)) (qs : List IntervalQuality)
    → length (blanked vs qs) ≡ length vs
length-blanked [] qs = refl
length-blanked (v ∷ vs) [] = refl
length-blanked (v ∷ vs) (q ∷ qs) = ap suc (length-blanked vs qs)

pub drop_values-blanked :
    {Num : Type 0} (start : Instant) (vs : List (Option Num)) (qs : List IntervalQuality)
    → length vs ≡ length qs
    → drop_values vs (λ index. contains index (suspect_loop {Num = Num} start 0 qs)) ≡ blanked vs qs
unfolding drop_values
drop_values-blanked {Num} start vs qs h =
    drop_loop-blanked 0 (λ index. contains index (suspect_loop {Num = Num} start 0 qs)) vs qs h
      (λ k. contains-suspect_loop Num start 0 k qs)

-- The exclusions of the flagged hours.
abbrev pub legacy_items : (Num : Type 0) → Instant → List IntervalQuality → List (HourExclusion Num)
legacy_items Num start qs = exclusions_of_hours (suspect_loop start 0 qs)

pub legacy_hours :
    (Num : Type 0) (start : Instant) (qs : List IntervalQuality) (t : Instant)
    → names_hour t (legacy_items Num start qs) ≡ flagged (lookup t (hourly start qs))
legacy_hours Num start qs t =
    names_hour-suspect_loop Num t start 0 qs
    ∙ ap (λ s. flagged (lookup t (hourly s qs))) (omega arith)

module _ {Num : Type 0} ⦃f : FloatOps Num⦄ ⦃same : Eq (ExclusionCause Num)⦄ (start : Instant)
    (d : HouseholdLoadData Num) (h : IsHistory start d) (marked : 0 < length d.quality)
    (size : length d.load_kw ≡ length d.quality) where
  abbrev upgraded : HouseholdLoadData Num
  upgraded = record d {
    load_kw = blanked d.load_kw d.quality;
    exclusions = merge_exclusions (d.exclusions ∷ (legacy_items Num start d.quality) ∷ []);
    quality = [];
  }

  upgrade-upgraded : upgrade_household_load d ≡ ok upgraded
  unfolding upgrade_household_load suspect_hours
  upgrade-upgraded =
      let tested : (length d.quality == 0) ≡ false = ground arith in
      let aligned : (length d.quality == length d.load_kw) ≡ true = ground arith in
      rw (
        tested,
        aligned,
        ap instant_of h.starts,
        drop_values-blanked start d.load_kw d.quality size,
      )

  value_at-upgraded :
      (t : Instant)
      → value_at start t upgraded
        ≡ (if flagged (lookup t (hourly start d.quality)) then some none else value_at start t d)
  value_at-upgraded t = lookup-blanked t start d.load_kw d.quality size

  upgraded-IsHistory : IsHistory start upgraded
  upgraded-IsHistory = record {
    starts = h.starts;
    aligned = h.aligned;
    minutes = h.minutes;
    in_kw = h.in_kw;
    retrieved = h.retrieved;
    observed = h.observed;
    nonempty = omega (arith, length-blanked d.load_kw d.quality, h.nonempty);
    values_valid = All-blanked d.load_kw d.quality h.values_valid;
    one_exclusion =
        merge_exclusions-Unique (d.exclusions ∷ (legacy_items Num start d.quality) ∷ []);
    explained = λ t. ground (
      arith,
      value_at-upgraded t,
      h.explained t,
      merge_exclusions-hours t (d.exclusions ∷ (legacy_items Num start d.quality) ∷ []),
      legacy_hours Num start d.quality t,
    );
  }

module _ {Num : Type 0} ⦃f : FloatOps Num⦄ ⦃same : Eq (ExclusionCause Num)⦄ where
  -- A well-formed history that an earlier version stored with as many quality entries as values is
  -- upgraded to a well-formed history without quality. It keeps the values of the hours that were
  -- not flagged, and the flagged hours become excluded hours without a value.
  pub upgrade_household_load-IsHistory :
      (start : Instant) (d : HouseholdLoadData Num)
      → IsHistory start d
      → 0 < length d.quality
      → length d.load_kw ≡ length d.quality
      → (upgraded : HouseholdLoadData Num) × (upgrade_household_load d ≡ ok upgraded)
        × IsHistory start upgraded
        × (length upgraded.quality ≡ 0)
        × ((t : Instant)
            → value_at start t upgraded ≡ (
                if flagged (lookup t (hourly start d.quality))
                then some none
                else value_at start t d))
  upgrade_household_load-IsHistory start d h marked size = (
    upgraded start d h marked size,
    upgrade-upgraded start d h marked size,
    upgraded-IsHistory start d h marked size,
    refl,
    value_at-upgraded start d h marked size,
  )
