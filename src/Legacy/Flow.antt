-- ===== src/Legacy/Flow.antt =====
-- An upgraded grid-flow series is a well-formed one.
use energy_optimizer.Prelude.{
  ◌≡◌, ◌<◌, refl, sym, ap, ◌∙◌, true, false, Option, none, some, List, [], ◌∷◌, arith, Eq, ◌==◌,
  nat_eq, if◌then◌else◌, length, lookup, ok, Bool-cases, inl, inr,
}
use energy_optimizer.Hours.{Instant, hourly}
use energy_optimizer.Floats.{FloatOps}
use energy_optimizer.Exclusions.{ExclusionCause, merge_exclusions}
use energy_optimizer.Exclusions.Union.{merge_exclusions-hours, merge_exclusions-Unique}
use energy_optimizer.Series.{GridFlowData, IntervalQuality}
use energy_optimizer.Grid.Points.{AreValidPairs}
use energy_optimizer.Grid.Accepted.{IsFlowHistory}
use energy_optimizer.Legacy.{is_suspect, suspect_hours, instant_of, upgrade_grid_flow}
use energy_optimizer.Legacy.Blank.{flagged, blanked, lookup-blanked}
use energy_optimizer.Legacy.Upgrade.{
  legacy_items, legacy_hours, length-blanked, drop_values-blanked,
}

module _ {Num : Type 0} ⦃f : FloatOps Num⦄ where
  AreValidPairs-blanked :
      (is es : List (Option Num)) (qs : List IntervalQuality)
      → length is ≡ length qs
      → AreValidPairs is es
      → AreValidPairs (blanked is qs) (blanked es qs)
  AreValidPairs-blanked [] es qs h v = tt
  AreValidPairs-blanked (i ∷ is) es [] h v = absurd (omega (arith, h))
  AreValidPairs-blanked (i ∷ is) [] (q ∷ qs) h v = tt
  AreValidPairs-blanked (i ∷ is) (e ∷ es) (q ∷ qs) h v = elim (Bool-cases (is_suspect q)) [
    | inl marked ↦ rw marked (refl, AreValidPairs-blanked is es qs (omega (arith, h)) v.1)
    | inr clear ↦ rw clear (v.0, AreValidPairs-blanked is es qs (omega (arith, h)) v.1)
  ]

module _ {Num : Type 0} ⦃f : FloatOps Num⦄ ⦃same : Eq (ExclusionCause Num)⦄ (start : Instant)
    (d : GridFlowData Num) (h : IsFlowHistory start d) (marked : 0 < length d.quality)
    (size : length d.import_kw ≡ length d.quality) where
  abbrev upgraded : GridFlowData Num
  upgraded = record d {
    import_kw = blanked d.import_kw d.quality;
    export_kw = blanked d.export_kw d.quality;
    exclusions = merge_exclusions (d.exclusions ∷ legacy_items Num start d.quality ∷ []);
    quality = [];
  }

  upgrade-upgraded : upgrade_grid_flow d ≡ ok upgraded
  unfolding upgrade_grid_flow suspect_hours
  upgrade-upgraded =
      let tested : (length d.quality == 0) ≡ false = ground arith in
      let aligned : (length d.quality == length d.import_kw) ≡ true = ground arith in
      rw (
        tested,
        aligned,
        ap instant_of h.starts,
        drop_values-blanked start d.import_kw d.quality size,
        drop_values-blanked start d.export_kw d.quality (sym h.same_length ∙ size),
      )

  upgraded-IsFlowHistory : IsFlowHistory start upgraded
  upgraded-IsFlowHistory = record {
    starts = h.starts;
    aligned = h.aligned;
    minutes = h.minutes;
    in_kw = h.in_kw;
    retrieved = h.retrieved;
    observed = h.observed;
    nonempty = omega (arith, length-blanked d.import_kw d.quality, h.nonempty);
    same_length =
        length-blanked d.import_kw d.quality
        ∙ h.same_length
        ∙ sym (length-blanked d.export_kw d.quality);
    pairs_valid = AreValidPairs-blanked d.import_kw d.export_kw d.quality size h.pairs_valid;
    one_exclusion = merge_exclusions-Unique (d.exclusions ∷ legacy_items Num start d.quality ∷ []);
    explained = λ t. ground (
      arith,
      lookup-blanked t start d.import_kw d.quality size,
      h.explained t,
      merge_exclusions-hours t (d.exclusions ∷ legacy_items Num start d.quality ∷ []),
      legacy_hours Num start d.quality t,
    );
  }

module _ {Num : Type 0} ⦃f : FloatOps Num⦄ ⦃same : Eq (ExclusionCause Num)⦄ where
  -- A well-formed grid-flow series that an earlier version stored with as many quality entries as
  -- values is upgraded to a well-formed series without quality. It keeps import and export of the
  -- hours that were not flagged, and the flagged hours lose both.
  pub upgrade_grid_flow-IsFlowHistory :
      (start : Instant) (d : GridFlowData Num)
      → IsFlowHistory start d
      → 0 < length d.quality
      → length d.import_kw ≡ length d.quality
      → (upgraded : GridFlowData Num) × (upgrade_grid_flow d ≡ ok upgraded)
        × IsFlowHistory start upgraded
        × (length upgraded.quality ≡ 0)
        × ((t : Instant)
            → (lookup t (hourly start upgraded.import_kw) ≡ (
                if flagged (lookup t (hourly start d.quality))
                then some none
                else lookup t (hourly start d.import_kw)))
              × (lookup t (hourly start upgraded.export_kw) ≡ (
                  if flagged (lookup t (hourly start d.quality))
                  then some none
                  else lookup t (hourly start d.export_kw))))
  upgrade_grid_flow-IsFlowHistory start d h marked size = (
    upgraded start d h marked size,
    upgrade-upgraded start d h marked size,
    upgraded-IsFlowHistory start d h marked size,
    refl,
    λ t. (
      lookup-blanked t start d.import_kw d.quality size,
      lookup-blanked t start d.export_kw d.quality (sym h.same_length ∙ size),
    ),
  )
