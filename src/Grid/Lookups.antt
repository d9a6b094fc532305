-- ===== src/Grid/Lookups.antt =====
-- The points of a grid-flow series by hour, and the series that is made from such points.
use energy_optimizer.Prelude.{
  ◌+◌, ◌≡◌, refl, sym, true, Option, none, some, List, [], ◌∷◌, arith, nat_eq, Dict, lookup,
  is_some, is_none, ap, ◌∙◌, map, if◌then◌else◌, Option-cases, inl, inr,
}
use energy_optimizer.Hours.{Instant, hour, hourly}
use energy_optimizer.Floats.{FloatOps}
use energy_optimizer.Exclusions.{HourExclusion}
use energy_optimizer.Series.{GridFlowData}
use energy_optimizer.Records.Index.{by_hour}
use energy_optimizer.Records.Exclude.{by_hour-IsKeyed, lookup-IsKeyed}
use energy_optimizer.Grid.{GridFlowPoint}
use energy_optimizer.Grid.Points.{flows, is_valid_pair, AreValidPairs}
use energy_optimizer.Grid.Accepted.{flows_of, IsFlowHistory}

pub lookup-map :
    {A V : Type 0} (g : A → V) (t start : Instant) (w : List A)
    → lookup t (hourly start (map g w))
      ≡ (elim (lookup t (hourly start w)) [ none ↦ none | some p ↦ some (g p) ])
unfolding lookup hourly
lookup-map g t start [] = refl
lookup-map g t start (p ∷ w) = ground (arith, lookup-map g t (start + hour) w)

module _ {Num : Type 0} where
  abbrev pub pair_up :
      Option (Option Num)
      → Option (Option Num)
      → Option (HourExclusion Num)
      → Option (GridFlowPoint Num)
  pair_up (some i) (some e) o =
      some (record { imported = i; exported = e; exclusion = if is_none i then o else none })
  pair_up _ _ o = none

  pub lookup-flows :
      (t start : Instant) (x : Dict Instant (HourExclusion Num)) (is es : List (Option Num))
      → lookup t (hourly start (flows start x is es))
        ≡ pair_up (lookup t (hourly start is)) (lookup t (hourly start es)) (lookup t x)
  unfolding lookup hourly
  lookup-flows t start x [] es = refl
  lookup-flows t start x (i ∷ is) [] = ground arith
  lookup-flows t start x (i ∷ is) (e ∷ es) =
      ground
        (arith, lookup-flows t (start + hour) x is es, λ (p : start ≡ t). ap (λ u. lookup u x) p)

module _ {Num : Type 0} ⦃f : FloatOps Num⦄ where
  -- The point of an hour has two valid values, or none and the exclusion of the hour.
  pub record IsPoint (t : Instant) (p : GridFlowPoint Num) : Type 0 where
    pub pair_valid : is_valid_pair p.imported p.exported ≡ true
    pub is_explained : is_some p.exclusion ≡ is_none p.imported
    pub own_hour : (item : HourExclusion Num) → p.exclusion ≡ some item → item.hour_start ≡ t

  lookup-AreValidPairs :
      (t start : Instant) (is es : List (Option Num)) (i e : Option Num)
      → AreValidPairs is es
      → lookup t (hourly start is) ≡ some i
      → lookup t (hourly start es) ≡ some e
      → is_valid_pair i e ≡ true
  unfolding lookup hourly
  lookup-AreValidPairs t start [] es i e h p q = cc
  lookup-AreValidPairs t start (j ∷ is) [] i e h p q = cc
  lookup-AreValidPairs t start (j ∷ is) (k ∷ es) i e h p q =
      ground (arith, p, q, h.0, lookup-AreValidPairs t (start + hour) is es i e h.1)

  IsPoint-paired :
      (t start : Instant) (d : GridFlowData Num) (i e : Option Num) (p : GridFlowPoint Num)
      → IsFlowHistory start d
      → lookup t (hourly start d.import_kw) ≡ some i
      → lookup t (hourly start d.export_kw) ≡ some e
      → p ≡ record {
        imported = i;
        exported = e;
        exclusion = if is_none i then lookup t (by_hour d.exclusions) else none;
      }
      → IsPoint t p
  IsPoint-paired t start d i e p h there_i there_e same = rw same (record {
    pair_valid =
        lookup-AreValidPairs t start d.import_kw d.export_kw i e h.pairs_valid there_i there_e;
    is_explained = ground (arith, h.explained t, there_i);
    own_hour = λ item found.
        lookup-IsKeyed t (by_hour d.exclusions) item (by_hour-IsKeyed d.exclusions)
          (ground (arith, found));
  })

  -- The points of a well-formed series.
  pub flows_of-IsPoint :
      (start : Instant) (d : GridFlowData Num)
      → IsFlowHistory start d
      → (t : Instant) (p : GridFlowPoint Num) → lookup t (hourly start (flows_of start d)) ≡ some p
      → IsPoint t p
  flows_of-IsPoint start d h t p there =
      let there' =
        sym (lookup-flows t start (by_hour d.exclusions) d.import_kw d.export_kw) ∙ there in
      elim (Option-cases (lookup t (hourly start d.import_kw))) [
        | inl no_import ↦ ground (arith, no_import, there')
        | inr (i, there_i) ↦ elim (Option-cases (lookup t (hourly start d.export_kw))) [
          | inl no_export ↦ ground (arith, no_export, there_i, there')
          | inr (e, there_e) ↦
              IsPoint-paired t start d i e p h there_i there_e
                (ground (arith, there_i, there_e, there'))
        ]
      ]
