-- ===== src/Grid/Rebuild.antt =====
-- A grid-flow series that is made from contiguous points has these points.
use energy_optimizer.Prelude.{
  ◌+◌, ◌%◌, ◌≡◌, ◌<◌, refl, sym, none, some, Option, List, [], ◌∷◌, arith, nat_eq, lookup, ap, All,
  ◌∙◌, map, length, length-map, Option-cases, inl, inr, subst,
}
use energy_optimizer.Prelude.Sorting.{IsSorted, IsSorted-Unique, lookup-below, sorted_ext}
use energy_optimizer.Hours.{Instant, hour, hourly, hourly-IsSorted, aware}
use energy_optimizer.Floats.{FloatOps}
use energy_optimizer.Exclusions.{HourExclusion}
use energy_optimizer.Series.{GridFlowData}
use energy_optimizer.Records.Index.{by_hour}
use energy_optimizer.Grid.{GridFlowPoint, exclusions_in}
use energy_optimizer.Grid.Points.{AreValidPairs}
use energy_optimizer.Grid.Accepted.{flows_of, IsFlowHistory}
use energy_optimizer.Grid.Lookups.{IsPoint, pair_up, lookup-flows, lookup-map}

module _ {Num : Type 0} where
  -- Every exclusion is of the hour of its point.
  abbrev OwnHours : List (Instant × GridFlowPoint Num) → Type 0
  OwnHours l =
      All (λ e. (item : HourExclusion Num) → e.1.exclusion ≡ some item → item.hour_start ≡ e.0) l

  exclusions_in-above :
      (t : Instant) (l : List (Instant × GridFlowPoint Num))
      → OwnHours l
      → All (λ e. t < e.0) l
      → All (λ e. t < e.0) (by_hour (exclusions_in l))
  exclusions_in-above t [] own h = tt
  exclusions_in-above t ((k, p) ∷ l) own h = elim (Option-cases p.exclusion) [
    | inl nothing ↦ rw nothing (exclusions_in-above t l own.1 h.1)
    | inr (item, found) ↦ rw found (rw (own.0 item found) h.0, exclusions_in-above t l own.1 h.1)
  ]

  exclusions_in-IsSorted :
      (l : List (Instant × GridFlowPoint Num))
      → OwnHours l
      → IsSorted l
      → IsSorted (by_hour (exclusions_in l))
  exclusions_in-IsSorted [] own h = tt
  exclusions_in-IsSorted ((k, p) ∷ l) own h = elim (Option-cases p.exclusion) [
    | inl nothing ↦ rw nothing (exclusions_in-IsSorted l own.1 h.1)
    | inr (item, found) ↦ rw found (
      exclusions_in-above item.hour_start l own.1
          (subst (λ s. All (λ e. s < e.0) l) (sym (own.0 item found)) h.0),
      exclusions_in-IsSorted l own.1 h.1,
    )
  ]

  abbrev exclusion_of : Option (GridFlowPoint Num) → Option (HourExclusion Num)
  exclusion_of none = none
  exclusion_of (some p) = p.exclusion

  lookup-exclusions_in :
      (t : Instant) (l : List (Instant × GridFlowPoint Num))
      → OwnHours l
      → IsSorted l
      → lookup t (by_hour (exclusions_in l)) ≡ exclusion_of (lookup t l)
  unfolding lookup
  lookup-exclusions_in t [] own h = refl
  lookup-exclusions_in t ((k, p) ∷ l) own h = elim (Option-cases p.exclusion) [
    | inl nothing ↦ rw nothing (
        ground (
          arith,
          lookup-exclusions_in t l own.1 h.1,
          nothing,
          lookup-below k l h.0,
          λ (e : k ≡ t). ap (λ u. lookup u l) e,
        ))
    | inr (item, found) ↦
        rw found (ground (arith, lookup-exclusions_in t l own.1 h.1, found, own.0 item found))
  ]

module _ {V : Type 0} where
  All-entries :
      (P : Instant → V → Type 0) (l : List (Instant × V))
      → IsSorted l
      → ((t : Instant) (v : V) → lookup t l ≡ some v → P t v)
      → All (λ e. P e.0 e.1) l
  unfolding lookup
  All-entries P [] sorted h = tt
  All-entries P ((k, v) ∷ l) sorted h = (
    h k v (ground arith),
    All-entries P l sorted.1 (λ t w e.
        h t w
          (ground (arith, e, lookup-below k l sorted.0, λ (p : k ≡ t). ap (λ x. lookup x l) p))),
  )

module _ {Num : Type 0} ⦃f : FloatOps Num⦄ where
  pair_up-IsPoint :
      (t : Instant) (p : GridFlowPoint Num)
      → IsPoint t p
      → pair_up (some p.imported) (some p.exported) p.exclusion ≡ some p
  pair_up-IsPoint t p h = ground (arith, h.is_explained)

  pairs-points :
      (start : Instant) (w : List (GridFlowPoint Num))
      → All (λ e. IsPoint e.0 e.1) (hourly start w)
      → AreValidPairs (map (λ p. p.imported) w) (map (λ p. p.exported) w)
  unfolding hourly
  pairs-points start [] h = tt
  pairs-points start (p ∷ w) h = (h.0.pair_valid, pairs-points (start + hour) w h.1)

  OwnHours-points :
      (l : List (Instant × GridFlowPoint Num)) → All (λ e. IsPoint e.0 e.1) l → OwnHours l
  OwnHours-points [] h = tt
  OwnHours-points (e ∷ l) h = (h.0.own_hour, OwnHours-points l h.1)

-- The series of the points `w` from `start` on.
abbrev pub flow_record :
    {Num : Type 0}
    → GridFlowData Num
    → Instant
    → Instant
    → Instant
    → List (GridFlowPoint Num)
    → GridFlowData Num
flow_record template start retrieved observed w = record {
  schema_version = template.schema_version;
  start_time = aware start;
  interval_minutes = 60;
  import_kw = map (λ p. p.imported) w;
  export_kw = map (λ p. p.exported) w;
  unit = template.unit;
  source = template.source;
  retrieved_at = aware retrieved;
  latest_observation_at = aware observed;
  exclusions = exclusions_in (hourly start w);
  quality = [];
}

module _ {Num : Type 0} ⦃f : FloatOps Num⦄ (s start retrieved observed : Instant)
    (template : GridFlowData Num) (w : List (GridFlowPoint Num)) (h : IsFlowHistory s template)
    (points : (t : Instant) (p : GridFlowPoint Num)
      → lookup t (hourly start w) ≡ some p
      → IsPoint t p) where
  entries-IsPoint : All (λ e. IsPoint e.0 e.1) (hourly start w)
  entries-IsPoint =
      All-entries (λ t p. IsPoint t p) (hourly start w) (hourly-IsSorted start w) points

  lookup-own_exclusions :
      (t : Instant)
      → lookup t (by_hour (exclusions_in (hourly start w)))
        ≡ exclusion_of (lookup t (hourly start w))
  lookup-own_exclusions t =
      lookup-exclusions_in t (hourly start w) (OwnHours-points _ entries-IsPoint)
        (hourly-IsSorted start w)

  pub flow_record-IsFlowHistory :
      start % hour ≡ 0
      → 0 < length w
      → IsFlowHistory start (flow_record template start retrieved observed w)
  flow_record-IsFlowHistory aligned nonempty = record {
    starts = refl;
    aligned = aligned;
    minutes = refl;
    in_kw = h.in_kw;
    retrieved = (retrieved, refl);
    observed = (observed, refl);
    nonempty = omega (arith, nonempty, length-map (λ (p : GridFlowPoint Num). p.imported) w);
    same_length =
        length-map (λ (p : GridFlowPoint Num). p.imported) w
        ∙ sym (length-map (λ (p : GridFlowPoint Num). p.exported) w);
    pairs_valid = pairs-points start w entries-IsPoint;
    one_exclusion = IsSorted-Unique _ (
        exclusions_in-IsSorted (hourly start w) (OwnHours-points _ entries-IsPoint)
          (hourly-IsSorted start w));
    explained = λ t. elim (Option-cases (lookup t (hourly start w))) [
      | inl absent ↦
          ground (arith, absent, lookup-map (λ p. p.imported) t start w, lookup-own_exclusions t)
      | inr (p, there) ↦ ground (
        arith,
        there,
        lookup-map (λ p. p.imported) t start w,
        lookup-own_exclusions t,
        (points t p there).is_explained,
      )
    ];
  }

  -- The points of the series are those that it was made from.
  pub flows_of-flow_record :
      hourly start (flows_of start (flow_record template start retrieved observed w))
      ≡ hourly start w
  flows_of-flow_record = sorted_ext _ _ (hourly-IsSorted start _) (hourly-IsSorted start w) (λ t.
      lookup-flows t start _ _ _ ∙ (elim (Option-cases (lookup t (hourly start w))) [
        | inl absent ↦ ground (arith, absent, lookup-map (λ p. p.imported) t start w)
        | inr (p, there) ↦
            rw
              (
                lookup-map (λ p. p.imported) t start w,
                lookup-map (λ p. p.exported) t start w,
                lookup-own_exclusions t,
                there,
              )
              (pair_up-IsPoint t p (points t p there))
      ]))
