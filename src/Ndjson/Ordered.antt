-- ===== src/Ndjson/Ordered.antt =====
-- The retained records of a file, hour by hour, and the history that they give.
use energy_optimizer.Prelude.{
  ◌+◌, ◌%◌, ◌<◌, false, Option, none, some, List, ◌∷◌, [], map, ◌==◌, nat_eq, ◌≡◌, refl, sym, ap,
  ◌∙◌, arith, length, Option-cases, inl, inr, Bool-cases, All, subst, lookup, is_some, is_none,
  nat_beq_iff, length-map,
}
use energy_optimizer.Prelude.Sorting.{IsSorted, IsSorted-Unique, lookup-below}
use energy_optimizer.Hours.{Instant, hour, hourly, hourly-IsSorted, values, aware}
use energy_optimizer.Hours.Ranges.{values-hourly}
use energy_optimizer.Floats.{FloatOps}
use energy_optimizer.Exclusions.{HourExclusion}
use energy_optimizer.Records.{skips_hour}
use energy_optimizer.Records.Members.{lacks, lacks_value}
use energy_optimizer.Records.Index.{by_hour}
use energy_optimizer.Records.Points.{IsHistory, IsValidValue}
use energy_optimizer.Ndjson.{HouseholdLoadRecord, mismatched}
use energy_optimizer.Ndjson.Parse.{record_exclusions, first_timestamp, model_of}
use energy_optimizer.Ndjson.Valid.{IsRecord}

module _ {V : Type 0} where
  abbrev pub start_key : List (Instant × V) → Instant
  start_key [] = 0
  start_key (e ∷ l) = e.0

  -- Sorted points that skip no hour are hourly.
  pub skips_hour-eq-hourly :
      (l : List (Instant × V))
      → IsSorted l
      → skips_hour l ≡ false
      → l ≡ hourly (start_key l) (values l)
  unfolding skips_hour hourly
  skips_hour-eq-hourly [] sorted h = refl
  skips_hour-eq-hourly ((k, v) ∷ []) sorted h = refl
  skips_hour-eq-hourly ((k, v) ∷ (j, w) ∷ l) sorted h =
      let next : j ≡ k + hour = ground (arith, sorted.0.0, h) in
      let rest = skips_hour-eq-hourly ((j, w) ∷ l) sorted.1 (ground (arith, h)) in
      ap (λ x. (k, v) ∷ x) (rest ∙ ap (λ t. hourly t (values ((j, w) ∷ l))) next)

module _ {Num : Type 0} where
  -- A record stands at its own hour.
  abbrev pub AtHour : Instant × HouseholdLoadRecord Num → Type 0
  AtHour e = e.1.timestamp ≡ e.0

  -- The exclusion of an hour is that of its record.
  abbrev pub record_exclusion : Option (HouseholdLoadRecord Num) → Option (HourExclusion Num)
  record_exclusion none = none
  record_exclusion (some r) = r.exclusion

module _ {Num : Type 0} ⦃f : FloatOps Num⦄ where
  -- A valid record, at its own hour.
  abbrev pub IsEntry : Instant × HouseholdLoadRecord Num → Type 0
  IsEntry e = AtHour e × IsRecord e.1

  own_exclusion :
      (t : Instant) (r : HouseholdLoadRecord Num) (item : HourExclusion Num)
      → AtHour (t, r)
      → IsRecord r
      → r.exclusion ≡ some item
      → item.hour_start ≡ t
  own_exclusion t r item here h e = let own = rw e at h.own_hour in ground (arith, own, here)

  pub record_exclusions-above :
      (t : Instant) (l : List (Instant × HouseholdLoadRecord Num))
      → All IsEntry l
      → All (λ e. t < e.0) l
      → All (λ e. t < e.0) (by_hour (record_exclusions (values l)))
  record_exclusions-above t [] h above = tt
  record_exclusions-above t ((k, r) ∷ l) h above = elim (Option-cases r.exclusion) [
    | inl nothing ↦ rw nothing (record_exclusions-above t l h.1 above.1)
    | inr (item, e) ↦ rw e (
      omega (arith, own_exclusion k r item h.0.0 h.0.1 e, above.0),
      record_exclusions-above t l h.1 above.1,
    )
  ]

  pub record_exclusions-IsSorted :
      (l : List (Instant × HouseholdLoadRecord Num))
      → All IsEntry l
      → IsSorted l
      → IsSorted (by_hour (record_exclusions (values l)))
  record_exclusions-IsSorted [] h sorted = tt
  record_exclusions-IsSorted ((k, r) ∷ l) h sorted = elim (Option-cases r.exclusion) [
    | inl nothing ↦ rw nothing (record_exclusions-IsSorted l h.1 sorted.1)
    | inr (item, e) ↦ rw e (
      subst (λ t. All (λ x. t < x.0) (by_hour (record_exclusions (values l))))
          (sym (own_exclusion k r item h.0.0 h.0.1 e)) (record_exclusions-above k l h.1 sorted.0),
      record_exclusions-IsSorted l h.1 sorted.1,
    )
  ]

  pub first_timestamp-hourly :
      (start : Instant) (w : List (HouseholdLoadRecord Num))
      → 0 < length w
      → first_timestamp (hourly start w) ≡ start
  unfolding hourly
  first_timestamp-hourly start [] h = absurd (omega arith)
  first_timestamp-hourly start (r ∷ w) h = refl

  -- Of the listed hours, those are excluded whose records are.
  pub lookup-record_exclusions :
      (t : Instant) (l : List (Instant × HouseholdLoadRecord Num))
      → All IsEntry l
      → IsSorted l
      → lookup t (by_hour (record_exclusions (values l))) ≡ record_exclusion (lookup t l)
  unfolding lookup
  lookup-record_exclusions t [] h sorted = refl
  lookup-record_exclusions t ((k, r) ∷ l) h sorted = elim (Option-cases r.exclusion) [
    | inl nothing ↦ rw nothing (
        ground (
          arith,
          nothing,
          lookup-record_exclusions t l h.1 sorted.1,
          λ (e : k ≡ t). ap (λ x. lookup x l) e,
          lookup-below k l sorted.0,
        ))
    | inr (item, e) ↦ rw e (
        ground (
          arith,
          e,
          lookup-record_exclusions t l h.1 sorted.1,
          own_exclusion k r item h.0.0 h.0.1 e,
        ))
  ]

  abbrev pub load_of : HouseholdLoadRecord Num → Option Num
  load_of r = r.load_kw

  -- The load of an hour that has a record.
  abbrev pub record_load : Option (HouseholdLoadRecord Num) → Option (Option Num)
  record_load none = none
  record_load (some r) = some r.load_kw

  pub lookup-loads :
      (start t : Instant) (w : List (HouseholdLoadRecord Num))
      → lookup t (hourly start (map load_of w)) ≡ record_load (lookup t (hourly start w))
  unfolding lookup hourly
  lookup-loads start t [] = refl
  lookup-loads start t (r ∷ w) = ground (arith, lookup-loads (start + hour) t w)

  pub loads-hourly :
      (start : Instant) (w : List (HouseholdLoadRecord Num))
      → map (λ e. e.1.load_kw) (hourly start w) ≡ map load_of w
  unfolding hourly
  loads-hourly start [] = refl
  loads-hourly start (r ∷ w) = ap (λ l. r.load_kw ∷ l) (loads-hourly (start + hour) w)

  pub lookup-IsEntry :
      (t : Instant) (l : List (Instant × HouseholdLoadRecord Num)) (r : HouseholdLoadRecord Num)
      → All IsEntry l
      → lookup t l ≡ some r
      → IsEntry (t, r)
  unfolding lookup
  lookup-IsEntry t [] r h e = cc
  lookup-IsEntry t ((k, q) ∷ l) r h e = elim (Bool-cases (k == t)) [
    | inl here ↦
        let same : q ≡ r = ground (arith, e, here) in
        (
          subst (λ (x : HouseholdLoadRecord Num). x.timestamp ≡ t) same
              (h.0.0 ∙ (nat_beq_iff k t).0 here),
          subst (λ (x : HouseholdLoadRecord Num). IsRecord x) same h.0.1,
        )
    | inr later ↦ lookup-IsEntry t l r h.1 (rw later at e)
  ]

  loads-valid :
      (l : List (Instant × HouseholdLoadRecord Num))
      → All IsEntry l
      → All IsValidValue (map load_of (values l))
  loads-valid [] h = tt
  loads-valid ((k, r) ∷ l) h = (h.0.1.valid_load, loads-valid l h.1)

  record_explained :
      (o : Option (HouseholdLoadRecord Num)) (t : Instant)
      → ((r : HouseholdLoadRecord Num) → o ≡ some r → IsEntry (t, r))
      → lacks (record_load o) ≡ is_some (record_exclusion o)
  record_explained none t h = refl
  record_explained (some r) t h = matched r.load_kw r.exclusion (h r refl).1.explained
    where
      matched :
          (v : Option Num) (x : Option (HourExclusion Num))
          → mismatched v x ≡ false
          → is_none v ≡ is_some x
      matched none x e = ground (arith, e)
      matched (some v) x e = ground (arith, e)

  -- The model of hourly records starts at the first of them and is well formed.
  pub model_of-IsHistory :
      (start : Instant) (w : List (HouseholdLoadRecord Num)) (latest : HouseholdLoadRecord Num)
      → start % hour ≡ 0
      → 0 < length w
      → All IsEntry (hourly start w)
      → IsRecord latest
      → IsHistory start (model_of (hourly start w) latest)
  unfolding model_of
  model_of-IsHistory start w latest aligned nonempty entries last =
      let l = hourly start w in
      record {
        starts = ap aware (first_timestamp-hourly start w nonempty);
        aligned = aligned;
        minutes = refl;
        in_kw = last.in_kw;
        retrieved = (latest.retrieved_at, refl);
        observed = (latest.latest_observation_at, refl);
        nonempty = rw (loads-hourly, length-map) nonempty;
        values_valid =
            subst (λ v. All IsValidValue v)
              (ap (map load_of) (values-hourly start w) ∙ sym (loads-hourly start w))
              (loads-valid l entries);
        one_exclusion =
            IsSorted-Unique _ (record_exclusions-IsSorted l entries (hourly-IsSorted start w));
        explained = λ t.
            ap (λ v. lacks_value t (hourly start v)) (loads-hourly start w)
            ∙ ap lacks (lookup-loads start t w)
            ∙ record_explained (lookup t l) t (λ r e. lookup-IsEntry t l r entries e)
            ∙ ap is_some (sym (lookup-record_exclusions t l entries (hourly-IsSorted start w)));
      }
