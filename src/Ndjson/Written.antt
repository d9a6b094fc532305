-- ===== src/Ndjson/Written.antt =====
-- `household_load_records`: the records of a history, one an hour.
use energy_optimizer.Prelude.{
  ℕ, ◌+◌, ◌%◌, ◌<◌, true, false, Option, none, some, List, ◌∷◌, [], map, nat_eq, ◌≡◌, refl, sym, ap,
  ◌∙◌, arith, length, Option-cases, inl, inr, ok, All, lookup, is_some, is_none, nat_beq_iff,
  length-map,
}
use energy_optimizer.Prelude.Sorting.{IsSorted, lookup-below}
use energy_optimizer.Hours.{
  Instant, hour, hourly, hourly-IsSorted, aware, in_range, lookup-hourly_domain,
}
use energy_optimizer.Floats.{FloatOps}
use energy_optimizer.Exclusions.{HourExclusion}
use energy_optimizer.Series.{HouseholdLoadData}
use energy_optimizer.Records.{exclusions_of}
use energy_optimizer.Records.Members.{lacks}
use energy_optimizer.Records.Index.{by_hour}
use energy_optimizer.Records.Points.{IsHistory, household_load_points-IsHistory}
use energy_optimizer.Records.Exclude.{by_hour-IsKeyed, lookup-IsKeyed}
use energy_optimizer.Records.Rebuild.{lookup-All, as_utc-aware}
use energy_optimizer.Records.Missing.{value_at, exclusion_at}
use energy_optimizer.Records.Laid.{household_load_exclusion_points-IsHistory}
use energy_optimizer.Records.Slice.{sorted_items-hourly, length-hourly}
use energy_optimizer.Hours.Ranges.{values-hourly}
use energy_optimizer.Ndjson.{HouseholdLoadRecord, mismatched, of_another_hour}
use energy_optimizer.Ndjson.Encode.{records_loop, household_load_records}
use energy_optimizer.Ndjson.Parse.{by_timestamp, record_exclusions, model_of}
use energy_optimizer.Ndjson.Ordered.{load_of, loads-hourly, first_timestamp-hourly}
use energy_optimizer.Ndjson.Valid.{IsRecord, validated_record-IsRecord}

-- What holds of every entry that can be looked up holds of all.
pub All-entries :
    {V : Type 0} (P : Instant × V → Type 0) (l : List (Instant × V))
    → IsSorted l
    → ((t : Instant) (v : V) → lookup t l ≡ some v → P (t, v))
    → All P l
unfolding lookup
All-entries P [] sorted h = tt
All-entries P ((k, v) ∷ l) sorted h = (
  h k v (ground (arith, nat_beq_iff k k)),
  All-entries P l sorted.1 (λ t w e.
      h t w (ground (arith, e, lookup-below k l sorted.0, λ (p : k ≡ t). ap (λ x. lookup x l) p))),
)

whole_hour : (start n t : ℕ) → start % hour ≡ 0 → in_range start n t ≡ true → t % hour ≡ 0
unfolding in_range
whole_hour start n t a h = ground (arith, a, h)

module _ {Num : Type 0} ⦃f : FloatOps Num⦄ (start : Instant) (d : HouseholdLoadData Num)
    (h : IsHistory start d) where
  -- The record of the hour `t`, whose value is `v`.
  abbrev record_at : Instant → Option Num → HouseholdLoadRecord Num
  record_at t v = record {
    timestamp = t;
    load_kw = v;
    exclusion = exclusion_at t d;
    quality = none;
    schema_version = d.schema_version;
    unit = d.unit;
    source = record { provider = d.source.provider; entity_id = d.source.entity_id };
    retrieved_at = h.retrieved.0;
    latest_observation_at = h.observed.0;
  }

  abbrev pub records_from : List (Instant × Option Num) → List (HouseholdLoadRecord Num)
  records_from points = map (λ e. record_at e.0 e.1) points

  -- The records of the history.
  abbrev pub records_of : List (HouseholdLoadRecord Num)
  records_of = records_from (hourly start d.load_kw)

  record_at-explained :
      (t : Instant) (v : Option Num)
      → value_at start t d ≡ some v
      → mismatched v (exclusion_at t d) ≡ false
  record_at-explained t v e = go v (exclusion_at t d) (ap lacks (sym e) ∙ h.explained t)
    where
      go :
          (v : Option Num) (x : Option (HourExclusion Num))
          → is_none v ≡ is_some x
          → mismatched v x ≡ false
      go none x p = ground (arith, p)
      go (some v) x p = ground (arith, p)

  record_at-own_hour :
      (t : Instant) (o : Option (HourExclusion Num))
      → exclusion_at t d ≡ o
      → of_another_hour t o ≡ false
  record_at-own_hour t none e = refl
  record_at-own_hour t (some item) e =
      ground (arith, lookup-IsKeyed t (by_hour d.exclusions) item (by_hour-IsKeyed d.exclusions) e)

  record_at-IsRecord :
      d.schema_version ≡ "1"
      → (t : Instant) (v : Option Num) → value_at start t d ≡ some v
      → IsRecord (record_at t v)
  record_at-IsRecord version t v e = record {
    aligned =
        whole_hour start (length d.load_kw) t h.aligned
          (sym (lookup-hourly_domain start d.load_kw t) ∙ ap is_some e);
    valid_load = lookup-All _ start t d.load_kw v h.values_valid e;
    version = version;
    in_kw = h.in_kw;
    no_quality = refl;
    explained = record_at-explained t v e;
    own_hour = record_at-own_hour t (exclusion_at t d) refl;
  }

  records-IsRecord :
      (points : List (Instant × Option Num))
      → All (λ e. IsRecord (record_at e.0 e.1)) points
      → All (λ r. IsRecord r) (records_from points)
  records-IsRecord [] a = tt
  records-IsRecord (e ∷ points) a = (a.0, records-IsRecord points a.1)

  points-IsRecord :
      d.schema_version ≡ "1" → All (λ e. IsRecord (record_at e.0 e.1)) (hourly start d.load_kw)
  points-IsRecord version =
      All-entries (λ e. IsRecord (record_at e.0 e.1)) (hourly start d.load_kw)
        (hourly-IsSorted start d.load_kw) (record_at-IsRecord version)

  pub records_of-IsRecord : d.schema_version ≡ "1" → All (λ r. IsRecord r) records_of
  records_of-IsRecord version = records-IsRecord (hourly start d.load_kw) (points-IsRecord version)

  records_loop-points :
      (points : List (Instant × Option Num))
      → All (λ e. IsRecord (record_at e.0 e.1)) points
      → records_loop d (by_hour d.exclusions) points ≡ ok (records_from points)
  unfolding records_loop
  records_loop-points [] a = refl
  records_loop-points ((t, v) ∷ points) a =
      rw
        (
          as_utc-aware d.retrieved_at h.retrieved.0 h.retrieved.1,
          as_utc-aware d.latest_observation_at h.observed.0 h.observed.1,
          validated_record-IsRecord (record_at t v) a.0,
          records_loop-points points a.1,
        )
        refl

  -- A well-formed history of version 1 is stored: each of its hours has a record.
  pub household_load_records-IsHistory :
      d.schema_version ≡ "1" → household_load_records d ≡ ok records_of
  unfolding household_load_records
  household_load_records-IsHistory version =
      rw
        (
          household_load_points-IsHistory start d h,
          household_load_exclusion_points-IsHistory start d h,
          sorted_items-hourly start d.load_kw,
        )
        (records_loop-points (hourly start d.load_kw) (points-IsRecord version))

  by_timestamp-records_from :
      (s : Instant) (vs : List (Option Num))
      → by_timestamp (records_from (hourly s vs)) ≡ hourly s (records_from (hourly s vs))
  unfolding hourly
  by_timestamp-records_from s [] = refl
  by_timestamp-records_from s (v ∷ vs) =
      ap (λ l. (s, record_at s v) ∷ l) (by_timestamp-records_from (s + hour) vs)

  -- By their hours, the records are hourly.
  pub by_timestamp-records_of : by_timestamp records_of ≡ hourly start records_of
  by_timestamp-records_of = by_timestamp-records_from start d.load_kw

  record_exclusions-records_from :
      (points : List (Instant × Option Num))
      → record_exclusions (records_from points) ≡ exclusions_of points (by_hour d.exclusions)
  unfolding exclusions_of
  record_exclusions-records_from [] = refl
  record_exclusions-records_from ((t, v) ∷ points) = elim (Option-cases (exclusion_at t d)) [
    | inl nothing ↦ rw (nothing, exclusions_of) (record_exclusions-records_from points)
    | inr (item, found) ↦
        rw (found, exclusions_of) (ap (λ l. item ∷ l) (record_exclusions-records_from points))
  ]

  -- The records carry the exclusions of the history, in the order of their hours.
  pub record_exclusions-records_of :
      record_exclusions records_of ≡ exclusions_of (hourly start d.load_kw) (by_hour d.exclusions)
  record_exclusions-records_of = record_exclusions-records_from (hourly start d.load_kw)

  loads-records_from :
      (s : Instant) (vs : List (Option Num)) → map load_of (records_from (hourly s vs)) ≡ vs
  unfolding hourly
  loads-records_from s [] = refl
  loads-records_from s (v ∷ vs) = ap (λ l. v ∷ l) (loads-records_from (s + hour) vs)

  pub loads-records_of : map load_of records_of ≡ d.load_kw
  loads-records_of = loads-records_from start d.load_kw

  pub length-records_of : length records_of ≡ length d.load_kw
  length-records_of =
      length-map (λ (e : Instant × Option Num). record_at e.0 e.1) (hourly start d.load_kw)
      ∙ length-hourly start d.load_kw

  -- A record that says of all what the history says.
  pub record Speaks (r : HouseholdLoadRecord Num) : Type 0 where
    pub schema : r.schema_version ≡ d.schema_version
    pub measure : r.unit ≡ d.unit
    pub origin : r.source ≡ record { provider = d.source.provider; entity_id = d.source.entity_id }
    pub retrieved : r.retrieved_at ≡ h.retrieved.0
    pub observed : r.latest_observation_at ≡ h.observed.0

  pub records_from-Speaks :
      (points : List (Instant × Option Num)) → All (λ r. Speaks r) (records_from points)
  records_from-Speaks [] = tt
  records_from-Speaks (e ∷ points) = (
    record { schema = refl; measure = refl; origin = refl; retrieved = refl; observed = refl },
    records_from-Speaks points,
  )

  -- A model from hourly records whose latest record is one of the history.
  pub model_of-Speaks :
      (s : Instant) (w : List (HouseholdLoadRecord Num)) (r : HouseholdLoadRecord Num)
      → 0 < length w
      → Speaks r
      → model_of (hourly s w) r ≡ record d {
        start_time = aware s;
        load_kw = map load_of w;
        exclusions = record_exclusions w;
        quality = [];
      }
  unfolding model_of
  model_of-Speaks s w r nonempty speaks =
      rw (first_timestamp-hourly s w nonempty, loads-hourly, values-hourly)
        (cc (
          speaks.schema, speaks.measure, speaks.origin, speaks.retrieved, speaks.observed,
          h.minutes, h.retrieved.1, h.observed.1,
        ))
