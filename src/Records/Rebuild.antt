-- ===== src/Records/Rebuild.antt =====
-- `_with_points`: a history from contiguous points and their exclusions.
use energy_optimizer.Prelude.{
  ◌+◌, ◌%◌, ◌<◌, ◌≡◌, refl, true, false, Option, some, List, [], ◌∷◌, arith, ◌==◌, nat_eq, length,
  Dict, lookup, is_some, ap, All, subst, ok, Bool-cases, inl, inr,
}
use energy_optimizer.Prelude.Sorting.{IsSorted, IsSorted-Unique, lookup-below}
use energy_optimizer.Hours.{Instant, hour, hourly, hourly-IsSorted, values, Datetime, aware}
use energy_optimizer.Hours.Ranges.{values-hourly}
use energy_optimizer.Floats.{FloatOps}
use energy_optimizer.Exclusions.{HourExclusion}
use energy_optimizer.Series.{HouseholdLoadData, Label}
use energy_optimizer.Records.{
  as_utc, with_points, first_hour, exclusions_of, skips_hour, require_contiguous_hours,
}
use energy_optimizer.Records.Members.{lacks_value}
use energy_optimizer.Records.Points.{IsHistory, IsValidValue}
use energy_optimizer.Records.Exclude.{IsKeyed, exclusions_of-IsSorted, lookup-exclusions_of}

module _ {V : Type 0} where
  skips_hour-hourly : (start : Instant) (vs : List V) → skips_hour (hourly start vs) ≡ false
  unfolding skips_hour hourly
  skips_hour-hourly start [] = refl
  skips_hour-hourly start (v ∷ []) = refl
  skips_hour-hourly start (v ∷ w ∷ vs) = ground (arith, skips_hour-hourly (start + hour) (w ∷ vs))

  -- Hourly points are contiguous.
  pub require_contiguous_hours-hourly :
      (start : Instant) (vs : List V) (label : Label)
      → require_contiguous_hours (hourly start vs) label ≡ ok tt
  unfolding require_contiguous_hours
  require_contiguous_hours-hourly start vs label = rw skips_hour-hourly

  -- A property of all values that can be looked up is one of all values.
  pub All-lookup :
      (P : V → Type 0) (l : List (Instant × V))
      → IsSorted l
      → ((t : Instant) (v : V) → lookup t l ≡ some v → P v)
      → All P (values l)
  unfolding lookup
  All-lookup P [] sorted h = tt
  All-lookup P ((k, v) ∷ l) sorted h = (
    h k v (ground arith),
    All-lookup P l sorted.1 (λ t w e.
        h t w
          (ground (arith, e, lookup-below k l sorted.0, λ (p : k ≡ t). ap (λ x. lookup x l) p))),
  )

  pub lookup-All :
      (P : V → Type 0) (start t : Instant) (vs : List V) (v : V)
      → All P vs
      → lookup t (hourly start vs) ≡ some v
      → P v
  unfolding lookup hourly
  lookup-All P start t [] v h e = cc
  lookup-All P start t (w ∷ vs) v h e = elim (Bool-cases (start == t)) [
    | inl here ↦ subst P (ground (arith, e, here)) h.0
    | inr later ↦ lookup-All P (start + hour) t vs v h.1 (ground (arith, e, later))
  ]

module _ {Num : Type 0} where
  -- The history of the values `w` from `start` on, with the exclusions of its hours in `x`.
  abbrev pub rebuilt :
      HouseholdLoadData Num
      → Instant
      → List (Option Num)
      → Dict Instant (HourExclusion Num)
      → HouseholdLoadData Num
  rebuilt template start w x = record template {
    start_time = aware start;
    load_kw = w;
    exclusions = exclusions_of (hourly start w) x;
    quality = [];
  }

  first_hour-hourly :
      (start : Instant) (w : List (Option Num)) → 0 < length w → first_hour (hourly start w) ≡ start
  unfolding hourly
  first_hour-hourly start [] h = absurd (omega arith)
  first_hour-hourly start (v ∷ w) h = refl

pub as_utc-aware : (d : Datetime) (t : Instant) → d ≡ aware t → as_utc d ≡ ok t
unfolding as_utc
as_utc-aware d t e = rw e

module _ {Num : Type 0} ⦃f : FloatOps Num⦄ where
  pub with_points-hourly :
      (s start : Instant) (template : HouseholdLoadData Num) (w : List (Option Num))
      (x : Dict Instant (HourExclusion Num))
      → IsHistory s template
      → 0 < length w
      → with_points template (hourly start w) x ≡ ok (rebuilt template start w x)
  unfolding with_points
  with_points-hourly s start template w x h nonempty =
      rw
        (
          as_utc-aware template.retrieved_at h.retrieved.0 h.retrieved.1,
          as_utc-aware template.latest_observation_at h.observed.0 h.observed.1,
          first_hour-hourly start w nonempty,
          values-hourly,
        )
        (cc (h.retrieved.1, h.observed.1))

  pub rebuilt-IsHistory :
      (s start : Instant) (template : HouseholdLoadData Num) (w : List (Option Num))
      (x : Dict Instant (HourExclusion Num))
      → IsHistory s template
      → start % hour ≡ 0
      → 0 < length w
      → All (λ v. IsValidValue v) w
      → IsKeyed x
      → ((t : Instant)
          → is_some (lookup t (hourly start w)) ≡ true
          → lacks_value t (hourly start w) ≡ is_some (lookup t x))
      → IsHistory start (rebuilt template start w x)
  rebuilt-IsHistory s start template w x h aligned nonempty valid keyed matched = record {
    starts = refl;
    aligned = aligned;
    minutes = h.minutes;
    in_kw = h.in_kw;
    retrieved = h.retrieved;
    observed = h.observed;
    nonempty = nonempty;
    values_valid = valid;
    one_exclusion =
        IsSorted-Unique _
          (exclusions_of-IsSorted (hourly start w) x keyed (hourly-IsSorted start w));
    explained = λ t. ground (arith, lookup-exclusions_of t (hourly start w) x keyed, matched t);
  }
