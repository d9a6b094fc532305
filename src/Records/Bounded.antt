-- ===== src/Records/Bounded.antt =====
-- `bounded_household_load`: what retention keeps of a history.
use energy_optimizer.Prelude.{
  ℕ, ◌+◌, ◌-◌, ◌*◌, ◌%◌, ◌≡◌, refl, sym, ap, ◌∙◌, true, false, Option, none, List, arith, leb,
  nat_eq, ◌==◌, if◌then◌else◌, length, lookup, drop, take_last, min, ok, Bool-cases, inl, inr,
  length-drop, subst,
}
use energy_optimizer.Hours.{Instant, hour, hourly}
use energy_optimizer.Hours.Ranges.{drop-hourly, lookup-drop}
use energy_optimizer.Floats.{FloatOps}
use energy_optimizer.Series.{HouseholdLoadData, household_load_max_values}
use energy_optimizer.Records.{bounded_household_load}
use energy_optimizer.Records.Index.{by_hour}
use energy_optimizer.Records.Points.{IsHistory, household_load_points-IsHistory}
use energy_optimizer.Records.Rebuild.{with_points-hourly, require_contiguous_hours-hourly}
use energy_optimizer.Records.Missing.{value_at, exclusion_at}
use energy_optimizer.Records.Laid.{household_load_exclusion_points-IsHistory}
use energy_optimizer.Records.Slice.{
  sorted_items-hourly, length-hourly, excerpt, excerpt-IsHistory, exclusion_at-excerpt,
}

module _ {Num : Type 0} ⦃f : FloatOps Num⦄ where
  -- What the bounded history has to be, for a history that starts at `start`.
  pub record IsBounded (start : Instant) (d bounded : HouseholdLoadData Num) : Type 0 where
    -- the first hour that is kept
    pub first : Instant
    pub last_hours : first ≡ start + (length d.load_kw - household_load_max_values) * hour
    pub history : IsHistory first bounded
    pub size : length bounded.load_kw ≡ min household_load_max_values (length d.load_kw)
    pub kept_values :
        (t : Instant)
        → value_at first t bounded ≡ (if leb first t then value_at start t d else none)
    pub kept_exclusions :
        (t : Instant) → exclusion_at t bounded ≡ (if leb first t then exclusion_at t d else none)

-- The last hours of a history.
module _ {Num : Type 0} ⦃f : FloatOps Num⦄ (start : Instant) (d : HouseholdLoadData Num)
    (h : IsHistory start d) where
  abbrev dropped : ℕ
  dropped = length d.load_kw - household_load_max_values

  abbrev first_kept : Instant
  first_kept = start + dropped * hour

  abbrev last_values : List (Option Num)
  last_values = drop dropped d.load_kw

  cut :
      (t : Instant)
      → lookup t (hourly first_kept last_values)
        ≡ (if leb first_kept t then value_at start t d else none)
  cut t = lookup-drop dropped start t d.load_kw

  aligned_kept : first_kept % hour ≡ 0
  aligned_kept = omega (arith, h.aligned)

  length-last_values : length last_values ≡ min household_load_max_values (length d.load_kw)
  length-last_values = omega (arith, length-drop dropped d.load_kw)

  taken :
      take_last household_load_max_values (hourly start d.load_kw) ≡ hourly first_kept last_values
  taken =
      ap (λ n. drop (n - household_load_max_values) (hourly start d.load_kw))
        (length-hourly start d.load_kw)
      ∙ drop-hourly dropped start d.load_kw

  abbrev last_part : HouseholdLoadData Num
  last_part = excerpt start first_kept d h last_values aligned_kept (λ t. leb first_kept t) cut

  last_part-IsBounded : IsBounded start d last_part
  last_part-IsBounded = record {
    first = first_kept;
    last_hours = refl;
    history =
        excerpt-IsHistory start first_kept d h last_values aligned_kept (λ t. leb first_kept t) cut
          (omega (arith, length-last_values, h.nonempty));
    size = length-last_values;
    kept_values = cut;
    kept_exclusions =
        exclusion_at-excerpt start first_kept d h last_values aligned_kept (λ t. leb first_kept t)
          cut;
  }

  -- A history that is not longer is kept whole.
  whole-IsBounded : length last_values ≡ length d.load_kw → IsBounded start d d
  whole-IsBounded whole =
      let nothing : dropped ≡ 0 = omega (arith, whole, length-last_values, h.nonempty) in
      let same_values : last_values ≡ d.load_kw = ap (λ k. drop k d.load_kw) nothing in
      let values_kept : (t : Instant)
          → value_at first_kept t d ≡ (if leb first_kept t then value_at start t d else none) =
        λ t. ap (λ l. lookup t (hourly first_kept l)) (sym same_values) ∙ cut t in
      let from : start ≡ first_kept = omega (arith, nothing) in
      record {
        first = first_kept;
        last_hours = refl;
        history = subst (λ s. IsHistory s d) from h;
        size = sym whole ∙ length-last_values;
        kept_values = values_kept;
        kept_exclusions =
            λ t. ground (arith, values_kept t, h.explained t, ap (λ s. value_at s t d) from);
      }

  bounded_whole : (length last_values == length d.load_kw) ≡ true → bounded_household_load d ≡ ok d
  unfolding bounded_household_load
  bounded_whole whole = rw (
    household_load_points-IsHistory start d h,
    sorted_items-hourly start d.load_kw,
    require_contiguous_hours-hourly,
    taken,
    household_load_exclusion_points-IsHistory start d h,
    length-hourly first_kept last_values,
    whole,
  )

  bounded_part :
      (length last_values == length d.load_kw) ≡ false → bounded_household_load d ≡ ok last_part
  unfolding bounded_household_load
  bounded_part less = rw (
    household_load_points-IsHistory start d h,
    sorted_items-hourly start d.load_kw,
    require_contiguous_hours-hourly,
    taken,
    household_load_exclusion_points-IsHistory start d h,
    length-hourly first_kept last_values,
    less,
    with_points-hourly start first_kept d last_values (by_hour d.exclusions) h
        (omega (arith, length-last_values, h.nonempty)),
  )

module _ {Num : Type 0} ⦃f : FloatOps Num⦄ where
  -- A well-formed history is bounded to its last 87,672 hours: the bounded history is well formed,
  -- and the kept hours have the values and exclusions that they had.
  pub bounded_household_load-IsBounded :
      (start : Instant) (d : HouseholdLoadData Num)
      → IsHistory start d
      → (bounded : HouseholdLoadData Num) × (bounded_household_load d ≡ ok bounded)
        × IsBounded start d bounded
  bounded_household_load-IsBounded start d h =
      elim (Bool-cases (length (last_values start d h) == length d.load_kw)) [
        | inl whole ↦
            (d, bounded_whole start d h whole, whole-IsBounded start d h (ground (arith, whole)))
        | inr less ↦
            (last_part start d h, bounded_part start d h less, last_part-IsBounded start d h)
      ]
