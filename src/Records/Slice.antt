-- ===== src/Records/Slice.antt =====
-- `slice_household_load`: the hours of a period.
use energy_optimizer.Prelude.{
  ℕ, suc, ◌+◌, ◌*◌, ◌%◌, ◌≤◌, ◌<◌, ◌≡◌, refl, sym, ap, ◌∙◌, Bool, true, false, ◌&&◌, Option, none,
  some, List, [], ◌∷◌, arith, ltb, leb, nat_eq, if◌then◌else◌, length, lookup, All, ok, Bool-cases,
  inl, inr, subst,
}
use energy_optimizer.Prelude.Sorting.{
  sorted_items, sorted_items-IsSorted, lookup-sorted_items, sorted_ext, IsSorted-Unique,
}
use energy_optimizer.Hours.{Instant, hour, hourly, hourly-IsSorted}
use energy_optimizer.Hours.Ranges.{values-hourly}
use energy_optimizer.Floats.{FloatOps}
use energy_optimizer.Series.{HouseholdLoadData}
use energy_optimizer.Records.{in_period, slice_household_load}
use energy_optimizer.Records.Index.{by_hour}
use energy_optimizer.Records.Points.{
  IsHistory, IsValidValue, household_load_points-IsHistory, nonempty_test,
}
use energy_optimizer.Records.Exclude.{by_hour-IsKeyed, lookup-exclusions_of}
use energy_optimizer.Records.Rebuild.{
  rebuilt, with_points-hourly, rebuilt-IsHistory, All-lookup, lookup-All,
}
use energy_optimizer.Records.Missing.{value_at, exclusion_at}
use energy_optimizer.Records.Laid.{household_load_exclusion_points-IsHistory}

pub sorted_items-hourly :
    {V : Type 0} (start : Instant) (vs : List V) → sorted_items (hourly start vs) ≡ hourly start vs
sorted_items-hourly start vs =
    let sorted = hourly-IsSorted start vs in
    sorted_ext _ _ (sorted_items-IsSorted (hourly start vs) (IsSorted-Unique _ sorted)) sorted
      (λ t. lookup-sorted_items t (hourly start vs))

pub length-hourly :
    {V : Type 0} (start : Instant) (vs : List V) → length (hourly start vs) ≡ length vs
unfolding hourly
length-hourly start [] = refl
length-hourly start (v ∷ vs) = ap suc (length-hourly (start + hour) vs)

no_hours : (Num : Type 0) (t s : Instant) → lookup t (hourly {V = Option Num} s []) ≡ none
unfolding lookup hourly
no_hours Num t s = refl

module _ {Num : Type 0} where
  abbrev no_values : List (Option Num)
  no_values = []

  lookup-in_period :
      (a b t : Instant) (l : List (Instant × Option Num))
      → lookup t (in_period a b l) ≡ (if leb a t && ltb t b then lookup t l else none)
  unfolding lookup
  lookup-in_period a b t [] = ground arith
  lookup-in_period a b t ((k, v) ∷ l) = ground (arith, lookup-in_period a b t l)

  in_period-late :
      (a b start : Instant) (vs : List (Option Num))
      → b ≤ start
      → in_period a b (hourly start vs) ≡ []
  unfolding hourly
  in_period-late a b start [] h = refl
  in_period-late a b start (v ∷ vs) h =
      let late : (leb a start && ltb start b) ≡ false = ground arith in
      rw late (in_period-late a b (start + hour) vs (omega arith))

  in_period-started :
      (a b start : Instant) (vs : List (Option Num))
      → a ≤ start
      → (w : List (Option Num)) × (in_period a b (hourly start vs) ≡ hourly start w)
  unfolding hourly
  in_period-started a b start [] h = ([], refl)
  in_period-started a b start (v ∷ vs) h = elim (Bool-cases (ltb start b)) [
    | inl early ↦
        let (w, e) = in_period-started a b (start + hour) vs (omega arith) in
        let within : (leb a start && ltb start b) ≡ true = ground arith in
        (v ∷ w, rw within (ap (λ l. (start, v) ∷ l) e))
    | inr late ↦
        let outside : (leb a start && ltb start b) ≡ false = ground arith in
        ([], rw outside (in_period-late a b (start + hour) vs (ground (arith, late))))
  ]

  -- The hours of a period are contiguous.
  in_period-hourly :
      (a b start : Instant) (vs : List (Option Num))
      → (k : ℕ) × (w : List (Option Num)) × (in_period a b (hourly start vs)
          ≡ hourly (start + k * hour) w)
  unfolding hourly
  in_period-hourly a b start [] = (0, [], refl)
  in_period-hourly a b start (v ∷ vs) = elim (Bool-cases (leb a start)) [
    | inl started ↦
        let (w, e) = in_period-started a b start (v ∷ vs) (ground (arith, started)) in
        (0, w, (unfold hourly in e) ∙ ap (λ t. hourly t w) (omega arith))
    | inr before ↦
        let (k, w, e) = in_period-hourly a b (start + hour) vs in
        let outside : (leb a start && ltb start b) ≡ false = ground (arith, before) in
        (suc k, w, rw outside (e ∙ ap (λ t. hourly t w) (omega arith)))
  ]

-- The hours `w` from `s` on, cut out of a history.
module _ {Num : Type 0} ⦃f : FloatOps Num⦄ (start s : Instant) (d : HouseholdLoadData Num)
    (h : IsHistory start d) (w : List (Option Num)) (aligned : s % hour ≡ 0) (keep : Instant → Bool)
    (cut : (t : Instant)
      → lookup t (hourly s w) ≡ (if keep t then value_at start t d else none)) where
  abbrev pub excerpt : HouseholdLoadData Num
  excerpt = rebuilt d s w (by_hour d.exclusions)

  excerpt_values : All (λ v. IsValidValue v) w
  excerpt_values =
      subst (λ l. All (λ v. IsValidValue v) l) (values-hourly s w)
        (All-lookup _ (hourly s w) (hourly-IsSorted s w) (λ t v there.
          lookup-All _ start t d.load_kw v h.values_valid (ground (arith, there, cut t))))

  pub excerpt-IsHistory : 0 < length w → IsHistory s excerpt
  excerpt-IsHistory nonempty =
      rebuilt-IsHistory start s d w (by_hour d.exclusions) h aligned nonempty excerpt_values
        (by_hour-IsKeyed d.exclusions) (λ t there. ground (arith, there, cut t, h.explained t))

  pub exclusion_at-excerpt :
      (t : Instant) → exclusion_at t excerpt ≡ (if keep t then exclusion_at t d else none)
  exclusion_at-excerpt t =
      lookup-exclusions_of t (hourly s w) (by_hour d.exclusions) (by_hour-IsKeyed d.exclusions)
      ∙ ground (arith, cut t, h.explained t)

module _ {Num : Type 0} ⦃f : FloatOps Num⦄ where
  -- What the slice from `a` to `b` of the history `d`, which starts at `start`, has to be.
  pub data IsSlice (start a b : Instant) (d : HouseholdLoadData Num)
      : Option (HouseholdLoadData Num) → Type 0 where
    no_hour :
        ((t : Instant) → (leb a t && ltb t b) ≡ true → value_at start t d ≡ none)
        → IsSlice start a b d none
    some_hours :
        (s : Instant) (slice : HouseholdLoadData Num)
        → IsHistory s slice
        → ((t : Instant)
            → value_at s t slice ≡ (if leb a t && ltb t b then value_at start t d else none))
        → ((t : Instant)
            → exclusion_at t slice ≡ (if leb a t && ltb t b then exclusion_at t d else none))
        → IsSlice start a b d (some slice)

  sliced :
      (start a b : Instant) (d : HouseholdLoadData Num) (k : ℕ) (w : List (Option Num))
      → IsHistory start d
      → in_period a b (hourly start d.load_kw) ≡ hourly (start + k * hour) w
      → (r : Option (HouseholdLoadData Num)) × (slice_household_load d a b ≡ ok r)
        × IsSlice start a b d r
  unfolding slice_household_load
  sliced start a b d k [] h e = (
    none,
    rw (
      household_load_points-IsHistory start d h,
      household_load_exclusion_points-IsHistory start d h,
      sorted_items-hourly start d.load_kw,
      e,
      length-hourly (start + k * hour) (no_values {Num = Num}),
    ),
    no_hour (λ t within. ground (
      arith,
      within,
      lookup-in_period a b t (hourly start d.load_kw),
      ap (lookup t) e ∙ no_hours Num t (start + k * hour),
    )),
  )
  sliced start a b d k (v ∷ w) h e =
      let s = start + k * hour in
      let cut : (t : Instant)
          → lookup t (hourly s (v ∷ w))
            ≡ (if leb a t && ltb t b then value_at start t d else none) =
        λ t. ap (lookup t) (sym e) ∙ lookup-in_period a b t (hourly start d.load_kw) in
      let aligned : s % hour ≡ 0 = omega (arith, h.aligned) in
      let keep : Instant → Bool = λ t. leb a t && ltb t b in
      let slice = excerpt start s d h (v ∷ w) aligned keep cut in
      (
        some slice,
        rw (
          household_load_points-IsHistory start d h,
          household_load_exclusion_points-IsHistory start d h,
          sorted_items-hourly start d.load_kw,
          e,
          length-hourly s (v ∷ w),
          nonempty_test (suc (length w)) (omega arith),
          with_points-hourly start s d (v ∷ w) (by_hour d.exclusions) h (omega arith),
        ),
        some_hours s slice (excerpt-IsHistory start s d h (v ∷ w) aligned keep cut (omega arith))
            cut (exclusion_at-excerpt start s d h (v ∷ w) aligned keep cut),
      )

  -- A slice of a well-formed history is found for every period. If no hour of the history starts
  -- within the period, there is none; otherwise the slice is a well-formed history with exactly the
  -- hours that start within the period, and the values and exclusions that they have.
  pub slice_household_load-IsSlice :
      (start a b : Instant) (d : HouseholdLoadData Num)
      → IsHistory start d
      → (r : Option (HouseholdLoadData Num)) × (slice_household_load d a b ≡ ok r)
        × IsSlice start a b d r
  slice_household_load-IsSlice start a b d h =
      let (k, w, e) = in_period-hourly a b start d.load_kw in sliced start a b d k w h e
