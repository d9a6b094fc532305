-- ===== src/Records/Points.antt =====
-- `household_load_points`: a history is accepted exactly if it is well formed, and its points are
-- then its values, hour by hour.
use energy_optimizer.Prelude.{
  ℕ, ◌+◌, ◌*◌, ◌%◌, ◌≡◌, ◌<◌, refl, sym, true, false, Option, none, List, [], ◌∷◌, ◌++◌, arith,
  ◌==◌, nat_eq, Dict, String, lookup, insert, is_some, Unique, ap, All, ◌∙◌, ok, >>=-eq-ok,
  raise_if-then, not, ◌||◌, subst, length, All-append, string_eq,
}
use mathlib.Core.List.{append_assoc, append-nil}
use energy_optimizer.Prelude.Sorting.{IsSorted-Unique}
use energy_optimizer.Hours.{
  Instant, hour, Datetime, naive, aware, has_subhour_component, hourly, hourly-IsSorted,
}
use energy_optimizer.Floats.{FloatOps}
use energy_optimizer.Exclusions.{HourExclusion}
use energy_optimizer.Series.{
  HouseholdLoadData, household_load, not_aligned, not_hourly, empty_history, exclusion_mismatch,
}
use energy_optimizer.Records.{
  as_utc, index_exclusions, household_load_exclusion_points, household_load_points, points_loop,
  is_invalid_load, keys, keys_without_value, same_members,
}
use energy_optimizer.Records.Members.{
  insert-append, lacks_value, member-keys, member-keys_without_value, same_members-member,
  member-same_members,
}
use energy_optimizer.Records.Index.{by_hour, index_exclusions-Unique, Unique-index_exclusions}

module _ {V : Type 0} where
  -- A key above all others is not there.
  pub lookup-beyond : (t : Instant) (d : Dict Instant V) → All (λ e. e.0 < t) d → lookup t d ≡ none
  unfolding lookup
  lookup-beyond t [] h = refl
  lookup-beyond t ((k, v) ∷ d) h = ground (arith, lookup-beyond t d h.1)

  pub All-beyond :
      (t u : Instant) (d : Dict Instant V) → t < u → All (λ e. e.0 < t) d → All (λ e. e.0 < u) d
  All-beyond t u [] lt h = tt
  All-beyond t u (e ∷ d) lt h = (omega arith, All-beyond t u d lt h.1)

pub next_hour : (start index : ℕ) → start + (index + 1) * hour ≡ start + index * hour + hour
next_hour start index = omega arith

pub as_utc-eq-ok : (t : Datetime) (s : Instant) → as_utc t ≡ ok s → t ≡ aware s
unfolding as_utc
as_utc-eq-ok (naive w) s h = cc
as_utc-eq-ok (aware u) s h = cc

pub nonempty_test : (n : ℕ) → 0 < n → (n == 0) ≡ false
nonempty_test n h = ground arith

pub unit_test : (u : String) → u ≡ "kW" → (u == "kW") ≡ true
unit_test u e = (string_eq.eqb_iff u "kW").1 e

module _ {Num : Type 0} ⦃f : FloatOps Num⦄ where
  abbrev pub IsValidValue : Option Num → Type 0
  IsValidValue v = is_invalid_load v ≡ false

  points_loop-hourly :
      (start : Instant) (index : ℕ) (vs : List (Option Num)) (d : Dict Instant (Option Num))
      → All (λ e. e.0 < start + index * hour) d
      → All IsValidValue vs
      → points_loop start index vs d ≡ ok (d ++ hourly (start + index * hour) vs)
  unfolding points_loop hourly
  points_loop-hourly start index [] d below h = rw append-nil
  points_loop-hourly start index (v ∷ vs) d below h =
      let t = start + index * hour in
      rw (h.0, insert-append t v d (lookup-beyond t d below), sym (next_hour start index))
        (points_loop-hourly start (index + 1) vs (d ++ (t, v) ∷ [])
            (All-append _ d ((t, v) ∷ [])
              (All-beyond t (start + (index + 1) * hour) d (omega arith) below) (omega arith, tt))
            h.1
          ∙ ap ok (append_assoc d ((t, v) ∷ []) (hourly (start + (index + 1) * hour) vs)))

  All-points_loop :
      (start : Instant) (index : ℕ) (vs : List (Option Num)) (d x : Dict Instant (Option Num))
      → points_loop start index vs d ≡ ok x
      → All IsValidValue vs
  unfolding points_loop
  All-points_loop start index [] d x e = tt
  All-points_loop start index (v ∷ vs) d x e =
      let d' = insert (start + index * hour) v d in
      (ground arith, All-points_loop start (index + 1) vs d' x (ground arith))

  points_loop-start :
      (start : Instant) (vs : List (Option Num))
      → All IsValidValue vs
      → points_loop start 0 vs [] ≡ ok (hourly start vs)
  points_loop-start start vs h =
      points_loop-hourly start 0 vs [] tt h ∙ ap (λ t. ok (hourly t vs)) (omega arith)

  -- A well-formed history that starts at `start`.
  pub record IsHistory (start : Instant) (d : HouseholdLoadData Num) : Type 0 where
    pub starts : d.start_time ≡ aware start
    pub aligned : start % hour ≡ 0
    pub minutes : d.interval_minutes ≡ 60
    pub in_kw : d.unit ≡ "kW"
    pub retrieved : (t : Instant) × (d.retrieved_at ≡ aware t)
    pub observed : (t : Instant) × (d.latest_observation_at ≡ aware t)
    pub nonempty : 0 < length d.load_kw
    pub values_valid : All IsValidValue d.load_kw
    pub one_exclusion : Unique (by_hour d.exclusions)
    -- the hours without a value are those with an exclusion
    pub explained :
        (t : Instant)
        → lacks_value t (hourly start d.load_kw) ≡ is_some (lookup t (by_hour d.exclusions))

  -- A well-formed history is accepted, and its points are its values, hour by hour.
  pub household_load_points-IsHistory :
      (start : Instant) (d : HouseholdLoadData Num)
      → IsHistory start d
      → household_load_points d ≡ ok (hourly start d.load_kw)
  unfolding household_load_points household_load_exclusion_points as_utc
  household_load_points-IsHistory start d h =
      let points = hourly start d.load_kw in
      let exclusions = by_hour d.exclusions in
      let unique = IsSorted-Unique points (hourly-IsSorted start d.load_kw) in
      let explained : same_members (keys_without_value points) (keys exclusions) ≡ true =
        member-same_members _ _ (λ t.
          member-keys_without_value t points unique
          ∙ h.explained t
          ∙ sym (member-keys t exclusions)) in
      rw (
        h.starts,
        h.aligned,
        h.minutes,
        unit_test d.unit h.in_kw,
        h.retrieved.1,
        h.observed.1,
        nonempty_test (length d.load_kw) h.nonempty,
        points_loop-start start d.load_kw h.values_valid,
        index_exclusions-Unique household_load d.exclusions h.one_exclusion,
        explained,
      )

  pub matched :
      (t : Instant) (points : Dict Instant (Option Num)) (x : Dict Instant (HourExclusion Num))
      → Unique points
      → same_members (keys_without_value points) (keys x) ≡ true
      → lacks_value t points ≡ is_some (lookup t x)
  matched t points x unique h =
      sym (member-keys_without_value t points unique)
      ∙ same_members-member (keys_without_value points) (keys x) h t
      ∙ member-keys t x

  -- Only a well-formed history is accepted.
  pub IsHistory-household_load_points :
      (d : HouseholdLoadData Num) (p : Dict Instant (Option Num))
      → household_load_points d ≡ ok p
      → (start : Instant) × IsHistory start d × (p ≡ hourly start d.load_kw)
  unfolding household_load_points household_load_exclusion_points
  IsHistory-household_load_points d p e =
      let (start, e0, e1) = >>=-eq-ok (as_utc d.start_time) _ e in
      let (a, e2) = raise_if-then (has_subhour_component start) (not_aligned household_load) _ e1 in
      let (b, e3) =
        raise_if-then (not (d.interval_minutes == 60) || not (d.unit == "kW"))
          (not_hourly household_load) _ e2 in
      let (retrieved, r, e4) = >>=-eq-ok (as_utc d.retrieved_at) _ e3 in
      let (observed, o, e5) = >>=-eq-ok (as_utc d.latest_observation_at) _ e4 in
      let (n, e6) = raise_if-then (length d.load_kw == 0) (empty_history household_load) _ e5 in
      let (points, loop, e7) = >>=-eq-ok (points_loop start 0 d.load_kw []) _ e6 in
      let (x, index, e8) = >>=-eq-ok (index_exclusions d.exclusions household_load) _ e7 in
      let (m, e9) =
        raise_if-then (not (same_members (keys_without_value points) (keys x)))
          (exclusion_mismatch household_load) _ e8 in
      let valid = All-points_loop start 0 d.load_kw [] points loop in
      let (unique, x_eq) = Unique-index_exclusions household_load d.exclusions x index in
      let points_eq : points ≡ hourly start d.load_kw =
        cc (loop, points_loop-start start d.load_kw valid) in
      (
        start,
        record {
          starts = as_utc-eq-ok d.start_time start e0;
          aligned = ground (arith, a);
          minutes = ground (arith, b);
          in_kw = (string_eq.eqb_iff d.unit "kW").0 (ground (arith, b));
          retrieved = (retrieved, as_utc-eq-ok d.retrieved_at retrieved r);
          observed = (observed, as_utc-eq-ok d.latest_observation_at observed o);
          nonempty = ground (arith, n);
          values_valid = valid;
          one_exclusion = unique;
          explained = λ t.
              matched t (hourly start d.load_kw) (by_hour d.exclusions)
                (IsSorted-Unique _ (hourly-IsSorted start d.load_kw))
                (subst
                  (λ q. same_members (keys_without_value q) (keys (by_hour d.exclusions)) ≡ true)
                  points_eq
                  (subst (λ y. same_members (keys_without_value points) (keys y) ≡ true) x_eq
                    (ground (arith, m))));
        },
        cc (e9, points_eq),
      )
