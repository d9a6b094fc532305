-- ===== src/Counter/Explained.antt =====
-- `normalize_counter_history`: an hour has no value exactly if it has an exclusion.
use energy_optimizer.Prelude.{
  ℕ, suc, ◌+◌, ◌-◌, ◌*◌, ◌/◌, ◌≡◌, ◌<◌, refl, sym, ap, ◌∙◌, true, false, ◌&&◌, ◌||◌, none, List, [],
  ◌∷◌, map, arith, ◌==◌, nat_eq, if◌then◌else◌, length, drop, lookup, contains, is_some, ok,
  >>=-eq-ok, raise_if-then, All, Unique, Bool-cases, inl, inr, subst, length-replicate, ap₂,
}
use energy_optimizer.Prelude.Sorting.{
  IsSorted, IsSorted-Unique, sorted_items, sorted_items-IsSorted, lookup-sorted_items,
  All-sorted_items,
}
use energy_optimizer.Hours.{Instant, hour, hourly, in_range, Datetime, naive, aware}
use energy_optimizer.Floats.{FloatOps}
use energy_optimizer.Records.Members.{lacks_value}
use energy_optimizer.Records.Index.{by_hour}
use energy_optimizer.Readings.{
  EnergyEntity, HistorySample, EnergySeries, CausesByHour, no_complete_hour, as_import_utc,
  validate_samples,
}
use energy_optimizer.Counter.{
  Progress, values_of, exclusion_of_hour, finish, close_gap, sample_loop, baseline, first_progress,
  normalize_counter_history,
}
use energy_optimizer.Counter.Within.{
  OnAxis, IsWithin, sample_loop-IsWithin, exclude_totals-OnAxis, close_gap-IsWithin,
}

import_end : (d : Datetime) (t : Instant) → as_import_utc d ≡ ok t → d ≡ aware t
import_end (naive w) t h = cc
import_end (aware u) t h = cc

positive : (n : ℕ) → (n == 0) ≡ false → 0 < n
positive n h = ground (arith, h)

later_hour : (axis h : ℕ) → axis + (h + 1) * hour ≡ axis + h * hour + hour
later_hour axis h = omega arith

in_range-suc : (s t n : ℕ) → in_range s (suc n) t ≡ (s == t || in_range (s + hour) n t)
unfolding in_range
in_range-suc s t n = ground arith

module _ {Num : Type 0} ⦃f : FloatOps Num⦄ (entity : EnergyEntity Num) (axis : Instant)
    (hour_count : ℕ) where
  length-values_of :
      (h : ℕ) (energy : List Num) (d : CausesByHour Num)
      → length (values_of entity axis hour_count h energy d) ≡ length energy
  unfolding values_of
  length-values_of h [] d = refl
  length-values_of h (e ∷ energy) d = ap suc (length-values_of (h + 1) energy d)

  lacks_value-values_of :
      (t : Instant) (h : ℕ) (energy : List Num) (d : CausesByHour Num)
      → lacks_value t (hourly (axis + h * hour) (values_of entity axis hour_count h energy d))
        ≡ (in_range (axis + h * hour) (length energy) t && contains ((t - axis) / hour) d)
  unfolding values_of lookup hourly
  lacks_value-values_of t h [] d = unfold in_range in ground arith
  lacks_value-values_of t h (e ∷ energy) d =
      let rest =
        ap (λ s. lacks_value t (hourly s (values_of entity axis hour_count (h + 1) energy d)))
          (sym (later_hour axis h))
        ∙ lacks_value-values_of t (h + 1) energy d in
      let s = axis + h * hour in
      elim (Bool-cases (s == t)) [
        | inl here ↦
            let same : contains ((t - axis) / hour) d ≡ contains h d =
              ap (λ k. contains k d) (ground (arith, here)) in
            let within : in_range s (suc (length energy)) t ≡ true =
              in_range-suc s t (length energy) ∙ ground (arith, here) in
            rw (here, within, same) (ground arith)
        | inr elsewhere ↦
            let within : in_range s (suc (length energy)) t
                ≡ in_range (s + hour) (length energy) t =
              in_range-suc s t (length energy) ∙ ground (arith, elsewhere) in
            rw (elsewhere, within)
              (rest
                ∙ ap (λ u. in_range u (length energy) t && contains ((t - axis) / hour) d)
                    (later_hour axis h))
      ]

  hour_key :
      (t k : ℕ)
      → (axis + k * hour == t) ≡ true
      → k < hour_count
      → (in_range axis hour_count t ≡ true) × ((k == (t - axis) / hour) ≡ true)
  unfolding in_range
  hour_key t k here lt = (ground (arith, here, lt), ground (arith, here))

  other_key :
      (t k : ℕ)
      → (axis + k * hour == t) ≡ false
      → (in_range axis hour_count t && (k == (t - axis) / hour)) ≡ false
  unfolding in_range
  other_key t k elsewhere = ground (arith, elsewhere)

  -- The hours of the exclusions.
  lookup-exclusions :
      (t : Instant) (l : CausesByHour Num)
      → All (λ e. e.0 < hour_count) l
      → is_some (lookup t (by_hour (map (exclusion_of_hour entity axis hour_count) l)))
        ≡ (in_range axis hour_count t && contains ((t - axis) / hour) l)
  unfolding exclusion_of_hour lookup
  lookup-exclusions t [] h = ground arith
  lookup-exclusions t ((k, causes) ∷ l) h = elim (Bool-cases (axis + k * hour == t)) [
    | inl here ↦ let (within, key) = hour_key t k here h.0 in rw (here, within, key) refl
    | inr elsewhere ↦
        rw elsewhere (lookup-exclusions t l h.1 ∙ ground (arith, other_key t k elsewhere))
  ]

  exclusions-above :
      (k : ℕ) (l : CausesByHour Num)
      → All (λ e. k < e.0) l
      → All
          (λ e. axis + k * hour < e.0)
          (by_hour (map (exclusion_of_hour entity axis hour_count) l))
  unfolding exclusion_of_hour
  exclusions-above k [] h = tt
  exclusions-above k (e ∷ l) h = (omega (arith, h.0), exclusions-above k l h.1)

  exclusions-IsSorted :
      (l : CausesByHour Num)
      → IsSorted l
      → IsSorted (by_hour (map (exclusion_of_hour entity axis hour_count) l))
  unfolding exclusion_of_hour
  exclusions-IsSorted [] h = tt
  exclusions-IsSorted ((k, causes) ∷ l) h = (exclusions-above k l h.0, exclusions-IsSorted l h.1)

module _ {Num : Type 0} ⦃f : FloatOps Num⦄ where
  -- A series of `hour_count` hours, whose excluded hours are those without a value.
  pub record IsExplained (hour_count : ℕ) (s : EnergySeries Num) : Type 0 where
    pub size : length s.values_kw ≡ hour_count
    pub one_exclusion : Unique (by_hour s.exclusions)
    pub explained :
        (t : Instant)
        → lacks_value t (hourly s.start_time s.values_kw)
          ≡ is_some (lookup t (by_hour s.exclusions))

  series-IsExplained :
      (entity : EnergyEntity Num) (axis latest : Instant) (n : ℕ) (energy : List Num)
      (d : CausesByHour Num)
      → length energy ≡ n
      → OnAxis n d
      → IsExplained n (record {
        start_time = axis;
        values_kw = values_of entity axis n 0 energy d;
        latest_observation_at = latest;
        exclusions = map (exclusion_of_hour entity axis n) (sorted_items d);
      })
  series-IsExplained entity axis latest n energy d size a = record {
    size = length-values_of entity axis n 0 energy d ∙ size;
    one_exclusion =
        IsSorted-Unique _
          (exclusions-IsSorted entity axis n (sorted_items d) (sorted_items-IsSorted d a.1));
    explained = λ t.
        ap (λ s. lacks_value t (hourly s (values_of entity axis n 0 energy d))) (omega arith)
        ∙ lacks_value-values_of entity axis n t 0 energy d
        ∙ ap₂ (λ s m. in_range s m t && contains ((t - axis) / hour) d) (omega arith) size
        ∙ ap (λ o. in_range axis n t && is_some o) (sym (lookup-sorted_items ((t - axis) / hour) d))
        ∙ sym (
            lookup-exclusions entity axis n t (sorted_items d)
              (All-sorted_items (λ e. e.0 < n) d a.0));
  }

  finish-IsExplained :
      (entity : EnergyEntity Num) (axis end : Instant) (n : ℕ) (p : Progress Num)
      → IsWithin n p
      → IsExplained n (finish entity axis n end p)
  unfolding finish
  finish-IsExplained entity axis end n p h =
      let closed = if length p.gap == 0 then p else close_gap entity axis n end none p in
      let within : IsWithin n closed = elim (Bool-cases (length p.gap == 0)) [
        | inl none_open ↦ rw none_open h
        | inr open_gap ↦ rw open_gap (close_gap-IsWithin entity axis n end none p h)
      ] in
      series-IsExplained entity axis _ n closed.energy _ within.energies (
        exclude_totals-OnAxis entity axis n 0 closed.energy closed.causes_by_hour
          (omega (arith, within.energies)) within.on_axis)

  finished :
      (entity : EnergyEntity Num) (axis end : Instant) (p : Progress Num)
      → 0 < (end - axis) / hour
      → IsWithin ((end - axis) / hour) p
      → let s = finish entity axis ((end - axis) / hour) end p in
        (0 < (end - s.start_time) / hour) × IsExplained ((end - s.start_time) / hour) s
  unfolding finish
  finished entity axis end p some_hours h =
      (some_hours, finish-IsExplained entity axis end ((end - axis) / hour) p h)

  -- If a counter's history is normalized, then up to an aware end, and there is at least one hour.
  -- The series has a place for each whole hour between its start and the end, an hour has no value
  -- exactly if it has an exclusion, and no hour is excluded twice.
  pub normalize_counter_history-IsExplained :
      (entity : EnergyEntity Num) (samples : List (HistorySample Num))
      (start_time end_time : Datetime) (s : EnergySeries Num)
      → normalize_counter_history entity samples start_time end_time ≡ ok s
      → (end : Instant) × (end_time ≡ aware end)
        × (0 < (end - s.start_time) / hour)
        × IsExplained ((end - s.start_time) / hour) s
  unfolding normalize_counter_history
  normalize_counter_history-IsExplained entity samples start_time end_time s h =
      let (start, e0, h1) = >>=-eq-ok (as_import_utc start_time) _ h in
      let (end, e1, h2) = >>=-eq-ok (as_import_utc end_time) _ h1 in
      let (_, e2, h3) = >>=-eq-ok (validate_samples samples) _ h2 in
      let axis = (baseline start samples).0 in
      let n = (end - axis) / hour in
      let rest = drop (baseline start samples).1 samples in
      let (some_hours, h4) = raise_if-then (n == 0) no_complete_hour _ h3 in
      let (p, loop, h5) =
        >>=-eq-ok (sample_loop entity axis n end rest (first_progress axis n rest)) _ h4 in
      let within =
        sample_loop-IsWithin entity axis n end rest _ p loop
          (record { energies = length-replicate n _; on_axis = (tt, tt) }) in
      let same : finish entity axis n end p ≡ s = cc h5 in
      subst
        (λ x.
          (e : Instant) × (end_time ≡ aware e)
          × (0 < (e - x.start_time) / hour)
          × IsExplained ((e - x.start_time) / hour) x)
        same
        (
          end,
          import_end end_time end e1,
          (finished entity axis end p (positive n some_hours) within).0,
          (finished entity axis end p (positive n some_hours) within).1,
        )
