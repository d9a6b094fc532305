-- ===== src/Counter.antt =====
-- src/energy_optimizer/providers/home_assistant_energy.py: the samples of a counter become hourly
-- energy, and an hour with a sample or a step that is not trusted is excluded.
-- The samples come in the order of their times.
pub mod Within
pub mod Explained
pub mod Returns
mod Tests
use energy_optimizer.Prelude.{
  ℕ, zero, suc, ◌+◌, ◌-◌, ◌*◌, ◌/◌, ◌%◌, String, Bool, true, false, not, ◌&&◌, ◌||◌, Option, none,
  some, List, [], ◌∷◌, ◌++◌, map, ◌==◌, nat_eq, string_eq, option_eq, ltb, leb, if◌then◌else◌,
  length, drop, replicate, any, Dict, lookup, insert, get_default, Result, ok, err, ◌>>=◌, ◌>>◌,
  raise_if, is_some, is_none, or_default, min, max, contains,
}
use energy_optimizer.Prelude.Sorting.{sorted_items}
use energy_optimizer.Hours.{Instant, hour, Datetime, naive, aware}
use energy_optimizer.Floats.{FloatOps}
use energy_optimizer.Exclusions.{
  ExcludedDataPoint, ExclusionCause, ExclusionReason, reason_eq, HourExclusion, about_step,
  about_gap, about_hour, cause_of, cap_data_points, counter_decrease, step_after_decrease,
  step_above_maximum, hour_above_maximum, last_reset_changed, unit_mismatch, unit_missing,
  state_class_mismatch,
}
use energy_optimizer.Readings.{
  EnergyUnit, unit_name, EnergyEntity, HistorySample, Observation, recorded_at, EnergySeries,
  CounterError, as_import_utc, hour_ordinal, overlapping_hours, align_to_next_hour, is_power_unit,
  invalid_or, CausesByHour, count_until, has_duplicate, validate_samples, is_other_class,
  unit_reason, sample_reason, add_to_hour, add_to_hours, exclude_span, add_to_ordinal, exclude_step,
  group_gap, first_timestamp, gap_causes, watt_hours, kilowatt_hours, megawatt_hours,
  missing_timezone, no_samples, power_unit, duplicate_timestamps, no_complete_hour, missing_value,
  beyond_last_hour,
}

-- What the loop over the samples keeps.
pub record Progress (Num : Type 0) : Type 0 where
  pub last : Option (Observation Num)
  pub gap : List (ExclusionReason × ExcludedDataPoint Num)
  pub gap_start : Instant
  pub after_decrease : Bool
  pub latest_observation : Instant
  pub energy : List Num
  pub causes_by_hour : CausesByHour Num

module _ {Num : Type 0} where
  abbrev pub sample_point : HistorySample Num → ExcludedDataPoint Num
  sample_point s = record {
    timestamp = recorded_at s;
    state = s.state;
    unit = s.unit;
    entity_id = none;
    previous_timestamp = none;
    previous_value = none;
    value = none;
    step_kwh = none;
    maximum_kwh = none;
  }

  -- A sample without a trusted value opens or continues a gap.
  abbrev pub into_gap : ExclusionReason → HistorySample Num → Progress Num → Progress Num
  into_gap reason s p = record p {
    gap_start = if length p.gap == 0 then s.timestamp else p.gap_start;
    gap = p.gap ++ (reason, sample_point s) ∷ [];
  }

  abbrev pub observation_of : HistorySample Num → Num → Observation Num
  observation_of s value = record {
    timestamp = s.timestamp;
    value = value;
    last_reset = s.last_reset;
    recorded_at = recorded_at s;
    state = s.state;
    unit = s.unit;
  }

  abbrev pub last_recorded : Option (Observation Num) → Option Instant
  last_recorded none = none
  last_recorded (some o) = some o.recorded_at

module _ {Num : Type 0} ⦃f : FloatOps Num⦄ where
  -- `_KWH_PER_UNIT`
  abbrev pub kwh_per_unit : EnergyUnit → Num
  kwh_per_unit watt_hours = f.decimal 1 3
  kwh_per_unit kilowatt_hours = f.decimal 1 0
  kwh_per_unit megawatt_hours = f.decimal 1000 0

  abbrev pub step_point :
      EnergyEntity Num → Observation Num → Observation Num → Num → ExcludedDataPoint Num
  step_point entity earlier later step_kwh = record {
    timestamp = later.recorded_at;
    state = later.state;
    unit = later.unit;
    entity_id = none;
    previous_timestamp = some earlier.recorded_at;
    previous_value = some earlier.value;
    value = some later.value;
    step_kwh = some step_kwh;
    maximum_kwh = some entity.maximum_interval_energy_kwh;
  }

  -- `_step_causes`
  unfoldable pub step_causes :
      EnergyEntity Num → Observation Num → Observation Num → Num → Bool → List (ExclusionCause Num)
  step_causes entity earlier later step_kwh after_decrease =
      let cause : ExclusionReason → List (ExclusionCause Num) = λ reason.
        cause_of reason (about_step reason entity.entity_id earlier.recorded_at later.recorded_at)
          (some entity.entity_id) (step_point entity earlier later step_kwh ∷ [])
        ∷ [] in
      (if later.last_reset == earlier.last_reset then [] else cause last_reset_changed)
      ++ (if f.lt step_kwh (f.decimal 0 0)
          then cause counter_decrease
          else (if after_decrease then cause step_after_decrease else [])
            ++ (if f.lt entity.maximum_interval_energy_kwh step_kwh
                then cause step_above_maximum
                else []))

  -- `energy[hour] += step_kwh`
  abbrev pub add_energy : ℕ → Num → List Num → Result CounterError (List Num)
  add_energy h step_kwh [] = err beyond_last_hour
  add_energy zero step_kwh (e ∷ energy) = ok (f.add e step_kwh ∷ energy)
  add_energy (suc h) step_kwh (e ∷ energy) = add_energy h step_kwh energy >>= λ rest. ok (e ∷ rest)

module _ {Num : Type 0} ⦃f : FloatOps Num⦄ (entity : EnergyEntity Num) (axis_start : Instant)
    (hour_count : ℕ) where
  -- A trusted step counts for the hour of its later observation.
  abbrev pub count_step :
      Observation Num
      → Observation Num
      → Num
      → List (ExclusionCause Num)
      → Progress Num
      → Result CounterError (Progress Num)
  count_step earlier later step_kwh [] p =
      if ltb axis_start later.timestamp
      then (add_energy (hour_ordinal axis_start later.timestamp - 1) step_kwh p.energy >>= λ energy.
          ok (record p { energy = energy }))
      else ok p
  count_step earlier later step_kwh (c ∷ causes) p = ok (record p {
    causes_by_hour =
        exclude_step hour_count (hour_ordinal axis_start earlier.timestamp)
          (hour_ordinal axis_start later.timestamp) (c ∷ causes) p.causes_by_hour;
  })

  abbrev pub close_gap : Instant → Option Instant → Progress Num → Progress Num
  close_gap span_end after p = record p {
    causes_by_hour =
        exclude_span axis_start hour_count p.gap_start span_end
          (gap_causes entity.entity_id p.gap (last_recorded p.last) after) p.causes_by_hour;
  }

  -- The body of the loop, for a valid sample.
  unfoldable pub observe :
      Observation Num
      → List (ExclusionReason × ExcludedDataPoint Num)
      → Option (Observation Num)
      → Progress Num
      → Result CounterError (Progress Num)
  observe later (g ∷ gap) last p =
      ok (record (close_gap later.timestamp (some later.recorded_at) p) {
        gap = [];
        after_decrease = false;
      })
  observe later [] none p = ok p
  observe later [] (some earlier) p =
      let step_kwh = f.mul (f.sub later.value earlier.value) (kwh_per_unit entity.unit) in
      count_step earlier later step_kwh (step_causes entity earlier later step_kwh p.after_decrease)
        (record p { after_decrease = f.lt step_kwh (f.decimal 0 0) })

  abbrev pub note_observation : Observation Num → Progress Num → Progress Num
  note_observation o p = record p { last = some o; latest_observation = o.timestamp }

  abbrev pub take_sample :
      Option ExclusionReason
      → Option Num
      → HistorySample Num
      → Progress Num
      → Result CounterError (Progress Num)
  take_sample (some reason) value s p = ok (into_gap reason s p)
  take_sample none none s p = err missing_value
  take_sample none (some value) s p = observe (observation_of s value) p.gap p.last p >>= λ q.
      ok (note_observation (observation_of s value) q)

  unfoldable pub sample_loop :
      Instant → List (HistorySample Num) → Progress Num → Result CounterError (Progress Num)
  sample_loop end [] p = ok p
  sample_loop end (s ∷ samples) p =
      let next =
        take_sample (sample_reason entity s) s.value s p >>= λ q. sample_loop end samples q in
      if ltb end s.timestamp then ok p else next

  abbrev pub total_cause : ℕ → Num → ExclusionCause Num
  total_cause h total =
      let hour_start = axis_start + h * hour in
      cause_of hour_above_maximum (about_hour entity.entity_id hour_start) (some entity.entity_id) (
        record {
          timestamp = hour_start;
          state = none;
          unit = none;
          entity_id = none;
          previous_timestamp = none;
          previous_value = none;
          value = none;
          step_kwh = some total;
          maximum_kwh = some entity.maximum_interval_energy_kwh;
        }
        ∷ [])

  -- `for hour, total in enumerate(energy)`
  unfoldable pub exclude_totals : ℕ → List Num → CausesByHour Num → CausesByHour Num
  exclude_totals h [] by_hour = by_hour
  exclude_totals h (total ∷ energy) by_hour = exclude_totals (h + 1) energy (
      if f.lt entity.maximum_interval_energy_kwh total
      then add_to_hour h (total_cause h total ∷ []) by_hour
      else by_hour)

  -- `None if hour in causes_by_hour else energy[hour]`
  unfoldable pub values_of : ℕ → List Num → CausesByHour Num → List (Option Num)
  values_of h [] by_hour = []
  values_of h (e ∷ energy) by_hour =
      (if contains h by_hour then none else some e) ∷ values_of (h + 1) energy by_hour

  unfoldable pub exclusion_of_hour : ℕ × List (ExclusionCause Num) → HourExclusion Num
  exclusion_of_hour e = record {
    hour_start = axis_start + e.0 * hour;
    causes = cap_data_points e.1;
  }

  -- What is left after the loop: the gap at the end, and the hours above the maximum.
  unfoldable pub finish : Instant → Progress Num → EnergySeries Num
  finish end p =
      let closed = if length p.gap == 0 then p else close_gap end none p in
      let by_hour = exclude_totals 0 closed.energy closed.causes_by_hour in
      record {
        start_time = axis_start;
        values_kw = values_of 0 closed.energy by_hour;
        latest_observation_at =
            if length p.gap == 0 && is_some p.last
            then max p.latest_observation end
            else p.latest_observation;
        exclusions = map exclusion_of_hour (sorted_items by_hour);
      }

module _ {Num : Type 0} ⦃f : FloatOps Num⦄ where
  -- The sample that the loop starts with, and the start of the axis.
  abbrev pub baseline : Instant → List (HistorySample Num) → Instant × ℕ
  baseline start [] = (start, 0)
  baseline start (first ∷ samples) =
      let n = count_until start (first ∷ samples) in
      let available = align_to_next_hour first.timestamp in
      if n == 0 then (available, count_until available (first ∷ samples) - 1) else (start, n - 1)

  abbrev pub first_sample_time : Instant → List (HistorySample Num) → Instant
  first_sample_time axis_start [] = axis_start
  first_sample_time axis_start (s ∷ samples) = s.timestamp

  abbrev pub first_progress : Instant → ℕ → List (HistorySample Num) → Progress Num
  first_progress axis_start hour_count samples = record {
    last = none;
    gap = [];
    gap_start = axis_start;
    after_decrease = false;
    latest_observation = first_sample_time axis_start samples;
    energy = replicate hour_count (f.decimal 0 0);
    causes_by_hour = [];
  }

  unfoldable pub normalize_counter_history :
      EnergyEntity Num
      → List (HistorySample Num)
      → Datetime
      → Datetime
      → Result CounterError (EnergySeries Num)
  normalize_counter_history entity samples start_time end_time = do
    start ← as_import_utc start_time
    end ← as_import_utc end_time
    validate_samples samples
    let (axis_start, index) = baseline start samples
    let hour_count = (end - axis_start) / hour
    raise_if (hour_count == 0) no_complete_hour
    let rest = drop index samples
    p ←
        sample_loop entity axis_start hour_count end rest
          (first_progress axis_start hour_count rest)
    ok (finish entity axis_start hour_count end p)
