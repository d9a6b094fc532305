-- ===== src/Readings.antt =====
-- src/energy_optimizer/providers/home_assistant_energy.py: the samples of a counter, why one is not
-- trusted, and which hours that excludes.
-- Hour k is told by its ordinal, k + 1, so that 0 is any time up to the start of the axis, whose
-- index would be negative.
use energy_optimizer.Prelude.{
  ℕ, zero, suc, ◌+◌, ◌-◌, ◌/◌, ◌%◌, String, Bool, false, not, ◌||◌, Option, none, some, List, [],
  ◌∷◌, ◌++◌, map, ◌==◌, nat_eq, string_eq, option_eq, ltb, leb, if◌then◌else◌, length, any, Dict,
  insert, get_default, Result, ok, err, ◌>>◌, raise_if, or_default, min,
}
use energy_optimizer.Hours.{Instant, hour, Datetime, naive, aware}
use energy_optimizer.Exclusions.{
  ExcludedDataPoint, ExclusionCause, ExclusionReason, reason_eq, HourExclusion, about_gap, cause_of,
  step_above_maximum, unit_mismatch, unit_missing, state_class_mismatch,
}

pub data EnergyUnit : Type 0 where
  watt_hours kilowatt_hours megawatt_hours : EnergyUnit

abbrev pub unit_name : EnergyUnit → String
unit_name watt_hours = "Wh"
unit_name kilowatt_hours = "kWh"
unit_name megawatt_hours = "MWh"

-- `HomeAssistantEnergyEntityConfiguration`
pub record EnergyEntity (Num : Type 0) : Type 0 where
  pub entity_id : String
  pub state_class : String
  pub unit : EnergyUnit
  pub maximum_interval_energy_kwh : Num

pub record HistorySample (Num : Type 0) : Type 0 where
  pub timestamp : Instant
  pub value : Option Num
  pub unit : Option String
  pub state_class : Option String
  pub last_reset : Option Instant
  pub state : Option String
  pub invalid : Option ExclusionReason
  pub observed_at : Option Instant

pub record Observation (Num : Type 0) : Type 0 where
  pub timestamp : Instant
  pub value : Num
  pub last_reset : Option Instant
  pub recorded_at : Instant
  pub state : Option String
  pub unit : Option String

pub record EnergySeries (Num : Type 0) : Type 0 where
  pub start_time : Instant
  pub values_kw : List (Option Num)
  pub latest_observation_at : Instant
  pub exclusions : List (HourExclusion Num)

-- A `HomeAssistantError`, an `AssertionError` for a valid sample without a value, and an `IndexError`
-- for an hour beyond the last.
pub data CounterError : Type 0 where
  missing_timezone no_samples power_unit duplicate_timestamps no_complete_hour : CounterError
  missing_value beyond_last_hour : CounterError

abbrev pub as_import_utc : Datetime → Result CounterError Instant
as_import_utc (naive t) = err missing_timezone
as_import_utc (aware t) = ok t

-- `hour_index` and one, or 0 for a negative index
unfoldable pub hour_ordinal : Instant → Instant → ℕ
hour_ordinal axis_start t = (t - axis_start + (hour - 1)) / hour

-- `overlapping_hours`: the first hour, and how many
abbrev pub overlapping_hours : Instant → Instant → Instant → ℕ → ℕ × ℕ
overlapping_hours axis_start span_start span_end hour_count =
    let first = hour_ordinal axis_start span_start - 1 in
    (first, min hour_count (hour_ordinal axis_start span_end) - first)

abbrev pub align_to_next_hour : Instant → Instant
align_to_next_hour t = if t % hour == 0 then t else t - t % hour + hour

abbrev pub is_power_unit : Option String → Bool
is_power_unit none = false
is_power_unit (some u) = u == "W" || u == "kW"

abbrev pub invalid_or : Option ExclusionReason → Option ExclusionReason → Option ExclusionReason
invalid_or (some reason) other = some reason
invalid_or none other = other

-- `causes_by_hour.setdefault(hour, []).extend(causes)`
abbrev pub CausesByHour : Type 0 → Type 0
CausesByHour Num = Dict ℕ (List (ExclusionCause Num))

module _ {Num : Type 0} where
  abbrev pub recorded_at : HistorySample Num → Instant
  recorded_at s = or_default s.timestamp s.observed_at

  -- `bisect_right`, for samples in order
  abbrev pub count_until : Instant → List (HistorySample Num) → ℕ
  count_until t [] = 0
  count_until t (s ∷ samples) = if leb s.timestamp t then suc (count_until t samples) else 0

  abbrev pub has_duplicate : List (HistorySample Num) → Bool
  has_duplicate [] = false
  has_duplicate (s ∷ samples) =
      any (λ x. x.timestamp == s.timestamp) samples || has_duplicate samples

  -- `_validate_samples`
  unfoldable pub validate_samples : List (HistorySample Num) → Result CounterError (Unit {0})
  validate_samples samples = do
    raise_if (length samples == 0) no_samples
    raise_if (any (λ s. is_power_unit s.unit) samples) power_unit
    raise_if (has_duplicate samples) duplicate_timestamps

  -- `sample.state_class not in (None, entity.state_class)`, and `_sample_reason`
  abbrev pub is_other_class : EnergyEntity Num → Option String → Bool
  is_other_class entity none = false
  is_other_class entity (some c) = not (c == entity.state_class)

  abbrev pub unit_reason : EnergyEntity Num → Option String → Option ExclusionReason
  unit_reason entity none = some unit_missing
  unit_reason entity (some u) = if u == unit_name entity.unit then none else some unit_mismatch

  unfoldable pub sample_reason : EnergyEntity Num → HistorySample Num → Option ExclusionReason
  sample_reason entity s = invalid_or s.invalid (
      if is_other_class entity s.state_class
      then some state_class_mismatch
      else unit_reason entity s.unit)

  abbrev pub add_to_hour : ℕ → List (ExclusionCause Num) → CausesByHour Num → CausesByHour Num
  add_to_hour h causes by_hour = insert h (get_default h [] by_hour ++ causes) by_hour

  unfoldable pub add_to_hours :
      ℕ → ℕ → List (ExclusionCause Num) → CausesByHour Num → CausesByHour Num
  add_to_hours first zero causes by_hour = by_hour
  add_to_hours first (suc n) causes by_hour =
      add_to_hours (first + 1) n causes (add_to_hour first causes by_hour)

  -- `exclude_span`
  unfoldable pub exclude_span :
      Instant
      → ℕ
      → Instant
      → Instant
      → List (ExclusionCause Num)
      → CausesByHour Num
      → CausesByHour Num
  exclude_span axis_start hour_count span_start span_end causes by_hour =
      let (first, n) = overlapping_hours axis_start span_start span_end hour_count in
      add_to_hours first n causes by_hour

  -- An hour outside the axis is left out.
  abbrev pub add_to_ordinal : ℕ → ℕ → ExclusionCause Num → CausesByHour Num → CausesByHour Num
  add_to_ordinal hour_count zero cause by_hour = by_hour
  add_to_ordinal hour_count (suc h) cause by_hour =
      if ltb h hour_count then add_to_hour h (cause ∷ []) by_hour else by_hour

  -- `exclude_step`, for the ordinals of the two observations
  unfoldable pub exclude_step :
      ℕ → ℕ → ℕ → List (ExclusionCause Num) → CausesByHour Num → CausesByHour Num
  exclude_step hour_count earlier later [] by_hour = by_hour
  exclude_step hour_count earlier later (cause ∷ causes) by_hour =
      let with_later = add_to_ordinal hour_count later cause by_hour in
      exclude_step hour_count earlier later causes (
        if cause.reason == step_above_maximum || earlier == later
        then with_later
        else add_to_ordinal hour_count earlier cause with_later)

  -- `by_reason` of `gap_causes`, and `gap_causes`
  abbrev pub group_gap :
      Dict ExclusionReason (List (ExcludedDataPoint Num))
      → List (ExclusionReason × ExcludedDataPoint Num)
      → Dict ExclusionReason (List (ExcludedDataPoint Num))
  group_gap by_reason [] = by_reason
  group_gap by_reason ((reason, point) ∷ gap) =
      group_gap (insert reason (get_default reason [] by_reason ++ point ∷ []) by_reason) gap

  abbrev pub first_timestamp : List (ExcludedDataPoint Num) → Instant
  first_timestamp [] = 0
  first_timestamp (p ∷ points) = p.timestamp

  unfoldable pub gap_causes :
      String
      → List (ExclusionReason × ExcludedDataPoint Num)
      → Option Instant
      → Option Instant
      → List (ExclusionCause Num)
  gap_causes entity_id gap before after =
      map
        (λ e.
          cause_of e.0 (about_gap e.0 entity_id (length e.1) (first_timestamp e.1) before after)
            (some entity_id) e.1)
        (group_gap [] gap)
