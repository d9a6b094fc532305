-- ===== src/Exclusions.antt =====
-- src/energy_optimizer/exclusions.py: the records that explain why an hour has no value.
-- Logging is left out, and so is the argument `source`, which is only logged. The hour of an
-- exclusion is an instant. A message is the values that its text shows.
pub mod Merge
pub mod Cap
pub mod Gap
pub mod Union
mod Tests
use energy_optimizer.Prelude.{
  ℕ, zero, suc, ◌+◌, ◌-◌, ◌*◌, ◌/◌, ◌%◌, String, Bool, Option, none, some, List, [], ◌∷◌, ◌++◌, map,
  Eq, ◌==◌, nat_eq, string_eq, option_eq, ltb, if◌then◌else◌, length, take, any, Dict, insert,
  get_default, eq_of_discrete, string_discrete,
}
use native.Mathlib.Decide.{ℕ_discrete}
use energy_optimizer.Prelude.Sorting.{sorted_items}
use energy_optimizer.Hours.{Instant, hour}

pub data ExclusionReason : Type 0 where
  unavailable non_numeric not_finite negative_value invalid_attribute : ExclusionReason
  counter_decrease step_after_decrease step_above_maximum hour_above_maximum : ExclusionReason
  last_reset_changed unit_mismatch unit_missing state_class_mismatch : ExclusionReason
  soc_out_of_range combined_negative combined_not_finite : ExclusionReason
  flagged_by_earlier_version history_unavailable : ExclusionReason

pub ExclusionReason-discrete : Discrete ExclusionReason
ExclusionReason-discrete = hlevel

instance abbrev pub reason_eq : Eq ExclusionReason
reason_eq = eq_of_discrete ExclusionReason-discrete

-- `MAX_DATA_POINTS_PER_ENTITY_HOUR`
abbrev pub max_data_points_per_entity_hour : ℕ
max_data_points_per_entity_hour = 50

pub record ExcludedDataPoint (Num : Type 0) : Type 0 where
  pub timestamp : Instant
  pub state : Option String
  pub unit : Option String
  pub entity_id : Option String
  pub previous_timestamp : Option Instant
  pub previous_value : Option Num
  pub value : Option Num
  pub step_kwh : Option Num
  pub maximum_kwh : Option Num

-- What the text of a message is made from.
pub data Message : Type 0 where
  no_history : Instant → Instant → ℕ → Message
  flagged_suspect : Option String → Option String → Message
  -- an entity, and when the two observations of a step were recorded; the numbers are those of the
  -- data point
  about_step : ExclusionReason → String → Instant → Instant → Message
  -- an entity, how many samples, when the first was, and the valid values before and after
  about_gap : ExclusionReason → String → ℕ → Instant → Option Instant → Option Instant → Message
  about_hour : String → Instant → Message

pub record ExclusionCause (Num : Type 0) : Type 0 where
  pub reason : ExclusionReason
  pub message : Message
  pub entity_id : Option String
  pub data_points : List (ExcludedDataPoint Num)
  pub data_point_count : ℕ

pub record HourExclusion (Num : Type 0) : Type 0 where
  pub hour_start : Instant
  pub causes : List (ExclusionCause Num)

-- `round(d / 3600)` for a length of time in hours: to the nearest, and at a half to the even one
unfoldable pub round_hours : ℕ → ℕ
round_hours d =
    let q = d / hour in
    let r = (d % hour) * 2 in if ltb r hour then q else if ltb hour r then q + 1 else q + q % 2

module _ {Num : Type 0} where
  -- `ExclusionCause.of`
  unfoldable pub cause_of :
      ExclusionReason → Message → Option String → List (ExcludedDataPoint Num) → ExclusionCause Num
  cause_of reason message entity points = record {
    reason = reason;
    message = message;
    entity_id = entity;
    data_points = points;
    data_point_count = length points;
  }

  gap_from : Instant → ExclusionCause Num → ℕ → ℕ → List (HourExclusion Num)
  gap_from start cause index zero = []
  gap_from start cause index (suc n) =
      record { hour_start = start + index * hour; causes = cause ∷ [] }
      ∷ gap_from start cause (index + 1) n

  unfoldable pub history_unavailable_exclusions : Instant → Instant → List (HourExclusion Num)
  unfolding gap_from
  history_unavailable_exclusions missing_start missing_end =
      let hours = round_hours (missing_end - missing_start) in
      let cause =
        cause_of history_unavailable (no_history missing_start missing_end hours) none [] in
      gap_from missing_start cause 0 hours

  cap_cause : List (ExcludedDataPoint Num) → ExclusionCause Num → ExclusionCause Num
  cap_cause kept cause =
      if length kept == length cause.data_points then cause else record cause { data_points = kept }

  cap_loop : Dict (Option String) ℕ → List (ExclusionCause Num) → List (ExclusionCause Num)
  cap_loop remaining [] = []
  cap_loop remaining (cause ∷ causes) =
      let budget = get_default cause.entity_id max_data_points_per_entity_hour remaining in
      let kept = take budget cause.data_points in
      cap_cause kept cause
      ∷ cap_loop (insert cause.entity_id (budget - length kept) remaining) causes

  unfoldable pub cap_data_points : List (ExclusionCause Num) → List (ExclusionCause Num)
  unfolding cap_loop cap_cause
  cap_data_points causes = cap_loop [] causes

-- The dictionary `by_hour` of `merge_exclusions`.
abbrev ByHour : Type 0 → Type 0
ByHour Num = Dict Instant (List (ExclusionCause Num))

module _ {Num : Type 0} ⦃same : Eq (ExclusionCause Num)⦄ where
  -- `if cause not in causes: causes.append(cause)`
  add_cause : List (ExclusionCause Num) → ExclusionCause Num → List (ExclusionCause Num)
  add_cause causes cause = if any (λ c. c == cause) causes then causes else causes ++ cause ∷ []

  add_causes : List (ExclusionCause Num) → List (ExclusionCause Num) → List (ExclusionCause Num)
  add_causes causes [] = causes
  add_causes causes (cause ∷ rest) = add_causes (add_cause causes cause) rest

  add_item : ByHour Num → HourExclusion Num → ByHour Num
  add_item by_hour item =
      insert item.hour_start (add_causes (get_default item.hour_start [] by_hour) item.causes)
        by_hour

  add_group : ByHour Num → List (HourExclusion Num) → ByHour Num
  add_group by_hour [] = by_hour
  add_group by_hour (item ∷ group) = add_group (add_item by_hour item) group

  add_groups : ByHour Num → List (List (HourExclusion Num)) → ByHour Num
  add_groups by_hour [] = by_hour
  add_groups by_hour (group ∷ groups) = add_groups (add_group by_hour group) groups

  unfoldable pub merge_exclusions : List (List (HourExclusion Num)) → List (HourExclusion Num)
  unfolding add_groups add_group add_item add_causes add_cause
  merge_exclusions groups =
      map (λ e. record { hour_start = e.0; causes = e.1 }) (sorted_items (add_groups [] groups))

pub data_point-discrete : {Num : Type 0} → Discrete Num → Discrete (ExcludedDataPoint Num)
data_point-discrete d = hlevel (d, ℕ_discrete, string_discrete)

-- Causes are compared field by field.
pub cause-discrete : {Num : Type 0} → Discrete Num → Discrete (ExclusionCause Num)
cause-discrete d = hlevel (d, ℕ_discrete, string_discrete, data_point-discrete d)
