-- ===== src/Control.antt =====
-- src/energy_optimizer/control/ev_controller.py: the planned charge power is set on the wall box,
-- and the parts of src/energy_optimizer/config.py that say how.
-- Times are instants. The answer to the n-th call is a parameter `respond n`. The base address, the
-- headers and the time limit are the same for all calls and left out, as is logging.
pub mod Schedule
pub mod Sends
pub mod Commands
pub mod Polls
mod Tests
use energy_optimizer.Prelude.{
  ℕ, ◌+◌, ◌*◌, String, Bool, true, false, not, ◌&&◌, ◌||◌, Option, none, some, List, [], ◌∷◌, ◌++◌,
  map, ltb, leb, if◌then◌else◌, length, Dict, insert, update, Result, ok, err, ◌>>=◌, string_eq,
  is_none, ◌==◌,
}
use energy_optimizer.Hours.{Instant, hour}
use energy_optimizer.Floats.{FloatOps}
use energy_optimizer.Series.{StoreError}

-- `round`: to some places, or to a whole number, which fails where there is none.
pub record RoundOps (Num : Type 0) : Type 0 where
  pub round_to : ℕ → Num → Num
  pub round_whole : Num → Option Num

pub data PowerUnit : Type 0 where
  amperes watts kilowatts : PowerUnit

-- `service` is `domain.name`; its pattern has one dot.
pub record Service : Type 0 where
  pub domain : String
  pub name : String

pub data FieldValue (Num : Type 0) : Type 0 where
  text : String → FieldValue Num
  number : Num → FieldValue Num

-- The entity or the device that a service is called for: exactly one of them is configured.
pub data Target : Type 0 where
  to_entity to_device : String → Target

pub record EvService (Num : Type 0) : Type 0 where
  pub service : Service
  pub target : Target
  pub data_field : String
  pub extra_data : Dict String (FieldValue Num)
  pub unit : PowerUnit
  pub phases : ℕ
  pub voltage : Num

-- `max_plan_age` is in microseconds.
pub record EvControl (Num : Type 0) : Type 0 where
  pub set_power : EvService Num
  pub enable_entity_id : Option String
  pub max_plan_age : ℕ
  pub maximum_charge_kw : Num

pub record EvSchedule (Num : Type 0) : Type 0 where
  pub updated_at : Instant
  pub hour_starts : List Instant
  pub charge_kw : List Num

pub record Call (Num : Type 0) : Type 0 where
  pub service : Service
  pub fields : Dict String (FieldValue Num)

pub data Response : Type 0 where
  transport_error : Response
  status : ℕ → Response

-- What is raised: an `EvControlError` for the first two, a `ValueError` or `OverflowError` of
-- `round`, a `ValueError` of `zip`, an `IndexError`, and what the store raises.
pub data ControlError : Type 0 where
  not_sent : Service → ControlError
  rejected : Service → ℕ → ControlError
  not_rounded uneven_schedule no_hours : ControlError
  not_loaded : StoreError → ControlError

pub data ControlOutcome : Type 0 where
  applied unchanged fell_back failed : ControlOutcome

-- The controller's own state, and the calls that it has made.
pub record EvController (Num : Type 0) : Type 0 where
  pub applied_kw : Option Num
  pub calls : List (Call Num)

-- `SCHEDULE_RETENTION`
abbrev pub schedule_retention : ℕ
schedule_retention = 48 * hour

-- `start < hour_starts[0] and start > updated_at - SCHEDULE_RETENTION`
abbrev pub is_kept : Instant → Instant → Instant → Bool
is_kept first updated_at start = ltb start first && ltb updated_at (start + schedule_retention)

module _ {Num : Type 0} where
  -- The strict `zip` fails at the end of the shorter list only.
  power_loop : Instant → List Instant → List Num → Result ControlError (Option Num)
  power_loop moment [] [] = ok none
  power_loop moment (start ∷ starts) (power ∷ powers) =
      let rest = power_loop moment starts powers in
      if leb start moment && ltb moment (start + hour) then ok (some power) else rest
  power_loop moment _ _ = err uneven_schedule

  unfoldable pub power_at : EvSchedule Num → Instant → Result ControlError (Option Num)
  unfolding power_loop
  power_at schedule moment = power_loop moment schedule.hour_starts schedule.charge_kw

  kept_loop :
      Instant → List Instant → List Instant → List Num → Result ControlError (List (Instant × Num))
  kept_loop updated_at hour_starts [] [] = ok []
  kept_loop updated_at [] (start ∷ starts) (power ∷ powers) = err no_hours
  kept_loop updated_at (first ∷ later) (start ∷ starts) (power ∷ powers) =
      kept_loop updated_at (first ∷ later) starts powers >>= λ rest.
      ok (if is_kept first updated_at start then (start, power) ∷ rest else rest)
  kept_loop updated_at hour_starts _ _ = err uneven_schedule

  abbrev pub starts_of : Option (EvSchedule Num) → List Instant
  starts_of none = []
  starts_of (some schedule) = schedule.hour_starts

  abbrev pub powers_of : Option (EvSchedule Num) → List Num
  powers_of none = []
  powers_of (some schedule) = schedule.charge_kw

  unfoldable pub merge_schedule :
      Option (EvSchedule Num)
      → Instant
      → List Instant
      → List Num
      → Result ControlError (EvSchedule Num)
  unfolding kept_loop
  merge_schedule previous updated_at hour_starts charge_kw =
      kept_loop updated_at hour_starts (starts_of previous) (powers_of previous) >>= λ kept.
      ok (record {
        updated_at = updated_at;
        hour_starts = map (λ e. e.0) kept ++ hour_starts;
        charge_kw = map (λ e. e.1) kept ++ charge_kw;
      })

-- What is made of the answer to a call.
abbrev pub answer : Service → Response → Result ControlError (Unit {0})
answer service transport_error = err (not_sent service)
answer service (status code) = if leb 400 code then err (rejected service code) else ok tt

module _ {Num : Type 0} (control : EvControl Num) where
  -- `_planned_power`
  unfoldable pub planned_power :
      Option (EvSchedule Num) → Instant → Result ControlError (Option Num)
  planned_power none now = ok none
  planned_power (some schedule) now =
      if ltb (schedule.updated_at + control.max_plan_age) now
      then ok none
      else power_at schedule now

-- An attempt: what it returns or raises, and the state that it leaves.
abbrev pub Attempt : Type 0 → Type 0 → Type 0
Attempt Num A = EvController Num → EvController Num × Result ControlError A

module _ {Num : Type 0} where
  -- The rest of an attempt, after what was returned or raised.
  abbrev pub continued :
      {A B : Type 0}
      → (A → Attempt Num B)
      → EvController Num × Result ControlError A
      → EvController Num × Result ControlError B
  continued k (s, ok a) = k a s
  continued k (s, err e) = (s, err e)

  infixl 5 ◌then◌
  abbrev pub ◌then◌ : {A B : Type 0} → Attempt Num A → (A → Attempt Num B) → Attempt Num B
  (m then k) s = continued k (m s)

  abbrev pub returns : {A : Type 0} → A → Attempt Num A
  returns a s = (s, ok a)

  abbrev pub lifted : {A : Type 0} → Result ControlError A → Attempt Num A
  lifted r s = (s, r)

  -- `except EvControlError`
  abbrev pub on_control_error :
      EvController Num × Result ControlError ControlOutcome
      → EvController Num × Result ControlError ControlOutcome
  on_control_error (s, ok outcome) = (s, ok outcome)
  on_control_error (s, err (not_sent _)) = (record s { applied_kw = none }, ok failed)
  on_control_error (s, err (rejected _ _)) = (record s { applied_kw = none }, ok failed)
  on_control_error (s, err e) = (s, err e)

  -- `HomeAssistantEvServiceConfiguration.target`
  abbrev pub target_fields : Target → Dict String (FieldValue Num)
  target_fields (to_entity e) = ("entity_id", text e) ∷ []
  target_fields (to_device d) = ("device_id", text d) ∷ []

module _ {Num : Type 0} (respond : ℕ → Response) where
  -- `_call`
  unfoldable pub call : Service → Dict String (FieldValue Num) → Attempt Num (Unit {0})
  call service fields s = (
    record s { calls = s.calls ++ record { service = service; fields = fields } ∷ [] },
    answer service (respond (length s.calls)),
  )

module _ {Num : Type 0} ⦃f : FloatOps Num⦄ ⦃r : RoundOps Num⦄ where
  -- `NO_POWER_KW`
  abbrev pub no_power_kw : Num
  no_power_kw = f.decimal 5 2

  abbrev pub rounded : Num → Result ControlError (FieldValue Num)
  rounded x = elim (r.round_whole x) [ none ↦ err not_rounded | some n ↦ ok (number n) ]

  -- `_value`
  unfoldable pub field_value : EvService Num → Num → Result ControlError (FieldValue Num)
  field_value set_power power_kw = elim set_power.unit [
    | kilowatts ↦ ok (number (r.round_to 2 power_kw))
    | watts ↦ rounded (f.mul power_kw (f.decimal 1000 0))
    | amperes ↦ rounded (
        f.div (f.mul power_kw (f.decimal 1000 0))
          (f.mul (f.decimal set_power.phases 0) set_power.voltage))
  ]

  abbrev pub switch_service : Num → Service
  switch_service power_kw = record {
    domain = "homeassistant";
    name = if f.lt (f.decimal 0 0) power_kw then "turn_on" else "turn_off";
  }

  -- `self._applied == power_kw`, where `None` equals no number
  abbrev pub is_applied : Option Num → Num → Bool
  is_applied none power_kw = false
  is_applied (some p) power_kw = f.eq p power_kw

  -- The data of the call: later entries replace earlier ones of the same name.
  abbrev pub power_fields : EvService Num → FieldValue Num → Dict String (FieldValue Num)
  power_fields set_power value =
      insert set_power.data_field value
        (update set_power.extra_data (target_fields set_power.target))

module _ {Num : Type 0} ⦃f : FloatOps Num⦄ ⦃r : RoundOps Num⦄ (respond : ℕ → Response)
    (control : EvControl Num) where
  -- `_call_set_power`
  unfoldable pub call_set_power : Num → Attempt Num (Unit {0})
  call_set_power power_kw = lifted (field_value control.set_power power_kw) then λ value.
      call respond control.set_power.service (power_fields control.set_power value)

  -- `_send_power`, for the entity that switches the charger, if there is one
  unfoldable pub send_power_to : Option String → Num → Attempt Num (Unit {0})
  send_power_to none power_kw = call_set_power power_kw
  send_power_to (some entity) power_kw =
      call respond (switch_service power_kw) (("entity_id", text entity) ∷ []) then λ _.
      (if f.lt (f.decimal 0 0) power_kw then call_set_power power_kw else returns tt)

  unfoldable pub send_power : Num → Attempt Num (Unit {0})
  send_power power_kw = send_power_to control.enable_entity_id power_kw

  -- Sends a power that is not the applied one, and notes that it was sent.
  unfoldable pub settle : ControlOutcome → Num → Attempt Num ControlOutcome
  settle outcome power_kw s =
      if is_applied s.applied_kw power_kw
      then returns unchanged s
      else (send_power power_kw then λ _ t.
            returns outcome (record t { applied_kw = some power_kw }))
          s

  -- `_fall_back`
  abbrev pub fall_back : Attempt Num ControlOutcome
  fall_back = settle fell_back control.maximum_charge_kw

  -- `_apply`
  abbrev pub apply : Num → Attempt Num ControlOutcome
  apply planned_kw =
      settle applied (if f.lt planned_kw no_power_kw then f.decimal 0 0 else planned_kw)

  abbrev pub fall_back_or_apply : Option Num → Attempt Num ControlOutcome
  fall_back_or_apply none = fall_back
  fall_back_or_apply (some planned_kw) = apply planned_kw

  -- `apply_due`, at the time `now`, for what the store holds
  unfoldable pub apply_due :
      Result StoreError (Option (EvSchedule Num)) → Instant → Attempt Num ControlOutcome
  apply_due (err e) now s = (s, err (not_loaded e))
  apply_due (ok schedule) now s =
      on_control_error ((lifted (planned_power control schedule now) then fall_back_or_apply) s)
