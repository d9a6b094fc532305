-- ===== src/Control/Tests.antt =====
-- Tests of the controller, and the theorems at a concrete charger and schedule.
use energy_optimizer.Prelude.{
  ℕ, ◌+◌, ◌*◌, ◌/◌, ◌≡◌, refl, some, none, List, [], ◌∷◌, leb, if◌then◌else◌, nat_eq, ok,
}
use energy_optimizer.Hours.{Instant, hour}
use energy_optimizer.Samples.{hundredths}
use energy_optimizer.Control.{
  RoundOps, amperes, number, to_entity, EvControl, EvSchedule, Response, status, EvController,
  field_value, planned_power, apply_due, power_at, power_loop, failed, send_power, send_power_to,
  call_set_power, call, settle,
}
use energy_optimizer.Control.Schedule.{plan_of}
use energy_optimizer.Control.Commands.{settled, wanted, apply_due-settled}
use energy_optimizer.Control.Polls.{start, poll, IsSettable, IsSynced, Polls-IsSynced}

instance abbrev whole_hundredths : RoundOps ℕ
whole_hundredths = record {
  round_to = λ places x. x;
  round_whole = λ x. some ((x + 50) / 100 * 100);
}

abbrev charger : EvControl ℕ
charger = record {
  set_power = record {
    service = record { domain = "number"; name = "set_value" };
    target = to_entity "number.charger";
    data_field = "value";
    extra_data = [];
    unit = amperes;
    phases = 3;
    voltage = 23000;
  };
  enable_entity_id = some "switch.charger";
  max_plan_age = 2 * hour;
  maximum_charge_kw = 1100;
}

-- The second call is rejected.
abbrev answers : ℕ → Response
answers n = if leb 1 n then (if leb n 1 then status 500 else status 200) else status 200

-- 7 kW at ten, and 4 kW at eleven
abbrev schedule : EvSchedule ℕ
schedule = plan_of (9 * hour) (10 * hour ∷ 11 * hour ∷ []) (700 ∷ 400 ∷ [])

abbrev idle : EvController ℕ
idle = record { applied_kw = none; calls = [] }

planned_at_ten : planned_power charger (some schedule) (10 * hour + 1) ≡ ok (some 700)
unfolding planned_power power_at power_loop
planned_at_ten = refl

amperes_of_seven : field_value (charger.set_power) 700 ≡ ok (number 1000)
unfolding field_value
amperes_of_seven = refl

apply_due-settled_example :
    apply_due answers charger (ok (some schedule)) (10 * hour + 1) idle
    ≡ settled answers charger
        (wanted charger (some 700)).1
        (number 1000)
        (wanted charger (some 700)).0
        idle
apply_due-settled_example =
    apply_due-settled answers charger (some schedule) (10 * hour + 1) idle (some 700) (number 1000)
      planned_at_ten amperes_of_seven

-- The rejected call makes the poll fail.
rejected_poll : (apply_due answers charger (ok (some schedule)) (10 * hour + 1) idle).1 ≡ ok failed
unfolding apply_due planned_power power_at power_loop settle send_power send_power_to call_set_power
    call field_value
rejected_poll = refl

settable : (now : Instant) → IsSettable answers charger (some schedule) now
unfolding field_value
settable now planned plan = (_, refl)

Polls-IsSynced_example :
    IsSynced answers charger (apply_due answers charger (ok (some schedule)) (10 * hour + 1) idle).0
Polls-IsSynced_example =
    Polls-IsSynced answers charger
      (apply_due answers charger (ok (some schedule)) (10 * hour + 1) idle).0
      (poll start (some schedule) (10 * hour + 1)) (tt, settable (10 * hour + 1))

abbrev next_powers : List ℕ
next_powers = 0 ∷ 200 ∷ []
