-- ===== src/Control/Commands.antt =====
-- `apply_due`: the calls that a poll makes, and what the controller knows afterwards.
use energy_optimizer.Prelude.{
  ℕ, ◌≡◌, refl, sym, Option, none, some, List, [], ◌∷◌, ◌++◌, ap, ap₂, ◌∙◌, if◌then◌else◌, length,
  Result, ok, err, Bool-cases, inl, inr, append-nil, String,
}
use energy_optimizer.Hours.{Instant}
use energy_optimizer.Floats.{FloatOps}
use energy_optimizer.Control.{
  RoundOps, FieldValue, text, EvControl, EvSchedule, Call, Response, ControlError, ControlOutcome,
  applied, unchanged, fell_back, failed, EvController, ◌then◌, continued, returns, call,
  field_value, power_fields, call_set_power, switch_service, send_power, send_power_to, is_applied,
  settle, planned_power, apply_due, no_power_kw, on_control_error,
}
use energy_optimizer.Control.Sends.{
  on_control_error-caught, sent, all_accepted, after_calls, Sends, sent-all, call-Sends, Sends-then,
}

module _ {Num : Type 0} ⦃f : FloatOps Num⦄ ⦃r : RoundOps Num⦄ (control : EvControl Num) where
  abbrev pub set_call : FieldValue Num → Call Num
  set_call value = record {
    service = control.set_power.service;
    fields = power_fields control.set_power value;
  }

  -- The commands that set a power, whose field has the value `value`: the charger is switched, if
  -- it can be, and then the power is set, unless the charger was switched off.
  abbrev pub commands : Option String → Num → FieldValue Num → List (Call Num)
  commands none power_kw value = set_call value ∷ []
  commands (some entity) power_kw value =
      record { service = switch_service power_kw; fields = ("entity_id", text entity) ∷ [] }
      ∷ (if f.lt (f.decimal 0 0) power_kw then set_call value ∷ [] else [])

module _ {Num : Type 0} ⦃f : FloatOps Num⦄ ⦃r : RoundOps Num⦄ (respond : ℕ → Response)
    (control : EvControl Num) (power_kw : Num) (value : FieldValue Num) where
  abbrev pub all_commands : List (Call Num)
  all_commands = commands control control.enable_entity_id power_kw value

  -- What a poll makes of a power that is to be set.
  abbrev pub settled :
      ControlOutcome → EvController Num → EvController Num × Result ControlError ControlOutcome
  settled outcome s =
      if is_applied s.applied_kw power_kw
      then (s, ok unchanged)
      else if all_accepted respond (length s.calls) all_commands
      then (record { applied_kw = some power_kw; calls = s.calls ++ all_commands }, ok outcome)
      else (
        record { applied_kw = none; calls = s.calls ++ sent respond (length s.calls) all_commands },
        ok failed,
      )

module _ {Num : Type 0} ⦃f : FloatOps Num⦄ ⦃r : RoundOps Num⦄ (respond : ℕ → Response)
    (control : EvControl Num) (power_kw : Num) (value : FieldValue Num)
    (settable : field_value control.set_power power_kw ≡ ok value) where
  call_set_power-Sends :
      (s : EvController Num)
      → Sends respond (set_call control value ∷ []) (call_set_power respond control power_kw s) s
  unfolding call_set_power
  call_set_power-Sends s =
      rw settable
        (call-Sends respond control.set_power.service (power_fields control.set_power value) s)

  after_switch-Sends :
      (s : EvController Num)
      → Sends respond
          (if f.lt (f.decimal 0 0) power_kw then set_call control value ∷ [] else [])
          ((if f.lt (f.decimal 0 0) power_kw
              then call_set_power respond control power_kw
              else returns tt)
            s)
          s
  after_switch-Sends s = elim (Bool-cases (f.lt (f.decimal 0 0) power_kw)) [
    | inl on ↦ rw on (call_set_power-Sends s)
    | inr off ↦
        rw off (ap (λ l. record s { calls = l }) (sym (append-nil s.calls)), inl (refl, refl))
  ]

  send_power_to-Sends :
      (entity : Option String) (s : EvController Num)
      → Sends respond
          (commands control entity power_kw value)
          (send_power_to respond control entity power_kw s)
          s
  unfolding send_power_to
  send_power_to-Sends none s = call_set_power-Sends s
  send_power_to-Sends (some entity) s =
      Sends-then respond _ _
        (call respond (switch_service power_kw) (("entity_id", text entity) ∷ [])) _ s
        (call-Sends respond _ _ s) after_switch-Sends

  send_power-Sends :
      (s : EvController Num)
      → Sends respond
          (commands control control.enable_entity_id power_kw value)
          (send_power respond control power_kw s)
          s
  unfolding send_power
  send_power-Sends s = send_power_to-Sends control.enable_entity_id s

  finished :
      (outcome : ControlOutcome) (s : EvController Num)
      (o : EvController Num × Result ControlError (Unit {0}))
      → Sends respond (all_commands respond control power_kw value) o s
      → on_control_error
          (continued (λ _ t. returns outcome (record t { applied_kw = some power_kw })) o)
        ≡ (if all_accepted respond (length s.calls) (all_commands respond control power_kw value)
            then (
              record {
                applied_kw = some power_kw;
                calls = s.calls ++ (all_commands respond control power_kw value);
              },
              ok outcome,
            )
            else (
              record {
                applied_kw = none;
                calls =
                    s.calls
                    ++ sent respond (length s.calls) (all_commands respond control power_kw value);
              },
              ok failed,
            ))
  finished outcome s o (state, inl (good, is_ok)) =
      let whole : o ≡ (after_calls respond s (all_commands respond control power_kw value), ok tt) =
        ap₂ (λ x y. (x, y)) state is_ok in
      ap
        (λ q.
          on_control_error
            (continued (λ _ t. returns outcome (record t { applied_kw = some power_kw })) q))
        whole
      ∙ rw good (
          ap (λ cs. (record { applied_kw = some power_kw; calls = s.calls ++ cs }, ok outcome))
            (sent-all respond (length s.calls) (all_commands respond control power_kw value) good))
  finished outcome s o (state, inr (bad, e, is_err, kind)) =
      let whole : o ≡ (after_calls respond s (all_commands respond control power_kw value), err e) =
        ap₂ (λ x y. (x, y)) state is_err in
      ap
        (λ q.
          on_control_error
            (continued (λ _ t. returns outcome (record t { applied_kw = some power_kw })) q))
        whole
      ∙ rw bad (
          on_control_error-caught
            (after_calls respond s (all_commands respond control power_kw value)) e kind)

  settle-settled :
      (outcome : ControlOutcome) (s : EvController Num)
      → on_control_error (settle respond control outcome power_kw s)
        ≡ settled respond control power_kw value outcome s
  unfolding settle
  settle-settled outcome s = elim (Bool-cases (is_applied s.applied_kw power_kw)) [
    | inl same ↦ rw same refl
    | inr other ↦
        rw other (finished outcome s (send_power respond control power_kw s) (send_power-Sends s))
  ]

module _ {Num : Type 0} ⦃f : FloatOps Num⦄ ⦃r : RoundOps Num⦄ where
  -- The power that a poll is to set, and the outcome if it is set: the planned power, or none at
  -- all if that is below 0.05 kW, or else the maximum.
  abbrev pub wanted : EvControl Num → Option Num → ControlOutcome × Num
  wanted control none = (fell_back, control.maximum_charge_kw)
  wanted control (some planned) =
      (applied, if f.lt planned no_power_kw then f.decimal 0 0 else planned)

  -- A poll that knows the planned power, or that there is none, and whose power has a value for the
  -- service: if the power is the applied one, it does nothing. Otherwise it sends the commands that
  -- set the power, up to the first one that fails. If none fails, the power is the applied one and
  -- the poll applied it or fell back; if one fails, no power is the applied one and the poll failed.
  pub apply_due-settled :
      (respond : ℕ → Response) (control : EvControl Num) (schedule : Option (EvSchedule Num))
      (now : Instant) (s : EvController Num) (planned : Option Num) (value : FieldValue Num)
      → planned_power control schedule now ≡ ok planned
      → field_value control.set_power (wanted control planned).1 ≡ ok value
      → apply_due respond control (ok schedule) now s
        ≡ settled respond control (wanted control planned).1 value (wanted control planned).0 s
  unfolding apply_due
  apply_due-settled respond control schedule now s none value plan settable =
      rw plan (settle-settled respond control _ value settable fell_back s)
  apply_due-settled respond control schedule now s (some planned) value plan settable =
      rw plan (settle-settled respond control _ value settable applied s)
