-- ===== src/Control/Polls.antt =====
-- What the controller knows after any number of polls.
use energy_optimizer.Prelude.{
  ℕ, ◌≡◌, refl, sym, true, Option, none, some, List, [], ◌++◌, length, Result, ok, err, Bool-cases,
  inl, inr, subst, ◌⊎◌,
}
use energy_optimizer.Hours.{Instant}
use energy_optimizer.Floats.{FloatOps}
use energy_optimizer.Series.{StoreError}
use energy_optimizer.Control.{
  RoundOps, FieldValue, EvControl, EvSchedule, Call, Response, ControlError, not_sent, rejected,
  not_rounded, uneven_schedule, no_hours, not_loaded, ControlOutcome, EvController, field_value,
  is_applied, planned_power, apply_due, on_control_error,
}
use energy_optimizer.Control.Sends.{all_accepted}
use energy_optimizer.Control.Commands.{commands, all_commands, settled, wanted, apply_due-settled}

Result-cases : {E A : Type 0} (r : Result E A) → ((a : A) × (r ≡ ok a)) ⊎ ((e : E) × (r ≡ err e))
Result-cases (ok a) = inl (a, refl)
Result-cases (err e) = inr (e, refl)

module _ {Num : Type 0} ⦃f : FloatOps Num⦄ ⦃r : RoundOps Num⦄ (respond : ℕ → Response)
    (control : EvControl Num) where
  -- The service has a value for every power that a poll may want to set: `round` does not fail.
  abbrev pub IsSettable : Option (EvSchedule Num) → Instant → Type 0
  IsSettable schedule now =
      (planned : Option Num)
      → planned_power control schedule now ≡ ok planned
      → (value : FieldValue Num) × (field_value control.set_power (wanted control planned).1
          ≡ ok value)

  -- The states after any number of polls, at any times and for any stored schedules.
  pub data Polls : EvController Num → Type 0 where
    start : Polls (record { applied_kw = none; calls = [] })
    poll :
        {s : EvController Num}
        → Polls s
        → (schedule : Option (EvSchedule Num)) (now : Instant)
        → Polls (apply_due respond control (ok schedule) now s).0
    unreadable_store :
        {s : EvController Num}
        → Polls s
        → (e : StoreError) (now : Instant) → Polls (apply_due respond control (err e) now s).0

  -- Of every poll whose schedule was read, the power that it may have wanted to set has a value.
  abbrev pub AllSettable : {s : EvController Num} → Polls s → Type 0
  AllSettable start = Unit
  AllSettable (poll p schedule now) = AllSettable p × IsSettable schedule now
  AllSettable (unreadable_store p e now) = AllSettable p

  -- If a power is the applied one, then the last calls were the commands that set it, and all of
  -- them were accepted.
  abbrev pub IsSynced : EvController Num → Type 0
  IsSynced s =
      (power_kw : Num)
      → s.applied_kw ≡ some power_kw
      → (earlier : List (Call Num)) × (value : FieldValue Num) × (field_value control.set_power
            power_kw
          ≡ ok value)
        × (s.calls ≡ earlier ++ commands control control.enable_entity_id power_kw value)
        × (all_accepted respond (length earlier)
              (commands control control.enable_entity_id power_kw value)
            ≡ true)

  IsSynced-none : (calls : List (Call Num)) → IsSynced (record { applied_kw = none; calls = calls })
  IsSynced-none calls power_kw h = cc

  on_control_error-IsSynced :
      (s : EvController Num) (e : ControlError)
      → IsSynced s
      → IsSynced (on_control_error (s, err e)).0
  on_control_error-IsSynced s (not_sent _) h = IsSynced-none s.calls
  on_control_error-IsSynced s (rejected _ _) h = IsSynced-none s.calls
  on_control_error-IsSynced s not_rounded h = h
  on_control_error-IsSynced s uneven_schedule h = h
  on_control_error-IsSynced s no_hours h = h
  on_control_error-IsSynced s (not_loaded _) h = h

  commands-IsSynced :
      (calls : List (Call Num)) (power_kw : Num) (value : FieldValue Num)
      → field_value control.set_power power_kw ≡ ok value
      → all_accepted respond (length calls) (all_commands respond control power_kw value) ≡ true
      → IsSynced (record {
        applied_kw = some power_kw;
        calls = calls ++ all_commands respond control power_kw value;
      })
  commands-IsSynced calls power_kw value settable good p same =
      let e : power_kw ≡ p = cc in
      subst
        (λ x.
          (earlier : List (Call Num)) × (v : FieldValue Num) × (field_value control.set_power x
            ≡ ok v)
          × (calls ++ all_commands respond control power_kw value
              ≡ earlier ++ commands control control.enable_entity_id x v)
          × (all_accepted respond (length earlier) (commands control control.enable_entity_id x v)
              ≡ true))
        e (calls, value, settable, refl, good)

  settled-IsSynced :
      (outcome : ControlOutcome) (power_kw : Num) (value : FieldValue Num) (s : EvController Num)
      → field_value control.set_power power_kw ≡ ok value
      → IsSynced s
      → IsSynced (settled respond control power_kw value outcome s).0
  settled-IsSynced outcome power_kw value s settable h =
      elim (Bool-cases (is_applied s.applied_kw power_kw)) [
        | inl same ↦ rw same h
        | inr other ↦
            rw other
              (elim (Bool-cases (
                all_accepted respond (length s.calls)
                  (all_commands respond control power_kw value))) [
                    | inl good ↦ rw good (commands-IsSynced s.calls power_kw value settable good)
                    | inr bad ↦ rw bad (IsSynced-none _)
                  ])
      ]

  apply_due-IsSynced :
      (schedule : Option (EvSchedule Num)) (now : Instant) (s : EvController Num)
      → IsSettable schedule now
      → IsSynced s
      → IsSynced (apply_due respond control (ok schedule) now s).0
  unfolding apply_due
  apply_due-IsSynced schedule now s settable h =
      elim (Result-cases (planned_power control schedule now)) [
        | inl (planned, plan) ↦
            let (value, e) = settable planned plan in
            subst (λ o. IsSynced o.0)
              (sym (apply_due-settled respond control schedule now s planned value plan e))
              (settled-IsSynced (wanted control planned).0 (wanted control planned).1 value s e h)
        | inr (e, fails) ↦ rw fails (on_control_error-IsSynced s e h)
      ]

  -- After any number of polls, at any times, for any stored schedules and however the calls were
  -- answered, if each power that a poll was to set has a value for the service, so that its rounding
  -- does not fail: if a power is the applied one, then the last calls that were made are the commands
  -- that set it, and all of them were accepted.
  pub Polls-IsSynced : (s : EvController Num) (p : Polls s) → AllSettable p → IsSynced s
  unfolding apply_due
  Polls-IsSynced s start h = IsSynced-none []
  Polls-IsSynced s (poll p schedule now) h =
      apply_due-IsSynced schedule now _ h.1 (Polls-IsSynced _ p h.0)
  Polls-IsSynced s (unreadable_store p e now) h = Polls-IsSynced _ p h
