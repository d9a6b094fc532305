-- ===== src/Control/Schedule.antt =====
-- `merge_schedule` and `power_at`: the power that a merged schedule has for a moment.
use energy_optimizer.Prelude.{◌-◌, ◌%◌, ◌≡◌, List, [], ◌∷◌, nat_eq, if◌then◌else◌, length, All}
use energy_optimizer.Hours.{Instant, hour}
use energy_optimizer.Control.{EvSchedule, is_kept}

abbrev pub AreAligned : List Instant → Type 0
AreAligned ts = All (λ t. t % hour ≡ 0) ts

-- The start of the hour of a moment.
abbrev pub hour_of : Instant → Instant
hour_of moment = moment - moment % hour

module _ {Num : Type 0} where
  abbrev zipped : List Instant → List Num → List (Instant × Num)
  zipped (t ∷ ts) (p ∷ ps) = (t, p) ∷ zipped ts ps
  zipped _ _ = []

  -- The entries of earlier plans that are kept.
  abbrev kept_entries : Instant → Instant → List (Instant × Num) → List (Instant × Num)
  kept_entries first updated_at [] = []
  kept_entries first updated_at ((t, p) ∷ l) =
      if is_kept first updated_at t
      then (t, p) ∷ kept_entries first updated_at l
      else kept_entries first updated_at l

  abbrev pub plan_of : Instant → List Instant → List Num → EvSchedule Num
  plan_of updated_at hour_starts charge_kw = record {
    updated_at = updated_at;
    hour_starts = hour_starts;
    charge_kw = charge_kw;
  }

  -- A schedule of whole hours, with a power for each.
  pub record IsHourly (schedule : EvSchedule Num) : Type 0 where
    pub aligned : AreAligned schedule.hour_starts
    pub paired : length schedule.hour_starts ≡ length schedule.charge_kw
