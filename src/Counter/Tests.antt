-- ===== src/Counter/Tests.antt =====
-- Tests of the counters, and the theorem at a concrete history.
use energy_optimizer.Prelude.{
  ℕ, ◌-◌, ◌*◌, ◌/◌, ◌<◌, ◌≡◌, refl, some, none, List, [], ◌∷◌, ok, lookup, insert, arith,
}
use energy_optimizer.Prelude.Sorting.{sorted_items}
use energy_optimizer.Hours.{Instant, hour, aware}
use energy_optimizer.Samples.{hundredths}
use energy_optimizer.Readings.{
  EnergyEntity, HistorySample, EnergySeries, kilowatt_hours, validate_samples, sample_reason,
  hour_ordinal,
}
use energy_optimizer.Counter.{
  normalize_counter_history, sample_loop, observe, step_causes, exclude_totals, values_of,
  exclusion_of_hour, finish,
}
use energy_optimizer.Counter.Returns.{normalize_counter_history_returns}
use energy_optimizer.Counter.Explained.{IsExplained, normalize_counter_history-IsExplained}

abbrev meter : EnergyEntity ℕ
meter = record {
  entity_id = "sensor.meter";
  state_class = "total_increasing";
  unit = kilowatt_hours;
  maximum_interval_energy_kwh = 1000;
}

abbrev reading : Instant → ℕ → HistorySample ℕ
reading t value = record {
  timestamp = t;
  value = some value;
  unit = some "kWh";
  state_class = none;
  last_reset = none;
  state = none;
  invalid = none;
  observed_at = none;
}

-- Half a kilowatt-hour in the first hour, and a quarter in the second.
abbrev readings : List (HistorySample ℕ)
readings = reading (10 * hour) 500 ∷ reading (11 * hour) 550 ∷ reading (12 * hour) 575 ∷ []

abbrev two_hours : EnergySeries ℕ
two_hours = record {
  start_time = 10 * hour;
  values_kw = some 50 ∷ some 25 ∷ [];
  latest_observation_at = 12 * hour;
  exclusions = [];
}

readings-normalized :
    normalize_counter_history meter readings (aware (10 * hour)) (aware (12 * hour)) ≡ ok two_hours
unfolding normalize_counter_history validate_samples sample_reason sample_loop observe step_causes
    hour_ordinal exclude_totals values_of exclusion_of_hour finish lookup insert sorted_items
readings-normalized = refl

normalize_counter_history-IsExplained_example :
    (end : Instant) × (aware (12 * hour) ≡ aware end)
    × (0 < (end - two_hours.start_time) / hour)
    × IsExplained ((end - two_hours.start_time) / hour) two_hours
normalize_counter_history-IsExplained_example =
    normalize_counter_history-IsExplained meter readings (aware (10 * hour)) (aware (12 * hour))
      two_hours readings-normalized

readings-valid : validate_samples readings ≡ ok tt
unfolding validate_samples
readings-valid = refl

normalize_counter_history_returns_example :
    (s : EnergySeries ℕ) × (normalize_counter_history meter readings
        (aware (10 * hour))
        (aware (12 * hour))
      ≡ ok s)
normalize_counter_history_returns_example =
    normalize_counter_history_returns meter readings (10 * hour) (12 * hour) (omega arith)
      (omega arith) readings-valid ((λ _. refl), ((λ _. refl), ((λ _. refl), tt))) (omega arith)
