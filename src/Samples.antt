-- ===== src/Samples.antt =====
-- Concrete numbers and data for the tests.
use energy_optimizer.Prelude.{
  ℕ, ◌+◌, ◌-◌, ◌*◌, ◌/◌, ◌^◌, true, none, some, List, [], ◌∷◌, ltb, leb, nat_beq,
}
use energy_optimizer.Floats.{FloatOps}
use energy_optimizer.Hours.{Instant, hour, aware}
use energy_optimizer.Exclusions.{
  ExclusionCause, HourExclusion, ExcludedDataPoint, ExclusionReason, flagged_suspect, unavailable,
}
use energy_optimizer.Series.{HouseholdLoadData, GridFlowData, ElectricityPriceData}

-- Non-negative hundredths, rounded down.
instance abbrev pub hundredths : FloatOps ℕ
hundredths = record {
  decimal = λ m k. m * 100 / 10 ^ k;
  is_finite = λ _. true;
  lt = ltb;
  le = leb;
  eq = nat_beq;
  add = λ a b. a + b;
  sub = λ a b. a - b;
  mul = λ a b. a * b / 100;
  div = λ a b. a * 100 / b;
}

abbrev pub point : Instant → ExcludedDataPoint ℕ
point t = record {
  timestamp = t;
  state = some "unavailable";
  unit = none;
  entity_id = none;
  previous_timestamp = none;
  previous_value = none;
  value = none;
  step_kwh = none;
  maximum_kwh = none;
}

abbrev pub cause : ExclusionReason → List (ExcludedDataPoint ℕ) → ExclusionCause ℕ
cause reason points = record {
  reason = reason;
  message = flagged_suspect none none;
  entity_id = some "sensor.load";
  data_points = points;
  data_point_count = 2;
}

abbrev pub excluded_hour : Instant → HourExclusion ℕ
excluded_hour t = record {
  hour_start = t;
  causes = cause unavailable (point t ∷ point (t + 1) ∷ []) ∷ [];
}

-- Hours 10, 11 and 12; the second is excluded.
abbrev pub stored : HouseholdLoadData ℕ
stored = record {
  schema_version = "1";
  start_time = aware (10 * hour);
  interval_minutes = 60;
  load_kw = some 50 ∷ none ∷ some 70 ∷ [];
  unit = "kW";
  source = record { provider = "home-assistant"; entity_id = none };
  retrieved_at = aware (13 * hour);
  latest_observation_at = aware (13 * hour);
  exclusions = excluded_hour (11 * hour) ∷ [];
  quality = [];
}

-- Hours 15 and 16, after a gap of two hours.
abbrev pub fetched : HouseholdLoadData ℕ
fetched = record stored {
  start_time = aware (15 * hour);
  load_kw = some 10 ∷ some 20 ∷ [];
  retrieved_at = aware (17 * hour);
  exclusions = [];
}

-- The grid flow of hours 10 and 11; the second is excluded.
abbrev pub stored_flow : GridFlowData ℕ
stored_flow = record {
  schema_version = "1";
  start_time = aware (10 * hour);
  interval_minutes = 60;
  import_kw = some 50 ∷ none ∷ [];
  export_kw = some 0 ∷ none ∷ [];
  unit = "kW";
  source = record { provider = "home-assistant"; entity_id = none };
  retrieved_at = aware (13 * hour);
  latest_observation_at = aware (13 * hour);
  exclusions = excluded_hour (11 * hour) ∷ [];
  quality = [];
}

-- The grid flow of hour 14.
abbrev pub fetched_flow : GridFlowData ℕ
fetched_flow = record stored_flow {
  start_time = aware (14 * hour);
  import_kw = some 20 ∷ [];
  export_kw = some 30 ∷ [];
  retrieved_at = aware (15 * hour);
  exclusions = [];
}

-- Prices of the hours 10 and 12, out of order.
abbrev pub stored_prices : ElectricityPriceData ℕ
stored_prices = record {
  schema_version = "1";
  timestamps = aware (12 * hour) ∷ aware (10 * hour) ∷ [];
  interval_minutes = 60;
  import_price_eur_per_kwh = 31 ∷ 30 ∷ [];
  export_price_eur_per_kwh = 8 ∷ 7 ∷ [];
  unit = "EUR/kWh";
  source = record { provider = "awattar"; entity_id = none };
  retrieved_at = aware (9 * hour);
  expires_at = aware (13 * hour);
}

abbrev pub fetched_prices : ElectricityPriceData ℕ
fetched_prices = record stored_prices {
  timestamps = aware (12 * hour) ∷ aware (13 * hour) ∷ [];
  import_price_eur_per_kwh = 29 ∷ 28 ∷ [];
}

-- The hour 10, and the hour 11, which was fetched next.
abbrev pub one_hour : HouseholdLoadData ℕ
one_hour = record stored {
  load_kw = some 50 ∷ [];
  retrieved_at = aware (11 * hour);
  latest_observation_at = aware (11 * hour);
  exclusions = [];
}

abbrev pub next_hour : HouseholdLoadData ℕ
next_hour = record one_hour {
  start_time = aware (11 * hour);
  load_kw = some 70 ∷ [];
  retrieved_at = aware (12 * hour);
  latest_observation_at = aware (12 * hour);
}
