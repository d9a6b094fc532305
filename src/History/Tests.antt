-- ===== src/History/Tests.antt =====
-- The merge of PV histories at two hours.
use energy_optimizer.Prelude.{ℕ, ◌*◌, ◌≡◌, refl, arith, ok, some, lookup}
use energy_optimizer.Hours.{hour, hourly}
use energy_optimizer.Samples.{hundredths, one_hour, next_hour}
use energy_optimizer.Series.{HouseholdLoadData}
use energy_optimizer.Records.{is_invalid_load}
use energy_optimizer.Records.Points.{IsHistory}
use energy_optimizer.Records.Merge.{IsMerged}
use energy_optimizer.History.{PvGenerationHistoryData, pv_generation_source, merge_pv_history}
use energy_optimizer.History.Merge.{pv_load, merge_pv_history-IsMerged}

-- The same values as measured generation.
abbrev generation : HouseholdLoadData ℕ → PvGenerationHistoryData ℕ
generation d = record {
  schema_version = d.schema_version;
  start_time = d.start_time;
  interval_minutes = d.interval_minutes;
  generation_kw = d.load_kw;
  unit = d.unit;
  source = pv_generation_source;
  retrieved_at = d.retrieved_at;
  latest_observation_at = d.latest_observation_at;
  exclusions = d.exclusions;
}

first_hour-IsHistory : IsHistory (10 * hour) (pv_load (generation one_hour))
unfolding lookup hourly is_invalid_load
first_hour-IsHistory = record {
  starts = refl;
  aligned = omega arith;
  minutes = refl;
  in_kw = refl;
  retrieved = (11 * hour, refl);
  observed = (11 * hour, refl);
  nonempty = omega arith;
  values_valid = (refl, tt);
  one_exclusion = tt;
  explained = λ t. ground arith;
}

second_hour-IsHistory : IsHistory (11 * hour) (pv_load (generation next_hour))
unfolding lookup hourly is_invalid_load
second_hour-IsHistory = record {
  starts = refl;
  aligned = omega arith;
  minutes = refl;
  in_kw = refl;
  retrieved = (12 * hour, refl);
  observed = (12 * hour, refl);
  nonempty = omega arith;
  values_valid = (refl, tt);
  one_exclusion = tt;
  explained = λ t. ground arith;
}

merge_pv_history-IsMerged_example :
    (merged : PvGenerationHistoryData ℕ) × (merge_pv_history
        (some (generation one_hour))
        (generation next_hour)
      ≡ ok merged)
    × (merged.source ≡ pv_generation_source)
    × IsMerged
        (10 * hour)
        (11 * hour)
        (pv_load (generation one_hour))
        (pv_load (generation next_hour))
        (pv_load merged)
merge_pv_history-IsMerged_example =
    merge_pv_history-IsMerged (10 * hour) (11 * hour) (generation one_hour) (generation next_hour)
      first_hour-IsHistory second_hour-IsHistory (omega arith) refl refl
