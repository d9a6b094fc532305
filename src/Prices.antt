-- ===== src/Prices.antt =====
-- src/energy_optimizer/history_merge.py, the prices: validated hours and the retained history.
-- The retained timestamps are explicit, so that hours may be missing.
pub mod Entries
pub mod Merge
mod Tests
use mathlib.Core.Option
use energy_optimizer.Prelude.{
  ℕ, ◌+◌, ◌*◌, String, Bool, true, false, not, ◌&&◌, ◌||◌, Option, none, some, List, [], ◌∷◌, map,
  ◌==◌, nat_eq, string_eq, option_eq, length, take_last, Dict, insert, update, Result, ok, err,
  ◌>>=◌, ◌>>◌, raise_if,
}
use energy_optimizer.Prelude.Sorting.{sorted_items}
use energy_optimizer.Hours.{Instant, Datetime, aware}
use energy_optimizer.Floats.{FloatOps}
use energy_optimizer.Series.{
  ElectricityPriceData, electricity_price, StoreError, not_hourly, empty_history, invalid_value,
  source_mismatch,
}
use energy_optimizer.Records.{as_utc}
use energy_optimizer.Grid.{history_retention_hours, require_hourly_start, same_source, latest_time}

module _ {Num : Type 0} ⦃f : FloatOps Num⦄ where
  unfoldable pub price_loop :
      List Datetime
      → List Num
      → List Num
      → Dict Instant (Num × Num)
      → Result StoreError (Dict Instant (Num × Num))
  price_loop (t ∷ ts) (i ∷ is) (e ∷ es) points =
      raise_if (not (f.is_finite i && f.is_finite e)) (invalid_value electricity_price)
      >> (require_hourly_start t electricity_price >>= λ h.
          price_loop ts is es (insert h (i, e) points))
  price_loop _ _ _ points = ok points

  unfoldable pub price_points :
      ElectricityPriceData Num → Result StoreError (Dict Instant (Num × Num))
  price_points d = do
    let count = length d.timestamps
    raise_if
        (count == 0
          || (not (length d.import_price_eur_per_kwh == count)
              || not (length d.export_price_eur_per_kwh == count)))
        (empty_history electricity_price)
    raise_if (not (d.interval_minutes == 60) || not (d.unit == "EUR/kWh"))
        (not_hourly electricity_price)
    _ ← as_utc d.retrieved_at
    _ ← as_utc d.expires_at
    price_loop d.timestamps d.import_price_eur_per_kwh d.export_price_eur_per_kwh []

  abbrev pub retained_prices :
      Option (ElectricityPriceData Num)
      → ElectricityPriceData Num
      → Result StoreError (Dict Instant (Num × Num))
  retained_prices none incoming = ok []
  retained_prices (some existing) incoming = do
    raise_if (not (same_source existing.source incoming.source)) (source_mismatch electricity_price)
    price_points existing

  unfoldable pub merge_price_history :
      Option (ElectricityPriceData Num)
      → ElectricityPriceData Num
      → Result StoreError (ElectricityPriceData Num)
  merge_price_history existing incoming = do
    retained ← retained_prices existing incoming
    incoming_points ← price_points incoming
    let ordered = take_last history_retention_hours (sorted_items (update retained incoming_points))
    retrieved ← latest_time (Option.map (λ d. d.retrieved_at) existing) incoming.retrieved_at
    expires ← latest_time (Option.map (λ d. d.expires_at) existing) incoming.expires_at
    ok (record {
      schema_version = incoming.schema_version;
      timestamps = map (λ e. aware e.0) ordered;
      interval_minutes = 60;
      import_price_eur_per_kwh = map (λ e. e.1.0) ordered;
      export_price_eur_per_kwh = map (λ e. e.1.1) ordered;
      unit = incoming.unit;
      source = incoming.source;
      retrieved_at = aware retrieved;
      expires_at = aware expires;
    })
