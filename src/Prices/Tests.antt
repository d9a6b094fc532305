-- ===== src/Prices/Tests.antt =====
-- Tests of the price history, and the theorem at concrete prices.
use mathlib.Core.Option.{some}
use mathlib.Core.List.{List, [], ◌∷◌}
use energy_optimizer.Prelude.{◌≡◌, ◌*◌, refl, ok, insert, ℕ, Dict}
use energy_optimizer.Hours.{Instant, hour}
use energy_optimizer.Samples.{hundredths, stored_prices, fetched_prices}
use energy_optimizer.Series.{ElectricityPriceData}
use energy_optimizer.Records.{as_utc}
use energy_optimizer.Grid.{require_hourly_start}
use energy_optimizer.Prices.{price_points, price_loop, merge_price_history}
use energy_optimizer.Prices.Merge.{ArePricesMerged, merge_price_history-ArePricesMerged}

abbrev stored_hours : Dict Instant (ℕ × ℕ)
stored_hours = (12 * hour, (31, 8)) ∷ (10 * hour, (30, 7)) ∷ []

abbrev fetched_hours : Dict Instant (ℕ × ℕ)
fetched_hours = (12 * hour, (29, 8)) ∷ (13 * hour, (28, 7)) ∷ []

stored_prices-points : price_points stored_prices ≡ ok stored_hours
unfolding price_points price_loop require_hourly_start as_utc insert
stored_prices-points = refl

fetched_prices-points : price_points fetched_prices ≡ ok fetched_hours
unfolding price_points price_loop require_hourly_start as_utc insert
fetched_prices-points = refl

merge_price_history-ArePricesMerged_example :
    (merged : ElectricityPriceData ℕ) × (merge_price_history (some stored_prices) fetched_prices
      ≡ ok merged)
    × (hours : List (Instant × (ℕ × ℕ))) × (price_points merged ≡ ok hours)
    × ArePricesMerged stored_hours fetched_hours hours
merge_price_history-ArePricesMerged_example =
    merge_price_history-ArePricesMerged stored_prices fetched_prices stored_hours fetched_hours refl
      stored_prices-points fetched_prices-points
