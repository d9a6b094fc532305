-- ===== src/Prices/Merge.antt =====
-- `merge_price_history`: what the merged price history holds.
use energy_optimizer.Prelude.{
  ℕ, zero, suc, ◌-◌, ◌≡◌, ◌<◌, refl, none, some, Option, List, [], ◌∷◌, arith, ◌==◌, nat_eq, Dict,
  lookup, or_else, ap, All, ◌∙◌, map, length, update, if◌then◌else◌, min, max, ok, leb, drop,
  take_last, true, false, not, ◌||◌, length-drop, length-map, lookup-update, update-Unique, Unique,
  >>=-eq-ok, raise_if-then, All-drop, string_eq, is_some,
}
use energy_optimizer.Prelude.Sorting.{
  sorted_items, IsSorted, sorted_items-IsSorted, lookup-sorted_items, drop-IsSorted,
  All-sorted_items, All-update,
}
use energy_optimizer.Hours.{Instant, aware}
use energy_optimizer.Floats.{FloatOps}
use energy_optimizer.Series.{
  ElectricityPriceData, household_load_max_values, empty_history, not_hourly, electricity_price,
}
use energy_optimizer.Records.{as_utc}
use energy_optimizer.Records.Points.{as_utc-eq-ok}
use energy_optimizer.Grid.Gap.{latest_time-aware}
use energy_optimizer.Grid.Merge.{same_source_refl}
use energy_optimizer.Prices.{price_points, merge_price_history}
use energy_optimizer.Prices.Entries.{
  price_loop-some, IsPrice, price_loop-IsPrice, price_loop-IsSorted,
}

module _ {V : Type 0} where
  lookup-up_to :
      (t k : Instant) (l : List (Instant × V))
      → t < suc k
      → All (λ e. k < e.0) l
      → lookup t l ≡ none
  unfolding lookup
  lookup-up_to t k [] lt h = refl
  lookup-up_to t k ((j, v) ∷ l) lt h = ground (arith, lookup-up_to t k l lt h.1)

  -- What is left of a sorted list are its entries from some key on.
  lookup-rest :
      (n : ℕ) (l : List (Instant × V))
      → IsSorted l
      → (first : Instant) × ((t : Instant)
          → lookup t (drop n l) ≡ (if leb first t then lookup t l else none))
  unfolding lookup
  lookup-rest zero l h = (0, λ t. ground arith)
  lookup-rest (suc n) [] h = (0, λ t. ground arith)
  lookup-rest (suc n) ((k, v) ∷ l) h =
      let (first, rest) = lookup-rest n l h.1 in
      (
        max first (suc k),
        λ t. ground (arith, rest t, λ (lt : t < suc k). lookup-up_to t k l lt h.0),
      )

  lookup-length :
      (t : Instant) (l : List (Instant × V)) → is_some (lookup t l) ≡ true → 0 < length l
  unfolding lookup
  lookup-length t [] h = absurd (ground arith)
  lookup-length t (e ∷ l) h = omega arith

module _ {Num : Type 0} ⦃f : FloatOps Num⦄ where
  -- A price history that is accepted, and its hours.
  pub record IsPriceHistory (d : ElectricityPriceData Num) (p : Dict Instant (Num × Num))
      : Type 0 where
    pub some_hours : 0 < length d.timestamps
    pub in_eur : d.unit ≡ "EUR/kWh"
    pub retrieved : (t : Instant) × (d.retrieved_at ≡ aware t)
    pub expires : (t : Instant) × (d.expires_at ≡ aware t)
    pub once : Unique p
    pub prices : All IsPrice p
    pub nonempty : (k : Instant) × (is_some (lookup k p) ≡ true)

  price_points-IsPriceHistory :
      (d : ElectricityPriceData Num) (p : Dict Instant (Num × Num))
      → price_points d ≡ ok p
      → IsPriceHistory d p
  unfolding price_points
  price_points-IsPriceHistory d p h =
      let count = length d.timestamps in
      let (n, h1) =
        raise_if-then
          (count == 0
            || (not (length d.import_price_eur_per_kwh == count)
                || not (length d.export_price_eur_per_kwh == count)))
          (empty_history electricity_price) _ h in
      let (b, h2) =
        raise_if-then (not (d.interval_minutes == 60) || not (d.unit == "EUR/kWh"))
          (not_hourly electricity_price) _ h1 in
      let (retrieved, r, h3) = >>=-eq-ok (as_utc d.retrieved_at) _ h2 in
      let (expires, e, h4) = >>=-eq-ok (as_utc d.expires_at) _ h3 in
      let (once, prices) = price_loop-IsPrice d.timestamps _ _ [] p h4 tt tt in
      record {
        some_hours = ground (arith, n);
        in_eur = (string_eq.eqb_iff d.unit "EUR/kWh").0 (ground (arith, b));
        retrieved = (retrieved, as_utc-eq-ok d.retrieved_at retrieved r);
        expires = (expires, as_utc-eq-ok d.expires_at expires e);
        once = once;
        prices = prices;
        nonempty =
            price_loop-some d.timestamps _ _ p (ground (arith, n)) (ground (arith, n))
              (ground (arith, n)) h4;
      }

-- Two accepted price histories, laid over each other.
module _ {Num : Type 0} ⦃f : FloatOps Num⦄ (existing incoming : ElectricityPriceData Num)
    (p q : Dict Instant (Num × Num)) (h₁ : IsPriceHistory existing p)
    (h₂ : IsPriceHistory incoming q) where
  abbrev all_hours : List (Instant × (Num × Num))
  all_hours = sorted_items (update p q)

  abbrev kept_hours : List (Instant × (Num × Num))
  kept_hours = take_last household_load_max_values all_hours

  all_hours-IsSorted : IsSorted all_hours
  all_hours-IsSorted = sorted_items-IsSorted (update p q) (update-Unique p q h₁.once)

  lookup-all_hours : (t : Instant) → lookup t all_hours ≡ or_else (lookup t q) (lookup t p)
  lookup-all_hours t = lookup-sorted_items t (update p q) ∙ lookup-update p q t h₂.once

  some_hour : 0 < length all_hours
  some_hour =
      lookup-length h₂.nonempty.0 all_hours
        (ground (arith, lookup-all_hours h₂.nonempty.0, h₂.nonempty.1))

  length-kept_hours : length kept_hours ≡ min household_load_max_values (length all_hours)
  length-kept_hours =
      omega (arith, length-drop (length all_hours - household_load_max_values) all_hours)

  abbrev merged_prices : ElectricityPriceData Num
  merged_prices = record {
    schema_version = incoming.schema_version;
    timestamps = map (λ e. aware e.0) kept_hours;
    interval_minutes = 60;
    import_price_eur_per_kwh = map (λ e. e.1.0) kept_hours;
    export_price_eur_per_kwh = map (λ e. e.1.1) kept_hours;
    unit = incoming.unit;
    source = incoming.source;
    retrieved_at = aware (max h₁.retrieved.0 h₂.retrieved.0);
    expires_at = aware (max h₁.expires.0 h₂.expires.0);
  }

  counts_agree :
      (let count = length merged_prices.timestamps in
        count == 0
        || (not (length merged_prices.import_price_eur_per_kwh == count)
            || not (length merged_prices.export_price_eur_per_kwh == count)))
      ≡ false
  counts_agree = ground (
    arith,
    some_hour,
    length-kept_hours,
    length-map (λ (e : Instant × (Num × Num)). aware e.0) kept_hours,
    length-map (λ (e : Instant × (Num × Num)). e.1.0) kept_hours,
    length-map (λ (e : Instant × (Num × Num)). e.1.1) kept_hours,
  )

  kept_hours-IsSorted : IsSorted kept_hours
  kept_hours-IsSorted =
      drop-IsSorted (length all_hours - household_load_max_values) all_hours all_hours-IsSorted

  price_points-merged_prices : price_points merged_prices ≡ ok kept_hours
  unfolding price_points as_utc
  price_points-merged_prices =
      rw (counts_agree, (string_eq.eqb_iff incoming.unit "EUR/kWh").1 h₂.in_eur)
        (price_loop-IsSorted kept_hours kept_hours-IsSorted (
          All-drop _ (length all_hours - household_load_max_values) all_hours
            (All-sorted_items IsPrice (update p q) (All-update IsPrice p q h₁.prices h₂.prices))))

  merge-merged_prices :
      existing.source ≡ incoming.source
      → price_points existing ≡ ok p
      → price_points incoming ≡ ok q
      → merge_price_history (some existing) incoming ≡ ok merged_prices
  unfolding merge_price_history
  merge-merged_prices same ep eq = rw (
    same_source_refl existing.source incoming.source same,
    ep,
    eq,
    latest_time-aware existing.retrieved_at incoming.retrieved_at _ _ h₁.retrieved.1 h₂.retrieved.1,
    latest_time-aware existing.expires_at incoming.expires_at _ _ h₁.expires.1 h₂.expires.1,
  )

module _ {Num : Type 0} ⦃f : FloatOps Num⦄ where
  -- What the hours of a merged price history have to be, if the merged histories have the hours
  -- `p` and `q`.
  pub record ArePricesMerged (p q : Dict Instant (Num × Num)) (hours : List (Instant × (Num × Num)))
      : Type 0 where
    pub ordered : IsSorted hours
    pub retained_count :
        length hours ≡ min household_load_max_values (length (sorted_items (update p q)))
    -- the first hour that is kept
    pub first : Instant
    pub newest :
        (t : Instant)
        → lookup t hours ≡ (if leb first t then or_else (lookup t q) (lookup t p) else none)

  -- Two accepted price histories of one source are merged, and the merged history is accepted. Its
  -- hours rise; there are as many as both have together, but at most 87,672, and then the last
  -- ones. An hour has the incoming prices where the incoming history has the hour, and the
  -- retained ones elsewhere.
  pub merge_price_history-ArePricesMerged :
      (existing incoming : ElectricityPriceData Num) (p q : Dict Instant (Num × Num))
      → existing.source ≡ incoming.source
      → price_points existing ≡ ok p
      → price_points incoming ≡ ok q
      → (merged : ElectricityPriceData Num) × (merge_price_history (some existing) incoming
          ≡ ok merged)
        × (hours : List (Instant × (Num × Num))) × (price_points merged ≡ ok hours)
        × ArePricesMerged p q hours
  merge_price_history-ArePricesMerged existing incoming p q same ep eq =
      let h₁ = price_points-IsPriceHistory existing p ep in
      let h₂ = price_points-IsPriceHistory incoming q eq in
      let all = all_hours existing incoming p q h₁ h₂ in
      let (first, rest) =
        lookup-rest (length all - household_load_max_values) all
          (all_hours-IsSorted existing incoming p q h₁ h₂) in
      (
        merged_prices existing incoming p q h₁ h₂,
        merge-merged_prices existing incoming p q h₁ h₂ same ep eq,
        kept_hours existing incoming p q h₁ h₂,
        price_points-merged_prices existing incoming p q h₁ h₂,
        record {
          ordered = kept_hours-IsSorted existing incoming p q h₁ h₂;
          retained_count = length-kept_hours existing incoming p q h₁ h₂;
          first = first;
          newest = λ t.
              rest t
              ∙ ap (λ (o : Option (Num × Num)). if leb first t then o else none)
                  (lookup-all_hours existing incoming p q h₁ h₂ t);
        },
      )
