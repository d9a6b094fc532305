-- ===== src/Records/Overlay.antt =====
-- Two histories that meet or overlap, laid over each other: the incoming hours win.
use energy_optimizer.Prelude.{
  ℕ, ◌+◌, ◌-◌, ◌*◌, ◌/◌, ◌%◌, ◌≤◌, ◌≡◌, Option, none, List, arith, leb, nat_eq, if◌then◌else◌,
  length, drop, Dict, lookup, is_some, or_else, min, max, ap, ◌∙◌, sym, update, lookup-update,
  update-Unique, take_last, length-drop, length-map,
}
use energy_optimizer.Prelude.Sorting.{
  IsSorted, IsSorted-Unique, sorted_items, lookup-sorted_items, sorted_items-IsSorted,
}
use energy_optimizer.Hours.{
  Instant, hour, hourly, hourly-IsSorted, in_range, values, lookup-hourly_domain, contiguous,
}
use energy_optimizer.Hours.Ranges.{in_range-union, drop-hourly, lookup-drop}

module _ {V : Type 0} (s₁ s₂ : Instant) (old new : List V) where
  abbrev pub overlaid : Dict Instant V
  overlaid = update (hourly s₁ old) (hourly s₂ new)

  abbrev pub overlay_start : Instant
  overlay_start = min s₁ s₂

  -- How many hours the two series span.
  abbrev pub span : ℕ
  span = (max (s₁ + length old * hour) (s₂ + length new * hour) - min s₁ s₂) / hour

  pub lookup-overlaid :
      (t : Instant)
      → lookup t (sorted_items overlaid)
        ≡ or_else (lookup t (hourly s₂ new)) (lookup t (hourly s₁ old))
  lookup-overlaid t =
      lookup-sorted_items t overlaid
      ∙ lookup-update (hourly s₁ old) (hourly s₂ new) t (IsSorted-Unique _ (hourly-IsSorted s₂ new))

  pub overlaid-IsSorted : IsSorted (sorted_items overlaid)
  overlaid-IsSorted =
      sorted_items-IsSorted overlaid
        (update-Unique (hourly s₁ old) (hourly s₂ new) (IsSorted-Unique _ (hourly-IsSorted s₁ old)))

  module _ (a₁ : s₁ % hour ≡ 0) (a₂ : s₂ % hour ≡ 0) (m₁ : s₁ ≤ s₂ + length new * hour)
      (m₂ : s₂ ≤ s₁ + length old * hour) where
    overlaid-domain :
        (t : Instant) → is_some (lookup t (sorted_items overlaid)) ≡ in_range overlay_start span t
    overlaid-domain t =
        ap is_some (lookup-overlaid t)
        ∙ ground (
          arith,
          lookup-hourly_domain s₂ new t,
          lookup-hourly_domain s₁ old t,
          in_range-union s₁ (length old) s₂ (length new) t a₁ a₂ m₁ m₂,
        )

    -- Sorted, the overlaid hours are contiguous.
    pub overlaid-hourly :
        (sorted_items overlaid ≡ hourly overlay_start (values (sorted_items overlaid)))
        × (length (sorted_items overlaid) ≡ span)
    overlaid-hourly =
        contiguous overlay_start span (sorted_items overlaid) overlaid-IsSorted overlaid-domain

    -- What retention keeps of them.
    pub retained :
        (limit : ℕ)
        → let k = span - limit in
          let w = drop k (values (sorted_items overlaid)) in
          (take_last limit (sorted_items overlaid) ≡ hourly (overlay_start + k * hour) w)
          × (length w ≡ min limit span)
          × ((t : Instant)
              → lookup t (hourly (overlay_start + k * hour) w) ≡ (
                  if leb (overlay_start + k * hour) t
                  then or_else (lookup t (hourly s₂ new)) (lookup t (hourly s₁ old))
                  else none))
    retained limit =
        let s = sorted_items overlaid in
        let vs = values s in
        let (line, size) = overlaid-hourly in
        let k = span - limit in
        (
          ap (λ n. drop (n - limit) s) size ∙ ap (drop k) line ∙ drop-hourly k overlay_start vs,
          omega (arith, length-drop k vs, length-map {0, 0} (λ (e : Instant × V). e.1) s, size),
          λ t.
              lookup-drop k overlay_start t vs
              ∙ ap (λ (o : Option V). if leb (overlay_start + k * hour) t then o else none)
                  (sym (ap (lookup t) line) ∙ lookup-overlaid t),
        )
