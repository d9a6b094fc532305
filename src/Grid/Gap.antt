-- ===== src/Grid/Gap.antt =====
-- `merge_grid_flow_history`: the hours between the retained series and the incoming one.
use energy_optimizer.Prelude.{
  ℕ, ◌+◌, ◌*◌, ◌%◌, ◌≡◌, ◌<◌, ◌≤◌, refl, sym, none, some, List, [], ◌∷◌, ◌++◌, arith, nat_eq, Dict,
  lookup, or_else, ap, All, ◌∙◌, map, length, length-map, Option-cases, inl, inr, lookup-append,
  append_assoc, append-nil, All-append, update, ltb, max, ok, subst, Bool-cases,
}
use energy_optimizer.Hours.{Instant, hour, hourly, aware, Datetime}
use energy_optimizer.Hours.Ranges.{hourly-append}
use energy_optimizer.Floats.{FloatOps}
use energy_optimizer.Exclusions.{HourExclusion, history_unavailable_exclusions}
use energy_optimizer.Exclusions.Gap.{gap_own_hours}
use energy_optimizer.Records.Members.{insert-append}
use energy_optimizer.Records.Index.{by_hour}
use energy_optimizer.Records.Exclude.{by_hour-IsKeyed, lookup-IsKeyed}
use energy_optimizer.Records.Points.{lookup-beyond, All-beyond}
use energy_optimizer.Records.Missing.{gap_hours, gap_exclusions}
use energy_optimizer.Records.Rebuild.{as_utc-aware}
use energy_optimizer.Grid.{
  GridFlowPoint, max_key, min_key, first_key, gap_points, fill_gap, latest_time,
}
use energy_optimizer.Grid.Lookups.{IsPoint, lookup-map}

length-nil : {A : Type 0} (l : List A) → length l ≡ 0 → l ≡ []
length-nil [] h = refl
length-nil (x ∷ l) h = absurd (omega (arith, h))

module _ {Num : Type 0} where
  pub max_key-hourly :
      (start : Instant) (w : List (GridFlowPoint Num))
      → 0 < length w
      → max_key (hourly start w) + hour ≡ start + length w * hour
  unfolding hourly
  max_key-hourly start [] h = absurd (omega arith)
  max_key-hourly start (p ∷ []) h = omega arith
  max_key-hourly start (p ∷ q ∷ w) h =
      omega (arith, max_key-hourly (start + hour) (q ∷ w) (omega arith))

  min_key-hourly :
      (t start : Instant) (w : List (GridFlowPoint Num))
      → t ≤ start
      → min_key t (hourly start w) ≡ t
  unfolding hourly
  min_key-hourly t start [] h = refl
  min_key-hourly t start (p ∷ w) h =
      ap (λ u. min_key u (hourly (start + hour) w)) (omega arith)
      ∙ min_key-hourly t (start + hour) w (omega arith)

  pub first_key-hourly :
      (start : Instant) (w : List (GridFlowPoint Num))
      → 0 < length w
      → first_key (hourly start w) ≡ start
  unfolding hourly
  first_key-hourly start [] h = absurd (omega arith)
  first_key-hourly start (p ∷ w) h = min_key-hourly start (start + hour) w (omega arith)

  hourly-beyond :
      (start : Instant) (w : List (GridFlowPoint Num))
      → All (λ e. e.0 < start + length w * hour) (hourly start w)
  unfolding hourly
  hourly-beyond start [] = tt
  hourly-beyond start (p ∷ w) = (
    omega arith,
    subst (λ t. All (λ e. e.0 < t) (hourly (start + hour) w)) (omega arith)
        (hourly-beyond (start + hour) w),
  )

  update-beyond :
      (d : Dict Instant (GridFlowPoint Num)) (t : Instant) (w : List (GridFlowPoint Num))
      → All (λ e. e.0 < t) d
      → update d (hourly t w) ≡ d ++ hourly t w
  unfolding hourly update
  update-beyond d t [] below = sym (append-nil d)
  update-beyond d t (p ∷ w) below =
      ap (λ c. update c (hourly (t + hour) w)) (insert-append t p d (lookup-beyond t d below))
      ∙ update-beyond (d ++ (t, p) ∷ []) (t + hour) w (
          All-append _ d ((t, p) ∷ []) (All-beyond t (t + hour) d (omega arith) below)
            (omega arith, tt))
      ∙ append_assoc d ((t, p) ∷ []) (hourly (t + hour) w)

  update-hourly :
      (start : Instant) (old w : List (GridFlowPoint Num))
      → update (hourly start old) (hourly (start + length old * hour) w) ≡ hourly start (old ++ w)
  update-hourly start old w =
      update-beyond (hourly start old) (start + length old * hour) w (hourly-beyond start old)
      ∙ sym (hourly-append start old w)

  -- The point of an hour of the gap.
  abbrev pub excluded_point : HourExclusion Num → GridFlowPoint Num
  excluded_point item = record { imported = none; exported = none; exclusion = some item }

  abbrev pub gap_flows : Instant → Instant → List (GridFlowPoint Num)
  gap_flows existing_end incoming_start =
      map excluded_point (gap_exclusions existing_end incoming_start)

  gap_points-by_hour :
      (items : List (HourExclusion Num))
      → gap_points items ≡ map (λ e. (e.0, excluded_point e.1)) (by_hour items)
  gap_points-by_hour [] = refl
  gap_points-by_hour (item ∷ items) =
      ap (λ l. (item.hour_start, excluded_point item) ∷ l) (gap_points-by_hour items)

  map-hourly :
      (start : Instant) (items : List (HourExclusion Num))
      → map (λ e. (e.0, excluded_point e.1)) (hourly start items)
        ≡ hourly start (map excluded_point items)
  unfolding hourly
  map-hourly start [] = refl
  map-hourly start (item ∷ items) =
      ap (λ l. (start, excluded_point item) ∷ l) (map-hourly (start + hour) items)

  gap_points-hourly :
      (start : Instant) (n : ℕ)
      → gap_points (history_unavailable_exclusions {Num = Num} start (start + n * hour))
        ≡ hourly start
            (map excluded_point (history_unavailable_exclusions start (start + n * hour)))
  gap_points-hourly start n =
      gap_points-by_hour _
      ∙ ap (map (λ e. (e.0, excluded_point e.1))) (gap_own_hours start n).0
      ∙ map-hourly start _

  no_gap :
      (existing_end incoming_start : Instant)
      → gap_hours existing_end incoming_start ≡ 0
      → gap_exclusions {Num = Num} existing_end incoming_start ≡ []
  no_gap e s h = length-nil _ ((gap_own_hours e (gap_hours e s)).1 ∙ h)

  -- A gap is filled, and no hours are added where there is none.
  pub fill_gap-hourly :
      (s₁ s₂ : Instant) (old : List (GridFlowPoint Num))
      → s₁ % hour ≡ 0
      → s₂ % hour ≡ 0
      → fill_gap (some (s₁ + length old * hour)) s₂ (hourly s₁ old)
        ≡ hourly s₁ (old ++ gap_flows (s₁ + length old * hour) s₂)
  fill_gap-hourly s₁ s₂ old a₁ a₂ = elim (Bool-cases (ltb (s₁ + length old * hour) s₂)) [
    | inl gap ↦
        let e = s₁ + length old * hour in
        let whole : e + gap_hours e s₂ * hour ≡ s₂ = ground (arith, gap, a₁, a₂) in
        rw gap (
          ap (λ t. update (hourly s₁ old) (gap_points (history_unavailable_exclusions e t)))
            (sym whole)
          ∙ ap (update (hourly s₁ old)) (gap_points-hourly e (gap_hours e s₂))
          ∙ update-hourly s₁ old (gap_flows e s₂))
    | inr met ↦
        let e = s₁ + length old * hour in
        let nothing : gap_hours e s₂ ≡ 0 = ground (arith, met) in
        rw met (
          sym (ap (hourly s₁) (append-nil old))
          ∙ ap (λ g. hourly s₁ (old ++ map excluded_point g)) (sym (no_gap e s₂ nothing)))
  ]

  -- The hours of a series that was extended by a gap.
  pub lookup-extended :
      (t s₁ s₂ : Instant) (old : List (GridFlowPoint Num))
      → let e = s₁ + length old * hour in
        lookup t (hourly s₁ (old ++ gap_flows e s₂))
        ≡ or_else (lookup t (hourly s₁ old)) (lookup t (hourly e (gap_flows e s₂)))
  lookup-extended t s₁ s₂ old =
      ap (lookup t) (hourly-append s₁ old _) ∙ lookup-append t (hourly s₁ old) _

  lookup-gap_exclusion :
      (t e s : Instant) (item : HourExclusion Num)
      → lookup t (hourly e (gap_exclusions e s)) ≡ some item
      → item.hour_start ≡ t
  lookup-gap_exclusion t e s item there =
      lookup-IsKeyed t (by_hour (gap_exclusions e s)) item (by_hour-IsKeyed _)
        (ap (lookup t) (gap_own_hours e (gap_hours e s)).0 ∙ there)

pub length-gap_flows :
    (Num : Type 0) (existing_end incoming_start : Instant)
    → length (gap_flows {Num = Num} existing_end incoming_start)
      ≡ gap_hours existing_end incoming_start
length-gap_flows Num e s =
    length-map (excluded_point {Num = Num}) (gap_exclusions e s)
    ∙ (gap_own_hours {Num = Num} e (gap_hours e s)).1

module _ {Num : Type 0} ⦃f : FloatOps Num⦄ where
  excluded_point-IsPoint :
      (t : Instant) (item : HourExclusion Num)
      → item.hour_start ≡ t
      → IsPoint t (excluded_point item)
  excluded_point-IsPoint t item h = record {
    pair_valid = refl;
    is_explained = refl;
    own_hour = λ other same.
        ground
          (arith, h, same, λ (p : item ≡ other). ap (λ (i : HourExclusion Num). i.hour_start) p);
  }

  pub gap_flows-IsPoint :
      (e s t : Instant) (p : GridFlowPoint Num)
      → lookup t (hourly e (gap_flows e s)) ≡ some p
      → IsPoint t p
  gap_flows-IsPoint e s t p there =
      elim (Option-cases (lookup t (hourly e (gap_exclusions {Num = Num} e s)))) [
        | inl absent ↦
            ground (
              arith,
              absent,
              there,
              lookup-map (excluded_point {Num = Num}) t e (gap_exclusions e s),
            )
        | inr (item, found) ↦
            subst (λ q. IsPoint t q)
              (ground (
                arith,
                found,
                there,
                lookup-map (excluded_point {Num = Num}) t e (gap_exclusions e s),
              ))
              (excluded_point-IsPoint t item (lookup-gap_exclusion t e s item found))
      ]

pub latest_time-aware :
    (d c : Datetime) (t u : Instant)
    → d ≡ aware t
    → c ≡ aware u
    → latest_time (some d) c ≡ ok (max t u)
latest_time-aware d c t u hd hc = rw (as_utc-aware d t hd, as_utc-aware c u hc)
