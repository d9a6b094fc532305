-- ===== src/Ndjson/Appended.antt =====
-- Records behind those of a file: they give the history that merging gives.
use energy_optimizer.Prelude.{
  ◌+◌, ◌-◌, ◌*◌, ◌<◌, ◌≤◌, ◌≡◌, refl, sym, ap, ◌∙◌, none, some, List, [], ◌∷◌, ◌++◌, map,
  map-append, arith, nat_eq, string_eq, option_eq, leb, if◌then◌else◌, length, length-map, drop,
  take_last, All, All-append, lookup, update, update-Unique, is_some, or_else, Option-cases, inl,
  inr, min, subst, ok,
}
use energy_optimizer.Prelude.Sorting.{IsSorted, sorted_items}
use energy_optimizer.Hours.{
  Instant, hour, hourly, hourly-IsSorted, values, lookup-hourly_domain, aware,
}
use energy_optimizer.Hours.Ranges.{values-hourly}
use energy_optimizer.Floats.{FloatOps}
use energy_optimizer.Series.{HouseholdLoadData, household_load_max_values}
use energy_optimizer.Records.{merge_household_load_history}
use energy_optimizer.Records.Index.{by_hour}
use energy_optimizer.Records.Exclude.{by_hour-IsKeyed, lookup-exclusions_of}
use energy_optimizer.Records.Points.{IsHistory}
use energy_optimizer.Records.Rebuild.{require_contiguous_hours-hourly}
use energy_optimizer.Records.Missing.{value_at, exclusion_at, history_end, exclusion_in_range}
use energy_optimizer.Records.Bridge.{bridge-near}
use energy_optimizer.Records.Overlay.{overlaid, overlay_start, span, retained}
use energy_optimizer.Records.Laid.{
  overlaid_history, merge-overlaid, exclusion_at-overlaid_history, value_at-overlaid_history,
  kept_start, overlaid_history-IsSorted, overlaid_history-meta,
}
use energy_optimizer.Ndjson.{HouseholdLoadRecord}
use energy_optimizer.Ndjson.Parse.{
  by_timestamp, record_exclusions, model_of, last_record, model_of_records,
}
use energy_optimizer.Ndjson.Valid.{IsRecord}
use energy_optimizer.Ndjson.Ordered.{
  IsEntry, model_of-IsHistory, record_exclusion, record_load, load_of, lookup-loads,
  lookup-record_exclusions, record_exclusions-IsSorted, lookup-IsEntry, loads-hourly,
}
use energy_optimizer.Ndjson.Retained.{by_timestamp-IsEntry}
use energy_optimizer.Ndjson.Retained.{last_record-All}
use energy_optimizer.Ndjson.Retained.{model_of_records-eq-ok}
use energy_optimizer.Ndjson.Retained.{AreRetained}
use energy_optimizer.Ndjson.Written.{
  All-entries, records_of, records_of-IsRecord, by_timestamp-records_of,
  record_exclusions-records_of, loads-records_of, length-records_of, Speaks, records_from-Speaks,
  model_of-Speaks,
}
use energy_optimizer.Ndjson.RoundTrip.{is_of_source-All}
use energy_optimizer.Ndjson.Window.{window}
use energy_optimizer.Ndjson.Joined.{update-append, last_record-append, by_hour_ext, hourly_ext}

module _ {Num : Type 0} ⦃f : FloatOps Num⦄ (old : List (HouseholdLoadRecord Num)) (s₁ s₂ : Instant)
    (w : List (HouseholdLoadRecord Num)) (latest : HouseholdLoadRecord Num)
    (kept : AreRetained old s₁ w) (m d : HouseholdLoadData Num)
    (e : m ≡ model_of (hourly s₁ w) latest) (h₁ : IsHistory s₁ m) (h₂ : IsHistory s₂ d)
    (version : d.schema_version ≡ "1") (m₁ : s₁ ≤ history_end s₂ d)
    (m₂ : s₂ ≤ history_end s₁ m) where
  abbrev new : List (HouseholdLoadRecord Num)
  new = records_of s₂ d h₂

  loads-old : m.load_kw ≡ map load_of w
  unfolding model_of
  loads-old = ap (λ (x : HouseholdLoadData Num). x.load_kw) e ∙ loads-hourly s₁ w

  exclusions-old : m.exclusions ≡ record_exclusions w
  unfolding model_of
  exclusions-old =
      ap (λ (x : HouseholdLoadData Num). x.exclusions) e ∙ ap record_exclusions (values-hourly s₁ w)

  length-old : length w ≡ length m.load_kw
  length-old = sym (length-map load_of w) ∙ ap length (sym loads-old)

  value_at-old : (t : Instant) → value_at s₁ t m ≡ record_load (lookup t (hourly s₁ w))
  value_at-old t = ap (λ v. lookup t (hourly s₁ v)) loads-old ∙ lookup-loads s₁ t w

  exclusion_at-old : (t : Instant) → exclusion_at t m ≡ record_exclusion (lookup t (hourly s₁ w))
  exclusion_at-old t =
      ap (λ x. lookup t (by_hour x))
        (exclusions-old ∙ ap record_exclusions (sym (values-hourly s₁ w)))
      ∙ lookup-record_exclusions t (hourly s₁ w) kept.entries (hourly-IsSorted s₁ w)

  value_at-new : (t : Instant) → value_at s₂ t d ≡ record_load (lookup t (hourly s₂ new))
  value_at-new t =
      ap (λ v. lookup t (hourly s₂ v)) (sym (loads-records_of s₂ d h₂)) ∙ lookup-loads s₂ t new

  new-IsEntry : All IsEntry (hourly s₂ new)
  new-IsEntry =
      subst (λ l. All IsEntry l) (by_timestamp-records_of s₂ d h₂)
        (by_timestamp-IsEntry new (records_of-IsRecord s₂ d h₂ version))

  exclusion_at-new : (t : Instant) → exclusion_at t d ≡ record_exclusion (lookup t (hourly s₂ new))
  exclusion_at-new t =
      in_history t
      ∙ sym (
          lookup-exclusions_of t (hourly s₂ d.load_kw) (by_hour d.exclusions)
            (by_hour-IsKeyed d.exclusions))
      ∙ ap (λ x. lookup t (by_hour x))
          (sym (record_exclusions-records_of s₂ d h₂)
            ∙ ap record_exclusions (sym (values-hourly s₂ new)))
      ∙ lookup-record_exclusions t (hourly s₂ new) new-IsEntry (hourly-IsSorted s₂ new)
    where
      in_history :
          (t : Instant)
          → exclusion_at t d ≡ (if is_some (value_at s₂ t d) then exclusion_at t d else none)
      in_history t = ground (
        arith,
        exclusion_in_range s₂ t d h₂,
        lookup-hourly_domain s₂ d.load_kw t,
        Option-cases (exclusion_at t d),
      )

  abbrev joined_start : Instant
  joined_start = overlay_start s₁ s₂ w new + (span s₁ s₂ w new - household_load_max_values) * hour

  abbrev joined : List (HouseholdLoadRecord Num)
  joined =
      drop (span s₁ s₂ w new - household_load_max_values)
        (values (sorted_items (overlaid s₁ s₂ w new)))

  meets_left : s₁ ≤ s₂ + length new * hour
  meets_left = omega (arith, length-records_of s₂ d h₂, m₁)

  meets_right : s₂ ≤ s₁ + length w * hour
  meets_right = omega (arith, length-old, m₂)

  joined-retained :
      (take_last household_load_max_values (sorted_items (overlaid s₁ s₂ w new))
        ≡ hourly joined_start joined)
      × (length joined ≡ min household_load_max_values (span s₁ s₂ w new))
      × ((t : Instant)
          → lookup t (hourly joined_start joined) ≡ (
              if leb joined_start t
              then or_else (lookup t (hourly s₂ new)) (lookup t (hourly s₁ w))
              else none))
  joined-retained =
      retained s₁ s₂ w new kept.aligned h₂.aligned meets_left meets_right household_load_max_values

  same_start : joined_start ≡ kept_start s₁ s₂ m d h₁ h₂ m₁ m₂
  same_start = omega (arith, length-old, length-records_of s₂ d h₂)

  joined_some : 0 < length joined
  joined_some = omega (arith, joined-retained.1, kept.some_hour, kept.aligned, h₂.aligned)

  lookup-joined-IsEntry :
      (t : Instant) (r : HouseholdLoadRecord Num)
      → lookup t (hourly joined_start joined) ≡ some r
      → IsEntry (t, r)
  lookup-joined-IsEntry t r found = elim (Option-cases (lookup t (hourly s₂ new))) [
    | inl absent ↦
        lookup-IsEntry t (hourly s₁ w) r kept.entries
          (ground (arith, absent, found, joined-retained.2 t))
    | inr (q, there) ↦
        lookup-IsEntry t (hourly s₂ new) r new-IsEntry
          (ground (arith, there, found, joined-retained.2 t))
  ]

  joined-IsEntry : All IsEntry (hourly joined_start joined)
  joined-IsEntry =
      All-entries IsEntry (hourly joined_start joined) (hourly-IsSorted joined_start joined)
        lookup-joined-IsEntry

  abbrev merged : HouseholdLoadData Num
  merged = overlaid_history s₁ s₂ m d h₁ h₂ m₁ m₂

  same_loads : map load_of joined ≡ merged.load_kw
  same_loads = hourly_ext joined_start (map load_of joined) merged.load_kw λ t.
      lookup-loads joined_start t joined
      ∙ ap record_load (joined-retained.2 t)
      ∙ ground (arith, value_at-old t, value_at-new t)
      ∙ ap (λ k. if leb k t then or_else (value_at s₂ t d) (value_at s₁ t m) else none) same_start
      ∙ sym (value_at-overlaid_history s₁ s₂ m d h₁ h₂ m₁ m₂ t)
      ∙ ap (λ k. value_at k t merged) (sym same_start)

  same_exclusions : record_exclusions joined ≡ merged.exclusions
  same_exclusions =
      by_hour_ext (record_exclusions joined) merged.exclusions
        (subst (λ l. IsSorted (by_hour (record_exclusions l))) (values-hourly joined_start joined)
          (record_exclusions-IsSorted (hourly joined_start joined) joined-IsEntry
            (hourly-IsSorted joined_start joined)))
        (overlaid_history-IsSorted s₁ s₂ m d h₁ h₂ m₁ m₂)
        λ t.
          ap (λ l. lookup t (by_hour (record_exclusions l)))
            (sym (values-hourly joined_start joined))
          ∙ lookup-record_exclusions t (hourly joined_start joined) joined-IsEntry
              (hourly-IsSorted joined_start joined)
          ∙ ap record_exclusion (joined-retained.2 t)
          ∙ ground (arith, value_at-new t, exclusion_at-old t, exclusion_at-new t)
          ∙ ap
              (λ k.
                if leb k t
                then or_else (exclusion_at t d)
                    (if is_some (value_at s₂ t d) then none else exclusion_at t m)
                else none)
              same_start
          ∙ sym (exclusion_at-overlaid_history s₁ s₂ m d h₁ h₂ m₁ m₂ t)

  model-joined :
      (r : HouseholdLoadRecord Num)
      → Speaks s₂ d h₂ r
      → model_of (hourly joined_start joined) r ≡ merged
  model-joined r speaks =
      model_of-Speaks s₂ d h₂ joined_start joined r joined_some speaks
      ∙ rw (same_loads, same_exclusions, same_start) refl
      ∙ sym (overlaid_history-meta s₁ s₂ m d h₁ h₂ m₁ m₂)

  latest_source :
      d.source ≡ m.source
      → record { provider = d.source.provider; entity_id = d.source.entity_id } ≡ latest.source
  unfolding model_of
  latest_source same = cc (same, ap (λ (x : HouseholdLoadData Num). x.source) e)

  new_sources :
      (qs : List (HouseholdLoadRecord Num))
      → All (λ q. Speaks s₂ d h₂ q) qs
      → d.source ≡ m.source
      → All (λ q. q.source ≡ latest.source) qs
  new_sources [] speak same = tt
  new_sources (q ∷ qs) speak same =
      (speak.0.origin ∙ latest_source same, new_sources qs speak.1 same)

  speaking : All (λ q. Speaks s₂ d h₂ q) new
  speaking = records_from-Speaks s₂ d h₂ (hourly s₂ d.load_kw)

  joined-laid :
      take_last household_load_max_values (sorted_items (update [] (by_timestamp (old ++ new))))
      ≡ hourly joined_start joined
  joined-laid =
      ap (λ x. take_last household_load_max_values (sorted_items (update [] x)))
        (map-append (λ (r : HouseholdLoadRecord Num). (r.timestamp, r)) old new
          ∙ ap (λ x. by_timestamp old ++ x) (by_timestamp-records_of s₂ d h₂))
      ∙ ap (λ x. take_last household_load_max_values (sorted_items x))
          (update-append [] (by_timestamp old) (hourly s₂ new))
      ∙ window s₁ s₂ w new (update [] (by_timestamp old)) household_load_max_values
          (update-Unique [] (by_timestamp old) tt) kept.laid kept.some_hour kept.aligned h₂.aligned
          meets_left meets_right
      ∙ joined-retained.0

  last-joined :
      (r : HouseholdLoadRecord Num) (rs : List (HouseholdLoadRecord Num))
      → Speaks s₂ d h₂ (last_record r (rs ++ new))
  last-joined r rs = go new speaking (omega (arith, length-records_of s₂ d h₂, h₂.nonempty))
    where
      go :
          (qs : List (HouseholdLoadRecord Num))
          → All (λ q. Speaks s₂ d h₂ q) qs
          → 0 < length qs
          → Speaks s₂ d h₂ (last_record r (rs ++ qs))
      go [] speak n = absurd (omega (arith, n))
      go (q ∷ qs) speak n =
          subst (λ x. Speaks s₂ d h₂ x) (sym (last_record-append r q rs qs))
            (last_record-All (λ x. Speaks s₂ d h₂ x) q qs speak)

  model_of_records-joined :
      (r : HouseholdLoadRecord Num) (rs : List (HouseholdLoadRecord Num))
      → old ≡ r ∷ rs
      → All (λ q. q.source ≡ latest.source) (r ∷ rs)
      → d.source ≡ m.source
      → model_of_records (r ∷ rs ++ new) ≡ ok merged
  unfolding model_of_records
  model_of_records-joined r rs o same ds =
      let sources : All (λ q. q.source ≡ r.source) (r ∷ rs ++ new) =
        subst (λ x. All (λ q. q.source ≡ x) (r ∷ rs ++ new)) (sym same.0)
          (All-append _ (r ∷ rs) new same (new_sources new speaking ds)) in
      rw
        (
          is_of_source-All r.source (r ∷ rs ++ new) sources,
          subst
              (λ x.
                take_last household_load_max_values
                  (sorted_items (update [] (by_timestamp (x ++ new))))
                ≡ hourly joined_start joined)
              o joined-laid,
          require_contiguous_hours-hourly,
        )
        (ap ok (model-joined (last_record r (rs ++ new)) (last-joined r rs)))

aware-eq : (a b : Instant) → aware a ≡ aware b → a ≡ b
aware-eq a b e = ground (arith, e)

module _ {Num : Type 0} ⦃f : FloatOps Num⦄ where
  same_start_of :
      (s t : Instant) (m : HouseholdLoadData Num) → IsHistory s m → IsHistory t m → s ≡ t
  same_start_of s t m h k = aware-eq s t (sym h.starts ∙ k.starts)

  -- Valid records are read as a well-formed history. Another well-formed history has the same
  -- source and version 1, does not end before that one starts, and does not start after it ends.
  -- Then the two are merged, and the valid records followed by those of the other history are read as
  -- the merge.
  pub model_of_records-merge :
      (old : List (HouseholdLoadRecord Num)) (s₁ s₂ : Instant) (m d : HouseholdLoadData Num)
      (h₂ : IsHistory s₂ d)
      → All (λ r. IsRecord r) old
      → model_of_records old ≡ ok m
      → IsHistory s₁ m
      → d.schema_version ≡ "1"
      → d.source ≡ m.source
      → s₁ ≤ history_end s₂ d
      → s₂ ≤ history_end s₁ m
      → (merged : HouseholdLoadData Num) × (merge_household_load_history m d ≡ ok merged)
        × (model_of_records (old ++ records_of s₂ d h₂) ≡ ok merged)
  model_of_records-merge [] s₁ s₂ m d h₂ valid read h₁ version ds m₁ m₂ =
      absurd (nothing_read m read)
    where
      nothing_read : (m : HouseholdLoadData Num) → ¬ (model_of_records [] ≡ ok m)
      nothing_read m p = unfold model_of_records in cc
  model_of_records-merge (r ∷ rs) s₁ s₂ m d h₂ valid read h₁ version ds m₁ m₂ =
      let (start, w, kept, latest, last, e, sources) =
        model_of_records-eq-ok (r ∷ rs) m valid read in
      let h : IsHistory start m =
        subst (λ (x : HouseholdLoadData Num). IsHistory start x) (sym e)
          (model_of-IsHistory start w latest kept.aligned kept.some_hour kept.entries last) in
      let same = same_start_of s₁ start m h₁ h in
      let n₁ : start ≤ history_end s₂ d = omega (arith, same, m₁) in
      let n₂ : s₂ ≤ history_end start m = omega (arith, same, m₂) in
      (
        overlaid_history start s₂ m d h h₂ n₁ n₂,
        merge-overlaid start s₂ m d h h₂ n₁ n₂ d (bridge-near start s₂ m d h h₂ n₂),
        model_of_records-joined (r ∷ rs) start s₂ w latest kept m d e h h₂ version n₁ n₂ r rs refl
            sources ds,
      )
