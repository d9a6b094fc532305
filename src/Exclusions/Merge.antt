-- ===== src/Exclusions/Merge.antt =====
-- `merge_exclusions`: the union of the exclusions, hour by hour.
use energy_optimizer.Prelude.{
  ◌<◌, ◌≡◌, refl, sym, List, [], ◌∷◌, ◌++◌, map, arith, ◌==◌, nat_eq, if◌then◌else◌, lookup,
  get_default, get_default-insert, nat_beq_iff, Bool, ◌&&◌, ◌||◌, any, All, Bool-cases, inl, inr,
  Eq, true, false, ap, ◌∙◌, none, subst, or_default, Unique, insert-Unique,
}
use energy_optimizer.Prelude.Sorting.{
  sorted_items, lookup-sorted_items, sorted_items-IsSorted, IsSorted, lookup-below,
}
use energy_optimizer.Hours.{Instant}
use energy_optimizer.Exclusions.{
  ExclusionCause, HourExclusion, ByHour, add_cause, add_causes, add_item, add_group, add_groups,
  merge_exclusions,
}

module _ {Num : Type 0} ⦃same : Eq (ExclusionCause Num)⦄ where
  -- `cause in causes`
  abbrev pub listed : ExclusionCause Num → List (ExclusionCause Num) → Bool
  listed cause causes = any (λ c. c == cause) causes

  -- Some exclusion of the hour `t` names the cause.
  pub excludes : Instant → ExclusionCause Num → List (HourExclusion Num) → Bool
  excludes t cause [] = false
  excludes t cause (item ∷ items) =
      (item.hour_start == t && listed cause item.causes) || excludes t cause items

  pub any_excludes : Instant → ExclusionCause Num → List (List (HourExclusion Num)) → Bool
  any_excludes t cause [] = false
  any_excludes t cause (group ∷ groups) = excludes t cause group || any_excludes t cause groups

  -- No cause stands twice.
  abbrev pub IsDistinct : List (ExclusionCause Num) → Type 0
  IsDistinct [] = Unit
  IsDistinct (c ∷ cs) = (listed c cs ≡ false) × IsDistinct cs

  listed-append_one :
      (cause c : ExclusionCause Num) (causes : List (ExclusionCause Num))
      → listed cause (causes ++ c ∷ []) ≡ (listed cause causes || c == cause)
  listed-append_one cause c [] = ground arith
  listed-append_one cause c (d ∷ causes) = ground (arith, listed-append_one cause c causes)

  listed_self :
      (cause c : ExclusionCause Num) (causes : List (ExclusionCause Num))
      → (c == cause) ≡ true
      → listed c causes ≡ true
      → listed cause causes ≡ true
  listed_self cause c causes e h = rw (← (same.eqb_iff c cause).0 e) h

  listed-add_cause :
      (cause c : ExclusionCause Num) (causes : List (ExclusionCause Num))
      → listed cause (add_cause causes c) ≡ (listed cause causes || c == cause)
  unfolding add_cause
  listed-add_cause cause c causes = elim (Bool-cases (listed c causes)) [
    | inl old ↦ rw old (ground (arith, listed_self cause c causes))
    | inr new ↦ rw new (listed-append_one cause c causes)
  ]

  listed-add_causes :
      (cause : ExclusionCause Num) (causes new : List (ExclusionCause Num))
      → listed cause (add_causes causes new) ≡ (listed cause causes || listed cause new)
  unfolding add_causes
  listed-add_causes cause causes [] = ground arith
  listed-add_causes cause causes (c ∷ new) =
      ground
        (arith, listed-add_causes cause (add_cause causes c) new, listed-add_cause cause c causes)

  IsDistinct-append_one :
      (c : ExclusionCause Num) (causes : List (ExclusionCause Num))
      → listed c causes ≡ false
      → IsDistinct causes
      → IsDistinct (causes ++ c ∷ [])
  IsDistinct-append_one c [] new h = (refl, tt)
  IsDistinct-append_one c (d ∷ causes) new h = (
    ground (arith, listed-append_one d c causes, same.eqb_iff c d, same.eqb_iff d c),
    IsDistinct-append_one c causes (ground arith) h.1,
  )

  add_cause-IsDistinct :
      (c : ExclusionCause Num) (causes : List (ExclusionCause Num))
      → IsDistinct causes
      → IsDistinct (add_cause causes c)
  unfolding add_cause
  add_cause-IsDistinct c causes h = elim (Bool-cases (listed c causes)) [
    | inl old ↦ rw old h
    | inr new ↦ rw new (IsDistinct-append_one c causes new h)
  ]

  add_causes-IsDistinct :
      (causes new : List (ExclusionCause Num))
      → IsDistinct causes
      → IsDistinct (add_causes causes new)
  unfolding add_causes
  add_causes-IsDistinct causes [] h = h
  add_causes-IsDistinct causes (c ∷ new) h =
      add_causes-IsDistinct (add_cause causes c) new (add_cause-IsDistinct c causes h)

  abbrev causes_at : ByHour Num → Instant → List (ExclusionCause Num)
  causes_at by_hour t = get_default t [] by_hour

  causes_at-add_item :
      (by_hour : ByHour Num) (item : HourExclusion Num) (t : Instant)
      → causes_at (add_item by_hour item) t ≡ (
          if item.hour_start == t
          then add_causes (causes_at by_hour t) item.causes
          else causes_at by_hour t)
  unfolding add_item
  causes_at-add_item by_hour item t = elim (Bool-cases (item.hour_start == t)) [
    | inl here ↦
        rw (get_default-insert, here)
          (ap (λ x. add_causes (causes_at by_hour x) item.causes)
            ((nat_beq_iff item.hour_start t).0 here))
    | inr elsewhere ↦ rw (get_default-insert, elsewhere)
  ]

  listed-add_group :
      (t : Instant) (cause : ExclusionCause Num) (by_hour : ByHour Num)
      (group : List (HourExclusion Num))
      → listed cause (causes_at (add_group by_hour group) t)
        ≡ (listed cause (causes_at by_hour t) || excludes t cause group)
  unfolding add_group excludes
  listed-add_group t cause by_hour [] = ground arith
  listed-add_group t cause by_hour (item ∷ group) = ground (
    arith,
    listed-add_group t cause (add_item by_hour item) group,
    causes_at-add_item by_hour item t,
    listed-add_causes cause (causes_at by_hour t) item.causes,
  )

  listed-add_groups :
      (t : Instant) (cause : ExclusionCause Num) (by_hour : ByHour Num)
      (groups : List (List (HourExclusion Num)))
      → listed cause (causes_at (add_groups by_hour groups) t)
        ≡ (listed cause (causes_at by_hour t) || any_excludes t cause groups)
  unfolding add_groups any_excludes
  listed-add_groups t cause by_hour [] = ground arith
  listed-add_groups t cause by_hour (group ∷ groups) = ground (
    arith,
    listed-add_groups t cause (add_group by_hour group) groups,
    listed-add_group t cause by_hour group,
  )

  -- What holds of the dictionary that the loop builds.
  record IsIndex (by_hour : ByHour Num) : Type 0 where
    unique : Unique by_hour
    distinct : (t : Instant) → IsDistinct (causes_at by_hour t)

  add_item-IsIndex :
      (by_hour : ByHour Num) (item : HourExclusion Num)
      → IsIndex by_hour
      → IsIndex (add_item by_hour item)
  add_item-IsIndex by_hour item h = record {
    unique = unfold add_item in insert-Unique item.hour_start _ by_hour h.unique;
    distinct = λ t.
        rw causes_at-add_item
          (ground (arith, h.distinct t, add_causes-IsDistinct (causes_at by_hour t) item.causes));
  }

  add_group-IsIndex :
      (by_hour : ByHour Num) (group : List (HourExclusion Num))
      → IsIndex by_hour
      → IsIndex (add_group by_hour group)
  unfolding add_group
  add_group-IsIndex by_hour [] h = h
  add_group-IsIndex by_hour (item ∷ group) h =
      add_group-IsIndex (add_item by_hour item) group (add_item-IsIndex by_hour item h)

  add_groups-IsIndex :
      (by_hour : ByHour Num) (groups : List (List (HourExclusion Num)))
      → IsIndex by_hour
      → IsIndex (add_groups by_hour groups)
  unfolding add_groups
  add_groups-IsIndex by_hour [] h = h
  add_groups-IsIndex by_hour (group ∷ groups) h =
      add_groups-IsIndex (add_group by_hour group) groups (add_group-IsIndex by_hour group h)

  abbrev exclusion : Instant × List (ExclusionCause Num) → HourExclusion Num
  exclusion e = record { hour_start = e.0; causes = e.1 }

  excludes-sorted :
      (t : Instant) (cause : ExclusionCause Num) (l : ByHour Num)
      → IsSorted l
      → excludes t cause (map exclusion l) ≡ listed cause (causes_at l t)
  unfolding excludes lookup
  excludes-sorted t cause [] h = refl
  excludes-sorted t cause ((k, v) ∷ l) h =
      ground (arith, excludes-sorted t cause l h.1, lookup-below k l h.0)

  -- The hours rise.
  abbrev pub HoursRise : List (HourExclusion Num) → Type 0
  HoursRise [] = Unit
  HoursRise (item ∷ items) = All (λ x. item.hour_start < x.hour_start) items × HoursRise items

  HoursRise-sorted : (l : ByHour Num) → IsSorted l → HoursRise (map exclusion l)
  HoursRise-sorted [] h = tt
  HoursRise-sorted ((k, v) ∷ l) h = (above l h.0, HoursRise-sorted l h.1)
    where
      above :
          (l : ByHour Num)
          → All (λ e. k < e.0) l
          → All (λ (x : HourExclusion Num). k < x.hour_start) (map exclusion l)
      above [] h = tt
      above (e ∷ l) h = (h.0, above l h.1)

  tail-IsDistinct :
      (k t : Instant) (v : List (ExclusionCause Num)) (l : ByHour Num)
      → All (λ e. k < e.0) l
      → IsDistinct (causes_at ((k, v) ∷ l) t)
      → IsDistinct (causes_at l t)
  unfolding lookup
  tail-IsDistinct k t v l above h = elim (Bool-cases (k == t)) [
    | inl here ↦
        subst (λ o. IsDistinct (or_default [] o))
          (sym (subst (λ x. lookup x l ≡ none) ((nat_beq_iff k t).0 here) (lookup-below k l above)))
          tt
    | inr elsewhere ↦ ground (arith, h)
  ]

  -- Every listed value of a dictionary is found under its key.
  All-IsDistinct :
      (l : ByHour Num)
      → IsSorted l
      → ((t : Instant) → IsDistinct (causes_at l t))
      → All (λ (x : HourExclusion Num). IsDistinct x.causes) (map exclusion l)
  unfolding lookup
  All-IsDistinct [] sorted h = tt
  All-IsDistinct ((k, v) ∷ l) sorted h =
      (ground (arith, h k), All-IsDistinct l sorted.1 (λ t. tail-IsDistinct k t v l sorted.0 (h t)))

  same_causes :
      (t : Instant) (cause : ExclusionCause Num) (by_hour : ByHour Num)
      → listed cause (causes_at (sorted_items by_hour) t) ≡ listed cause (causes_at by_hour t)
  same_causes t cause by_hour =
      ap (λ o. listed cause (or_default [] o)) (lookup-sorted_items t by_hour)

  -- The merged exclusions have one entry an hour, in rising order. An hour of theirs names exactly
  -- the causes that some group names for that hour, and each cause once.
  pub merge_exclusions-union :
      (groups : List (List (HourExclusion Num)))
      → let merged = merge_exclusions groups in
        HoursRise merged
        × ((t : Instant) (cause : ExclusionCause Num)
            → excludes t cause merged ≡ any_excludes t cause groups)
        × All (λ item. IsDistinct item.causes) merged
  unfolding merge_exclusions
  merge_exclusions-union groups =
      let by_hour = add_groups [] groups in
      let index =
        add_groups-IsIndex [] groups
          (record { unique = tt; distinct = λ t. unfold lookup in tt }) in
      let sorted = sorted_items-IsSorted by_hour index.unique in
      (
        HoursRise-sorted (sorted_items by_hour) sorted,
        λ t cause.
            excludes-sorted t cause (sorted_items by_hour) sorted
            ∙ same_causes t cause by_hour
            ∙ (listed-add_groups t cause [] groups ∙ (unfold lookup in refl)),
        All-IsDistinct (sorted_items by_hour) sorted (λ t.
            subst (λ o. IsDistinct (or_default [] o)) (sym (lookup-sorted_items t by_hour))
              (index.distinct t)),
      )
