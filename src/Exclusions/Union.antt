-- ===== src/Exclusions/Union.antt =====
-- `merge_exclusions`: the hours of the merged exclusions.
use energy_optimizer.Prelude.{
  ◌<◌, ◌≡◌, refl, ap, ◌∙◌, Bool, ◌||◌, List, [], ◌∷◌, map, Eq, nat_eq, any, arith, Dict, lookup,
  insert, get_default, is_some, lookup-insert, Unique, insert-Unique, All,
}
use energy_optimizer.Prelude.Sorting.{
  sorted_items, lookup-sorted_items, IsSorted, sorted_items-IsSorted, IsSorted-Unique,
}
use energy_optimizer.Hours.{Instant}
use energy_optimizer.Exclusions.{
  ExclusionCause, HourExclusion, ByHour, add_causes, add_item, add_group, add_groups,
  merge_exclusions,
}

module _ {Num : Type 0} where
  -- The exclusions under their hours.
  abbrev keyed : List (HourExclusion Num) → Dict Instant (HourExclusion Num)
  keyed items = map (λ item. (item.hour_start, item)) items

  abbrev pub names_hour : Instant → List (HourExclusion Num) → Bool
  names_hour t items = is_some (lookup t (keyed items))

module _ {Num : Type 0} ⦃same : Eq (ExclusionCause Num)⦄ where
  hour-add_group :
      (t : Instant) (d : ByHour Num) (group : List (HourExclusion Num))
      → is_some (lookup t (add_group d group)) ≡ (is_some (lookup t d) || names_hour t group)
  unfolding add_group add_item lookup
  hour-add_group t d [] = ground arith
  hour-add_group t d (item ∷ group) =
      let causes = add_causes (get_default item.hour_start [] d) item.causes in
      ground (
        arith,
        hour-add_group t (insert item.hour_start causes d) group,
        lookup-insert item.hour_start t causes d,
      )

  hour-add_groups :
      (t : Instant) (d : ByHour Num) (groups : List (List (HourExclusion Num)))
      → is_some (lookup t (add_groups d groups))
        ≡ (is_some (lookup t d) || any (λ g. names_hour t g) groups)
  unfolding add_groups
  hour-add_groups t d [] = ground arith
  hour-add_groups t d (group ∷ groups) =
      ground (arith, hour-add_groups t (add_group d group) groups, hour-add_group t d group)

  add_group-Unique :
      (d : ByHour Num) (group : List (HourExclusion Num)) → Unique d → Unique (add_group d group)
  unfolding add_group add_item
  add_group-Unique d [] h = h
  add_group-Unique d (item ∷ group) h =
      add_group-Unique (insert item.hour_start _ d) group (insert-Unique item.hour_start _ d h)

  add_groups-Unique :
      (d : ByHour Num) (groups : List (List (HourExclusion Num)))
      → Unique d
      → Unique (add_groups d groups)
  unfolding add_groups
  add_groups-Unique d [] h = h
  add_groups-Unique d (group ∷ groups) h =
      add_groups-Unique (add_group d group) groups (add_group-Unique d group h)

  abbrev merged_item : Instant × List (ExclusionCause Num) → HourExclusion Num
  merged_item e = record { hour_start = e.0; causes = e.1 }

  names_hour-merged :
      (t : Instant) (l : ByHour Num) → names_hour t (map merged_item l) ≡ is_some (lookup t l)
  unfolding lookup
  names_hour-merged t [] = refl
  names_hour-merged t (e ∷ l) = ground (arith, names_hour-merged t l)

  keyed-above :
      (k : Instant) (l : ByHour Num)
      → All (λ e. k < e.0) l
      → All (λ e. k < e.0) (keyed (map merged_item l))
  keyed-above k [] h = tt
  keyed-above k (e ∷ l) h = (h.0, keyed-above k l h.1)

  keyed-IsSorted : (l : ByHour Num) → IsSorted l → IsSorted (keyed (map merged_item l))
  keyed-IsSorted [] h = tt
  keyed-IsSorted (e ∷ l) h = (keyed-above e.0 l h.0, keyed-IsSorted l h.1)

  -- An hour is excluded in the end if some group excludes it.
  pub merge_exclusions-hours :
      (t : Instant) (groups : List (List (HourExclusion Num)))
      → names_hour t (merge_exclusions groups) ≡ any (λ g. names_hour t g) groups
  unfolding merge_exclusions
  merge_exclusions-hours t groups =
      names_hour-merged t (sorted_items (add_groups [] groups))
      ∙ ap is_some (lookup-sorted_items t (add_groups [] groups))
      ∙ hour-add_groups t [] groups
      ∙ (unfold lookup in refl)

  -- No hour is excluded twice.
  pub merge_exclusions-Unique :
      (groups : List (List (HourExclusion Num))) → Unique (keyed (merge_exclusions groups))
  unfolding merge_exclusions
  merge_exclusions-Unique groups = IsSorted-Unique _ (
      keyed-IsSorted (sorted_items (add_groups [] groups))
        (sorted_items-IsSorted (add_groups [] groups) (add_groups-Unique [] groups tt)))
