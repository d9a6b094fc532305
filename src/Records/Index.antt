-- ===== src/Records/Index.antt =====
-- `index_exclusions`: the exclusions of a history by their hours.
use energy_optimizer.Prelude.{
  ◌≡◌, refl, true, none, List, [], ◌∷◌, ◌++◌, map, arith, nat_eq, Dict, lookup, is_some, Unique, ap,
  inl, inr, nat_beq_iff, ◌∙◌, ok, Option-cases,
}
use mathlib.Core.List.{append_assoc, append-nil}
use energy_optimizer.Hours.{Instant}
use energy_optimizer.Exclusions.{HourExclusion}
use energy_optimizer.Series.{Label}
use energy_optimizer.Records.{index_loop, index_exclusions}
use energy_optimizer.Records.Members.{insert-append, lookup-append_one}

module _ {Num : Type 0} where
  abbrev pub by_hour : List (HourExclusion Num) → Dict Instant (HourExclusion Num)
  by_hour items = map (λ item. (item.hour_start, item)) items

  -- No two of the exclusions are of one hour, and none is of an hour of `d`.
  abbrev IsFresh : Dict Instant (HourExclusion Num) → List (HourExclusion Num) → Type 0
  IsFresh d [] = Unit
  IsFresh d (item ∷ items) =
      (lookup item.hour_start d ≡ none) × IsFresh (d ++ (item.hour_start, item) ∷ []) items

  index_loop-fresh :
      (label : Label) (d : Dict Instant (HourExclusion Num)) (items : List (HourExclusion Num))
      → IsFresh d items
      → index_loop label d items ≡ ok (d ++ by_hour items)
  unfolding index_loop
  index_loop-fresh label d [] h = rw append-nil
  index_loop-fresh label d (item ∷ items) h =
      rw (h.0, insert-append item.hour_start item d h.0)
        (index_loop-fresh label (d ++ (item.hour_start, item) ∷ []) items h.1
          ∙ ap ok (append_assoc d _ (by_hour items)))

  IsFresh-index_loop :
      (label : Label) (d x : Dict Instant (HourExclusion Num)) (items : List (HourExclusion Num))
      → index_loop label d items ≡ ok x
      → IsFresh d items
  unfolding index_loop
  IsFresh-index_loop label d x [] e = tt
  IsFresh-index_loop label d x (item ∷ items) e = elim (Option-cases (lookup item.hour_start d)) [
    | inl new ↦ (
      new,
      IsFresh-index_loop label (d ++ (item.hour_start, item) ∷ []) x items
          (rw (new, insert-append item.hour_start item d new) at e),
    )
    | inr (old, found) ↦ ground arith
  ]

  Unique-IsFresh :
      (d : Dict Instant (HourExclusion Num)) (items : List (HourExclusion Num))
      → ((t : Instant) → is_some (lookup t (by_hour items)) ≡ true → lookup t d ≡ none)
      → Unique (by_hour items)
      → IsFresh d items
  Unique-IsFresh d [] apart h = tt
  Unique-IsFresh d (item ∷ items) apart h = (
    apart item.hour_start
        (unfold lookup in ground (arith, nat_beq_iff item.hour_start item.hour_start)),
    Unique-IsFresh (d ++ (item.hour_start, item) ∷ []) items
        (λ t m.
          unfold lookup in
          ground (
            arith,
            apart t,
            h.0,
            λ (e : item.hour_start ≡ t). ap (λ x. lookup x (by_hour items)) e,
            lookup-append_one t item.hour_start item d,
          ))
        h.1,
  )

  IsFresh-apart :
      (t : Instant) (d : Dict Instant (HourExclusion Num)) (items : List (HourExclusion Num))
      → IsFresh d items
      → is_some (lookup t d) ≡ true
      → lookup t (by_hour items) ≡ none
  unfolding lookup
  IsFresh-apart t d [] h m = refl
  IsFresh-apart t d (item ∷ items) h m =
      let d' = d ++ (item.hour_start, item) ∷ [] in
      ground (
        arith,
        IsFresh-apart t d' items h.1,
        lookup-append_one t item.hour_start item d,
        h.0,
        λ (e : item.hour_start ≡ t). ap (λ x. lookup x d) e,
      )

  IsFresh-Unique :
      (d : Dict Instant (HourExclusion Num)) (items : List (HourExclusion Num))
      → IsFresh d items
      → Unique (by_hour items)
  IsFresh-Unique d [] h = tt
  IsFresh-Unique d (item ∷ items) h =
      let d' = d ++ (item.hour_start, item) ∷ [] in
      let k = item.hour_start in
      (
        IsFresh-apart k d' items h.1 (rw lookup-append_one (ground (arith, nat_beq_iff k k, h.0))),
        IsFresh-Unique d' items h.1,
      )

  -- The exclusions of a history are indexed as they stand if no hour has two of them.
  pub index_exclusions-Unique :
      (label : Label) (items : List (HourExclusion Num))
      → Unique (by_hour items)
      → index_exclusions items label ≡ ok (by_hour items)
  unfolding index_exclusions
  index_exclusions-Unique label items h =
      index_loop-fresh label [] items (Unique-IsFresh [] items (λ t m. unfold lookup in refl) h)

  -- Only such exclusions are indexed.
  pub Unique-index_exclusions :
      (label : Label) (items : List (HourExclusion Num)) (x : Dict Instant (HourExclusion Num))
      → index_exclusions items label ≡ ok x
      → Unique (by_hour items) × (x ≡ by_hour items)
  unfolding index_exclusions
  Unique-index_exclusions label items x e =
      let fresh = IsFresh-index_loop label [] x items e in
      (IsFresh-Unique [] items fresh, cc (index_loop-fresh label [] items fresh))
