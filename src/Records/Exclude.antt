-- ===== src/Records/Exclude.antt =====
-- `_with_points` and the exclusions of a merged history.
use energy_optimizer.Prelude.{
  ◌<◌, ◌≡◌, refl, Option, none, some, List, [], ◌∷◌, arith, ◌==◌, nat_eq, if◌then◌else◌, Dict,
  lookup, is_some, ap, ◌∙◌, All, sym, Option-cases, inl, inr, Bool-cases, contains, insert, update,
  subst, nat_beq_iff,
}
use energy_optimizer.Prelude.Sorting.{IsSorted}
use energy_optimizer.Hours.{Instant}
use energy_optimizer.Exclusions.{HourExclusion}
use energy_optimizer.Records.{exclusions_of, without_keys}
use energy_optimizer.Records.Index.{by_hour}

module _ {Num : Type 0} where
  -- Every exclusion stands under its own hour.
  abbrev pub IsKeyed : Dict Instant (HourExclusion Num) → Type 0
  IsKeyed x = All (λ e. e.1.hour_start ≡ e.0) x

  pub by_hour-IsKeyed : (items : List (HourExclusion Num)) → IsKeyed (by_hour items)
  by_hour-IsKeyed [] = tt
  by_hour-IsKeyed (item ∷ items) = (refl, by_hour-IsKeyed items)

  pub lookup-IsKeyed :
      (t : Instant) (x : Dict Instant (HourExclusion Num)) (item : HourExclusion Num)
      → IsKeyed x
      → lookup t x ≡ some item
      → item.hour_start ≡ t
  unfolding lookup
  lookup-IsKeyed t [] item h e = cc
  lookup-IsKeyed t ((k, v) ∷ x) item h e = ground (
    arith,
    lookup-IsKeyed t x item h.1,
    λ (p : v ≡ item). ap (λ (i : HourExclusion Num). i.hour_start) p,
  )

  -- A key that the points do not have before `t` is not excluded before `t`.
  exclusions_of-above :
      (t : Instant) (points : List (Instant × Option Num)) (x : Dict Instant (HourExclusion Num))
      → IsKeyed x
      → All (λ e. t < e.0) points
      → All (λ e. t < e.0) (by_hour (exclusions_of points x))
  unfolding exclusions_of
  exclusions_of-above t [] x keyed h = tt
  exclusions_of-above t ((k, v) ∷ points) x keyed h = elim (Option-cases (lookup k x)) [
    | inl nothing ↦ rw (nothing, exclusions_of) (exclusions_of-above t points x keyed h.1)
    | inr (item, found) ↦
        rw (found, exclusions_of)
          (rw (lookup-IsKeyed k x item keyed found) h.0, exclusions_of-above t points x keyed h.1)
  ]

  pub exclusions_of-IsSorted :
      (points : List (Instant × Option Num)) (x : Dict Instant (HourExclusion Num))
      → IsKeyed x
      → IsSorted points
      → IsSorted (by_hour (exclusions_of points x))
  unfolding exclusions_of
  exclusions_of-IsSorted [] x keyed h = tt
  exclusions_of-IsSorted ((k, v) ∷ points) x keyed h = elim (Option-cases (lookup k x)) [
    | inl nothing ↦ rw (nothing, exclusions_of) (exclusions_of-IsSorted points x keyed h.1)
    | inr (item, found) ↦
        rw (found, exclusions_of)
          (
            exclusions_of-above item.hour_start points x keyed (
                subst (λ s. All (λ e. s < e.0) points) (sym (lookup-IsKeyed k x item keyed found))
                  h.0),
            exclusions_of-IsSorted points x keyed h.1,
          )
  ]

  pub lookup-exclusions_of :
      (t : Instant) (points : List (Instant × Option Num)) (x : Dict Instant (HourExclusion Num))
      → IsKeyed x
      → lookup t (by_hour (exclusions_of points x))
        ≡ (if is_some (lookup t points) then lookup t x else none)
  unfolding exclusions_of lookup
  lookup-exclusions_of t [] x keyed = refl
  lookup-exclusions_of t ((k, v) ∷ points) x keyed = elim (Option-cases (lookup k x)) [
    | inl nothing ↦
        rw (nothing, exclusions_of)
          (ground (
            arith,
            lookup-exclusions_of t points x keyed,
            nothing,
            λ (e : k ≡ t). ap (λ y. lookup y x) e,
          ))
    | inr (item, found) ↦
        rw (found, exclusions_of)
          (ground (
            arith,
            lookup-exclusions_of t points x keyed,
            found,
            lookup-IsKeyed k x item keyed found,
            λ (e : k ≡ t). ap (λ y. lookup y x) e,
          ))
  ]

  pub lookup-without_keys :
      (t : Instant) (d : Dict Instant (HourExclusion Num)) (points : Dict Instant (Option Num))
      → lookup t (without_keys d points) ≡ (if is_some (lookup t points) then none else lookup t d)
  unfolding without_keys lookup
  lookup-without_keys t [] points = ground arith
  lookup-without_keys t ((k, v) ∷ d) points =
      ground (arith, lookup-without_keys t d points, λ (e : k ≡ t). ap (λ x. lookup x points) e)

  insert-IsKeyed :
      (k : Instant) (item : HourExclusion Num) (x : Dict Instant (HourExclusion Num))
      → item.hour_start ≡ k
      → IsKeyed x
      → IsKeyed (insert k item x)
  unfolding insert
  insert-IsKeyed k item [] own h = (own, tt)
  insert-IsKeyed k item ((j, v) ∷ x) own h = elim (Bool-cases (j == k)) [
    | inl same ↦ rw same (own ∙ sym ((nat_beq_iff j k).0 same), h.1)
    | inr other ↦ rw other (h.0, insert-IsKeyed k item x own h.1)
  ]

  pub update-IsKeyed :
      (x new : Dict Instant (HourExclusion Num)) → IsKeyed x → IsKeyed new → IsKeyed (update x new)
  unfolding update
  update-IsKeyed x [] hx hn = hx
  update-IsKeyed x ((k, v) ∷ new) hx hn =
      update-IsKeyed (insert k v x) new (insert-IsKeyed k v x hn.0 hx) hn.1

  pub without_keys-IsKeyed :
      (d : Dict Instant (HourExclusion Num)) (points : Dict Instant (Option Num))
      → IsKeyed d
      → IsKeyed (without_keys d points)
  unfolding without_keys
  without_keys-IsKeyed [] points h = tt
  without_keys-IsKeyed ((k, v) ∷ d) points h = elim (Bool-cases (contains k points)) [
    | inl gone ↦ rw gone (without_keys-IsKeyed d points h.1)
    | inr kept ↦ rw kept (h.0, without_keys-IsKeyed d points h.1)
  ]
