-- ===== src/Prices/Entries.antt =====
-- `price_points`: the hours of a price history.
use energy_optimizer.Prelude.{
  ◌%◌, ◌<◌, ◌≡◌, true, not, ◌&&◌, List, [], ◌∷◌, ◌++◌, map, ap, ◌∙◌, arith, nat_eq, Dict, lookup,
  insert, ok, Result, >>=-eq-ok, raise_if-then, All, All-append, Unique, insert-Unique, subst,
  nat_beq_iff, append_assoc, append-nil, length, is_some, lookup-insert,
}
use energy_optimizer.Prelude.Sorting.{IsSorted, All-insert}
use energy_optimizer.Hours.{Instant, hour, Datetime, aware}
use energy_optimizer.Floats.{FloatOps}
use energy_optimizer.Series.{StoreError, electricity_price, invalid_value}
use energy_optimizer.Records.Members.{insert-append}
use energy_optimizer.Records.Points.{lookup-beyond}
use energy_optimizer.Records.{as_utc}
use energy_optimizer.Grid.{require_hourly_start}
use energy_optimizer.Grid.Accepted.{require_hourly_start-eq-ok}
use energy_optimizer.Prices.{price_loop}

require_hourly_start-aware :
    (t : Instant) → t % hour ≡ 0 → require_hourly_start (aware t) electricity_price ≡ ok t
unfolding require_hourly_start as_utc
require_hourly_start-aware t h = rw h

module _ {Num : Type 0} ⦃f : FloatOps Num⦄ where
  -- An hour has a whole hour and two finite prices.
  abbrev pub IsPrice : Instant × (Num × Num) → Type 0
  IsPrice (t, (i, e)) = (t % hour ≡ 0) × ((f.is_finite i && f.is_finite e) ≡ true)

  abbrev returned : Dict Instant (Num × Num) → Result StoreError (Dict Instant (Num × Num))
  returned d = ok d

  same_points :
      (d p : Dict Instant (Num × Num))
      → returned d ≡ ok p
      → Unique d
      → All IsPrice d
      → Unique p × All IsPrice p
  same_points d p h u a =
      let e : d ≡ p = cc h in
      subst (λ (q : Dict Instant (Num × Num)). Unique q × All IsPrice q) e (u, a)

  -- The accepted hours are whole hours with finite prices, and each of them is there once.
  pub price_loop-IsPrice :
      (ts : List Datetime) (is es : List Num) (d p : Dict Instant (Num × Num))
      → price_loop ts is es d ≡ ok p
      → Unique d
      → All IsPrice d
      → Unique p × All IsPrice p
  unfolding price_loop
  price_loop-IsPrice [] is es d p h u a = same_points d p h u a
  price_loop-IsPrice (t ∷ ts) [] es d p h u a = same_points d p h u a
  price_loop-IsPrice (t ∷ ts) (i ∷ is) [] d p h u a = same_points d p h u a
  price_loop-IsPrice (t ∷ ts) (i ∷ is) (e ∷ es) d p h u a =
      let (finite, h1) =
        raise_if-then (not (f.is_finite i && f.is_finite e)) (invalid_value electricity_price) _
          h in
      let (k, start, h2) = >>=-eq-ok (require_hourly_start t electricity_price) _ h1 in
      price_loop-IsPrice ts is es (insert k (i, e) d) p h2 (insert-Unique k (i, e) d u) (
        All-insert IsPrice k (i, e) d
          ((require_hourly_start-eq-ok t electricity_price k start).1, ground (arith, finite)) a)

  -- The hours of `l` come after those of `d`.
  abbrev IsAbove : Dict Instant (Num × Num) → List (Instant × (Num × Num)) → Type 0
  IsAbove d l = All (λ e. All (λ c. c.0 < e.0) d) l

  IsAbove-append :
      (k : Instant) (v : Num × Num) (d : Dict Instant (Num × Num))
      (l : List (Instant × (Num × Num)))
      → IsAbove d l
      → All (λ e. k < e.0) l
      → IsAbove (d ++ (k, v) ∷ []) l
  IsAbove-append k v d [] h a = tt
  IsAbove-append k v d (e ∷ l) h a =
      (All-append _ d ((k, v) ∷ []) h.0 (a.0, tt), IsAbove-append k v d l h.1 a.1)

  IsAbove-none : (l : List (Instant × (Num × Num))) → IsAbove [] l
  IsAbove-none [] = tt
  IsAbove-none (e ∷ l) = (tt, IsAbove-none l)

  price_loop-above :
      (l d : List (Instant × (Num × Num)))
      → IsSorted l
      → All IsPrice l
      → IsAbove d l
      → price_loop (map (λ e. aware e.0) l) (map (λ e. e.1.0) l) (map (λ e. e.1.1) l) d
        ≡ ok (d ++ l)
  unfolding price_loop
  price_loop-above [] d sorted h above = rw append-nil
  price_loop-above ((k, (i, e)) ∷ l) d sorted h above =
      rw
        (
          h.0.1,
          require_hourly_start-aware k h.0.0,
          insert-append k (i, e) d (lookup-beyond k d above.0),
        )
        (price_loop-above l (d ++ (k, (i, e)) ∷ []) sorted.1 h.1
            (IsAbove-append k (i, e) d l above.1 sorted.0)
          ∙ ap ok (append_assoc d ((k, (i, e)) ∷ []) l))

  -- Sorted hours are read as they stand.
  pub price_loop-IsSorted :
      (l : List (Instant × (Num × Num)))
      → IsSorted l
      → All IsPrice l
      → price_loop (map (λ e. aware e.0) l) (map (λ e. e.1.0) l) (map (λ e. e.1.1) l) [] ≡ ok l
  price_loop-IsSorted l sorted h = price_loop-above l [] sorted h (IsAbove-none l)

  kept_there :
      (k : Instant) (d p : Dict Instant (Num × Num))
      → returned d ≡ ok p
      → is_some (lookup k d) ≡ true
      → is_some (lookup k p) ≡ true
  kept_there k d p h there = subst (λ q. is_some (lookup k q) ≡ true) (cc h) there

  -- Hours that are there stay there.
  price_loop-grows :
      (k : Instant) (ts : List Datetime) (is es : List Num) (d p : Dict Instant (Num × Num))
      → price_loop ts is es d ≡ ok p
      → is_some (lookup k d) ≡ true
      → is_some (lookup k p) ≡ true
  unfolding price_loop
  price_loop-grows k [] is es d p h there = kept_there k d p h there
  price_loop-grows k (t ∷ ts) [] es d p h there = kept_there k d p h there
  price_loop-grows k (t ∷ ts) (i ∷ is) [] d p h there = kept_there k d p h there
  price_loop-grows k (t ∷ ts) (i ∷ is) (e ∷ es) d p h there =
      let (finite, h1) =
        raise_if-then (not (f.is_finite i && f.is_finite e)) (invalid_value electricity_price) _
          h in
      let (j, start, h2) = >>=-eq-ok (require_hourly_start t electricity_price) _ h1 in
      price_loop-grows k ts is es (insert j (i, e) d) p h2
        (ground (arith, there, lookup-insert {V = Num × Num} j k (i, e) d))

  -- A history of at least one price has an hour.
  pub price_loop-some :
      (ts : List Datetime) (is es : List Num) (p : Dict Instant (Num × Num))
      → 0 < length ts
      → length is ≡ length ts
      → length es ≡ length ts
      → price_loop ts is es [] ≡ ok p
      → (k : Instant) × (is_some (lookup k p) ≡ true)
  unfolding price_loop
  price_loop-some [] is es p some_hours a b h = absurd (omega arith)
  price_loop-some (t ∷ ts) [] es p some_hours a b h = absurd (omega (arith, a))
  price_loop-some (t ∷ ts) (i ∷ is) [] p some_hours a b h = absurd (omega (arith, b))
  price_loop-some (t ∷ ts) (i ∷ is) (e ∷ es) p some_hours a b h =
      let (finite, h1) =
        raise_if-then (not (f.is_finite i && f.is_finite e)) (invalid_value electricity_price) _
          h in
      let (k, start, h2) = >>=-eq-ok (require_hourly_start t electricity_price) _ h1 in
      (
        k,
        price_loop-grows k ts is es (insert k (i, e) []) p h2
            (ground (arith, nat_beq_iff k k, lookup-insert {V = Num × Num} k k (i, e) [])),
      )
