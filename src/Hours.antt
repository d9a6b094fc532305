-- ===== src/Hours.antt =====
-- Points in time, and series of hourly values.
-- A `datetime` in UTC is the number of microseconds since datetime.min; `OverflowError` past the
-- year 9999 is not modelled. An aware `datetime` is the instant that it names: its offset only
-- shows in `astimezone`, and every reading below converts to UTC first.
pub mod Ranges
use energy_optimizer.Prelude.{
  ℕ, zero, suc, ◌+◌, ◌-◌, ◌*◌, ◌/◌, ◌%◌, ◌≤◌, ◌<◌, ◌≡◌, ◌≢◌, sym, subst, refl, Bool, true, false,
  ◌&&◌, Option, none, some, List, [], ◌∷◌, map, arith, ltb, leb, ◌==◌, nat_eq, if◌then◌else◌,
  length, drop, Dict, lookup, is_some, Result, ok, err, All, ap,
}
use energy_optimizer.Prelude.Sorting.{IsSorted, lookup-below, All-below}

abbrev pub Instant : Type 0
Instant = ℕ

-- `timedelta(hours=1)`, in microseconds
abbrev pub hour : ℕ
hour = 3600000000

pub data Datetime : Type 0 where
  naive : ℕ → Datetime
  aware : Instant → Datetime

-- `value.minute or value.second or value.microsecond`, in UTC
abbrev pub has_subhour_component : Instant → Bool
has_subhour_component t = if t % hour == 0 then false else true

module _ {ℓ} {V : Type ℓ} where
  -- One entry an hour, from `start` on.
  unfoldable pub hourly : Instant → List V → List (Instant × V)
  hourly start [] = []
  hourly start (v ∷ vs) = (start, v) ∷ hourly (start + hour) vs

-- `t` is one of the `n` hours from `start` on.
unfoldable pub in_range : Instant → ℕ → Instant → Bool
in_range start n t = leb start t && (ltb t (start + n * hour) && (t - start) % hour == 0)

module _ {ℓ} {V : Type ℓ} where
  pub lookup-hourly_domain :
      (start : Instant) (vs : List V) (t : Instant)
      → is_some (lookup t (hourly start vs)) ≡ in_range start (length vs) t
  unfolding lookup hourly in_range
  lookup-hourly_domain start [] t = ground arith
  lookup-hourly_domain start (v ∷ vs) t = ground (arith, lookup-hourly_domain (start + hour) vs t)

  pub hourly-above :
      (k start : Instant) (vs : List V) → k < start → All (λ e. k < e.0) (hourly start vs)
  unfolding hourly
  hourly-above k start [] lt = tt
  hourly-above k start (v ∷ vs) lt = (lt, hourly-above k (start + hour) vs (omega arith))

  pub hourly-IsSorted : (start : Instant) (vs : List V) → IsSorted (hourly start vs)
  unfolding hourly
  hourly-IsSorted start [] = tt
  hourly-IsSorted start (v ∷ vs) =
      (hourly-above start (start + hour) vs (omega arith), hourly-IsSorted (start + hour) vs)

  abbrev pub values : List (Instant × V) → List V
  values l = map (λ e. e.1) l

module _ {ℓ} {V : Type ℓ} where
  -- The domain of the rest of a list of hours, once its first hour is taken off.
  domain-tail :
      (start : Instant) (n : ℕ) (v : V) (l : List (Instant × V))
      → All (λ e. start < e.0) l
      → ((t : Instant) → is_some (lookup t ((start, v) ∷ l)) ≡ in_range start (suc n) t)
      → (t : Instant) → is_some (lookup t l) ≡ in_range (start + hour) n t
  unfolding lookup in_range
  domain-tail start n v l above domain t = ground (arith, domain t, lookup-below start l above)

  domain-head :
      (start k : Instant) (n : ℕ) (v : V) (l : List (Instant × V))
      → All (λ e. k < e.0) l
      → ((t : Instant) → is_some (lookup t ((k, v) ∷ l)) ≡ in_range start (suc n) t)
      → start ≡ k
  unfolding lookup in_range
  domain-head start k n v l above domain = ground (
    arith,
    domain k,
    domain start,
    λ (lt : start < k). lookup-below start l (All-below start k l lt above),
  )

  -- A sorted list whose hours are the `n` hours from `start` on has one entry for each, in order.
  pub contiguous :
      (start : Instant) (n : ℕ) (l : List (Instant × V))
      → IsSorted l
      → ((t : Instant) → is_some (lookup t l) ≡ in_range start n t)
      → (l ≡ hourly start (values l)) × (length l ≡ n)
  unfolding lookup hourly in_range
  contiguous start zero [] sorted domain = (refl, refl)
  contiguous start (suc n) [] sorted domain = ground (arith, domain start)
  contiguous start zero ((k, v) ∷ l) sorted domain = ground (arith, domain k)
  contiguous start (suc n) ((k, v) ∷ l) sorted domain =
      let e = domain-head start k n v l sorted.0 domain in
      let above = subst (λ x. All (λ e. x < e.0) l) (sym e) sorted.0 in
      let domain' =
        subst (λ x. (t : Instant) → is_some (lookup t ((x, v) ∷ l)) ≡ in_range start (suc n) t)
          (sym e) domain in
      let (rest, size) =
        contiguous (start + hour) n l sorted.1 (domain-tail start n v l above domain') in
      (cc (e, rest), omega arith)
