-- ===== src/Hours/Ranges.antt =====
-- Hourly series joined, cut and overlaid.
use energy_optimizer.Prelude.{
  ℕ, zero, suc, ◌+◌, ◌-◌, ◌*◌, ◌/◌, ◌%◌, ◌≤◌, ◌<◌, ◌≡◌, refl, ◌||◌, none, List, [], ◌∷◌, ◌++◌,
  arith, leb, nat_eq, if◌then◌else◌, length, drop, lookup, min, max, ap, ◌∙◌,
}
use energy_optimizer.Prelude.Sorting.{lookup-below}
use energy_optimizer.Hours.{Instant, hour, hourly, in_range, values, hourly-above}

module _ {V : Type 0} where
  pub hourly-append :
      (start : Instant) (xs ys : List V)
      → hourly start (xs ++ ys) ≡ hourly start xs ++ hourly (start + length xs * hour) ys
  unfolding hourly
  hourly-append start [] ys = ap (λ t. hourly t ys) (omega arith)
  hourly-append start (x ∷ xs) ys =
      ap (λ l. (start, x) ∷ l)
        (hourly-append (start + hour) xs ys
          ∙ ap (λ t. hourly (start + hour) xs ++ hourly t ys) (omega arith))

  pub drop-hourly :
      (k : ℕ) (start : Instant) (vs : List V)
      → drop k (hourly start vs) ≡ hourly (start + k * hour) (drop k vs)
  unfolding hourly
  drop-hourly zero start vs = ap (λ t. hourly t vs) (omega arith)
  drop-hourly (suc k) start [] = refl
  drop-hourly (suc k) start (v ∷ vs) =
      drop-hourly k (start + hour) vs ∙ ap (λ t. hourly t (drop k vs)) (omega arith)

  lookup-from :
      (start t : Instant) (vs : List V)
      → lookup t (hourly start vs)
        ≡ (if leb (start + 0) t then lookup t (hourly start vs) else none)
  lookup-from start t vs =
      ground
        (arith, λ (lt : t < start). lookup-below t (hourly start vs) (hourly-above t start vs lt))

  -- Cutting off the first `k` hours leaves the others as they are.
  pub lookup-drop :
      (k : ℕ) (start t : Instant) (vs : List V)
      → lookup t (hourly (start + k * hour) (drop k vs))
        ≡ (if leb (start + k * hour) t then lookup t (hourly start vs) else none)
  unfolding hourly lookup
  lookup-drop zero start t vs =
      ap (λ s. lookup t (hourly s vs)) (omega arith) ∙ lookup-from start t vs
  lookup-drop (suc k) start t [] = ground arith
  lookup-drop (suc k) start t (v ∷ vs) =
      ap (λ s. lookup t (hourly s (drop k vs))) (omega arith)
      ∙ lookup-drop k (start + hour) t vs
      ∙ ground arith

  pub values-hourly : (start : Instant) (vs : List V) → values (hourly start vs) ≡ vs
  unfolding hourly
  values-hourly start [] = refl
  values-hourly start (v ∷ vs) = ap (λ l. v ∷ l) (values-hourly (start + hour) vs)

-- Two ranges that meet or overlap are one range together.
pub in_range-union :
    (s₁ n₁ s₂ n₂ t : ℕ)
    → s₁ % hour ≡ 0
    → s₂ % hour ≡ 0
    → s₁ ≤ s₂ + n₂ * hour
    → s₂ ≤ s₁ + n₁ * hour
    → (in_range s₂ n₂ t || in_range s₁ n₁ t)
      ≡ in_range (min s₁ s₂) ((max (s₁ + n₁ * hour) (s₂ + n₂ * hour) - min s₁ s₂) / hour) t
unfolding in_range
in_range-union s₁ n₁ s₂ n₂ t a₁ a₂ h₁ h₂ = ground arith
