-- ===== src/Grid/Points.antt =====
-- `grid_flow_points`: a series is accepted exactly if it is well formed; its points, hour by hour.
use energy_optimizer.Prelude.{
  ℕ, suc, ◌+◌, ◌*◌, ◌≡◌, ◌<◌, refl, sym, true, false, Bool, Option, none, some, List, [], ◌∷◌, ◌++◌,
  arith, nat_eq, Dict, lookup, insert, is_none, ap, All, ◌∙◌, ok, >>=-eq-ok, length, All-append,
  string_eq, append_assoc, append-nil, if◌then◌else◌,
}
use energy_optimizer.Hours.{Instant, hour, hourly}
use energy_optimizer.Floats.{FloatOps}
use energy_optimizer.Exclusions.{HourExclusion}
use energy_optimizer.Records.{keys_without_value}
use energy_optimizer.Records.Members.{insert-append}
use energy_optimizer.Records.Points.{lookup-beyond, All-beyond, next_hour}
use energy_optimizer.Grid.{GridFlowPoint, is_valid_flow, flow_point, flow_loop, keys_without_import}

module _ {Num : Type 0} where
  -- The points of the hours from `start` on.
  abbrev pub flows :
      Instant
      → Dict Instant (HourExclusion Num)
      → List (Option Num)
      → List (Option Num)
      → List (GridFlowPoint Num)
  flows start x [] es = []
  flows start x (i ∷ is) [] = []
  flows start x (i ∷ is) (e ∷ es) =
      record { imported = i; exported = e; exclusion = if is_none i then lookup start x else none }
      ∷ flows (start + hour) x is es

  pub length-flows :
      (start : Instant) (x : Dict Instant (HourExclusion Num)) (is es : List (Option Num))
      → length is ≡ length es
      → length (flows start x is es) ≡ length is
  length-flows start x [] es h = refl
  length-flows start x (i ∷ is) [] h = omega (arith, h)
  length-flows start x (i ∷ is) (e ∷ es) h =
      ap suc (length-flows (start + hour) x is es (omega (arith, h)))

  -- The hours without an import are the excluded ones.
  pub keys_without_import-hourly :
      (start : Instant) (x : Dict Instant (HourExclusion Num)) (is es : List (Option Num))
      → length is ≡ length es
      → keys_without_import (hourly start (flows start x is es))
        ≡ keys_without_value (hourly start is)
  unfolding hourly
  keys_without_import-hourly start x [] es h = refl
  keys_without_import-hourly start x (i ∷ is) [] h = absurd (omega (arith, h))
  keys_without_import-hourly start x (none ∷ is) (e ∷ es) h =
      ap (λ l. start ∷ l) (keys_without_import-hourly (start + hour) x is es (omega (arith, h)))
  keys_without_import-hourly start x (some i ∷ is) (e ∷ es) h =
      keys_without_import-hourly (start + hour) x is es (omega (arith, h))

module _ {Num : Type 0} ⦃f : FloatOps Num⦄ where
  -- An hour has two valid values or none.
  abbrev pub is_valid_pair : Option Num → Option Num → Bool
  is_valid_pair (some i) (some e) = is_valid_flow i e
  is_valid_pair none none = true
  is_valid_pair _ _ = false

  abbrev pub AreValidPairs : List (Option Num) → List (Option Num) → Type 0
  AreValidPairs (i ∷ is) (e ∷ es) = (is_valid_pair i e ≡ true) × AreValidPairs is es
  AreValidPairs _ _ = Unit

  flow_point-valid :
      (x : Dict Instant (HourExclusion Num)) (t : Instant) (i e : Option Num)
      → is_valid_pair i e ≡ true
      → flow_point x t i e
        ≡ ok (record {
          imported = i;
          exported = e;
          exclusion = if is_none i then lookup t x else none;
        })
  unfolding flow_point
  flow_point-valid x t none none h = refl
  flow_point-valid x t none (some e) h = cc
  flow_point-valid x t (some i) none h = cc
  flow_point-valid x t (some i) (some e) h = rw h

  valid-flow_point :
      (x : Dict Instant (HourExclusion Num)) (t : Instant) (i e : Option Num)
      (p : GridFlowPoint Num)
      → flow_point x t i e ≡ ok p
      → is_valid_pair i e ≡ true
  unfolding flow_point
  valid-flow_point x t none none p h = refl
  valid-flow_point x t none (some e) p h = cc
  valid-flow_point x t (some i) none p h = cc
  valid-flow_point x t (some i) (some e) p h = ground arith

  pub flow_loop-hourly :
      (start : Instant) (x : Dict Instant (HourExclusion Num)) (index : ℕ)
      (is es : List (Option Num)) (d : Dict Instant (GridFlowPoint Num))
      → All (λ e. e.0 < start + index * hour) d
      → AreValidPairs is es
      → flow_loop start x index is es d
        ≡ ok (d ++ hourly (start + index * hour) (flows (start + index * hour) x is es))
  unfolding flow_loop hourly
  flow_loop-hourly start x index [] es d below h = rw append-nil
  flow_loop-hourly start x index (i ∷ is) [] d below h = rw append-nil
  flow_loop-hourly start x index (i ∷ is) (e ∷ es) d below h =
      let t = start + index * hour in
      let p : GridFlowPoint Num = record {
        imported = i;
        exported = e;
        exclusion = if is_none i then lookup t x else none;
      } in
      rw
        (
          flow_point-valid x t i e h.0,
          insert-append t p d (lookup-beyond t d below),
          sym (next_hour start index),
        )
        (flow_loop-hourly start x (index + 1) is es (d ++ (t, p) ∷ [])
            (All-append _ d ((t, p) ∷ [])
              (All-beyond t (start + (index + 1) * hour) d (omega arith) below) (omega arith, tt))
            h.1
          ∙ ap ok (append_assoc d ((t, p) ∷ []) _))

  pub pairs-flow_loop :
      (start : Instant) (x : Dict Instant (HourExclusion Num)) (index : ℕ)
      (is es : List (Option Num)) (d y : Dict Instant (GridFlowPoint Num))
      → flow_loop start x index is es d ≡ ok y
      → AreValidPairs is es
  unfolding flow_loop
  pairs-flow_loop start x index [] es d y h = tt
  pairs-flow_loop start x index (i ∷ is) [] d y h = tt
  pairs-flow_loop start x index (i ∷ is) (e ∷ es) d y h =
      let t = start + index * hour in
      let (p, point, rest) = >>=-eq-ok (flow_point x t i e) _ h in
      (
        valid-flow_point x t i e p point,
        pairs-flow_loop start x (index + 1) is es (insert t p d) y rest,
      )
