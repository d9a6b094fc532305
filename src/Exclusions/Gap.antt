-- ===== src/Exclusions/Gap.antt =====
-- `history_unavailable_exclusions`: the hours of a range that the provider no longer holds.
use energy_optimizer.Prelude.{
  ℕ, zero, suc, ◌+◌, ◌-◌, ◌*◌, ◌≡◌, refl, ap, none, List, [], ◌∷◌, map, arith, length, replicate,
  ◌∙◌,
}
use energy_optimizer.Hours.{Instant, hour, hourly}
use energy_optimizer.Exclusions.{
  ExclusionCause, HourExclusion, no_history, history_unavailable, cause_of, round_hours, gap_from,
  history_unavailable_exclusions,
}

-- A whole number of hours is not rounded.
pub round_hours-whole : (n : ℕ) → round_hours (n * hour) ≡ n
unfolding round_hours
round_hours-whole n = ground arith

module _ {Num : Type 0} where
  -- The hours of an exclusion, with its causes.
  abbrev pub entry : HourExclusion Num → Instant × List (ExclusionCause Num)
  entry item = (item.hour_start, item.causes)

  gap_from-hourly :
      (start : Instant) (cause : ExclusionCause Num) (index n : ℕ)
      → map entry (gap_from start cause index n)
        ≡ hourly (start + index * hour) (replicate n (cause ∷ []))
  unfolding gap_from hourly
  gap_from-hourly start cause index zero = refl
  gap_from-hourly start cause index (suc n) = rw (gap_from-hourly start cause (index + 1) n) (
      ap (λ x. (start + index * hour, cause ∷ []) ∷ hourly x (replicate n (cause ∷ [])))
        (omega arith))

  -- The cause that every hour of the gap gets.
  abbrev pub gap_cause : Instant → ℕ → ExclusionCause Num
  gap_cause start n = cause_of history_unavailable (no_history start (start + n * hour) n) none []

  -- A gap of `n` whole hours has one exclusion for each of them, in order, with the one cause
  -- that the provider holds no history of the whole range, and no data points.
  pub gap-hourly :
      (start : Instant) (n : ℕ)
      → map entry (history_unavailable_exclusions start (start + n * hour))
        ≡ hourly start (replicate n (gap_cause start n ∷ []))
  unfolding history_unavailable_exclusions
  gap-hourly start n =
      let size : round_hours (start + n * hour - start) ≡ n =
        ap round_hours (omega arith) ∙ round_hours-whole n in
      rw size (
        gap_from-hourly start (gap_cause start n) 0 n
        ∙ ap (λ x. hourly x (replicate n (gap_cause start n ∷ []))) (omega arith))

  gap_from-own_hours :
      (start : Instant) (cause : ExclusionCause Num) (index n : ℕ)
      → let gap = gap_from start cause index n in
        (map (λ item. (item.hour_start, item)) gap ≡ hourly (start + index * hour) gap)
        × (length gap ≡ n)
  unfolding gap_from hourly
  gap_from-own_hours start cause index zero = (refl, refl)
  gap_from-own_hours start cause index (suc n) =
      let (own, size) = gap_from-own_hours start cause (index + 1) n in
      let item : HourExclusion Num = record {
        hour_start = start + index * hour;
        causes = cause ∷ [];
      } in
      (
        ap (λ l. (start + index * hour, item) ∷ l)
            (own ∙ ap (λ t. hourly t (gap_from start cause (index + 1) n)) (omega arith)),
        ap suc size,
      )

  -- The exclusions of a gap stand under the hours of the gap.
  pub gap_own_hours :
      (start : Instant) (n : ℕ)
      → let gap = history_unavailable_exclusions {Num = Num} start (start + n * hour) in
        (map (λ item. (item.hour_start, item)) gap ≡ hourly start gap) × (length gap ≡ n)
  unfolding history_unavailable_exclusions
  gap_own_hours start n =
      let size : round_hours (start + n * hour - start) ≡ n =
        ap round_hours (omega arith) ∙ round_hours-whole n in
      let (own, length_eq) = gap_from-own_hours start (gap_cause start n) 0 n in
      rw size
        (own ∙ ap (λ t. hourly t (gap_from start (gap_cause start n) 0 n)) (omega arith), length_eq)
