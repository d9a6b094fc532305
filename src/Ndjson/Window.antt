-- ===== src/Ndjson/Window.antt =====
-- The hours that retention keeps of a file are those that it keeps of what was kept before and of
-- what is new: hours that fell out of the window never come back.
use energy_optimizer.Prelude.{
  ℕ, zero, suc, ◌+◌, ◌-◌, ◌*◌, ◌/◌, ◌%◌, ◌<◌, ◌≤◌, ◌≡◌, refl, sym, ap, ◌∙◌, true, false, ◌||◌, none,
  List, [], ◌∷◌, ◌++◌, arith, nat_eq, leb, if◌then◌else◌, length, drop, take_last, length-append,
  length-drop, Dict, lookup, update, lookup-update, update-Unique, Unique, is_some, or_else, All,
  All-drop, Bool-cases, inl, inr, max, subst,
}
use energy_optimizer.Prelude.Sorting.{
  IsSorted, sorted_items, sorted_items-IsSorted, lookup-sorted_items, sorted_ext, lookup-below,
  IsSorted-Unique, All-below,
}
use energy_optimizer.Hours.{
  Instant, hour, hourly, hourly-IsSorted, in_range, lookup-hourly_domain, contiguous,
}
use energy_optimizer.Records.Slice.{length-hourly}
use energy_optimizer.Records.Overlay.{overlaid, overlaid-IsSorted, lookup-overlaid}

module _ {A : Type 0} where
  drop-past : (m k : ℕ) (a b : List A) → m ≡ length a + k → drop m (a ++ b) ≡ drop k b
  drop-past m k [] b e = ap (λ n. drop n b) (omega (arith, e))
  drop-past zero k (x ∷ a) b e = absurd (omega (arith, e))
  drop-past (suc m) k (x ∷ a) b e = drop-past m k a b (omega (arith, e))

  take_last-append : (n : ℕ) (a b : List A) → n ≤ length b → take_last n (a ++ b) ≡ take_last n b
  take_last-append n a b h =
      drop-past (length (a ++ b) - n) (length b - n) a b (omega (arith, length-append a b, h))

module _ {V : Type 0} where
  -- The entries from a key on.
  record IsTail (k : ℕ) (l a b : List (ℕ × V)) : Type 0 where
    splits : l ≡ a ++ b
    sorted : IsSorted b
    from_key : (t : ℕ) → lookup t b ≡ (if leb k t then lookup t l else none)

  tail :
      (k : ℕ) (l : List (ℕ × V))
      → IsSorted l
      → (a : List (ℕ × V)) × (b : List (ℕ × V)) × IsTail k l a b
  unfolding lookup
  tail k [] h = ([], [], record { splits = refl; sorted = tt; from_key = λ t. ground arith })
  tail k ((j, v) ∷ l) h = elim (Bool-cases (leb k j)) [
    | inl from ↦ (
      [],
      (j, v) ∷ l,
      record {
        splits = refl;
        sorted = h;
        from_key =
            λ t. ground (arith, from, λ (lt : t < j). lookup-below t l (All-below t j l lt h.0));
      },
    )
    | inr below ↦
        let (a, b, i) = tail k l h.1 in
        (
          (j, v) ∷ a,
          b,
          record {
            splits = ap (λ x. (j, v) ∷ x) i.splits;
            sorted = i.sorted;
            from_key = λ t. ground (arith, i.from_key t, below);
          },
        )
  ]

  -- Sorted entries that agree from a key on, and have `n` entries from there on, end alike.
  take_last-IsTail :
      (n k : ℕ) (l m : List (ℕ × V))
      → IsSorted l
      → IsSorted m
      → ((t : ℕ) → leb k t ≡ true → lookup t l ≡ lookup t m)
      → ((b : List (ℕ × V))
          → IsSorted b
          → ((t : ℕ) → lookup t b ≡ (if leb k t then lookup t m else none))
          → n ≤ length b)
      → take_last n l ≡ take_last n m
  take_last-IsTail n k l m hl hm agree long =
      let (a₁, b₁, i₁) = tail k l hl in
      let (a₂, b₂, i₂) = tail k m hm in
      let size = long b₂ i₂.sorted i₂.from_key in
      let same : b₁ ≡ b₂ =
        sorted_ext b₁ b₂ i₁.sorted i₂.sorted
          (λ t. ground (arith, i₁.from_key t, i₂.from_key t, agree t)) in
      ap (take_last n) i₁.splits
      ∙ take_last-append n a₁ b₁ (subst (λ b. n ≤ length b) (sym same) size)
      ∙ ap (take_last n) same
      ∙ sym (take_last-append n a₂ b₂ size)
      ∙ ap (take_last n) (sym i₂.splits)

  -- Dropping entries from the front loses none from the first kept key on.
  lookup-drop_from :
      (j k t : ℕ) (v : V) (l rest : List (ℕ × V))
      → IsSorted l
      → drop j l ≡ (k, v) ∷ rest
      → leb k t ≡ true
      → lookup t (drop j l) ≡ lookup t l
  unfolding lookup
  lookup-drop_from zero k t v l rest h e le = refl
  lookup-drop_from (suc j) k t v [] rest h e le = refl
  lookup-drop_from (suc j) k t v ((i, w) ∷ l) rest h e le =
      let kept : All (λ x. i < x.0) ((k, v) ∷ rest) =
        subst (λ x. All (λ y. i < y.0) x) e (All-drop _ j l h.0) in
      lookup-drop_from j k t v l rest h.1 e le ∙ ground (arith, kept.0, le)

range_from :
    (s₁ n₁ s₂ n₂ t : ℕ)
    → s₁ % hour ≡ 0
    → s₂ % hour ≡ 0
    → s₁ ≤ s₂ + n₂ * hour
    → s₂ ≤ s₁ + n₁ * hour
    → leb s₁ t ≡ true
    → (in_range s₂ n₂ t || in_range s₁ n₁ t)
      ≡ in_range s₁ ((max (s₁ + n₁ * hour) (s₂ + n₂ * hour) - s₁) / hour) t
unfolding in_range
range_from s₁ n₁ s₂ n₂ t a₁ a₂ h₁ h₂ le = ground arith

below_start : (s n t : ℕ) → leb s t ≡ false → in_range s n t ≡ false
unfolding in_range
below_start s n t h = ground (arith, h)

-- `d` holds what was read before, of which retention keeps the values `w` from `s₁` on; the values
-- `new` from `s₂` on meet or overlap these.
module _ {V : Type 0} (s₁ s₂ : Instant) (w new : List V) (d : Dict Instant V) (limit : ℕ)
    (unique : Unique d) (kept : take_last limit (sorted_items d) ≡ hourly s₁ w)
    (some_hour : 0 < length w) (a₁ : s₁ % hour ≡ 0) (a₂ : s₂ % hour ≡ 0)
    (m₁ : s₁ ≤ s₂ + length new * hour) (m₂ : s₂ ≤ s₁ + length w * hour) where
  lookup-kept : (t : Instant) → leb s₁ t ≡ true → lookup t (hourly s₁ w) ≡ lookup t d
  unfolding hourly
  lookup-kept t le = go w kept some_hour
    where
      go :
          (v : List V)
          → take_last limit (sorted_items d) ≡ hourly s₁ v
          → 0 < length v
          → lookup t (hourly s₁ v) ≡ lookup t d
      go [] e h = absurd (omega (arith, h))
      go (x ∷ v) e h =
          ap (lookup t) (sym e)
          ∙ lookup-drop_from _ s₁ t x (sorted_items d) (hourly (s₁ + hour) v)
              (sorted_items-IsSorted d unique) e le
          ∙ lookup-sorted_items t d

  lookup-joined :
      (t : Instant)
      → lookup t (sorted_items (update d (hourly s₂ new)))
        ≡ or_else (lookup t (hourly s₂ new)) (lookup t d)
  lookup-joined t =
      lookup-sorted_items t (update d (hourly s₂ new))
      ∙ lookup-update d (hourly s₂ new) t (IsSorted-Unique _ (hourly-IsSorted s₂ new))

  joined-IsSorted : IsSorted (sorted_items (update d (hourly s₂ new)))
  joined-IsSorted =
      sorted_items-IsSorted (update d (hourly s₂ new)) (update-Unique d (hourly s₂ new) unique)

  agree :
      (t : Instant)
      → lookup t (hourly s₁ w) ≡ lookup t d
      → lookup t (sorted_items (update d (hourly s₂ new)))
        ≡ lookup t (sorted_items (overlaid s₁ s₂ w new))
  agree t e =
      lookup-joined t
      ∙ ap (or_else (lookup t (hourly s₂ new))) (sym e)
      ∙ sym (lookup-overlaid s₁ s₂ w new t)

  long_tail :
      (b : List (Instant × V))
      → IsSorted b
      → ((t : ℕ)
          → lookup t b
            ≡ (if leb s₁ t then lookup t (sorted_items (overlaid s₁ s₂ w new)) else none))
      → length w ≤ length b
  long_tail b sorted from =
      let n = (max (s₁ + length w * hour) (s₂ + length new * hour) - s₁) / hour in
      let domain : (t : Instant) → is_some (lookup t b) ≡ in_range s₁ n t = λ t. ground (
        arith,
        from t,
        lookup-overlaid s₁ s₂ w new t,
        lookup-hourly_domain s₁ w t,
        lookup-hourly_domain s₂ new t,
        range_from s₁ (length w) s₂ (length new) t a₁ a₂ m₁ m₂,
        below_start s₁ n t,
      ) in
      omega (arith, (contiguous s₁ n b sorted domain).1)

  pub window :
      take_last limit (sorted_items (update d (hourly s₂ new)))
      ≡ take_last limit (sorted_items (overlaid s₁ s₂ w new))
  window = elim (Bool-cases (leb (length (sorted_items d)) limit)) [
    | inl short ↦
        let none_dropped : length (sorted_items d) - limit ≡ 0 = ground (arith, short) in
        let all : sorted_items d ≡ hourly s₁ w =
          ap (λ k. drop k (sorted_items d)) (sym none_dropped) ∙ kept in
        ap (take_last limit) (
          sorted_ext _ _ joined-IsSorted (overlaid-IsSorted s₁ s₂ w new)
            (λ t. agree t (ap (lookup t) (sym all) ∙ lookup-sorted_items t d)))
    | inr long ↦
        take_last-IsTail limit s₁ _ _ joined-IsSorted (overlaid-IsSorted s₁ s₂ w new)
          (λ t le. agree t (lookup-kept t le))
          (λ b sorted from. ground (
            arith,
            long,
            long_tail b sorted from,
            ap length kept,
            length-hourly s₁ w,
            length-drop (length (sorted_items d) - limit) (sorted_items d),
          ))
  ]
