-- ===== src/Scan/Cut.antt =====
-- What is left of the text of an object when its end is cut off.
use energy_optimizer.Prelude.{
  ℕ, zero, suc, ◌+◌, ◌-◌, Bool, true, false, not, ◌||◌, ◌&&◌, List, [], ◌∷◌, ◌++◌, nat_eq, ◌≡◌, ◌⊎◌,
  refl, ap, arith, ◌∙◌, ◌≤◌, ◌<◌, leb, Bool-cases, inl, inr, take, some, length, append_assoc, sym,
  subst, ltb,
}
use energy_optimizer.Bytes.{Bytes, is_blank, strip, strip_left, strip_right, strip_behind}
use energy_optimizer.Scan.{Scan, scan, scan_byte, is_open, looks_like_incomplete_household_record}
use energy_optimizer.Scan.Balanced.{
  IsQuoted, closed, letter, escape, IsBalanced, done, plain, quoted, braces, brackets, IsObjectText,
  outside, inside, scan-step, scan-IsQuoted, scan_byte-is_plain, scan-IsBalanced,
}

pub take-short : {A : Type 0} (n : ℕ) (p q : List A) → n ≤ length p → take n (p ++ q) ≡ take n p
take-short zero p q h = refl
take-short (suc n) [] q h = absurd (omega (arith, h))
take-short (suc n) (b ∷ p) q h = ap (λ l. b ∷ l) (take-short n p q (omega (arith, h)))

pub take-long :
    {A : Type 0} (n k : ℕ) (p q : List A) → n ≡ length p + k → take n (p ++ q) ≡ p ++ take k q
take-long n k [] q e = ap (λ m. take m q) (omega (arith, e))
take-long zero k (b ∷ p) q e = absurd (omega (arith, e))
take-long (suc n) k (b ∷ p) q e = ap (λ l. b ∷ l) (take-long n k p q (omega (arith, e)))

-- The scan of `bs` from `s` passes, and the brackets of `stack` are still open then.
pub record Holds (stack : List ℕ) (bs : Bytes) (s : Scan) : Type 0 where
  pub reached : Scan
  pub passes : scan bs s ≡ some reached
  pub above : List ℕ
  pub still_open : reached.stack ≡ above ++ stack

module _ (stack : List ℕ) where
  Holds-nil : (s : Scan) → s.stack ≡ stack → Holds stack [] s
  Holds-nil s e = record { reached = s; passes = unfold scan in refl; above = []; still_open = e }

  Holds-cons :
      (b : ℕ) (bs : Bytes) (s t : Scan)
      → scan_byte b s ≡ some t
      → Holds stack bs t
      → Holds stack (b ∷ bs) s
  Holds-cons b bs s t e h = record {
    reached = h.reached;
    passes = scan-step b bs s t e ∙ h.passes;
    above = h.above;
    still_open = h.still_open;
  }

  -- `p` leads from `s` to `t`.
  Holds-append :
      (p bs : Bytes) (s t : Scan)
      → scan (p ++ bs) s ≡ scan bs t
      → Holds stack bs t
      → Holds stack (p ++ bs) s
  Holds-append p bs s t e h = record {
    reached = h.reached;
    passes = e ∙ h.passes;
    above = h.above;
    still_open = h.still_open;
  }

  Holds-none : (n : ℕ) (s : Scan) → s.stack ≡ stack → Holds stack (take n []) s
  Holds-none zero s e = Holds-nil s e
  Holds-none (suc n) s e = Holds-nil s e

  Holds-IsQuoted : (n : ℕ) {s : Bytes} → IsQuoted s → Holds stack (take n s) (inside stack)
  unfolding scan_byte
  Holds-IsQuoted zero q = Holds-nil (inside stack) refl
  Holds-IsQuoted (suc n) closed =
      Holds-cons b'"' (take n []) (inside stack) (outside stack) refl
        (Holds-none n (outside stack) refl)
  Holds-IsQuoted (suc n) (letter b {bs} nq nb q) =
      Holds-cons b (take n bs) (inside stack) (inside stack) (ground (arith, nq, nb))
        (Holds-IsQuoted n q)
  Holds-IsQuoted (suc zero) (escape b {bs} q) =
      Holds-cons b'\\' [] (inside stack) (record (inside stack) { escaped = true }) refl
        (Holds-nil _ refl)
  Holds-IsQuoted (suc (suc n)) (escape b {bs} q) =
      let started = record (inside stack) { escaped = true } in
      Holds-cons b'\\' (b ∷ take n bs) (inside stack) started refl
        (Holds-cons b (take n bs) started (inside stack) refl (Holds-IsQuoted n q))

  -- What holds of the first part alone, or of the second behind it, holds of the whole.
  Holds-take :
      (n : ℕ) (p q : Bytes) (s t : Scan)
      → ((m : ℕ) → Holds stack (take m p) s)
      → ((bs : Bytes) → scan (p ++ bs) s ≡ scan bs t)
      → ((m : ℕ) → Holds stack (take m q) t)
      → Holds stack (take n (p ++ q)) s
  Holds-take n p q s t first leads second = elim (Bool-cases (leb n (length p))) [
    | inl short ↦
        subst (λ l. Holds stack l s) (sym (take-short n p q (ground (arith, short)))) (first n)
    | inr long ↦
        subst (λ l. Holds stack l s) (sym (take-long n (n - length p) p q (ground (arith, long))))
          (Holds-append p (take (n - length p) q) s t (leads (take (n - length p) q))
            (second (n - length p)))
  ]

Holds-weaken :
    (b : ℕ) (stack : List ℕ) (bs : Bytes) (s : Scan) → Holds (b ∷ stack) bs s → Holds stack bs s
Holds-weaken b stack bs s h = record {
  reached = h.reached;
  passes = h.passes;
  above = h.above ++ b ∷ [];
  still_open = h.still_open ∙ sym (append_assoc h.above (b ∷ []) stack);
}

-- Behind the bracket `o`, a balanced text, the bracket `c` that closes it, and a balanced text.
Holds-bracketed :
    (o c : ℕ) (stack : List ℕ) (n : ℕ) (inner rest : Bytes)
    → scan_byte o (outside stack) ≡ some (outside (o ∷ stack))
    → scan_byte c (outside (o ∷ stack)) ≡ some (outside stack)
    → IsBalanced inner
    → ((m : ℕ) → Holds (o ∷ stack) (take m inner) (outside (o ∷ stack)))
    → ((m : ℕ) → Holds stack (take m rest) (outside stack))
    → Holds stack (o ∷ take n (inner ++ c ∷ rest)) (outside stack)
Holds-bracketed o c stack n inner rest opens closes i first second =
    let within = outside (o ∷ stack) in
    Holds-cons stack o (take n (inner ++ c ∷ rest)) (outside stack) within opens (
      Holds-take stack n inner (c ∷ rest) within within
        (λ m. Holds-weaken o stack (take m inner) within (first m))
        (λ bs. scan-IsBalanced (o ∷ stack) bs i) closed_by)
  where
    closed_by : (m : ℕ) → Holds stack (take m (c ∷ rest)) (outside (o ∷ stack))
    closed_by zero =
        Holds-weaken o stack [] (outside (o ∷ stack))
          (Holds-nil (o ∷ stack) (outside (o ∷ stack)) refl)
    closed_by (suc m) =
        Holds-cons stack c (take m rest) (outside (o ∷ stack)) (outside stack) closes (second m)

-- The scan passes over the beginning of a balanced text, and closes no bracket that was open.
Holds-IsBalanced :
    (stack : List ℕ) (n : ℕ) {t : Bytes} → IsBalanced t → Holds stack (take n t) (outside stack)
unfolding scan_byte
Holds-IsBalanced stack zero b = Holds-nil stack (outside stack) refl
Holds-IsBalanced stack (suc n) done = Holds-nil stack (outside stack) refl
Holds-IsBalanced stack (suc n) (plain b {bs} p t) =
    Holds-cons stack b (take n bs) (outside stack) (outside stack) (scan_byte-is_plain b stack p)
      (Holds-IsBalanced stack n t)
Holds-IsBalanced stack (suc n) (quoted {s} {bs} q t) =
    Holds-cons stack b'"' (take n (s ++ bs)) (outside stack) (inside stack) refl (
      Holds-take stack n s bs (inside stack) (outside stack) (λ m. Holds-IsQuoted stack m q)
        (λ rest. scan-IsQuoted stack rest q) (λ m. Holds-IsBalanced stack m t))
Holds-IsBalanced stack (suc n) (braces {inner} {bs} i t) =
    Holds-bracketed b'{' b'}' stack n inner bs refl refl i
      (λ m. Holds-IsBalanced (b'{' ∷ stack) m i) (λ m. Holds-IsBalanced stack m t)
Holds-IsBalanced stack (suc n) (brackets {inner} {bs} i t) =
    Holds-bracketed b'[' b']' stack n inner bs refl refl i
      (λ m. Holds-IsBalanced (b'[' ∷ stack) m i) (λ m. Holds-IsBalanced stack m t)

strip_behind-cases :
    (drops : ℕ → Bool) (b : ℕ) (bs : Bytes)
    → (strip_behind drops b bs ≡ []) ⊎ (strip_behind drops b bs ≡ b ∷ bs)
strip_behind-cases drops b [] = ground (arith, Bool-cases (drops b))
strip_behind-cases drops b (c ∷ bs) = inr refl

-- Stripping cuts off an end.
strip_right-take :
    (drops : ℕ → Bool) (bs : Bytes) → (k : ℕ) × (k ≤ length bs) × (strip_right drops bs ≡ take k bs)
unfolding strip_right
strip_right-take drops [] = (0, omega arith, refl)
strip_right-take drops (b ∷ bs) =
    let (k, le, e) = strip_right-take drops bs in
    elim (strip_behind-cases drops b (strip_right drops bs)) [
      | inl nothing ↦ (0, omega arith, nothing)
      | inr kept ↦ (suc k, omega (arith, le), kept ∙ ap (λ l. b ∷ l) e)
    ]

strip_behind-kept :
    (drops : ℕ → Bool) (b : ℕ) (bs : Bytes)
    → (drops b ≡ false) ⊎ (0 < length bs)
    → strip_behind drops b bs ≡ b ∷ bs
strip_behind-kept drops b [] h = ground (arith, h)
strip_behind-kept drops b (c ∷ bs) h = refl

length-snoc : (bs : Bytes) (c : ℕ) → length (bs ++ c ∷ []) ≡ suc (length bs)
length-snoc [] c = refl
length-snoc (b ∷ bs) c = ap suc (length-snoc bs c)

strip_right-kept :
    (drops : ℕ → Bool) (bs : Bytes) (c : ℕ)
    → drops c ≡ false
    → strip_right drops (bs ++ c ∷ []) ≡ bs ++ c ∷ []
unfolding strip_right
strip_right-kept drops [] c h = strip_behind-kept drops c [] (inl h)
strip_right-kept drops (b ∷ bs) c h =
    ap (strip_behind drops b) (strip_right-kept drops bs c h)
    ∙ strip_behind-kept drops b (bs ++ c ∷ []) (inr (omega (arith, length-snoc bs c)))

pub take-all : {A : Type 0} (n : ℕ) (bs : List A) → length bs ≤ n → take n bs ≡ bs
take-all zero [] h = refl
take-all (suc n) [] h = refl
take-all zero (b ∷ bs) h = absurd (omega (arith, h))
take-all (suc n) (b ∷ bs) h = ap (λ l. b ∷ l) (take-all n bs (omega (arith, h)))

is_open-Holds : (b : ℕ) (bs : Bytes) (s : Scan) → Holds (b ∷ []) bs s → is_open (scan bs s) ≡ true
is_open-Holds b bs s h =
    ap is_open h.passes
    ∙ ap (λ l. h.reached.in_string || not (elim l [ [] ↦ true | c ∷ rest ↦ false ])) h.still_open
    ∙ not_empty h.reached.in_string h.above
  where
    not_empty :
        (quoted : Bool) (above : List ℕ)
        → (quoted || not (elim (above ++ b ∷ []) [ [] ↦ true | c ∷ rest ↦ false ])) ≡ true
    not_empty true above = refl
    not_empty false [] = refl
    not_empty false (c ∷ above) = refl

take-take : (k n : ℕ) (bs : Bytes) → k ≤ length (take n bs) → take k (take n bs) ≡ take k bs
take-take zero n bs h = refl
take-take (suc k) zero bs h = absurd (omega (arith, h))
take-take (suc k) (suc n) [] h = refl
take-take (suc k) (suc n) (b ∷ bs) h = ap (λ l. b ∷ l) (take-take k n bs (omega (arith, h)))

pub strip-brace : (bs : Bytes) → strip (b'{' ∷ bs) ≡ b'{' ∷ strip_right is_blank bs
unfolding strip_left strip_right
strip-brace bs =
    ap strip_left (strip_behind-kept is_blank b'{' (strip_right is_blank bs) (inl refl))

-- Behind the brace, the scan decides.
looks-brace :
    (bs rest : Bytes)
    → strip_right is_blank bs ≡ rest
    → looks_like_incomplete_household_record (b'{' ∷ bs) ≡ is_open (scan rest (outside (b'{' ∷ [])))
unfolding looks_like_incomplete_household_record scan_byte
looks-brace bs rest e =
    rw (strip-brace, e) (ap is_open (scan-step b'{' rest (outside []) (outside (b'{' ∷ [])) refl))

looks-cut :
    (n : ℕ) (inner : Bytes)
    → IsBalanced inner
    → looks_like_incomplete_household_record (b'{' ∷ take n inner) ≡ true
looks-cut n inner i =
    let (k, le, e) = strip_right-take is_blank (take n inner) in
    looks-brace (take n inner) (take k inner) (e ∙ take-take k n inner le)
    ∙ is_open-Holds b'{' (take k inner) (outside (b'{' ∷ [])) (Holds-IsBalanced (b'{' ∷ []) k i)

looks-whole :
    (inner : Bytes)
    → IsBalanced inner
    → looks_like_incomplete_household_record (b'{' ∷ inner ++ b'}' ∷ []) ≡ false
unfolding scan scan_byte
looks-whole inner i =
    looks-brace (inner ++ b'}' ∷ []) (inner ++ b'}' ∷ [])
      (strip_right-kept is_blank inner b'}' refl)
    ∙ ap is_open (scan-IsBalanced (b'{' ∷ []) (b'}' ∷ []) i)

-- Of the beginnings of an object's text, exactly those look like an incomplete record that are
-- neither empty nor the whole text.
pub looks_like_incomplete_household_record-take :
    (n : ℕ) (t : Bytes)
    → IsObjectText t
    → looks_like_incomplete_household_record (take n t) ≡ (ltb 0 n && ltb n (length t))
looks_like_incomplete_household_record-take zero t o =
    unfold looks_like_incomplete_household_record strip_left strip_right in refl
looks_like_incomplete_household_record-take (suc n) t o =
    rw o.braced (cut (Bool-cases (leb n (length o.inner))))
  where
    cut :
        (leb n (length o.inner) ≡ true) ⊎ (leb n (length o.inner) ≡ false)
        → looks_like_incomplete_household_record (b'{' ∷ take n (o.inner ++ b'}' ∷ []))
          ≡ (ltb 0 (suc n) && ltb (suc n) (suc (length (o.inner ++ b'}' ∷ []))))
    cut (inl short) =
        ap (λ l. looks_like_incomplete_household_record (b'{' ∷ l))
          (take-short n o.inner (b'}' ∷ []) (ground (arith, short)))
        ∙ looks-cut n o.inner o.balanced
        ∙ ground (arith, length-snoc o.inner b'}', short)
    cut (inr long) =
        ap (λ l. looks_like_incomplete_household_record (b'{' ∷ l))
          (take-all n (o.inner ++ b'}' ∷ []) (ground (arith, length-snoc o.inner b'}', long)))
        ∙ looks-whole o.inner o.balanced
        ∙ ground (arith, length-snoc o.inner b'}', long)
