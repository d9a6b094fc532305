-- ===== src/Bytes/Lines.antt =====
-- What the lines of joined bytes are.
use energy_optimizer.Prelude.{
  ℕ, Bool, true, false, ◌&&◌, ◌||◌, not, List, [], ◌∷◌, ◌++◌, ◌==◌, nat_eq, ◌≡◌, refl, ap, arith,
  if◌then◌else◌, All, Bool-cases, inl, inr,
}
use energy_optimizer.Bytes.{
  Bytes, is_line_end, starts_with, onto_first, split_lines, strip_right, strip_behind,
  is_terminated,
}

-- Bytes that do not end a line.
abbrev pub IsText : Bytes → Type 0
IsText bs = All (λ c. is_line_end c ≡ false) bs

-- A terminated text is the first line.
pub split_lines-IsText :
    (text rest : Bytes)
    → IsText text
    → split_lines (text ++ 10 ∷ rest) ≡ (text ++ 10 ∷ []) ∷ split_lines rest
unfolding split_lines
split_lines-IsText [] rest h = refl
split_lines-IsText (c ∷ text) rest h = ground (arith, h.0, split_lines-IsText text rest h.1)

-- A text that nothing terminates is the last line.
pub split_lines-last :
    (c : ℕ) (text : Bytes) → IsText (c ∷ text) → split_lines (c ∷ text) ≡ (c ∷ text) ∷ []
unfolding split_lines
split_lines-last c [] h = ground (arith, h.0)
split_lines-last c (d ∷ text) h = ground (arith, h.0, split_lines-last d text h.1)

-- A line ends behind `c`, when `cs` follows.
abbrev breaks : ℕ → Bytes → Bool
breaks c cs = c == 10 || (c == 13 && not (starts_with 10 cs))

split_lines-cons :
    (c : ℕ) (cs : Bytes)
    → split_lines (c ∷ cs)
      ≡ (if breaks c cs then (c ∷ []) ∷ split_lines cs else onto_first c (split_lines cs))
unfolding split_lines
split_lines-cons c cs = refl

step-append :
    (b : Bool) (c : ℕ) (l : Bytes) (ls ms : List Bytes)
    → (if b then (c ∷ []) ∷ (l ∷ ls) ++ ms else onto_first c ((l ∷ ls) ++ ms))
      ≡ (if b then (c ∷ []) ∷ l ∷ ls else onto_first c (l ∷ ls)) ++ ms
step-append true c l ls ms = refl
step-append false c l ls ms = refl

first_line :
    (c : ℕ) (cs : Bytes) → (l : Bytes) × (ls : List Bytes) × (split_lines (c ∷ cs) ≡ l ∷ ls)
unfolding split_lines
first_line c cs = elim (Bool-cases (breaks c cs)) [
  | inl ends ↦ (c ∷ [], split_lines cs, ground (arith, ends))
  | inr goes_on ↦ rw goes_on (onto (split_lines cs))
]
  where
    onto : (rest : List Bytes) → (l : Bytes) × (ls : List Bytes) × (onto_first c rest ≡ l ∷ ls)
    onto [] = (c ∷ [], [], refl)
    onto (k ∷ ks) = (c ∷ k, ks, refl)

-- Terminated bytes keep their lines, whatever follows.
pub split_lines-append :
    (p q : Bytes)
    → is_terminated p ≡ true
    → starts_with 10 q ≡ false
    → split_lines (p ++ q) ≡ split_lines p ++ split_lines q
unfolding is_terminated
split_lines-append [] q ends apart = cc
split_lines-append (c ∷ []) q ends apart = unfold split_lines in ground (arith, ends, apart)
split_lines-append (c ∷ d ∷ p) q ends apart =
    let (l, ls, e) = first_line d p in
    rw
      (
        split_lines-cons c (d ∷ (p ++ q)),
        split_lines-cons c (d ∷ p),
        split_lines-append (d ∷ p) q ends apart,
        e,
      )
      (step-append (breaks c (d ∷ p)) c l ls (split_lines q))

-- The last line is terminated.
abbrev pub end_last : List Bytes → List Bytes
end_last [] = []
end_last (l ∷ []) = (l ++ 10 ∷ []) ∷ []
end_last (l ∷ m ∷ ls) = l ∷ end_last (m ∷ ls)

end_last-onto_first :
    (c : ℕ) (l : Bytes) (ls : List Bytes)
    → onto_first c (end_last (l ∷ ls)) ≡ end_last (onto_first c (l ∷ ls))
end_last-onto_first c l [] = refl
end_last-onto_first c l (m ∷ ls) = refl

step-end_last :
    (b : Bool) (c : ℕ) (l : Bytes) (ls : List Bytes)
    → (if b then (c ∷ []) ∷ end_last (l ∷ ls) else onto_first c (end_last (l ∷ ls)))
      ≡ end_last (if b then (c ∷ []) ∷ l ∷ ls else onto_first c (l ∷ ls))
step-end_last true c l ls = refl
step-end_last false c l ls = end_last-onto_first c l ls

-- A line end behind bytes that lack one goes to the last line.
pub split_lines-end :
    (c : ℕ) (p : Bytes)
    → is_terminated (c ∷ p) ≡ false
    → split_lines ((c ∷ p) ++ 10 ∷ []) ≡ end_last (split_lines (c ∷ p))
unfolding is_terminated
split_lines-end c [] lacks = unfold split_lines in ground (arith, lacks)
split_lines-end c (d ∷ p) lacks =
    let (l, ls, e) = first_line d p in
    rw
      (
        split_lines-cons c (d ∷ (p ++ 10 ∷ [])),
        split_lines-cons c (d ∷ p),
        split_lines-end d p lacks,
        e,
      )
      (step-end_last (breaks c (d ∷ p)) c l ls)

-- A line end is stripped.
pub strip_right-end :
    (l : Bytes) → strip_right is_line_end (l ++ 10 ∷ []) ≡ strip_right is_line_end l
unfolding strip_right
strip_right-end [] = refl
strip_right-end (c ∷ l) = ap (strip_behind is_line_end c) (strip_right-end l)

strip_behind-kept :
    (c : ℕ) (cs : Bytes) → is_line_end c ≡ false → strip_behind is_line_end c cs ≡ c ∷ cs
strip_behind-kept c [] h = ground (arith, h)
strip_behind-kept c (d ∷ cs) h = refl

-- A text is not shortened.
pub strip_right-IsText : (text : Bytes) → IsText text → strip_right is_line_end text ≡ text
unfolding strip_right
strip_right-IsText [] h = refl
strip_right-IsText (c ∷ text) h = rw (strip_right-IsText text h.1) (strip_behind-kept c text h.0)

pub is_terminated-end : (l : Bytes) → is_terminated (l ++ 10 ∷ []) ≡ true
unfolding is_terminated
is_terminated-end [] = refl
is_terminated-end (c ∷ []) = refl
is_terminated-end (c ∷ d ∷ l) = is_terminated-end (d ∷ l)

pub is_terminated-IsText : (text : Bytes) → IsText text → is_terminated text ≡ false
unfolding is_terminated
is_terminated-IsText [] h = refl
is_terminated-IsText (c ∷ []) h = h.0
is_terminated-IsText (c ∷ d ∷ text) h = is_terminated-IsText (d ∷ text) h.1
