-- ===== src/Scan/Balanced.antt =====
-- Texts whose strings are closed and whose brackets match: the scan passes over them.
use energy_optimizer.Prelude.{
  ℕ, Bool, true, false, not, ◌||◌, List, [], ◌∷◌, ◌++◌, ◌==◌, nat_eq, ◌≡◌, ◌≢◌, refl, ap, arith,
  ◌∙◌, some, append_assoc,
}
use energy_optimizer.Bytes.{Bytes}
use energy_optimizer.Scan.{Scan, scan, scan_byte}

-- A byte that neither opens nor closes a string or a bracket.
abbrev pub is_plain : ℕ → Bool
is_plain b = not (b == b'"' || b == b'{' || b == b'}' || b == b'[' || b == b']')

-- What stands in a string, with the quote behind it: a backslash takes the next byte with it.
pub data IsQuoted : Bytes → Type 0 where
  closed : IsQuoted (b'"' ∷ [])
  letter : (b : ℕ) {bs : Bytes} → b ≢ b'"' → b ≢ b'\\' → IsQuoted bs → IsQuoted (b ∷ bs)
  escape : (b : ℕ) {bs : Bytes} → IsQuoted bs → IsQuoted (b'\\' ∷ b ∷ bs)

pub data IsBalanced : Bytes → Type 0 where
  done : IsBalanced []
  plain : (b : ℕ) {bs : Bytes} → is_plain b ≡ true → IsBalanced bs → IsBalanced (b ∷ bs)
  quoted : {s bs : Bytes} → IsQuoted s → IsBalanced bs → IsBalanced (b'"' ∷ s ++ bs)
  braces :
      {inner bs : Bytes} → IsBalanced inner → IsBalanced bs → IsBalanced (b'{' ∷ inner ++ b'}' ∷ bs)
  brackets :
      {inner bs : Bytes} → IsBalanced inner → IsBalanced bs → IsBalanced (b'[' ∷ inner ++ b']' ∷ bs)

-- The text of one object.
pub record IsObjectText (t : Bytes) : Type 0 where
  pub inner : Bytes
  pub balanced : IsBalanced inner
  pub braced : t ≡ b'{' ∷ inner ++ b'}' ∷ []

-- The state outside of strings, with the brackets `stack` open.
abbrev pub outside : List ℕ → Scan
outside stack = record { stack = stack; in_string = false; escaped = false }

abbrev pub inside : List ℕ → Scan
inside stack = record { stack = stack; in_string = true; escaped = false }

module _ (stack : List ℕ) where
  pub scan-IsQuoted :
      {s : Bytes} (rest : Bytes)
      → IsQuoted s
      → scan (s ++ rest) (inside stack) ≡ scan rest (outside stack)
  unfolding scan scan_byte
  scan-IsQuoted rest closed = refl
  scan-IsQuoted rest (letter b {bs} nq nb q) = ground (arith, nq, nb, scan-IsQuoted rest q)
  scan-IsQuoted rest (escape b q) = scan-IsQuoted rest q

pub scan_byte-is_plain :
    (b : ℕ) (stack : List ℕ)
    → is_plain b ≡ true
    → scan_byte b (outside stack) ≡ some (outside stack)
unfolding scan_byte
scan_byte-is_plain b stack p = ground (arith, p)

pub scan-step :
    (b : ℕ) (bs : Bytes) (s t : Scan) → scan_byte b s ≡ some t → scan (b ∷ bs) s ≡ scan bs t
unfolding scan
scan-step b bs s t e = rw (scan, e)

pub scan-IsBalanced :
    (stack : List ℕ) {t : Bytes} (rest : Bytes)
    → IsBalanced t
    → scan (t ++ rest) (outside stack) ≡ scan rest (outside stack)
unfolding scan_byte
scan-IsBalanced stack rest done = refl
scan-IsBalanced stack rest (plain b {bs} p t) =
    scan-step b (bs ++ rest) (outside stack) (outside stack) (scan_byte-is_plain b stack p)
    ∙ scan-IsBalanced stack rest t
scan-IsBalanced stack rest (quoted {s} {bs} q t) =
    scan-step b'"' ((s ++ bs) ++ rest) (outside stack) (inside stack) refl
    ∙ ap (λ l. scan l (inside stack)) (append_assoc s bs rest)
    ∙ scan-IsQuoted stack (bs ++ rest) q
    ∙ scan-IsBalanced stack rest t
scan-IsBalanced stack rest (braces {inner} {bs} i t) =
    scan-step b'{' ((inner ++ b'}' ∷ bs) ++ rest) (outside stack) (outside (b'{' ∷ stack)) refl
    ∙ ap (λ l. scan l (outside (b'{' ∷ stack))) (append_assoc inner (b'}' ∷ bs) rest)
    ∙ scan-IsBalanced (b'{' ∷ stack) (b'}' ∷ bs ++ rest) i
    ∙ scan-step b'}' (bs ++ rest) (outside (b'{' ∷ stack)) (outside stack) refl
    ∙ scan-IsBalanced stack rest t
scan-IsBalanced stack rest (brackets {inner} {bs} i t) =
    scan-step b'[' ((inner ++ b']' ∷ bs) ++ rest) (outside stack) (outside (b'[' ∷ stack)) refl
    ∙ ap (λ l. scan l (outside (b'[' ∷ stack))) (append_assoc inner (b']' ∷ bs) rest)
    ∙ scan-IsBalanced (b'[' ∷ stack) (b']' ∷ bs ++ rest) i
    ∙ scan-step b']' (bs ++ rest) (outside (b'[' ∷ stack)) (outside stack) refl
    ∙ scan-IsBalanced stack rest t
