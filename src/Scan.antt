-- ===== src/Scan.antt =====
-- src/energy_optimizer/household_load_records.py: `_looks_like_incomplete_household_record`, which
-- tells a record whose end was cut off from other bad text.
pub mod Balanced
pub mod Cut
mod Tests
use energy_optimizer.Prelude.{
  ℕ, Bool, true, false, Option, none, some, ◌==◌, nat_eq, if◌then◌else◌, List, ◌∷◌, [], ◌||◌, not,
}
use energy_optimizer.Bytes.{Bytes, strip, starts_with}

-- The brackets and strings that are open, somewhere in a JSON text.
pub record Scan : Type 0 where
  pub stack : List ℕ
  pub in_string : Bool
  pub escaped : Bool

-- A closing bracket: `none` where the innermost open one does not match it.
pop : ℕ → Scan → Option Scan
pop opening s = elim s.stack [
  | [] ↦ none
  | b ∷ rest ↦ if b == opening then some (record s { stack = rest }) else none
]

-- The loop body of `_looks_like_incomplete_household_record`; `none` is its `return False`.
unfoldable pub scan_byte : ℕ → Scan → Option Scan
unfolding pop
scan_byte b s =
    if s.in_string
    then (if s.escaped
        then some (record s { escaped = false })
        else if b == b'\\'
        then some (record s { escaped = true })
        else if b == b'"'
        then some (record s { in_string = false })
        else some s)
    else if b == b'"'
    then some (record s { in_string = true })
    else if b == b'{' || b == b'['
    then some (record s { stack = b ∷ s.stack })
    else if b == b'}'
    then pop b'{' s
    else if b == b']'
    then pop b'[' s
    else some s

unfoldable pub scan : Bytes → Scan → Option Scan
scan [] s = some s
scan (b ∷ bs) s = elim (scan_byte b s) [ none ↦ none | some t ↦ scan bs t ]

-- `in_string or bool(stack)`
abbrev pub is_open : Option Scan → Bool
is_open none = false
is_open (some s) = s.in_string || not (elim s.stack [ [] ↦ true | b ∷ rest ↦ false ])

abbrev pub scan_start : Scan
scan_start = record { stack = []; in_string = false; escaped = false }

-- `_looks_like_incomplete_household_record`
unfoldable pub looks_like_incomplete_household_record : Bytes → Bool
looks_like_incomplete_household_record content =
    let stripped = strip content in
    if not (starts_with b'{' stripped) then false else is_open (scan stripped scan_start)
