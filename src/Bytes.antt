-- ===== src/Bytes.antt =====
-- The methods of `bytes` that the record files are read with.
pub mod Lines
use energy_optimizer.Prelude.{
  ℕ, Bool, true, false, ◌&&◌, ◌||◌, not, List, [], ◌∷◌, ◌==◌, nat_eq, leb, if◌then◌else◌,
}

abbrev pub Bytes : Type 0
Bytes = List ℕ

-- One of b"\r\n".
abbrev pub is_line_end : ℕ → Bool
is_line_end c = c == 10 || c == 13

-- The white space of `bytes.strip`.
abbrev pub is_blank : ℕ → Bool
is_blank c = c == 32 || (leb 9 c && leb c 13)

-- `payload[0] == c`, which is false of no bytes
abbrev pub starts_with : ℕ → Bytes → Bool
starts_with c [] = false
starts_with c (b ∷ bs) = b == c

-- The first line gets one byte more, in front.
abbrev pub onto_first : ℕ → List Bytes → List Bytes
onto_first c [] = (c ∷ []) ∷ []
onto_first c (l ∷ ls) = (c ∷ l) ∷ ls

-- `payload.splitlines(keepends=True)`: a line ends in b"\n", b"\r" or b"\r\n"
unfoldable pub split_lines : Bytes → List Bytes
split_lines [] = []
split_lines (c ∷ cs) =
    let rest = split_lines cs in
    if c == 10 || (c == 13 && not (starts_with 10 cs)) then (c ∷ []) ∷ rest else onto_first c rest

-- `bytes.lstrip()`
unfoldable pub strip_left : Bytes → Bytes
strip_left [] = []
strip_left (c ∷ cs) = let rest = strip_left cs in if is_blank c then rest else c ∷ cs

-- What `rstrip` makes of `c ∷ cs`, once `cs` is stripped.
abbrev pub strip_behind : (ℕ → Bool) → ℕ → Bytes → Bytes
strip_behind drops c [] = if drops c then [] else c ∷ []
strip_behind drops c (b ∷ bs) = c ∷ b ∷ bs

-- `bytes.rstrip(...)`
unfoldable pub strip_right : (ℕ → Bool) → Bytes → Bytes
strip_right drops [] = []
strip_right drops (c ∷ cs) = strip_behind drops c (strip_right drops cs)

-- `bytes.strip()`
abbrev pub strip : Bytes → Bytes
strip bs = strip_left (strip_right is_blank bs)

-- `payload.endswith((b"\n", b"\r"))`
unfoldable pub is_terminated : Bytes → Bool
is_terminated [] = false
is_terminated (c ∷ []) = is_line_end c
is_terminated (c ∷ d ∷ cs) = is_terminated (d ∷ cs)
