-- ===== src/Floats.antt =====
-- Python's `float`, as an interface: the program's numbers are IEEE doubles, which the language
-- implements. The model takes the operations as an argument and states the laws it needs.
use energy_optimizer.Prelude.{ℕ, Bool}

pub record FloatOps (Num : Type 0) : Type 0 where
  -- the literal m * 10 ^ -k
  pub decimal : ℕ → ℕ → Num
  -- `math.isfinite`
  pub is_finite : Num → Bool
  -- `<` and `<=`, which are false at a NaN, and `==`
  pub lt : Num → Num → Bool
  pub le : Num → Num → Bool
  pub eq : Num → Num → Bool
  pub add : Num → Num → Num
  pub sub : Num → Num → Num
  pub mul : Num → Num → Num
  pub div : Num → Num → Num
