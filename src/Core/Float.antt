-- ===== src/Core/Float.antt =====
-- Python's floats: an interface, since the language implements them. `decimal n d` is the literal
-- n / 10^d.
use supply_chain_execution.Common.{ℕ, Bool}
use supply_chain_execution.Common.Int.{ℤ}

pub record FloatOps (F : Type 0) : Type 0 where
  pub decimal : ℕ → ℕ → F
  pub of_int : ℤ → F
  pub add : F → F → F
  pub mul : F → F → F
  pub div : F → F → F
  pub less : F → F → Bool
