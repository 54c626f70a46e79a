-- ===== src/Prelude/Floats.antt =====
-- `f64` as an interface: the operations that the program uses, without laws. A theorem that needs a
-- fact of the IEEE arithmetic names it as a hypothesis.
use Prim.Native.Nat.{ℕ}
use mathlib.Core.Bool.{Bool}

pub record Float : Type 1 where
  pub F64 : Type 0
  pub of_nat : ℕ → F64  -- `n as f64`
  pub add : F64 → F64 → F64
  pub sub : F64 → F64 → F64
  pub mul : F64 → F64 → F64
  pub div : F64 → F64 → F64
  pub lt : F64 → F64 → Bool
  pub le : F64 → F64 → Bool
  pub eq : F64 → F64 → Bool
  pub is_finite : F64 → Bool

-- a decimal literal: division rounds once, as the reading of a literal does
abbrev pub decimal : (fl : Float) → ℕ → ℕ → fl.F64
decimal fl n d = fl.div (fl.of_nat n) (fl.of_nat d)
