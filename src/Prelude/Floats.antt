-- ===== src/Prelude/Floats.antt =====
-- The floating point numbers of Python and the functions on them that the program calls, as a
-- parameter: no law of arithmetic is supposed. A value may be an infinity or not a number.
use mathlib.Core.Bool.{Bool}
use mathlib.Core.Option.{Option}
use Prim.Native.Nat.{ℕ}
use Prim.Native.String.{String}
use solprobe.Prelude.Int.{ℤ}

pub record Floats : Type 1 where
  pub F : Type 0
  -- x < y, x <= y and x == y; each is false where an operand is not a number
  pub lt : F → F → Bool
  pub le : F → F → Bool
  pub eq : F → F → Bool
  pub add : F → F → F
  pub sub : F → F → F
  pub mul : F → F → F
  pub div : F → F → F
  pub abs : F → F
  -- float(i)
  pub of_int : ℤ → F
  -- int(x): it raises at an infinity and at what is not a number
  pub to_int : F → Option ℤ
  -- math.isfinite(x)
  pub is_finite : F → Bool
  -- f"{x:spec}" and repr(x)
  pub format : String → F → String
  pub repr : F → String
  -- the literal of the given sign, digits and number of decimal places
  pub literal : ℤ → ℕ → F
