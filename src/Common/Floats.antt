-- ===== src/Common/Floats.antt =====
-- Go's `float64`, of which the program uses a few operations.
use Prim.Native.Nat.{ℕ, ◌≤◌, ◌<◌, ◌^◌}
use mathlib.Core.Path.{◌≡◌}
use mathlib.Core.Bool.{Bool, false}

-- `to_int` is the conversion to `int64` of a float that is not negative.
pub record Floats : Type 1 where
  pub Float : Type 0
  pub of_int : ℕ → Float
  pub to_int : Float → ℕ
  pub mul : Float → Float → Float
  pub pow : Float → Float → Float  -- math.Pow
  pub gtb : Float → Float → Bool
  pub ltb : Float → Float → Bool
  pub geb : Float → Float → Bool
  pub leb : Float → Float → Bool
  pub eqb : Float → Float → Bool
  pub is_nan : Float → Bool

-- What is documented of `float64`: an integer below 2^53 is exact, and a number that is not above
-- such an integer is truncated to one that is not above it.
pub record FloatLaws (f : Floats) : Type 0 where
  pub exact : (n : ℕ) → n < 2 ^ 53 → f.to_int (f.of_int n) ≡ n
  pub truncates :
      (x : f.Float) (n : ℕ)
      → n < 2 ^ 53
      → f.is_nan x ≡ false
      → f.gtb x (f.of_int n) ≡ false
      → f.to_int x ≤ n
