-- ===== src/Common/Float.antt =====
-- What the Go code does with a `float32`: the type and its operations are a parameter. The laws are
-- those of IEEE comparison that the code relies on; they hold with NaN too, which is `<` nothing.
use mathlib.Core.Path.{◌≡◌}
use mathlib.Core.Bool.{Bool, true, false}
use Prim.Native.Nat.{ℕ}

pub record Float32 (F : Type 0) : Type 0 where
  -- float32(n) of an unsigned integer
  pub of_uint : ℕ → F
  pub add : F → F → F
  pub mul : F → F → F
  pub div : F → F → F
  pub lt : F → F → Bool
  -- math.MaxFloat32
  pub max_float : F

pub record IsFloat32 {F : Type 0} (f : Float32 F) : Type 0 where
  pub lt_irrefl : (x : F) → f.lt x x ≡ false
  pub lt_trans : (x y z : F) → f.lt x y ≡ true → f.lt y z ≡ true → f.lt x z ≡ true
