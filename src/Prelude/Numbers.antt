-- ===== src/Prelude/Numbers.antt =====
-- Python's integers and floats, on native numbers.
use Prim.Native.Nat.{ℕ, suc, ◌*◌}
use mathlib.Core.Bool.{Bool, true, false, not, ◌&&◌, ◌||◌}
use pg_perf_bench.Prelude.Tests.{ltb}

pub data ℤ : Type 0 where
  pos negsuc : ℕ → ℤ

-- `n > 0`
abbrev pub is_positive : ℤ → Bool
is_positive (ℤ.pos n) = ltb 0 n
is_positive (ℤ.negsuc n) = false

-- A float is a fraction, `numerator / suc denominator`, with its sign: a decimal literal stands for the
-- decimal.
pub data Float : Type 0 where
  nan : Float
  infinite : (negative : Bool) → Float
  finite : (negative : Bool) (numerator denominator : ℕ) → Float

-- `math.isfinite`
abbrev pub is_finite : Float → Bool
is_finite (Float.finite s n d) = true
is_finite _ = false

-- `x > 0`
abbrev pub exceeds_zero : Float → Bool
exceeds_zero Float.nan = false
exceeds_zero (Float.infinite s) = not s
exceeds_zero (Float.finite s n d) = not s && ltb 0 n

-- `x > m` and `x < m` for `m` thousandths.
abbrev pub exceeds_thousandths : Float → ℕ → Bool
exceeds_thousandths Float.nan m = false
exceeds_thousandths (Float.infinite s) m = not s
exceeds_thousandths (Float.finite s n d) m = not s && ltb (m * suc d) (n * 1000)

abbrev pub is_below_thousandths : Float → ℕ → Bool
is_below_thousandths Float.nan m = false
is_below_thousandths (Float.infinite s) m = s
is_below_thousandths (Float.finite true n d) m = ltb 0 n || ltb 0 m
is_below_thousandths (Float.finite false n d) m = ltb (n * 1000) (m * suc d)
