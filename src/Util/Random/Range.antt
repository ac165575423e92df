-- ===== src/Util/Random/Range.antt =====
-- The range of the numbers of mx/util/random.h.
use native.Mathlib.Nat.{mod-lt, mod-le}
use mxtasking.Prelude.{ℕ, ◌%◌, ◌^◌, ◌<◌, arith}
use mxtasking.Util.Random.{Random, next, next_below}

-- The number is below the maximum, and can be 0.
pub next_below-lt :
    (max_value : ℕ) (r : Random) → 0 < max_value → (next_below max_value r).0 < max_value
unfolding next_below
next_below-lt max_value r h =
    omega (arith, mod-lt (next r).0 h, mod-le ((next r).0 % max_value) (2 ^ 32))
