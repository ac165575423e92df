-- ===== src/Util/Random.antt =====
-- mx/util/random.h and random.cpp: seven registers and a linear congruence, in words of 32 bits.
-- `bit_or` and `bit_xor` are those of two words; the next numbers have 24 bits, so the sign of
-- `std::int32_t` is never set.
pub mod Range
use Prim.Native.Nat.{bit_and, bit_or, bit_xor}
use mxtasking.Prelude.{ℕ, zero, suc, ◌+◌, ◌-◌, ◌*◌, ◌/◌, ◌%◌, ◌^◌}

pub record Random : Type 0 where
  pub r0 : ℕ
  pub r1 : ℕ
  pub r2 : ℕ
  pub r3 : ℕ
  pub r4 : ℕ
  pub r5 : ℕ
  pub r6 : ℕ
  pub multiplier : ℕ
  pub ic_state : ℕ
  pub addend : ℕ

abbrev pub mask : ℕ
mask = 2 ^ 24 - 1

-- `_ic_state = (69607U + 8U * index) * _ic_state + _addend` in the constructor.
abbrev pub step_seed : ℕ → ℕ
step_seed ic_state = ((69607 + 8 * 69069) * ic_state + 123456) % 2 ^ 32

-- The state after `n` of these steps.
unfoldable pub seeded : ℕ → ℕ → ℕ
seeded zero seed = seed
seeded (suc n) seed = step_seed (seeded n seed)

abbrev pub register_of : ℕ → ℕ
register_of ic_state = bit_and (ic_state / 2 ^ 8) mask

unfoldable pub create : ℕ → Random
unfolding seeded
create seed = record {
  r0 = register_of (seeded 1 seed);
  r1 = register_of (seeded 2 seed);
  r2 = register_of (seeded 3 seed);
  r3 = register_of (seeded 4 seed);
  r4 = register_of (seeded 5 seed);
  r5 = register_of (seeded 6 seed);
  r6 = register_of (seeded 7 seed);
  multiplier = 100005 + 8 * 69069;
  ic_state = seeded 8 seed;
  addend = 123456;
}

-- The number that is shifted into the registers.
abbrev pub shifted_in : Random → ℕ
shifted_in r =
    bit_and
      (bit_xor (bit_or (r.r5 / 2 ^ 7) (r.r6 * 2 ^ 17 % 2 ^ 32))
        (bit_or (r.r4 / 2) (r.r5 * 2 ^ 23 % 2 ^ 32)))
      mask

-- `next()`
unfoldable pub next : Random → ℕ × Random
next r =
    let rand = shifted_in r in
    let ic_state = (r.ic_state * r.multiplier + r.addend) % 2 ^ 32 in
    (
      bit_xor rand (bit_and (ic_state / 2 ^ 8) mask),
      record r {
        r0 = rand;
        r1 = r.r0;
        r2 = r.r1;
        r3 = r.r2;
        r4 = r.r3;
        r5 = r.r4;
        r6 = r.r5;
        ic_state = ic_state;
      },
    )

-- `next(max_value)`
unfoldable pub next_below : ℕ → Random → ℕ × Random
unfolding next
next_below max_value r = let (n, r') = next r in (n % max_value % 2 ^ 32, r')
