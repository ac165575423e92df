-- ===== src/Memory/Alignment.antt =====
-- mx/memory/alignment_helper.h: sizes for aligned allocations, in words of 64 bits.
use Prim.Native.Nat.{bit_and}
use mxtasking.Prelude.Bits.{bit_and-mask, pow_pos}
use mxtasking.Prelude.{
  zero, suc, ◌-◌, Bool, true, not, ◌&&◌, ◌⊎◌, refl, ℕ, ◌+◌, ◌*◌, ◌/◌, ◌%◌, ◌^◌, ◌≤◌, ◌<◌, ◌≡◌, ap,
  ◌∙◌, inl, inr, ◌==◌, ltb, Bool-cases, if◌then◌else◌, add64, sub64, arith,
}
use native.Mathlib.Nat.{div-add-mod, mod-lt, add-mul-mod_self_left, mod-eq_of_lt, mod_self}

unfoldable pub next_multiple : ℕ → ℕ → ℕ
next_multiple value base =
    if ltb base value
    then (if value % base == 0 then value else sub64 (add64 value base) (value % base))
    else base

unfoldable pub is_power_of_two : ℕ → Bool
is_power_of_two value = not (value == 0) && bit_and value (sub64 value 1) == 0

-- The bits of a number that has at most `left` bits; 64 - `__builtin_clzll(value)` for a value that
-- is not 0, of which that function is undefined.
unfoldable pub bit_length : ℕ → ℕ → ℕ
bit_length zero value = 0
bit_length (suc left) value =
    let rest = bit_length left (value / 2) in if value == 0 then 0 else rest + 1

-- A shift by 64, for a value above 2 ^ 63, is undefined; here it leaves nothing.
unfoldable pub next_power_of_two : ℕ → ℕ
unfolding is_power_of_two bit_length
next_power_of_two value = if is_power_of_two value then value else 2 ^ bit_length 64 value % 2 ^ 64

-- The powers of two are found.
pub is_power_of_two-pow : (k : ℕ) → 2 ^ k < 2 ^ 64 → is_power_of_two (2 ^ k) ≡ true
unfolding is_power_of_two
is_power_of_two-pow k h =
    let p : 0 < 2 ^ k = pow_pos k in
    let less : sub64 (2 ^ k) 1 ≡ 2 ^ k - 1 = omega arith in
    let none_left : bit_and (2 ^ k) (2 ^ k - 1) ≡ 0 = bit_and-mask k (2 ^ k) ∙ mod_self (2 ^ k) in
    rw (less, none_left) (ground arith)

multiple-mod : (base k : ℕ) → 0 < base → base * k % base ≡ 0
multiple-mod base k p =
    ap (λ (x : ℕ). x % base) (let w : base * k ≡ 0 + base * k = omega arith in w)
    ∙ add-mul-mod_self_left 0 base k
    ∙ mod-eq_of_lt p

-- The next multiple of a base is a multiple of it, not below the value, and the base itself or
-- less than one base above the value, as long as the sum of the two has 64 bits.
pub next_multiple-least :
    (value base : ℕ)
    → 0 < base
    → value + base < 2 ^ 64
    → (next_multiple value base % base ≡ 0)
      × (value ≤ next_multiple value base)
      × ((next_multiple value base ≡ base) ⊎ (next_multiple value base < value + base))
unfolding next_multiple
next_multiple-least value base p b =
    let r : value % base < base = mod-lt value p in
    let e : base * (value / base) + value % base ≡ value = div-add-mod value base in
    let self : base % base ≡ 0 =
      ap (λ (x : ℕ). x % base) (let w : base ≡ base * 1 = omega arith in w)
      ∙ multiple-mod base 1 p in
    let times : base * (value / base + 1) ≡ base * (value / base) + base = grind arith in
    let up : sub64 (add64 value base) (value % base) ≡ base * (value / base + 1) = omega arith in
    elim (Bool-cases (ltb base value)) [
      | inr t ↦ rw t (self, ground arith, inl refl)
      | inl t ↦ elim (Bool-cases (value % base == 0)) [
        | inl z ↦ rw (t, z) (ground arith, omega arith, inr (omega arith))
        | inr z ↦
            rw (t, z)
              (
                ap (λ (x : ℕ). x % base) up ∙ multiple-mod base (value / base + 1) p,
                omega arith,
                inr (ground arith),
              )
      ]
    ]
