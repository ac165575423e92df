-- ===== src/Prelude/Bits.antt =====
-- `bit_and` with a mask of low ones, and with a single bit.
use Prim.Native.Nat.{
  ℕ, zero, suc, ◌+◌, ◌*◌, ◌-◌, ◌/◌, ◌%◌, ◌^◌, ◌≤◌, ◌<◌, min, bit_and, digits, bit_and-bitwise,
}
use mathlib.Core.Path.{◌≡◌, ap, ◌∙◌}
use native.Mathlib.Omega.{arith}
use native.Mathlib.Nat.{pow-suc, div-add-mod, mod-lt, add-mul-mod_self_left, mod-eq_of_lt}

pub pow_pos : (k : ℕ) → 0 < 2 ^ k
pow_pos zero = omega arith
pow_pos (suc k) = omega (arith, pow-suc 2 k, pow_pos k)

mod_double : (x p : ℕ) → 0 < p → x % (2 * p) ≡ x / 2 % p * 2 + x % 2
mod_double x p h =
    let r : ℕ = x / 2 % p * 2 + x % 2 in
    let e : x ≡ r + 2 * p * (x / 2 / p) = grind (arith, div-add-mod (x / 2) p) in
    let lt : r < 2 * p = grind (arith, mod-lt (x / 2) h) in
    ap (λ (y : ℕ). y % (2 * p)) e ∙ add-mul-mod_self_left r (2 * p) (x / 2 / p) ∙ mod-eq_of_lt lt

-- The digits of x below a mask of k ones, in n rounds at most.
low_digits : ℕ → ℕ → ℕ → ℕ
low_digits n x mask = digits (λ _. 0) min n x mask

zero-mod : (k : ℕ) → 0 % 2 ^ k ≡ 0
zero-mod k = mod-eq_of_lt (pow_pos k)

half_mask : (k : ℕ) → (2 ^ suc k - 1) / 2 ≡ 2 ^ k - 1
half_mask k = omega (arith, pow-suc 2 k, pow_pos k)

odd_mask : (k : ℕ) → (2 ^ suc k - 1) % 2 ≡ 1
odd_mask k = omega (arith, pow-suc 2 k, pow_pos k)

double_mod : (k x : ℕ) → x % 2 ^ suc k ≡ x / 2 % 2 ^ k * 2 + x % 2
double_mod k x =
    ap (λ (m : ℕ). x % m) (pow-suc 2 k ∙ omega arith) ∙ mod_double x (2 ^ k) (pow_pos k)

low_digits-mask : (n k x : ℕ) → x ≤ n → low_digits n x (2 ^ k - 1) ≡ x % 2 ^ k
unfolding low_digits
low_digits-mask zero k zero h = omega (arith, zero-mod k)
low_digits-mask zero k (suc x) h = absurd (omega arith)
low_digits-mask (suc n) k zero h = omega (arith, zero-mod k)
low_digits-mask (suc n) zero (suc x) h =
    omega (arith, low_digits-mask n zero (suc x / 2) (omega arith))
low_digits-mask (suc n) (suc k) (suc x) h =
    let rest = low_digits-mask n k (suc x / 2) (omega arith) in
    rw (half_mask k, odd_mask k, double_mod k (suc x), rest) (omega arith)

-- A mask of k low ones keeps the remainder by 2 ^ k.
pub bit_and-mask : (k x : ℕ) → bit_and x (2 ^ k - 1) ≡ x % 2 ^ k
unfolding low_digits
bit_and-mask k x = bit_and-bitwise x (2 ^ k - 1) ∙ low_digits-mask x k x (omega arith)

pub bit_and-seven : (x : ℕ) → bit_and x 7 ≡ x % 8
bit_and-seven = bit_and-mask 3

pub bit_and-sixty_three : (x : ℕ) → bit_and x 63 ≡ x % 64
bit_and-sixty_three = bit_and-mask 6

-- The bit with the value 2.
pub bit_and-two : (x : ℕ) → bit_and x 2 ≡ x / 2 % 2 * 2
unfolding low_digits
bit_and-two zero = bit_and-bitwise 0 2
bit_and-two (suc x) =
    omega (arith, bit_and-bitwise (suc x) 2, low_digits-mask x 1 (suc x / 2) (omega arith))
