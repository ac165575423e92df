-- ===== src/Tasking/Load.antt =====
-- mx/tasking/load.h: which of the last 64 requests were successful, as a word of 64 bits.
use Prim.Native.Nat.{bit_or}
use mxtasking.Prelude.{
  ℕ, zero, suc, ◌+◌, ◌*◌, ◌/◌, ◌%◌, ◌^◌, ◌<◌, ◌≡◌, Bool, true, false, ltb, if◌then◌else◌, arith,
}

-- `operator+=`: the oldest request falls out.
unfoldable pub add_request : ℕ → Bool → ℕ
add_request hits hit = hits * 2 % 2 ^ 64 + (if hit then 1 else 0)

-- `operator|=`
unfoldable pub merge : ℕ → ℕ → ℕ
merge hits other = bit_or hits other

-- The bits that are set, of at most `left` bits.
unfoldable pub count_bits : ℕ → ℕ → ℕ
count_bits zero hits = 0
count_bits (suc left) hits = hits % 2 + count_bits left (hits / 2)

-- `count()` and `operator<`
unfoldable pub count : ℕ → ℕ
unfolding count_bits
count hits = count_bits 64 hits

unfoldable pub is_less : ℕ → ℕ → Bool
unfolding count
is_less hits other = ltb (count hits) (count other)

-- The word keeps its 64 bits, and the newest request is its lowest bit.
pub add_request_lem :
    (hits : ℕ) (hit : Bool)
    → (add_request hits hit < 2 ^ 64) × (add_request hits hit % 2 ≡ (if hit then 1 else 0))
unfolding add_request
add_request_lem hits true = (omega arith, omega arith)
add_request_lem hits false = (omega arith, omega arith)
