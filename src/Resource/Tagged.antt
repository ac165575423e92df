-- ===== src/Resource/Tagged.antt =====
-- mx/memory/tagged_ptr.h: the replacement of the address and of the information of a tagged
-- pointer, and its comparisons.
use mxtasking.Prelude.{
  ℕ, Bool, ltb, leb, true, ltb→lt, lt→ltb, ==_iff, not, ◌%◌, ◌^◌, ◌<◌, ◌≡◌, refl, ◌∙◌, sym, ◌↔◌,
  arith,
}
use native.Mathlib.Nat.{mod-eq_of_lt}
use mxtasking.Resource.Ptr.{Information, Ptr, is_null}

-- `reset(const I)`
unfoldable reset_information : Information → Ptr → Ptr
reset_information information p = record p { info = information }

-- `reset(T *)`: the address has 48 bits.
unfoldable reset_pointer : ℕ → Ptr → Ptr
reset_pointer new_pointer p = record p { object_pointer = new_pointer % 2 ^ 48 }

-- `operator<` compares the other address with this one, in that order.
unfoldable is_less : Ptr → Ptr → Bool
is_less p other = ltb (other.object_pointer) (p.object_pointer)

-- `operator>`
unfoldable is_greater : Ptr → Ptr → Bool
is_greater p other = ltb (p.object_pointer) (other.object_pointer)

-- `operator<=`
unfoldable is_at_most : Ptr → Ptr → Bool
is_at_most p other = leb (other.object_pointer) (p.object_pointer)

-- `operator>=`
unfoldable is_at_least : Ptr → Ptr → Bool
is_at_least p other = leb (p.object_pointer) (other.object_pointer)

-- The two replacements do not touch each other's part, so their order does not matter.
reset_information-reset_pointer :
    (information : Information) (new_pointer : ℕ) (p : Ptr)
    → reset_information information (reset_pointer new_pointer p)
      ≡ reset_pointer new_pointer (reset_information information p)
unfolding reset_information reset_pointer
reset_information-reset_pointer information new_pointer p = refl

-- An address below 2 ^ 48 is kept whole: the pointer is null only if the address is 0.
reset_pointer-is_null :
    (new_pointer : ℕ) (p : Ptr)
    → new_pointer < 2 ^ 48
    → (is_null (reset_pointer new_pointer p) ≡ true) ↔ (new_pointer ≡ 0)
unfolding reset_pointer
reset_pointer-is_null new_pointer p fits =
    let kept : (reset_pointer new_pointer p).object_pointer ≡ new_pointer = mod-eq_of_lt fits in
    let test = ==_iff ((reset_pointer new_pointer p).object_pointer) 0 in
    (λ h. sym kept ∙ test.0 h, λ h. test.1 (kept ∙ h))

-- Of two pointers at different addresses the one at the higher address is the lesser.
is_less_iff : (p other : Ptr) → (is_less p other ≡ true) ↔ (other.object_pointer < p.object_pointer)
unfolding is_less
is_less_iff p other = (
  ltb→lt (other.object_pointer) (p.object_pointer),
  lt→ltb (other.object_pointer) (p.object_pointer),
)

-- `a <= b` is what `b >= a` is, and `a < b` what `b > a` is.
is_less-is_greater :
    (p other : Ptr)
    → (is_less p other ≡ is_greater other p) × (is_at_most p other ≡ is_at_least other p)
unfolding is_less is_greater is_at_most is_at_least
is_less-is_greater p other = (refl, refl)

-- `a < b` is the negation of `a >= b`.
is_less-is_at_least : (p other : Ptr) → is_less p other ≡ not (is_at_least p other)
unfolding is_less is_at_least
is_less-is_at_least p other = ground arith
