-- ===== src/Util/Vector/Growth.antt =====
-- The elements of mx/util/vector.h stay when it grows.
use mxtasking.Prelude.{ℕ, ◌+◌, ◌*◌, ◌%◌, ◌^◌, ◌≤◌, ◌<◌, ◌≡◌, true, arith, leb, Bool-cases, inl, inr}
use mxtasking.Util.Vector.{Vector, reserve, grow_if_needed, push_back}

module _ {ℓ} {A : Type ℓ} (fresh : ℕ → A) where
  -- A vector with its memory, which is not empty, and in which the elements fit.
  pub record IsValid (v : Vector A) : Type 0 where
    pub held : v.is_allocated ≡ true
    pub some_room : 0 < v.capacity
    pub fits : v.current_index ≤ v.capacity
    pub bounded : v.capacity < 2 ^ 62

  -- An item that is pushed stands behind the others, which stay.
  pub push_back_lem :
      (item : A) (v : Vector A)
      → IsValid v
      → ((push_back fresh item v).current_index ≡ v.current_index + 1)
        × ((push_back fresh item v).data_ v.current_index ≡ item)
        × ((i : ℕ) → i < v.current_index → (push_back fresh item v).data_ i ≡ v.data_ i)
        × (v.current_index + 1 ≤ (push_back fresh item v).capacity)
  unfolding push_back grow_if_needed reserve
  push_back_lem item v k = elim (Bool-cases (leb v.capacity v.current_index)) [
    | inl e ↦
        let double : v.capacity * 2 % 2 ^ 64 ≡ v.capacity * 2 = omega (arith, k.bounded) in
        rw (e, k.held)
          (
            omega (arith, k.bounded, k.fits),
            ground arith,
            λ i q. ground (arith, q),
            omega (arith, double, k.some_room, k.fits),
          )
    | inr e ↦ rw e (
      omega (arith, k.bounded, k.fits),
      ground arith,
      λ i q. ground (arith, q),
      ground (arith, k.fits),
    )
  ]
