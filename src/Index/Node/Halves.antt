-- ===== src/Index/Node/Halves.antt =====
-- Where the search of db/index/blinktree/node.h ends in a part of a node's keys.
use mxtasking.Prelude.{ℕ, ◌+◌, ◌-◌, ◌≤◌, ◌<◌, ◌≡◌, ap, arith, dec_lt}
use mxtasking.Index.Node.{Node, index}
use mxtasking.Index.Node.Search.{IsSorted, IsLowerBound, index-IsLowerBound}

module _ (n : Node) (at key : ℕ) (s : IsSorted n) (b : IsLowerBound n.keys key 0 n.size at) where
  -- In the first part of the keys, which ends behind the key.
  pub index-left :
      (left : Node)
      → ((i : ℕ) → left.keys i ≡ n.keys i)
      → left.size < n.size
      → key < n.keys left.size
      → (index left key ≡ at) × (at ≤ left.size)
  index-left left e l h =
      let c = index-IsLowerBound left key in
      let a : ℕ = index left key in
      let inside : at ≤ left.size = elim (dec_lt left.size at) [
        | yes q ↦ absurd (omega (arith, b.below left.size (omega arith) q))
        | no q ↦ omega arith
      ] in
      let not_less : at ≤ a = elim (dec_lt a at) [
        | yes q ↦ absurd (omega (arith, b.below a (omega arith) q, c.above (omega arith), e a))
        | no q ↦ omega arith
      ] in
      let not_greater : a ≤ at = elim (dec_lt at a) [
        | yes q ↦ absurd (omega (arith, c.below at (omega arith) q, b.above (omega arith), e at))
        | no q ↦ omega arith
      ] in
      (omega arith, inside)

  -- In the keys from the index `from` on, which is not behind the key.
  pub index-from :
      (right : Node) (from : ℕ)
      → ((i : ℕ) → i < right.size → right.keys i ≡ n.keys (from + i))
      → from + right.size ≡ n.size
      → from ≤ at
      → from + index right key ≡ at
  index-from right from e l inside =
      let c = index-IsLowerBound right key in
      let a : ℕ = index right key in
      let back : n.keys (from + (at - from)) ≡ n.keys at = ap n.keys (omega arith) in
      let not_less : at ≤ from + a = elim (dec_lt (from + a) at) [
        | yes q ↦ absurd (
            omega (
              arith,
              b.below (from + a) (omega arith) q,
              c.above (omega (arith, b.to)),
              e a (omega (arith, b.to)),
            ))
        | no q ↦ omega arith
      ] in
      let not_greater : from + a ≤ at = elim (dec_lt at (from + a)) [
        | yes q ↦ absurd (
            omega (
              arith,
              back,
              c.below (at - from) (omega arith) (omega arith),
              b.above (omega (arith, c.to)),
              e (at - from) (omega (arith, c.to)),
            ))
        | no q ↦ omega arith
      ] in
      omega arith

  -- In the keys from the index `from` on, the first of which is not greater than the key.
  pub index-right :
      (right : Node) (from : ℕ)
      → ((i : ℕ) → i < right.size → right.keys i ≡ n.keys (from + i))
      → from + right.size ≡ n.size
      → from < n.size
      → n.keys from < key
      → from + index right key ≡ at
  index-right right from e l p h = index-from right from e l (elim (dec_lt at from) [
    | yes q ↦ absurd (omega (arith, b.above (omega arith), s at from q p))
    | no q ↦ omega arith
  ])
