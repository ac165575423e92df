-- ===== src/Index/Node/Search.antt =====
-- The searches of db/index/blinktree/node.h over sorted keys.
use mxtasking.Prelude.{
  ℕ, zero, suc, ◌+◌, ◌-◌, ◌/◌, ◌%◌, ◌^◌, ◌≤◌, ◌<◌, ◌≡◌, refl, ap, ◌∙◌, if◌then◌else◌, Bool-cases,
  inl, inr, ltb, leb, some, add32, sub16, arith,
}
use mathlib.Core.Path.{subst}
use mxtasking.Index.Node.{Node, lower_bound, index, int_of, signed_leb, half, child_loop, child}

-- The keys in use are in ascending order.
abbrev pub IsSorted : Node → Type 0
IsSorted n = (i j : ℕ) → i < j → j < n.size → n.keys i < n.keys j

-- The first of the keys from `low` to `high` that is not below the key, or `high`.
pub record IsLowerBound (keys : ℕ → ℕ) (key low high at : ℕ) : Type 0 where
  pub from : low ≤ at
  pub to : at ≤ high
  pub below : (i : ℕ) → low ≤ i → i < at → keys i < key
  pub above : at < high → key ≤ keys at

lower_bound-IsLowerBound :
    (keys : ℕ → ℕ) (key left i : ℕ)
    → IsLowerBound keys key i (i + left) (lower_bound keys key left i)
unfolding lower_bound
lower_bound-IsLowerBound keys key zero i = record {
  from = omega arith;
  to = omega arith;
  below = λ j p q. absurd (omega arith);
  above = λ q. absurd (omega arith);
}
lower_bound-IsLowerBound keys key (suc left) i = elim (Bool-cases (ltb (keys i) key)) [
  | inl e ↦ rw e (
      let r = lower_bound-IsLowerBound keys key left (i + 1) in
      record {
        from = omega (arith, r.from);
        to = omega (arith, r.to);
        below = λ j p q. ground (arith, r.below j);
        above = λ q. r.above (omega arith);
      })
  | inr e ↦ rw e (record {
    from = omega arith;
    to = omega arith;
    below = λ j p q. absurd (omega arith);
    above = λ q. ground arith;
  })
]

pub index-IsLowerBound : (n : Node) (key : ℕ) → IsLowerBound n.keys key 0 n.size (index n key)
unfolding index
index-IsLowerBound n key =
    subst (λ high. IsLowerBound n.keys key 0 high (index n key)) (omega arith)
      (lower_bound-IsLowerBound n.keys key n.size 0)

-- What the keys say of the child at an index: no key before it is greater, every key from it on is.
pub record IsChild (keys : ℕ → ℕ) (key size at : ℕ) : Type 0 where
  pub inside : at ≤ size
  pub left : (i : ℕ) → i < at → keys i ≤ key
  pub right : (i : ℕ) → at ≤ i → i < size → key < keys i

-- The variables of the loop, `high` one less than here, as long as they are below 2 ^ 15.
signed_leb-ltb :
    (low high : ℕ) → low < 2 ^ 15 → high < 2 ^ 15 → signed_leb low (sub16 high 1) ≡ ltb low high
signed_leb-ltb low high p q = ground arith

mid-half :
    (low high : ℕ)
    → low < high
    → high < 2 ^ 15
    → half (add32 (int_of low) (int_of (sub16 high 1))) ≡ (low + high - 1) / 2
mid-half low high p q = ground arith

-- A round of the loop in terms of these numbers.
child_loop-suc :
    (keys : ℕ → ℕ) (key fuel low high : ℕ)
    → low < 2 ^ 15
    → high < 2 ^ 15
    → child_loop keys key (suc fuel) low (sub16 high 1) ≡ (
        if ltb low high
        then (if leb (keys ((low + high - 1) / 2)) key
            then child_loop keys key fuel ((low + high - 1) / 2 + 1) (sub16 high 1)
            else child_loop keys key fuel low (sub16 ((low + high - 1) / 2) 1))
        else some (sub16 high 1))
unfolding child_loop
child_loop-suc keys key fuel low high p q = elim (Bool-cases (ltb low high)) [
  | inr e ↦ rw (signed_leb-ltb low high p q, e) refl
  | inl e ↦
      let mid : ℕ = (low + high - 1) / 2 in
      let word : mid % 2 ^ 16 ≡ mid = omega arith in
      let up : add32 mid 1 % 2 ^ 16 ≡ mid + 1 = omega arith in
      let down : add32 mid (2 ^ 32 - 1) % 2 ^ 16 ≡ sub16 mid 1 = omega arith in
      rw (signed_leb-ltb low high p q, e, mid-half low high (ground arith) q, word, up, down) refl
]

-- The loop ends at one less than the index of the child.
child_loop-IsChild :
    (keys : ℕ → ℕ) (key size fuel low high : ℕ)
    → ((i j : ℕ) → i < j → j < size → keys i < keys j)
    → size < 2 ^ 15
    → low ≤ high
    → high ≤ size
    → high - low < fuel
    → ((i : ℕ) → i < low → keys i ≤ key)
    → ((i : ℕ) → high ≤ i → i < size → key < keys i)
    → (at : ℕ) × (child_loop keys key fuel low (sub16 high 1) ≡ some (sub16 at 1))
      × IsChild keys key size at
child_loop-IsChild keys key size zero low high s w p q f l r = absurd (omega arith)
child_loop-IsChild keys key size (suc fuel) low high s w p q f l r =
    let step = child_loop-suc keys key fuel low high (omega arith) (omega arith) in
    elim (Bool-cases (ltb low high)) [
      | inr e ↦
          (high, (rw e at step), record { inside = q; left = λ i h. l i (ground arith); right = r })
      | inl e ↦
          let mid : ℕ = (low + high - 1) / 2 in
          let open_range : low < high = ground arith in
          elim (Bool-cases (leb (keys mid) key)) [
            | inl t ↦
                let (at, ends, is_child) =
                  child_loop-IsChild keys key size fuel (mid + 1) high s w (omega arith) q
                    (omega arith) (λ i h. ground (arith, s i mid)) r in
                (at, (rw (e, t) at step) ∙ ends, is_child)
            | inr t ↦
                let (at, ends, is_child) =
                  child_loop-IsChild keys key size fuel low mid s w (omega arith) (omega arith)
                    (omega arith) l (λ i h g. ground (arith, s mid i)) in
                (at, (rw (e, t) at step) ∙ ends, is_child)
          ]
    ]

child-ends :
    (n : Node) (key at : ℕ)
    → child_loop n.keys key (n.size + 1) 0 (sub16 n.size 1) ≡ some (sub16 at 1)
    → child n key ≡ some (n.separators (add32 (int_of (sub16 at 1)) 1))
unfolding child
child-ends n key at e = rw (child, e) refl

-- The binary search of an inner node with sorted keys, fewer than 2 ^ 15, ends within one round more
-- than there are keys, at a separator of the node: no key before the separator is greater than the
-- key, and every key from the separator on is.
pub child-IsChild :
    (n : Node) (key : ℕ)
    → IsSorted n
    → n.size < 2 ^ 15
    → (at : ℕ) × (child n key ≡ some (n.separators at)) × IsChild n.keys key n.size at
child-IsChild n key s few =
    let (at, ends, is_child) =
      child_loop-IsChild n.keys key n.size (n.size + 1) 0 n.size s few (omega arith) (omega arith)
        (omega arith) (λ i h. absurd (omega arith)) (λ i h g. absurd (omega arith)) in
    let back : add32 (int_of (sub16 at 1)) 1 ≡ at = ground (arith, is_child.inside) in
    (at, child-ends n key at ends ∙ ap (λ (i : ℕ). some (n.separators i)) back, is_child)
