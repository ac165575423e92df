-- ===== src/Index/Check/Consistent.antt =====
-- What it means that db/index/blinktree/node_consistency_checker.h prints nothing.
use mxtasking.Prelude.{
  ℕ, zero, suc, ◌+◌, ◌-◌, ◌^◌, ◌≤◌, ◌<◌, ◌≡◌, refl, ap, ◌∙◌, ◌⊎◌, Bool, true, false, leb, List, [],
  ◌∷◌, ◌++◌, arith, dec_lt,
}
use mxtasking.Resource.Ptr.{is_null}
use mxtasking.Index.Node.{Node, is_leaf, is_inner}
use mxtasking.Index.Node.Search.{IsSorted}
use mxtasking.Index.Tree.Tasks.{Nodes, at}
use mxtasking.Index.Check.{
  NodeError, report, each, last_key, check_high_key_valid, check_key_pair, check_key_order_valid,
  differ,
}

-- The children of an inner node: there is one at each index, each but the last ends below the key
-- behind it, and they are all leaves or all inner nodes.
pub record IsParent (nodes : Nodes) (n : Node) : Type 0 where
  pub present : (i : ℕ) → i ≤ n.size → is_null (n.separators i) ≡ false
  pub ends_below : (i : ℕ) → i < n.size → last_key (at nodes (n.separators i)) < n.keys i
  pub one_level :
      (i : ℕ)
      → i ≤ n.size
      → is_leaf (at nodes (n.separators i)) ≡ is_leaf (at nodes (n.separators 0))

-- A node as it should be: the keys are in order and below the high key, a right sibling is on the
-- level of the node, and the children of an inner node are as they should be.
pub record IsConsistent (nodes : Nodes) (n : Node) : Type 0 where
  pub sorted : IsSorted n
  pub below_high : (i : ℕ) → i < n.size → n.keys i < n.high_key
  pub sibling : (is_null n.right_sibling ≡ true) ⊎ (is_leaf n ≡ is_leaf (at nodes n.right_sibling))
  pub children : (is_inner n ≡ false) ⊎ IsParent nodes n

pub quiet : (b : Bool) (e : NodeError) → report b e ≡ [] → b ≡ false
unfolding report
quiet true e h = absurd (cc)
quiet false e h = refl

pub append-none : (xs ys : List NodeError) → xs ++ ys ≡ [] → (xs ≡ []) × (ys ≡ [])
append-none [] ys h = (refl, h)
append-none (x ∷ xs) ys h = absurd (cc)

pub each-none :
    (check : ℕ → List NodeError) (left i : ℕ)
    → each check left i ≡ []
    → (j : ℕ) → j < left
    → check (i + j) ≡ []
unfolding each
each-none check zero i h j l = absurd (omega arith)
each-none check (suc left) i h zero l =
    ap check (omega arith) ∙ (append-none (check i) (each check left (i + 1)) h).0
each-none check (suc left) i h (suc j) l =
    ap check (omega arith)
    ∙ each-none check left (i + 1) (append-none (check i) (each check left (i + 1)) h).1 j
        (omega arith)

pub none-each :
    (check : ℕ → List NodeError) (left i : ℕ)
    → ((j : ℕ) → j < left → check (i + j) ≡ [])
    → each check left i ≡ []
unfolding each
none-each check zero i h = refl
none-each check (suc left) i h =
    let here : check i ≡ [] = ap check (omega arith) ∙ h 0 (omega arith) in
    let rest =
      none-each check left (i + 1) (λ j l. ap check (omega arith) ∙ h (suc j) (omega arith)) in
    rw (here, rest)

pub differ-same : (a b : Bool) → differ a b ≡ false → a ≡ b
differ-same true true h = refl
differ-same true false h = absurd (cc)
differ-same false true h = absurd (cc)
differ-same false false h = refl

pub same-differ : (a b : Bool) → a ≡ b → differ a b ≡ false
same-differ true true h = refl
same-differ true false h = absurd (cc)
same-differ false true h = absurd (cc)
same-differ false false h = refl

-- Neighbours in order are enough.
neighbours-IsSorted :
    (n : Node) → ((i : ℕ) → i + 1 < n.size → n.keys i < n.keys (i + 1)) → IsSorted n
neighbours-IsSorted n h i zero l r = absurd (omega arith)
neighbours-IsSorted n h i (suc j) l r =
    let step : n.keys j < n.keys (suc j) =
      omega (arith, h j (omega arith), ap n.keys (let e : j + 1 ≡ suc j = omega arith in e)) in
    elim (dec_lt i j) [
      | yes q ↦ omega (arith, neighbours-IsSorted n h i j q (omega arith), step)
      | no q ↦ let e : i ≡ j = omega arith in omega (arith, step, ap n.keys e)
    ]

module _ (nodes : Nodes) (n : Node) (some_key : 0 < n.size) (bound : n.size < 2 ^ 16) where
  last : last_key n ≡ n.keys (n.size - 1)
  last = ap n.keys (omega arith)

  pub order_sound : check_key_order_valid n ≡ [] → IsSorted n
  unfolding check_key_order_valid check_key_pair
  order_sound h = neighbours-IsSorted n (λ i l.
      let e = each-none (check_key_pair n) (n.size - 1) 1 h i (omega arith) in
      let back : n.keys (1 + i) ≡ n.keys (i + 1) = ap n.keys (omega arith) in
      let front : n.keys (1 + i - 1) ≡ n.keys i = ap n.keys (omega arith) in
      ground (arith, quiet (leb (n.keys (1 + i)) (n.keys (1 + i - 1))) _ e, back, front))

  pub order_complete : IsSorted n → check_key_order_valid n ≡ []
  unfolding check_key_order_valid check_key_pair report
  order_complete s = none-each (check_key_pair n) (n.size - 1) 1 (λ j l.
      let front : n.keys (1 + j - 1) ≡ n.keys j = ap n.keys (omega arith) in
      let e : leb (n.keys (1 + j)) (n.keys (1 + j - 1)) ≡ false =
        ground (arith, s j (1 + j) (omega arith) (omega arith), front) in
      rw e)

  pub high_sound :
      IsSorted n → check_high_key_valid n ≡ [] → (i : ℕ) → i < n.size → n.keys i < n.high_key
  unfolding check_high_key_valid
  high_sound s h i l =
      let e = quiet (leb n.high_key (last_key n)) _ h in
      elim (dec_lt i (n.size - 1)) [
        | yes q ↦ ground (arith, e, last, s i (n.size - 1) q (omega arith))
        | no q ↦ let here : i ≡ n.size - 1 = omega arith in ground (arith, e, last, ap n.keys here)
      ]

  pub high_complete : ((i : ℕ) → i < n.size → n.keys i < n.high_key) → check_high_key_valid n ≡ []
  unfolding check_high_key_valid report
  high_complete h =
      let e : leb n.high_key (last_key n) ≡ false =
        ground (arith, last, h (n.size - 1) (omega arith)) in
      rw e
