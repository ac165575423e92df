-- ===== src/Index/Check/Verdict.antt =====
-- The checks of db/index/blinktree/node_consistency_checker.h that look at other nodes, and all
-- checks together.
use mxtasking.Prelude.{
  ℕ, zero, suc, ◌+◌, ◌^◌, ◌≤◌, ◌<◌, ◌≡◌, ◌≢◌, refl, sym, ap, ◌∙◌, ◌⊎◌, inl, inr, true, false, not,
  ◌&&◌, leb, Bool-cases, List, [], ◌∷◌, ◌++◌, arith, if◌then◌else◌,
}
use mxtasking.Resource.Ptr.{is_null}
use mxtasking.Index.Node.{Node, is_leaf, is_inner}
use mxtasking.Index.Tree.Tasks.{Nodes, at}
use mxtasking.Index.Check.{
  NodeError, report, each, last_key, check_high_key_valid, check_key_order_valid, check_separator,
  check_no_null_separator, check_child, check_children_order_valid, differ, check_sibling,
  check_level, check_level_valid, check_and_print_errors,
}
use mxtasking.Index.Check.Consistent.{
  IsParent, IsConsistent, quiet, append-none, each-none, none-each, differ-same, same-differ,
  order_sound, order_complete, high_sound, high_complete,
}

module _ (nodes : Nodes) (n : Node) where
  levels_sound :
      each (check_level nodes n) n.size 0 ≡ []
      → (i : ℕ) → i ≤ n.size
      → is_leaf (at nodes (n.separators i)) ≡ is_leaf (at nodes (n.separators 0))
  unfolding check_level
  levels_sound h zero l = refl
  levels_sound h (suc i) l =
      let e =
        differ-same (is_leaf (at nodes (n.separators (0 + i))))
          (is_leaf (at nodes (n.separators (0 + i + 1))))
          (quiet _ _ (each-none (check_level nodes n) n.size 0 h i (omega arith))) in
      ap (λ (j : ℕ). is_leaf (at nodes (n.separators j)))
        (let e : suc i ≡ 0 + i + 1 = omega arith in e)
      ∙ sym e
      ∙ ap (λ (j : ℕ). is_leaf (at nodes (n.separators j))) (let e : 0 + i ≡ i = omega arith in e)
      ∙ levels_sound h i (omega arith)

  inner_sound :
      is_inner n ≡ true
      → check_no_null_separator n ≡ []
      → check_children_order_valid nodes n ≡ []
      → each (check_level nodes n) n.size 0 ≡ []
      → IsParent nodes n
  unfolding check_no_null_separator check_children_order_valid check_separator check_child
  inner_sound t p o l =
      let p' : each (check_separator n) (n.size + 1) 0 ≡ [] = rw t at p in
      let o' : each (check_child nodes n) n.size 0 ≡ [] = rw t at o in
      record {
        present = λ i h.
            ap (λ (j : ℕ). is_null (n.separators j)) (let e : i ≡ 0 + i = omega arith in e)
            ∙ quiet _ _ (each-none (check_separator n) (n.size + 1) 0 p' i (omega arith));
        ends_below = λ i h.
            let e = quiet _ _ (each-none (check_child nodes n) n.size 0 o' i h) in
            let same : 0 + i ≡ i = omega arith in
            ground
              (arith, e, ap n.keys same, ap (λ (j : ℕ). last_key (at nodes (n.separators j))) same);
        one_level = levels_sound l;
      }

  inner_complete :
      IsParent nodes n
      → (check_no_null_separator n ≡ [])
        × (check_children_order_valid nodes n ≡ [])
        × (each (check_level nodes n) n.size 0 ≡ [])
  unfolding check_no_null_separator check_children_order_valid check_separator check_child
      check_level report
  inner_complete p =
      let separators : each (check_separator n) (n.size + 1) 0 ≡ [] =
        none-each (check_separator n) (n.size + 1) 0 (λ j l.
          let e : is_null (n.separators (0 + j)) ≡ false = p.present (0 + j) (omega arith) in
          rw e) in
      let children : each (check_child nodes n) n.size 0 ≡ [] =
        none-each (check_child nodes n) n.size 0 (λ j l.
          let e : leb (n.keys (0 + j)) (last_key (at nodes (n.separators (0 + j)))) ≡ false =
            ground (arith, p.ends_below (0 + j) (omega arith)) in
          rw e) in
      let levels : each (check_level nodes n) n.size 0 ≡ [] =
        none-each (check_level nodes n) n.size 0 (λ j l.
          let e =
            same-differ (is_leaf (at nodes (n.separators (0 + j))))
              (is_leaf (at nodes (n.separators (0 + j + 1))))
              (p.one_level (0 + j) (omega arith) ∙ sym (p.one_level (0 + j + 1) (omega arith))) in
          rw e) in
      elim (Bool-cases (is_inner n)) [
        | inl t ↦ (rw t separators, rw t children, levels)
        | inr t ↦ (rw t, rw t, levels)
      ]

  sibling_sound :
      check_sibling nodes n ≡ []
      → (is_null n.right_sibling ≡ true) ⊎ (is_leaf n ≡ is_leaf (at nodes n.right_sibling))
  unfolding check_sibling
  sibling_sound h = elim (Bool-cases (is_null n.right_sibling)) [
    | inl e ↦ inl e
    | inr e ↦
        let d =
          quiet
            (not (is_null n.right_sibling)
              && differ (is_leaf n) (is_leaf (at nodes n.right_sibling)))
            _ h in
        inr (differ-same (is_leaf n) (is_leaf (at nodes n.right_sibling)) (rw e at d))
  ]

  sibling_complete :
      (is_null n.right_sibling ≡ true) ⊎ (is_leaf n ≡ is_leaf (at nodes n.right_sibling))
      → check_sibling nodes n ≡ []
  unfolding check_sibling report
  sibling_complete (inl e) = rw e
  sibling_complete (inr e) =
      let d = same-differ (is_leaf n) (is_leaf (at nodes n.right_sibling)) e in
      elim (Bool-cases (is_null n.right_sibling)) [ inl f ↦ rw f | inr f ↦ rw (f, d) ]

module _ (nodes : Nodes) (n : Node) (some_key : 0 < n.size) (bound : n.size < 2 ^ 16) where
  check_sound : check_and_print_errors nodes n ≡ [] → IsConsistent nodes n
  unfolding check_and_print_errors check_level_valid
  check_sound h =
      let one : List NodeError = check_high_key_valid n in
      let two : List NodeError = one ++ check_key_order_valid n in
      let three : List NodeError = two ++ check_no_null_separator n in
      let four : List NodeError = three ++ check_children_order_valid nodes n in
      let (h4, level) = append-none four (check_level_valid nodes n) h in
      let (h3, children) = append-none three (check_children_order_valid nodes n) h4 in
      let (h2, present) = append-none two (check_no_null_separator n) h3 in
      let (high, order) = append-none one (check_key_order_valid n) h2 in
      let (sibling, levels) =
        append-none (check_sibling nodes n)
          (if is_inner n then each (check_level nodes n) n.size 0 else []) level in
      let sorted = order_sound nodes n some_key bound order in
      record {
        sorted = sorted;
        below_high = high_sound nodes n some_key bound sorted high;
        sibling = sibling_sound nodes n sibling;
        children = elim (Bool-cases (is_inner n)) [
          | inr t ↦ inl t
          | inl t ↦ inr (inner_sound nodes n t present children (rw t at levels))
        ];
      }

  check_complete : IsConsistent nodes n → check_and_print_errors nodes n ≡ []
  unfolding check_and_print_errors check_level_valid check_no_null_separator
      check_children_order_valid
  check_complete c =
      let high = high_complete nodes n some_key bound c.below_high in
      let order = order_complete nodes n some_key bound c.sorted in
      let sibling = sibling_complete nodes n c.sibling in
      elim (c.children) [
        | inl t ↦ rw (high, order, t, sibling)
        | inr p ↦
            let (present, children, levels) = inner_complete nodes n p in
            elim (Bool-cases (is_inner n)) [
              | inr t ↦ rw (high, order, t, sibling)
              | inl t ↦
                  let present' : each (check_separator n) (n.size + 1) 0 ≡ [] = rw t at present in
                  let children' : each (check_child nodes n) n.size 0 ≡ [] = rw t at children in
                  rw (high, order, t, present', children', sibling, levels)
            ]
      ]

-- For a node with at least one key and fewer than 2 ^ 16, either no error is printed and the node
-- is as it should be, or an error is printed and it is not. As it should be means that its keys are
-- in order and below the high key, that a right sibling is a leaf exactly when the node is, and
-- that an inner node has a child at each index, which ends below the key behind it, all of them
-- leaves or none.
pub check-IsConsistent :
    (nodes : Nodes) (n : Node)
    → 0 < n.size
    → n.size < 2 ^ 16
    → ((check_and_print_errors nodes n ≡ []) × IsConsistent nodes n)
      ⊎ ((check_and_print_errors nodes n ≢ []) × (¬ IsConsistent nodes n))
check-IsConsistent nodes n some_key bound = elim (list_cases (check_and_print_errors nodes n)) [
  | inl e ↦ inl (e, check_sound nodes n some_key bound e)
  | inr e ↦ inr (e, λ c. e (check_complete nodes n some_key bound c))
]
  where
    list_cases : (es : List NodeError) → (es ≡ []) ⊎ (es ≢ [])
    list_cases [] = inl refl
    list_cases (e ∷ es) = inr (λ h. cc)
