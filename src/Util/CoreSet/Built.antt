-- ===== src/Util/CoreSet/Built.antt =====
-- What `build` of mx/util/core_set.cpp puts into a core set.
use mxtasking.Prelude.{
  ℕ, zero, suc, ◌+◌, ◌≡◌, refl, ap, ◌∙◌, min, List, [], ◌∷◌, ◌++◌, length, length-take, arith,
  append-nil, append_assoc, Bool-cases, inl, inr,
}
use mxtasking.Util.CoreSet.{
  CoreSet, Order, ascending, numa_aware, empty_set, emplace_back, emplace_all, before, insert, sort,
  iota, build, size,
}

module _ (node_id : ℕ → ℕ) where
  emplace_all-cores :
      (s : CoreSet) (cores : List ℕ)
      → (emplace_all node_id s cores).core_identifier ≡ s.core_identifier ++ cores
  unfolding emplace_all
  emplace_all-cores s [] = rw append-nil
  emplace_all-cores s (c ∷ cores) =
      emplace_all-cores (emplace_back node_id s c) cores
      ∙ append_assoc s.core_identifier (c ∷ []) cores

  length-insert : (x : ℕ) (xs : List ℕ) → length (insert node_id x xs) ≡ length xs + 1
  unfolding insert
  length-insert x [] = omega arith
  length-insert x (y ∷ ys) = elim (Bool-cases (before node_id y x)) [
    | inl e ↦ rw e (omega (arith, length-insert x ys))
    | inr e ↦ rw e (omega arith)
  ]

  length-sort : (xs : List ℕ) → length (sort node_id xs) ≡ length xs
  unfolding sort
  length-sort [] = refl
  length-sort (x ∷ xs) = omega (arith, length-insert x (sort node_id xs), length-sort xs)

  length-iota : (left i : ℕ) → length (iota node_id left i) ≡ left
  unfolding iota
  length-iota zero i = refl
  length-iota (suc left) i = omega (arith, length-iota left (i + 1))

  -- In either order, a core set has as many cores as were asked for, as there are, or as fit.
  pub size-build :
      (max_cores count_cores cores : ℕ) (order : Order)
      → size (build node_id max_cores count_cores cores order)
        ≡ min cores (min max_cores count_cores)
  unfolding build
  size-build max_cores count_cores cores ascending =
      ap length (emplace_all-cores empty_set _)
      ∙ length-iota (min cores (min max_cores count_cores)) 0
  size-build max_cores count_cores cores numa_aware =
      ap length (emplace_all-cores empty_set _)
      ∙ length-take (min cores (min max_cores count_cores))
          (sort node_id (iota node_id count_cores 0))
      ∙ omega (arith, length-sort (iota node_id count_cores 0), length-iota count_cores 0)
