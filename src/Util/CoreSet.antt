-- ===== src/Util/CoreSet.antt =====
-- mx/util/core_set.h and core_set.cpp: the cores that the runtime uses. `node_id` is the region of a
-- core, as the system's topology tells; the bit vector of the regions is a function, and the array of
-- the cores is the list of those in use.
pub mod Built
use mxtasking.Prelude.{
  ℕ, zero, suc, ◌+◌, min, max, Bool, true, false, not, ◌&&◌, ◌==◌, ltb, ◌||◌, if◌then◌else◌, List,
  [], ◌∷◌, ◌++◌, length, get_or, take,
}

pub record CoreSet : Type 0 where
  pub core_identifier : List ℕ
  pub numa_nodes : ℕ → Bool

pub data Order : Type 0 where
  ascending numa_aware : Order

abbrev pub empty_set : CoreSet
empty_set = record { core_identifier = []; numa_nodes = λ _. false }

module _ (node_id : ℕ → ℕ) where
  abbrev pub emplace_back : CoreSet → ℕ → CoreSet
  emplace_back s core = record {
    core_identifier = s.core_identifier ++ core ∷ [];
    numa_nodes = λ n. n == node_id core || s.numa_nodes n;
  }

  -- `core_set(std::initializer_list)`
  unfoldable pub emplace_all : CoreSet → List ℕ → CoreSet
  emplace_all s [] = s
  emplace_all s (core ∷ cores) = emplace_all (emplace_back s core) cores

  abbrev pub numa_node_id : CoreSet → ℕ → ℕ
  numa_node_id s index = node_id (get_or s.core_identifier index 0)

  -- The order of `build`: by the region, and then by the core.
  abbrev pub before : ℕ → ℕ → Bool
  before left right =
      if node_id left == node_id right then ltb left right else ltb (node_id left) (node_id right)

  -- std::sort, as an insertion of one after the other.
  unfoldable pub insert : ℕ → List ℕ → List ℕ
  insert x [] = x ∷ []
  insert x (y ∷ ys) = let rest = insert x ys in if before y x then y ∷ rest else x ∷ y ∷ ys

  unfoldable pub sort : List ℕ → List ℕ
  unfolding insert
  sort [] = []
  sort (x ∷ xs) = insert x (sort xs)

  -- std::iota, for `left` cores from `i` on.
  unfoldable pub iota : ℕ → ℕ → List ℕ
  iota zero i = []
  iota (suc left) i = i ∷ iota left (i + 1)

  unfoldable pub build : ℕ → ℕ → ℕ → Order → CoreSet
  unfolding emplace_all sort iota
  build max_cores count_cores cores ascending =
      emplace_all empty_set (iota (min cores (min max_cores count_cores)) 0)
  build max_cores count_cores cores numa_aware =
      emplace_all empty_set
        (take (min cores (min max_cores count_cores)) (sort (iota count_cores 0)))

abbrev pub size : CoreSet → ℕ
size s = length s.core_identifier

abbrev pub max_core_id : CoreSet → ℕ
max_core_id s = largest s.core_identifier
  where
    largest : List ℕ → ℕ
    largest [] = 0
    largest (c ∷ cores) = max c (largest cores)

abbrev pub has_core_of_numa_node : CoreSet → ℕ → Bool
has_core_of_numa_node s n = s.numa_nodes n

abbrev pub same_cores : List ℕ → List ℕ → Bool
same_cores [] [] = true
same_cores [] (d ∷ ds) = false
same_cores (c ∷ cs) [] = false
same_cores (c ∷ cs) (d ∷ ds) = c == d && same_cores cs ds

-- The bits of the regions below `nodes`.
abbrev pub same_nodes : ℕ → (ℕ → Bool) → (ℕ → Bool) → Bool
same_nodes zero f g = true
same_nodes (suc nodes) f g = (if f nodes then g nodes else not (g nodes)) && same_nodes nodes f g

-- `operator==`; the arrays are zero behind the cores in use, and there are 8 bits for the regions.
unfoldable pub is_same : CoreSet → CoreSet → Bool
is_same s t =
    same_cores s.core_identifier t.core_identifier && same_nodes 8 s.numa_nodes t.numa_nodes
