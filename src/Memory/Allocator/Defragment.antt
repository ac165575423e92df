-- ===== src/Memory/Allocator/Defragment.antt =====
-- `Allocator::defragment` of mx/memory/dynamic_size_allocator.cpp: which blocks it keeps.
use mxtasking.Prelude.{
  ◌≡◌, ◌∙◌, List, [], ◌∷◌, ◌++◌, Bool-cases, inl, inr, append_assoc, append-nil, if◌then◌else◌,
}
use mxtasking.Memory.Dynamic.{AllocationBlock, is_free}
use mxtasking.Memory.Allocator.{remove_if, moved_from}

-- The blocks that are in use, as `is_free` tells.
unfoldable pub used : List AllocationBlock → List AllocationBlock
used [] = []
used (b ∷ blocks) = if is_free b then used blocks else b ∷ used blocks

remove_if-append :
    (kept gap blocks : List AllocationBlock) → (remove_if kept gap blocks).0 ≡ kept ++ used blocks
unfolding remove_if used
remove_if-append kept gap [] = rw append-nil
remove_if-append kept [] (b ∷ blocks) = elim (Bool-cases (is_free b)) [
  | inl e ↦ rw e (remove_if-append kept (b ∷ []) blocks)
  | inr e ↦
      rw e (remove_if-append (kept ++ b ∷ []) [] blocks ∙ append_assoc kept (b ∷ []) (used blocks))
]
remove_if-append kept (g ∷ gs) (b ∷ blocks) = elim (Bool-cases (is_free b)) [
  | inl e ↦ rw e (remove_if-append kept (g ∷ gs ++ b ∷ []) blocks)
  | inr e ↦ rw e (
      remove_if-append (kept ++ b ∷ []) (gs ++ moved_from b ∷ []) blocks
      ∙ append_assoc kept (b ∷ []) (used blocks))
]

-- The blocks in use stay, in order.
pub remove_if-used : (blocks : List AllocationBlock) → (remove_if [] [] blocks).0 ≡ used blocks
remove_if-used = remove_if-append [] []
