-- ===== src/Resource/Lifetime/Destroyed.antt =====
-- What is destroyed in mx/resource/builder.h while readers may still read it keeps its memory.
use mxtasking.Prelude.{ℕ, ◌≡◌, true, Bool-cases, inl, inr}
use mxtasking.Sync.Primitive.{is_optimistic}
use mxtasking.Resource.Ptr.{Ptr, is_null, primitive_of}
use mxtasking.Memory.Dynamic.{AllocatedHeader}
use mxtasking.Resource.Lifetime.{World, destroy}

pub destroy-optimistic :
    (header_of : ℕ → AllocatedHeader) (resource : Ptr) (w : World)
    → is_optimistic (primitive_of resource) ≡ true
    → (destroy header_of resource w).allocator ≡ w.allocator
unfolding destroy
destroy-optimistic header_of resource w e = elim (Bool-cases (is_null resource)) [
  | inl n ↦ rw n
  | inr n ↦ rw (n, e)
]
