-- ===== src/Resource/Lifetime.antt =====
-- mx/resource/builder.h: a resource that is built in new memory, and destroyed. Optimistic readers
-- may still read what is destroyed, so that goes to the epoch manager
-- (config::memory_reclamation() is UpdateEpochPeriodically); other memory is freed at once. The header
-- in front of an object is `header_of` its address.
pub mod Destroyed
use mxtasking.Prelude.{ℕ, Option, none, some, if◌then◌else◌}
use mxtasking.Sync.Primitive.{is_optimistic}
use mxtasking.Resource.Ptr.{Ptr, ptr, information, is_null, primitive_of}
use mxtasking.Resource.Builder.{
  Builder, Hint, schedule, isolation_level_to_synchronization_primitive,
}
use mxtasking.Memory.Dynamic.{AllocatedHeader, Allocation}
use mxtasking.Memory.Allocator
use mxtasking.Memory.Allocator.{Allocator}
use mxtasking.Memory.Reclamation.{EpochManager, add_to_garbage_collection}

-- What the builder works on.
pub record World : Type 0 where
  pub builder : Builder
  pub allocator : Allocator
  pub epoch_manager : EpochManager

-- `build(size, hint)`, for `fuel` new blocks at most; the allocation with its header, too.
unfoldable pub build_new : ℕ → (ℕ → ℕ) → Hint → ℕ → World → Option (Ptr × Allocation × World)
build_new fuel global hint size w =
    let ((channel_id, numa_node_id), builder) = schedule w.builder hint in
    let primitive = isolation_level_to_synchronization_primitive hint in
    elim (Allocator.allocate fuel global numa_node_id 64 size w.allocator) [
      | none ↦ none
      | some (memory, allocator) ↦ some (
        ptr memory.address (information channel_id primitive),
        memory,
        record w { builder = builder; allocator = allocator },
      )
    ]

-- `destroy(resource)`; the destructor of the object is the application's.
unfoldable pub destroy : (ℕ → AllocatedHeader) → Ptr → World → World
destroy header_of resource w =
    let address = resource.object_pointer in
    if is_null resource
    then w
    else if is_optimistic (primitive_of resource)
    then record w { epoch_manager = add_to_garbage_collection w.epoch_manager address }
    else record w { allocator = Allocator.free address (header_of address) w.allocator }
