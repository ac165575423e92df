-- ===== src/Memory.antt =====
-- mx/memory: the allocators, the alignment helper, and epoch-based reclamation.
pub mod Dynamic
pub mod Alignment
pub mod Allocator
pub mod Fixed
pub mod TaskAllocator
pub mod Reclamation
mod Tests
