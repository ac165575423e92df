-- ===== src/Resource.antt =====
-- mx/resource: tagged pointers to resources, hints, and the builder.
pub mod Ptr
pub mod Builder
pub mod Lifetime
pub mod Tagged
mod Tests
