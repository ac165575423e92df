-- ===== src/Util.antt =====
-- Containers of mx/util, each a child module.
pub mod Queue
pub mod MpscQueue
pub mod BoundQueue
pub mod Vector
pub mod Random
pub mod CoreSet
mod Tests
