-- ===== src/Sync/Primitive.antt =====
-- mx/synchronization/synchronization.h and primitive_matrix.h: isolation levels, protocols,
-- primitives, and the table that picks a primitive.
use mxtasking.Prelude.{Bool, true, false}

pub data IsolationLevel : Type 0 where
  exclusive_writer exclusive no_isolation : IsolationLevel

pub data Protocol : Type 0 where
  no_protocol queue latch olfit_protocol transactional_memory : Protocol

pub data Primitive : Type 0 where
  no_primitive exclusive_latch schedule_all reader_writer_latch schedule_writer olfit : Primitive

-- hint::expected_access_frequency
pub data AccessFrequency : Type 0 where
  excessive high normal unused : AccessFrequency

-- hint::expected_read_write_ratio
pub data ReadWriteRatio : Type 0 where
  heavy_read mostly_read balanced mostly_written heavy_written : ReadWriteRatio

unfoldable pub is_optimistic : Primitive → Bool
is_optimistic schedule_writer = true
is_optimistic olfit = true
is_optimistic _ = false

-- A row of the table: the entries for excessive, high, normal and unused.
row : Primitive → Primitive → Primitive → Primitive → AccessFrequency → Primitive
row a b c d excessive = a
row a b c d high = b
row a b c d normal = c
row a b c d unused = d

-- The first plane of the table.
exclusive_writer_matrix : ReadWriteRatio → AccessFrequency → Primitive
unfolding row
exclusive_writer_matrix heavy_read =
    row schedule_writer schedule_writer schedule_writer schedule_writer
exclusive_writer_matrix mostly_read = row schedule_writer schedule_writer olfit olfit
exclusive_writer_matrix balanced = row olfit olfit olfit olfit
exclusive_writer_matrix mostly_written = row olfit olfit reader_writer_latch reader_writer_latch
exclusive_writer_matrix heavy_written =
    row schedule_all schedule_all reader_writer_latch reader_writer_latch

-- The second plane: its five rows are alike.
exclusive_matrix : ReadWriteRatio → AccessFrequency → Primitive
unfolding row
exclusive_matrix _ = row schedule_all schedule_all exclusive_latch exclusive_latch

unfoldable pub select_primitive : IsolationLevel → AccessFrequency → ReadWriteRatio → Primitive
unfolding exclusive_writer_matrix exclusive_matrix
select_primitive exclusive_writer f r = exclusive_writer_matrix r f
select_primitive exclusive f r = exclusive_matrix r f
select_primitive no_isolation f r = no_primitive
