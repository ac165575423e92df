-- ===== src/Resource/Ptr.antt =====
-- mx/resource/resource.h (information, ptr): an address with the channel and the primitive of the
-- resource behind it. The address has 48 bits, the channel 12.
use mxtasking.Prelude.{ℕ, ◌%◌, ◌^◌, Bool, ◌==◌}
use mxtasking.Sync.Primitive.{Primitive, no_primitive}

-- A primitive is at most 5, so the four bits of its field keep it.
pub record Information : Type 0 where
  pub channel_id : ℕ
  pub synchronization_primitive : Primitive

unfoldable pub information : ℕ → Primitive → Information
information channel_id primitive = record {
  channel_id = channel_id % 2 ^ 12;
  synchronization_primitive = primitive;
}

pub record Ptr : Type 0 where
  pub object_pointer : ℕ
  pub info : Information

unfoldable pub ptr : ℕ → Information → Ptr
ptr pointer info = record { object_pointer = pointer % 2 ^ 48; info = info }

-- `ptr{}`
abbrev pub null_ptr : Ptr
null_ptr = record {
  object_pointer = 0;
  info = record { channel_id = 0; synchronization_primitive = no_primitive };
}

abbrev pub channel_of : Ptr → ℕ
channel_of p = p.info.channel_id

abbrev pub primitive_of : Ptr → Primitive
primitive_of p = p.info.synchronization_primitive

-- `operator==(nullptr)`
abbrev pub is_null : Ptr → Bool
is_null p = p.object_pointer == 0
