-- ===== src/Resource/Builder.antt =====
-- mx/resource/builder.h, builder.cpp and the hints of resource.h: to which channel a resource is
-- mapped and which primitive synchronizes it. The occupancies of the channels and their regions
-- are those of the scheduler.
pub mod Choice
use mxtasking.Prelude.{
  ℕ, zero, suc, ◌+◌, ◌-◌, ◌%◌, ◌^◌, ◌≤◌, ◌<◌, ◌≡◌, ◌≢◌, refl, ◌⊎◌, inl, inr, Bool, true, false,
  ◌==◌, ltb, ◌&&◌, if◌then◌else◌, arith,
}
use mxtasking.Sync.Primitive.{
  IsolationLevel, exclusive_writer, exclusive, no_isolation, Protocol, no_protocol, queue, latch,
  olfit_protocol, transactional_memory, Primitive, no_primitive, exclusive_latch, schedule_all,
  reader_writer_latch, schedule_writer, olfit, AccessFrequency, normal, ReadWriteRatio, balanced,
  select_primitive,
}
use mxtasking.Resource.Ptr.{Ptr, ptr, information}
use mxtasking.Tasking.Occupancy.{ChannelOccupancy, predict, has_excessive_usage_prediction}

pub record Hint : Type 0 where
  pub numa_node_id : ℕ
  pub channel_id : ℕ
  pub access_frequency : AccessFrequency
  pub read_write_ratio : ReadWriteRatio
  pub isolation_level : IsolationLevel
  pub preferred_protocol : Protocol

-- What a hint says of the fields that its constructor does not set.
abbrev pub no_hint : Hint
no_hint = record {
  numa_node_id = 2 ^ 8 - 1;
  channel_id = 2 ^ 16 - 1;
  access_frequency = normal;
  read_write_ratio = balanced;
  isolation_level = no_isolation;
  preferred_protocol = no_protocol;
}

abbrev pub has_numa_node_id : Hint → Bool
has_numa_node_id h = ltb h.numa_node_id (2 ^ 8 - 1)

abbrev pub has_channel_id : Hint → Bool
has_channel_id h = ltb h.channel_id (2 ^ 16 - 1)

abbrev pub is_exclusive : IsolationLevel → Bool
is_exclusive exclusive = true
is_exclusive _ = false

-- The builder with what it reads of the scheduler.
pub record Builder : Type 0 where
  pub count_channels : ℕ
  pub channel_numa_node_map : ℕ → ℕ
  pub occupancy : ℕ → ChannelOccupancy
  pub round_robin_channel_id : ℕ

predict_usage : Builder → ℕ → AccessFrequency → Builder
predict_usage b channel f = record b {
  occupancy = λ c. if c == channel then predict (b.occupancy c) f else b.occupancy c;
}

-- `_round_robin_channel_id.fetch_add(1) % count_channels`
next_channel : Builder → ℕ × Builder
next_channel b = (
  b.round_robin_channel_id % b.count_channels,
  record b { round_robin_channel_id = (b.round_robin_channel_id + 1) % 2 ^ 16 },
)

-- At most one other channel is tried.
pick_channel : Builder → Hint → ℕ × Builder
unfolding next_channel
pick_channel b h =
    let (channel, b') = next_channel b in
    if ltb 2 b.count_channels
      && is_exclusive h.isolation_level
      && has_excessive_usage_prediction (b.occupancy channel)
    then next_channel b'
    else (channel, b')

-- The channel, the region, and the builder after it.
unfoldable pub schedule : Builder → Hint → (ℕ × ℕ) × Builder
unfolding pick_channel predict_usage
schedule b h =
    if has_channel_id h
    then (
      (h.channel_id, b.channel_numa_node_map h.channel_id),
      predict_usage b h.channel_id h.access_frequency,
    )
    else let (channel, b') = pick_channel b h in
      (
        (
          channel,
          (if has_numa_node_id h then h.numa_node_id else b'.channel_numa_node_map channel),
        ),
        predict_usage b' channel h.access_frequency,
      )

-- `isolation_level_to_synchronization_primitive`, for a preferred protocol.
preferred_primitive : IsolationLevel → Protocol → Primitive
preferred_primitive exclusive_writer latch = reader_writer_latch
preferred_primitive exclusive_writer olfit_protocol = olfit
preferred_primitive exclusive_writer _ = schedule_writer
preferred_primitive exclusive latch = exclusive_latch
preferred_primitive exclusive _ = schedule_all
preferred_primitive no_isolation _ = no_primitive

unfoldable pub isolation_level_to_synchronization_primitive : Hint → Primitive
unfolding preferred_primitive
isolation_level_to_synchronization_primitive h = elim (h.preferred_protocol) [
  | no_protocol ↦ select_primitive h.isolation_level h.access_frequency h.read_write_ratio
  | p ↦ preferred_primitive h.isolation_level p
]

-- `build` of an object at an address.
unfoldable pub build : Builder → Hint → ℕ → Ptr × Builder
build b h object =
    let ((channel, _), b') = schedule b h in
    (ptr object (information channel (isolation_level_to_synchronization_primitive h)), b')
