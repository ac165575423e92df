-- ===== src/Resource/Tests.antt =====
-- Resources with hints, at which the theorems on the builder of mx/resource are applied.
use mxtasking.Prelude.{◌<◌, ◌≡◌, arith}
use mxtasking.Sync.Primitive.{exclusive, latch}
use mxtasking.Resource.Ptr.{channel_of, primitive_of}
use mxtasking.Tasking.Occupancy.{no_predictions}
use mxtasking.Resource.Builder.{
  Hint, Builder, no_hint, schedule, build, isolation_level_to_synchronization_primitive,
}
use mxtasking.Resource.Builder.Choice.{Isolates, primitive-Isolates, build-channel}

abbrev hint : Hint
hint = record no_hint { isolation_level = exclusive; preferred_protocol = latch }

abbrev builder : Builder
builder = record {
  count_channels = 4;
  channel_numa_node_map = λ _. 0;
  occupancy = λ _. no_predictions;
  round_robin_channel_id = 7;
}

primitive-Isolates_example : Isolates exclusive (isolation_level_to_synchronization_primitive hint)
primitive-Isolates_example = primitive-Isolates hint

build-channel_example :
    (channel_of (build builder hint 4096).0 ≡ (schedule builder hint).0.0)
    × ((schedule builder hint).0.0 < 4)
    × (primitive_of (build builder hint 4096).0 ≡ isolation_level_to_synchronization_primitive hint)
build-channel_example =
    build-channel builder hint 4096 (omega arith) (omega arith) (λ h. ground arith)
