-- ===== src/Resource/Builder/Choice.antt =====
-- What the choices of mx/resource/builder.cpp guarantee.
use mxtasking.Prelude.{
  ℕ, ◌+◌, ◌%◌, ◌^◌, ◌≤◌, ◌<◌, ◌≡◌, ◌≢◌, refl, ◌⊎◌, inl, inr, true, Bool-cases, ltb, ◌&&◌, arith,
}
use native.Mathlib.Nat.{mod-lt}
use mxtasking.Sync.Primitive.{
  IsolationLevel, exclusive_writer, exclusive, no_isolation, Protocol, no_protocol, queue, latch,
  olfit_protocol, transactional_memory, Primitive, no_primitive, exclusive_latch, schedule_all,
  AccessFrequency, excessive, high, normal, unused, ReadWriteRatio, select_primitive,
}
use mxtasking.Resource.Ptr.{ptr, information, channel_of, primitive_of}
use mxtasking.Tasking.Occupancy.{has_excessive_usage_prediction}
use mxtasking.Resource.Builder.{
  Hint, Builder, has_channel_id, is_exclusive, preferred_primitive, pick_channel, next_channel,
  schedule, isolation_level_to_synchronization_primitive, build,
}

-- The primitives that synchronize what an isolation level asks for.
abbrev pub Isolates : IsolationLevel → Primitive → Type 0
Isolates exclusive_writer p = p ≢ no_primitive
Isolates exclusive p = (p ≡ exclusive_latch) ⊎ (p ≡ schedule_all)
Isolates no_isolation p = p ≡ no_primitive

matrix-Isolates :
    (i : IsolationLevel) (f : AccessFrequency) (r : ReadWriteRatio)
    → Isolates i (select_primitive i f r)
unfolding select_primitive
matrix-Isolates exclusive_writer f r = ground arith
matrix-Isolates exclusive excessive r = inr refl
matrix-Isolates exclusive high r = inr refl
matrix-Isolates exclusive normal r = inl refl
matrix-Isolates exclusive unused r = inl refl
matrix-Isolates no_isolation f r = refl

preferred-Isolates : (i : IsolationLevel) (p : Protocol) → Isolates i (preferred_primitive i p)
unfolding preferred_primitive
preferred-Isolates exclusive_writer p = ground arith
preferred-Isolates exclusive latch = inl refl
preferred-Isolates exclusive p = inr (ground arith)
preferred-Isolates no_isolation p = refl

-- The primitive that a hint's resource gets isolates it as the hint asks: under one latch or on
-- one channel for exclusive access, by some primitive for exclusive writers, by none without
-- isolation.
pub primitive-Isolates :
    (h : Hint) → Isolates h.isolation_level (isolation_level_to_synchronization_primitive h)
unfolding isolation_level_to_synchronization_primitive
primitive-Isolates h = by_protocol (h.preferred_protocol) refl
  where
    by_protocol :
        (p : Protocol)
        → h.preferred_protocol ≡ p
        → Isolates h.isolation_level (isolation_level_to_synchronization_primitive h)
    by_protocol no_protocol e =
        rw (e, isolation_level_to_synchronization_primitive)
          (matrix-Isolates h.isolation_level h.access_frequency h.read_write_ratio)
    by_protocol queue e =
        rw (e, isolation_level_to_synchronization_primitive)
          (preferred-Isolates h.isolation_level queue)
    by_protocol latch e =
        rw (e, isolation_level_to_synchronization_primitive)
          (preferred-Isolates h.isolation_level latch)
    by_protocol olfit_protocol e =
        rw (e, isolation_level_to_synchronization_primitive)
          (preferred-Isolates h.isolation_level olfit_protocol)
    by_protocol transactional_memory e =
        rw (e, isolation_level_to_synchronization_primitive)
          (preferred-Isolates h.isolation_level transactional_memory)

next-lt : (b : Builder) → 0 < b.count_channels → (next_channel b).0 < b.count_channels
unfolding next_channel
next-lt b h = mod-lt b.round_robin_channel_id h

pick-lt : (b : Builder) (h : Hint) → 0 < b.count_channels → (pick_channel b h).0 < b.count_channels
unfolding pick_channel next_channel
pick-lt b h c =
    elim (Bool-cases (
      ltb 2 b.count_channels
      && is_exclusive h.isolation_level
      && has_excessive_usage_prediction
          (b.occupancy (b.round_robin_channel_id % b.count_channels)))) [
            | inl e ↦ rw e (mod-lt ((b.round_robin_channel_id + 1) % 2 ^ 16) c)
            | inr e ↦ rw e (mod-lt b.round_robin_channel_id c)
          ]

pub build-primitive :
    (b : Builder) (h : Hint) (object : ℕ)
    → primitive_of (build b h object).0 ≡ isolation_level_to_synchronization_primitive h
unfolding build information ptr
build-primitive b h object = refl

-- A resource, whose hint names no channel or one of the scheduler's, is mapped to a channel of the
-- scheduler, and its pointer keeps the channel, if there are at most 4096 channels, and the
-- primitive.
pub build-channel :
    (b : Builder) (h : Hint) (object : ℕ)
    → 0 < b.count_channels
    → b.count_channels ≤ 2 ^ 12
    → (has_channel_id h ≡ true → h.channel_id < b.count_channels)
    → (channel_of (build b h object).0 ≡ (schedule b h).0.0)
      × ((schedule b h).0.0 < b.count_channels)
      × (primitive_of (build b h object).0 ≡ isolation_level_to_synchronization_primitive h)
unfolding build schedule information ptr
build-channel b h object c most named = elim (Bool-cases (has_channel_id h)) [
  | inl e ↦ rw e (ground (arith, named e), ground (arith, named e), refl)
  | inr e ↦ rw e (ground (arith, pick-lt b h c), ground (arith, pick-lt b h c), refl)
]
