-- ===== src/Tasking/Occupancy.antt =====
-- mx/tasking/channel_occupancy.h: how often each access frequency is predicted for a channel.
use mxtasking.Prelude.{
  ℕ, ◌+◌, ◌≤◌, ◌<◌, ◌≡◌, Bool, ltb, if◌then◌else◌, add64, sub64, arith, u64_mod,
}
use mxtasking.Sync.Primitive.{AccessFrequency, excessive, high, normal, unused}

-- The four counters of 64 bits.
pub record ChannelOccupancy : Type 0 where
  pub excessive_count : ℕ
  pub high_count : ℕ
  pub normal_count : ℕ
  pub unused_count : ℕ

abbrev pub no_predictions : ChannelOccupancy
no_predictions = record { excessive_count = 0; high_count = 0; normal_count = 0; unused_count = 0 }

abbrev pub counter : ChannelOccupancy → AccessFrequency → ℕ
counter o excessive = o.excessive_count
counter o high = o.high_count
counter o normal = o.normal_count
counter o unused = o.unused_count

unfoldable pub predict : ChannelOccupancy → AccessFrequency → ChannelOccupancy
predict o excessive = record o { excessive_count = add64 o.excessive_count 1 }
predict o high = record o { high_count = add64 o.high_count 1 }
predict o normal = record o { normal_count = add64 o.normal_count 1 }
predict o unused = record o { unused_count = add64 o.unused_count 1 }

unfoldable pub revoke : ChannelOccupancy → AccessFrequency → ChannelOccupancy
revoke o excessive = record o { excessive_count = sub64 o.excessive_count 1 }
revoke o high = record o { high_count = sub64 o.high_count 1 }
revoke o normal = record o { normal_count = sub64 o.normal_count 1 }
revoke o unused = record o { unused_count = sub64 o.unused_count 1 }

unfoldable pub has_excessive_usage_prediction : ChannelOccupancy → Bool
has_excessive_usage_prediction o = ltb 0 o.excessive_count

-- The conversion to an access frequency.
unfoldable pub predicted_usage : ChannelOccupancy → AccessFrequency
predicted_usage o =
    if ltb 0 o.excessive_count
    then excessive
    else (if ltb 0 o.high_count then high else (if ltb 0 o.normal_count then normal else unused))

-- The order of the frequencies, the most frequent first.
abbrev pub rank : AccessFrequency → ℕ
rank excessive = 0
rank high = 1
rank normal = 2
rank unused = 3

-- Where any frequency has a prediction, the predicted usage is the most frequent one that has:
-- none with a count above zero comes before it, and its own count is above zero.
pub predicted_usage_highest :
    (o : ChannelOccupancy) (f : AccessFrequency)
    → 0 < counter o f
    → (rank (predicted_usage o) ≤ rank f) × (0 < counter o (predicted_usage o))
unfolding predicted_usage
predicted_usage_highest o excessive h = (ground arith, ground arith)
predicted_usage_highest o high h = (ground arith, ground arith)
predicted_usage_highest o normal h = (ground arith, ground arith)
predicted_usage_highest o unused h = (ground arith, ground arith)

-- Revoking a prediction that was made restores the counters, as long as none of them is at its
-- greatest value.
pub revoke-predict :
    (o : ChannelOccupancy) (f : AccessFrequency)
    → counter o f + 1 < u64_mod
    → revoke (predict o f) f ≡ o
unfolding predict revoke
revoke-predict o excessive h = ground arith
revoke-predict o f h = ground arith
