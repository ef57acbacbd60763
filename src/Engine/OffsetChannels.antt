-- ===== src/Engine/OffsetChannels.antt =====
-- server/engine/offset_channels.go: the channels of the shards, in a map under one lock.
-- A channel is its index in the order of creation, with the set of those that are closed. A panic
-- is `none`; the lock is released by then, and the map is as it was.
pub mod Registry
use durable_timer.Base.{ℕ, suc, Bool, Option, none, some, List, [], ◌∷◌, ◌==◌, if◌then◌else◌}

-- `map[int]chan *TimerOffset` as the list of its entries.
abbrev pub ChannelMap : Type 0
ChannelMap = List (ℕ × ℕ)

unfoldable pub lookup : ℕ → ChannelMap → Option ℕ
lookup k [] = none
lookup k ((j, c) ∷ m) = let rest = lookup k m in if j == k then some c else rest

unfoldable pub remove : ℕ → ChannelMap → ChannelMap
remove k [] = []
remove k ((j, c) ∷ m) = let rest = remove k m in if j == k then rest else (j, c) ∷ rest

pub record OffsetChannelPerShard : Type 0 where
  pub channels : ChannelMap
  pub next_channel : ℕ
  pub closed : List ℕ

abbrev pub new_offset_channel_per_shard : OffsetChannelPerShard
new_offset_channel_per_shard = record { channels = []; next_channel = 0; closed = [] }

unfoldable pub get_send_channel : ℕ → OffsetChannelPerShard → Option ℕ
get_send_channel shard_id c = lookup shard_id c.channels

unfoldable pub get_receive_channel : ℕ → OffsetChannelPerShard → Option ℕ
get_receive_channel shard_id c = lookup shard_id c.channels

unfoldable pub add_channel : ℕ → OffsetChannelPerShard → Option OffsetChannelPerShard
add_channel shard_id c = elim (lookup shard_id c.channels) [
  | some _ ↦ none
  | none ↦ some (record c {
    channels = (shard_id, c.next_channel) ∷ c.channels;
    next_channel = suc c.next_channel;
  })
]

unfoldable pub remove_channel : ℕ → OffsetChannelPerShard → Option OffsetChannelPerShard
remove_channel shard_id c = elim (lookup shard_id c.channels) [
  | none ↦ none
  | some ch ↦ some (record c { channels = remove shard_id c.channels; closed = ch ∷ c.closed })
]
