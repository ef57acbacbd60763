-- ===== src/Engine/OffsetChannels/Registry.antt =====
-- Which calls on the offset channels (server/engine/offset_channels.go) panic, and what they reach.
use durable_timer.Base.{
  ℕ, ◌<◌, ◌≡◌, ◌≢◌, ◌↔◌, refl, true, false, Option, none, some, List, [], ◌∷◌, arith, ◌==◌,
  if◌then◌else◌, any, Option-cases, inl, inr,
}
use durable_timer.Engine.OffsetChannels.{
  OffsetChannelPerShard, ChannelMap, new_offset_channel_per_shard, lookup, remove, get_send_channel,
  get_receive_channel, add_channel, remove_channel,
}

lookup-remove :
    (k j : ℕ) (m : ChannelMap) → lookup j (remove k m) ≡ (if k == j then none else lookup j m)
unfolding lookup remove
lookup-remove k j [] = ground arith
lookup-remove k j ((i, c) ∷ m) = ground (arith, lookup-remove k j m)

-- A call of one of the two methods that change the map.
pub data Call : Type 0 where
  add : ℕ → Call
  drop : ℕ → Call

unfoldable pub on_call : Call → OffsetChannelPerShard → Option OffsetChannelPerShard
on_call (add k) c = add_channel k c
on_call (drop k) c = remove_channel k c

-- A registered channel was created and is not closed, and belongs to one shard only.
pub record IsSound (c : OffsetChannelPerShard) : Type 0 where
  pub created : (j a : ℕ) → lookup j c.channels ≡ some a → a < c.next_channel
  pub is_open : (j a : ℕ) → lookup j c.channels ≡ some a → any (λ x. x == a) c.closed ≡ false
  pub own_shard : (j k a : ℕ) → lookup j c.channels ≡ some a → lookup k c.channels ≡ some a → j ≡ k
  pub closed_created : (a : ℕ) → any (λ x. x == a) c.closed ≡ true → a < c.next_channel

lookup-cons :
    (k j a : ℕ) (m : ChannelMap) → lookup j ((k, a) ∷ m) ≡ (if k == j then some a else lookup j m)
unfolding lookup
lookup-cons k j a m = refl

add_channel-IsSound :
    (k : ℕ) (c c' : OffsetChannelPerShard) → IsSound c → add_channel k c ≡ some c' → IsSound c'
unfolding add_channel
add_channel-IsSound k c c' s h = record {
  created = λ j a e. ground (arith, s.created j a, lookup-cons k j c.next_channel c.channels);
  is_open = λ j a e.
      ground (arith, s.is_open j a, s.closed_created a, lookup-cons k j c.next_channel c.channels);
  own_shard = λ i j a e f. ground (
    arith,
    s.own_shard i j a,
    s.created i a,
    s.created j a,
    lookup-cons k i c.next_channel c.channels,
    lookup-cons k j c.next_channel c.channels,
  );
  closed_created = λ a e. ground (arith, s.closed_created a);
}

remove_channel-IsSound :
    (k : ℕ) (c c' : OffsetChannelPerShard) → IsSound c → remove_channel k c ≡ some c' → IsSound c'
unfolding remove_channel any
remove_channel-IsSound k c c' s h = record {
  created = λ j a e. ground (arith, s.created j a, lookup-remove k j c.channels);
  is_open = λ j a e. ground (arith, s.is_open j a, s.own_shard k j a, lookup-remove k j c.channels);
  own_shard = λ i j a e f.
      ground (arith, s.own_shard i j a, lookup-remove k i c.channels, lookup-remove k j c.channels);
  closed_created = λ a e. ground (arith, s.closed_created a, s.created k a);
}

-- Calls in turn, up to the first that panics; a panic ends its own call only.
unfoldable pub on_calls : List Call → OffsetChannelPerShard → OffsetChannelPerShard
unfolding on_call
on_calls [] c = c
on_calls (call ∷ calls) c =
    let next : OffsetChannelPerShard = elim (on_call call c) [ none ↦ c | some c' ↦ c' ] in
    on_calls calls next

on_call-IsSound :
    (call : Call) (c c' : OffsetChannelPerShard) → IsSound c → on_call call c ≡ some c' → IsSound c'
unfolding on_call
on_call-IsSound (add k) c c' s h = add_channel-IsSound k c c' s h
on_call-IsSound (drop k) c c' s h = remove_channel-IsSound k c c' s h

on_calls-IsSound :
    (calls : List Call) (c : OffsetChannelPerShard) → IsSound c → IsSound (on_calls calls c)
unfolding on_calls
on_calls-IsSound [] c s = s
on_calls-IsSound (call ∷ calls) c s = elim (Option-cases (on_call call c)) [
  | inl e ↦ rw (e, on_calls) (on_calls-IsSound calls c s)
  | inr (c', e) ↦ rw (e, on_calls) (on_calls-IsSound calls c' (on_call-IsSound call c c' s e))
]

new_IsSound : IsSound new_offset_channel_per_shard
unfolding lookup any
new_IsSound = record {
  created = λ j a e. cc;
  is_open = λ j a e. refl;
  own_shard = λ i j a e f. cc;
  closed_created = λ a e. cc;
}

-- After any calls of `AddChannel` and `RemoveChannel`, whether they panic or not, a channel that the
-- send side of one shard and the receive side of another get is open, and the two are one shard.
pub get_channel-own :
    (calls : List Call) (j k a : ℕ)
    → get_send_channel j (on_calls calls new_offset_channel_per_shard) ≡ some a
    → get_receive_channel k (on_calls calls new_offset_channel_per_shard) ≡ some a
    → (any (λ x. x == a) (on_calls calls new_offset_channel_per_shard).closed ≡ false) × (j ≡ k)
unfolding get_send_channel get_receive_channel
get_channel-own calls j k a h g =
    let s = on_calls-IsSound calls new_offset_channel_per_shard new_IsSound in
    (s.is_open j a h, s.own_shard j k a h g)

-- `AddChannel` panics exactly if the shard has a channel, and `RemoveChannel` exactly if it has none.
pub channel_panics :
    (k : ℕ) (c : OffsetChannelPerShard)
    → ((add_channel k c ≡ none) ↔ (get_send_channel k c ≢ none))
      × ((remove_channel k c ≡ none) ↔ (get_send_channel k c ≡ none))
unfolding add_channel remove_channel get_send_channel
channel_panics k c =
    ((λ h. ground arith, λ h. ground arith), (λ h. ground arith, λ h. ground arith))

-- Where `AddChannel` does not panic, both sides of the shard get one new channel, every other shard
-- keeps its own, and a `RemoveChannel` that follows closes the new channel and leaves every shard with
-- what it had before.
pub add-remove_channel :
    (k j : ℕ) (c c' : OffsetChannelPerShard)
    → add_channel k c ≡ some c'
    → (get_send_channel j c' ≡ (if k == j then some c.next_channel else get_send_channel j c))
      × (get_receive_channel j c' ≡ get_send_channel j c')
      × ((c'' : OffsetChannelPerShard) × (remove_channel k c' ≡ some c'')
          × (c''.closed ≡ c.next_channel ∷ c.closed)
          × (get_send_channel j c'' ≡ get_send_channel j c))
unfolding add_channel remove_channel get_send_channel get_receive_channel
add-remove_channel k j c c' h = (
  ground (arith, lookup-cons k j c.next_channel c.channels),
  refl,
  (
    record c' { channels = remove k c'.channels; closed = c.next_channel ∷ c.closed },
    ground (arith, lookup-cons k k c.next_channel c.channels),
    refl,
    ground (arith, lookup-cons k j c.next_channel c.channels, lookup-remove k j c'.channels),
  ),
)
