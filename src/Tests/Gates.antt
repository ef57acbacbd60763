-- ===== src/Tests/Gates.antt =====
-- Examples for the timer gate and the channels of offsets.
use durable_timer.Base.{
  ℕ, ◌≤◌, ◌<◌, ◌≡◌, ◌≢◌, ◌↔◌, ◌⊎◌, refl, true, false, none, some, List, [], ◌∷◌, any, ◌==◌,
}
use durable_timer.Databases.Models.{Time}
use durable_timer.Engine.TimerGate
use durable_timer.Engine.TimerGate.{TimerGate, new_local_timer_gate, is_running}
use durable_timer.Engine.TimerGate.Wakeup.{
  IsConsistent, closed, updated, ran, stopped, signal_taken, play, gate-IsConsistent,
  update_wakes_by, update_not_postponed, update_all, earliest, update_all-earliest,
}
use durable_timer.Engine.OffsetChannels.{
  OffsetChannelPerShard, new_offset_channel_per_shard, add_channel, remove_channel,
  get_send_channel, get_receive_channel, lookup,
}
use durable_timer.Engine.OffsetChannels.Registry.{
  add, on_call, on_calls, get_channel-own, channel_panics,
}

update_wakes_by_example :
    (u : Time) × ((TimerGate.update 10 50 new_local_timer_gate).0.timer ≡ some u)
    × ((u ≤ 50) ⊎ (u ≤ 10))
    × (((TimerGate.update 10 50 new_local_timer_gate).1 ≡ false)
        ↔ ((is_running new_local_timer_gate ≡ true) × (0 < 50)))
update_wakes_by_example = update_wakes_by 10 50 new_local_timer_gate

abbrev calls : List (ℕ × TimerGate.Wakeup.Event)
calls =
    (5, updated 40)
    ∷ (1, updated 30)
    ∷ (30, ran)
    ∷ (0, signal_taken)
    ∷ (1, updated 50)
    ∷ (1, closed)
    ∷ []

-- Closed with the flag still set.
abbrev closed_gate : TimerGate
closed_gate = record new_local_timer_gate {
  is_active = true;
  next_wakeup_time = 50;
  is_closed = true;
}

played : play 0 calls new_local_timer_gate ≡ some (38, closed_gate)
unfolding play TimerGate.Wakeup.on_event TimerGate.update TimerGate.run_round TimerGate.take_signal
    TimerGate.close
played = refl

gate-IsConsistent_example : IsConsistent 38 closed_gate
gate-IsConsistent_example = gate-IsConsistent 0 38 calls closed_gate played

update_all-earliest_example :
    (update_all ((1, 90) ∷ (2, 60) ∷ (3, 70) ∷ []) new_local_timer_gate).next_wakeup_time ≡ 60
update_all-earliest_example =
    update_all-earliest 1 90 ((2, 60) ∷ (3, 70) ∷ []) new_local_timer_gate refl

abbrev one_channel : OffsetChannelPerShard
one_channel = on_calls (add 7 ∷ []) new_offset_channel_per_shard

abbrev seven : ℕ
seven = 7

get_channel-own_example : (any (λ x. x == 0) one_channel.closed ≡ false) × (seven ≡ seven)
unfolding on_calls on_call add_channel get_send_channel get_receive_channel lookup
get_channel-own_example = get_channel-own (add 7 ∷ []) 7 7 0 refl refl

channel_panics_example :
    ((add_channel 7 one_channel ≡ none) ↔ (get_send_channel 7 one_channel ≢ none))
    × ((remove_channel 7 one_channel ≡ none) ↔ (get_send_channel 7 one_channel ≡ none))
channel_panics_example = channel_panics 7 one_channel

abbrev with_channel : OffsetChannelPerShard
with_channel = record { channels = (7, 0) ∷ []; next_channel = 1; closed = [] }
