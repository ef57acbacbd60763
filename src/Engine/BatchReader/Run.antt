-- ===== src/Engine/BatchReader/Run.antt =====
-- `run` of server/engine/batch_reader.go: one round of the loop for each event that its `select` takes.
use durable_timer.Base.{ℕ, false, none, some, List, [], ◌∷◌, ◌++◌, if◌then◌else◌}
use durable_timer.Databases.Models.{Time, DbTimer}
use durable_timer.Databases.TimerStore.{TimerStore}
use durable_timer.Backoff.Policy.{Float}
use durable_timer.Engine.TimerGate
use durable_timer.Engine.TimerGate.{TimerGate}
use durable_timer.Engine.BatchReader.{
  BatchReader, Platform, World, read_timers_and_look_ahead_from_database,
}

-- What happens to the reader: a case of its `select` is taken, or the goroutine of its gate runs a
-- round, or time passes and other sessions change the store.
pub data Event (X State : Type 0) : Type 0 where
  closed : Event X State
  ownership_lost : Event X State
  fired : Event X State
  new_timer : Time → Event X State
  sent : Event X State
  gate_ran : Event X State
  elapsed : X → State → Event X State

module _ {Json : Type 0} (store : TimerStore Json) (plat : Platform) (fl : Float) where
  -- The reader, the world, and the timers that it has sent to the loading buffer so far.
  pub record Loop : Type 0 where
    pub reader : BatchReader Json
    pub world : World store plat fl
    pub delivered : List (DbTimer Json)

  abbrev pub set_gate : Loop → TimerGate → Loop
  set_gate s gate = record s { reader = record s.reader { next_wakeup_time = gate } }

  abbrev pub now_of : Loop → Time
  now_of s = plat.now s.world.outside

  pub update_gate : Time → Loop → Loop
  update_gate t s = set_gate s (TimerGate.update (now_of s) t s.reader.next_wakeup_time).0

  -- The case of the gate's channel: read, then set the gate where there is a next time. A read that
  -- does not end leaves the loop in it.
  unfoldable pub on_fire : ℕ → Loop → Loop
  unfolding update_gate
  on_fire fuel s =
      let taken = set_gate s (TimerGate.take_signal s.reader.next_wakeup_time) in
      let (res, w') =
        read_timers_and_look_ahead_from_database store plat fl fuel taken.reader s.world in
      elim res [
        | none ↦ record taken { world = w' }
        | some (timers, look_ahead, b') ↦
            let read = record taken { reader = record b' { read_timers = timers }; world = w' } in
            elim look_ahead [ none ↦ read | some t ↦ update_gate t read ]
      ]

  pub on_sent : List (DbTimer Json) → Loop → Loop
  on_sent [] s = s
  on_sent (timer ∷ timers) s = record s {
    reader = record s.reader { read_timers = timers };
    delivered = s.delivered ++ timer ∷ [];
  }

  -- `fired` is a case of the select only where no timer waits to be sent and the gate has a signal.
  unfoldable pub on_fired : ℕ → List (DbTimer Json) → Loop → Loop
  on_fired fuel [] s =
      let fire = on_fire fuel s in if s.reader.next_wakeup_time.fire_signal then fire else s
  on_fired fuel (timer ∷ timers) s = s

  -- The event while the loop runs.
  unfoldable pub on_event : ℕ → Event plat.X store.State → Loop → Loop
  unfolding on_sent update_gate
  on_event fuel closed s = record s { reader = record s.reader { is_running = false } }
  on_event fuel ownership_lost s = record s { reader = record s.reader { is_running = false } }
  on_event fuel fired s = on_fired fuel s.reader.read_timers s
  on_event fuel (new_timer t) s = update_gate t s
  on_event fuel sent s = on_sent s.reader.read_timers s
  on_event fuel gate_ran s = set_gate s (TimerGate.run_round (now_of s) s.reader.next_wakeup_time)
  on_event fuel (elapsed x db) s = record s { world = record s.world { outside = x; db = db } }

  -- `run`: the gate is set to the present time, then the events come in turn.
  unfoldable pub run_events : ℕ → List (Event plat.X store.State) → Loop → Loop
  run_events fuel [] s = s
  run_events fuel (e ∷ events) s =
      run_events fuel events (if s.reader.is_running then on_event fuel e s else s)

  unfoldable pub run :
      ℕ → List (Event plat.X store.State) → BatchReader Json → World store plat fl → Loop
  unfolding update_gate
  run fuel events b w =
      let start : Loop = record { reader = b; world = w; delivered = [] } in
      run_events fuel events (update_gate (now_of start) start)
