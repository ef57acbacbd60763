-- ===== src/Engine/TimerGate.antt =====
-- server/engine/timer_gate.go: `LocalTimerGateImpl`. The `time.Timer` is the time at which it fires,
-- if it runs: in Go 1.23 a stop or a reset also discards a value that nobody has received.
pub mod Wakeup
use durable_timer.Base.{
  Bool, true, false, not, ◌&&◌, ◌||◌, Option, none, some, ltb, leb, if◌then◌else◌,
}
use durable_timer.Databases.Models.{Time}

pub record TimerGate : Type 0 where
  -- when the timer fires, if it runs
  pub timer : Option Time
  pub is_active : Bool
  pub next_wakeup_time : Time
  -- whether the channel `fireChan`, of one place, holds a signal
  pub fire_signal : Bool
  pub is_closed : Bool

-- `NewLocalTimerGate`: the timer is stopped at once.
abbrev pub new_local_timer_gate : TimerGate
new_local_timer_gate = record {
  timer = none;
  is_active = false;
  next_wakeup_time = 0;
  fire_signal = false;
  is_closed = false;
}

unfoldable pub stop : TimerGate → TimerGate
stop tg = record tg { timer = none; is_active = false }

unfoldable pub fire_after : TimerGate → Time → Bool
fire_after tg check_time = ltb check_time tg.next_wakeup_time

unfoldable pub inactive_or_fire_after : TimerGate → Time → Bool
unfolding fire_after
inactive_or_fire_after tg check_time = not tg.is_active || fire_after tg check_time

-- Whether `tg.timer.Stop()` stops a running timer.
abbrev pub is_running : TimerGate → Bool
is_running tg = elim tg.timer [ none ↦ false | some _ ↦ true ]

-- `tg.timer.Reset(t.Sub(now))`: a timer that is set to a past time fires now.
abbrev pub reset_to : Time → Time → Option Time
reset_to now t = some (if ltb t now then now else t)

-- `Update(nextTime)` at the time `now`: the gate after it, and its result.
unfoldable pub update : Time → Time → TimerGate → TimerGate × Bool
update now next_time tg =
    if is_running tg && ltb tg.next_wakeup_time next_time
    then (record tg { is_active = true; timer = reset_to now tg.next_wakeup_time }, false)
    else (
      record tg { is_active = true; timer = reset_to now next_time; next_wakeup_time = next_time },
      true,
    )

-- The goroutine's round at the time `now`: if the timer has fired, the gate is inactive and the
-- channel holds a signal, this one or one that nobody has taken.
unfoldable pub run_round : Time → TimerGate → TimerGate
run_round now tg = elim tg.timer [
  | none ↦ tg
  | some t ↦
      if leb t now && not tg.is_closed
      then record tg { timer = none; is_active = false; fire_signal = true }
      else tg
]

-- `<-tg.fireChan`, where a signal is there.
unfoldable pub take_signal : TimerGate → TimerGate
take_signal tg = record tg { fire_signal = false }

-- `Close()`, and the goroutine's `defer`s once it sees the closed channel; `none` is the panic of a
-- second close.
unfoldable pub close : TimerGate → Option TimerGate
close tg = if tg.is_closed then none else some (record tg { is_closed = true; timer = none })
