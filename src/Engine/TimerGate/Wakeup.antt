-- ===== src/Engine/TimerGate/Wakeup.antt =====
-- When the timer gate (server/engine/timer_gate.go) wakes its caller.
use durable_timer.Base.{
  ℕ, ◌+◌, ◌≤◌, ◌<◌, min, ◌≡◌, ◌↔◌, ◌⊎◌, refl, ap, ◌∙◌, true, false, ◌&&◌, none, some, Option,
  Option-cases, inl, inr, subst, arith, ltb, List, [], ◌∷◌, if◌then◌else◌,
}
use durable_timer.Databases.Models.{Time}
use durable_timer.Engine.TimerGate.{
  TimerGate, new_local_timer_gate, update, run_round, stop, close, take_signal, is_running,
}

-- A timer that runs fires at the wake-up time or, where that was past when it was set, not before
-- now; the gate is then marked as active, and while it is not closed it is so only then.
pub record IsConsistent (now : Time) (tg : TimerGate) : Type 0 where
  pub not_early : (t : Time) → tg.timer ≡ some t → tg.next_wakeup_time ≤ t
  pub not_late : (t : Time) → tg.timer ≡ some t → (t ≡ tg.next_wakeup_time) ⊎ (t ≤ now)
  pub running_active : is_running tg ≡ true → tg.is_active ≡ true
  pub active_runs : tg.is_closed ≡ false → tg.is_active ≡ is_running tg

-- A call of the gate, a step of its goroutine, or a signal that is taken.
pub data Event : Type 0 where
  updated : Time → Event
  stopped : Event
  closed : Event
  ran : Event
  signal_taken : Event

-- The gate after an event; `none` is the panic of a second close.
unfoldable pub on_event : Time → Event → TimerGate → Option TimerGate
unfolding update run_round stop close take_signal
on_event now (updated t) tg = some (update now t tg).0
on_event now stopped tg = some (stop tg)
on_event now closed tg = close tg
on_event now ran tg = some (run_round now tg)
on_event now signal_taken tg = some (take_signal tg)

module _ (before now : Time) where
  not_early :
      (e : Event) (tg tg' : TimerGate)
      → on_event now e tg ≡ some tg'
      → IsConsistent before tg
      → (u : Time) → tg'.timer ≡ some u
      → tg'.next_wakeup_time ≤ u
  unfolding on_event
  not_early (updated t) tg tg' e c u h = ground (arith, e, c.not_early u)
  not_early _ tg tg' e c u h = ground (arith, e, c.not_early u)

  not_late :
      (e : Event) (tg tg' : TimerGate)
      → before ≤ now
      → on_event now e tg ≡ some tg'
      → IsConsistent before tg
      → (u : Time) → tg'.timer ≡ some u
      → (u ≡ tg'.next_wakeup_time) ⊎ (u ≤ now)
  unfolding on_event
  not_late (updated t) tg tg' le e c u h = ground (arith, e, c.not_late u)
  not_late _ tg tg' le e c u h = ground (arith, e, c.not_late u)

  running_active :
      (e : Event) (tg tg' : TimerGate)
      → on_event now e tg ≡ some tg'
      → IsConsistent before tg
      → is_running tg' ≡ true
      → tg'.is_active ≡ true
  unfolding on_event
  running_active (updated t) tg tg' e c h = ground (arith, e, c.running_active)
  running_active _ tg tg' e c h = ground (arith, e, c.running_active)

  active_runs :
      (e : Event) (tg tg' : TimerGate)
      → on_event now e tg ≡ some tg'
      → IsConsistent before tg
      → tg'.is_closed ≡ false
      → tg'.is_active ≡ is_running tg'
  unfolding on_event
  active_runs (updated t) tg tg' e c h = ground (arith, e, c.active_runs)
  active_runs _ tg tg' e c h = ground (arith, e, c.active_runs)

  IsConsistent-on_event :
      (e : Event) (tg tg' : TimerGate)
      → before ≤ now
      → on_event now e tg ≡ some tg'
      → IsConsistent before tg
      → IsConsistent now tg'
  IsConsistent-on_event e tg tg' le h c = record {
    not_early = λ u r. not_early e tg tg' h c u r;
    not_late = λ u r. not_late e tg tg' le h c u r;
    running_active = running_active e tg tg' h c;
    active_runs = active_runs e tg tg' h c;
  }

-- Calls and rounds in turn, each some time after the one before it: the time at the end and the gate, or
-- `none` where one of them panics.
unfoldable pub play : Time → List (ℕ × Event) → TimerGate → Option (Time × TimerGate)
play now [] tg = some (now, tg)
play now ((d, e) ∷ events) tg = elim (on_event (now + d) e tg) [
  | none ↦ none
  | some tg' ↦ play (now + d) events tg'
]

abbrev ConsistentAfter : Option (Time × TimerGate) → Type 0
ConsistentAfter none = Unit {0}
ConsistentAfter (some (now, tg)) = IsConsistent now tg

play-IsConsistent :
    (now end : Time) (events : List (ℕ × Event)) (tg tg' : TimerGate)
    → IsConsistent now tg
    → play now events tg ≡ some (end, tg')
    → IsConsistent end tg'
unfolding play
play-IsConsistent now end [] tg tg' c h = subst ConsistentAfter h c
play-IsConsistent now end ((d, e) ∷ events) tg tg' c h =
    elim (Option-cases (on_event (now + d) e tg)) [
      | inl p ↦ absurd (ground (arith, p, h))
      | inr (next, p) ↦
          play-IsConsistent (now + d) end events next tg'
            (IsConsistent-on_event now (now + d) e tg next (omega arith) p c) (ground (arith, p, h))
    ]

-- Whatever calls are made of a new gate, and whenever its goroutine runs, if no call panics: a running
-- timer fires at the wake-up time, or later only at once, and the gate then says that it is active; while
-- it is not closed, it says so only then.
pub gate-IsConsistent :
    (start end : Time) (events : List (ℕ × Event)) (tg : TimerGate)
    → play start events new_local_timer_gate ≡ some (end, tg)
    → IsConsistent end tg
gate-IsConsistent start end events tg h =
    play-IsConsistent start end events new_local_timer_gate tg
      (record {
        not_early = λ t h. cc;
        not_late = λ t h. cc;
        running_active = λ h. cc;
        active_runs = λ h. refl;
      })
      h

wakes_at : Time → Time → TimerGate → Time
wakes_at now t tg =
    let wakeup = if is_running tg && ltb tg.next_wakeup_time t then tg.next_wakeup_time else t in
    if ltb wakeup now then now else wakeup

-- After `Update(t)` a timer runs that fires by t, or at once if t has passed. The result is `false`
-- exactly if the timer ran before the call, for a time earlier than t.
pub update_wakes_by :
    (now t : Time) (tg : TimerGate)
    → (u : Time) × ((update now t tg).0.timer ≡ some u)
      × ((u ≤ t) ⊎ (u ≤ now))
      × (((update now t tg).1 ≡ false) ↔ ((is_running tg ≡ true) × (tg.next_wakeup_time < t)))
unfolding update wakes_at
update_wakes_by now t tg =
    (wakes_at now t tg, ground arith, ground arith, (λ h. ground arith, λ h. ground arith))

-- In a consistent gate `Update` does not put off a timer that runs, except to the present time.
pub update_not_postponed :
    (now t : Time) (tg : TimerGate) (old u : Time)
    → IsConsistent now tg
    → tg.timer ≡ some old
    → (update now t tg).0.timer ≡ some u
    → (u ≤ old) ⊎ (u ≤ now)
unfolding update
update_not_postponed now t tg old u c e h = ground (arith, c.not_early old)

-- Calls of `Update`, each at a time of its own, while the timer does not fire.
unfoldable pub update_all : List (Time × Time) → TimerGate → TimerGate
update_all [] tg = tg
update_all ((now, t) ∷ calls) tg = update_all calls (update now t tg).0

-- The least of a time and of those that the calls ask for.
abbrev pub earliest : Time → List (Time × Time) → Time
earliest t [] = t
earliest t ((now, u) ∷ calls) = earliest (min t u) calls

update-min :
    (now t : Time) (tg : TimerGate)
    → is_running tg ≡ true
    → ((update now t tg).0.next_wakeup_time ≡ min tg.next_wakeup_time t)
      × (is_running (update now t tg).0 ≡ true)
unfolding update
update-min now t tg running = ground arith

update_all-running :
    (calls : List (Time × Time)) (tg : TimerGate)
    → is_running tg ≡ true
    → (update_all calls tg).next_wakeup_time ≡ earliest tg.next_wakeup_time calls
unfolding update_all
update_all-running [] tg running = refl
update_all-running ((now, t) ∷ calls) tg running =
    let (least, still) = update-min now t tg running in
    update_all-running calls (update now t tg).0 still ∙ ap (λ u. earliest u calls) least

-- Calls of `Update` on a gate whose timer does not run leave the earliest time that they ask for as
-- the wake-up time, in whatever order they come.
pub update_all-earliest :
    (now t : Time) (calls : List (Time × Time)) (tg : TimerGate)
    → is_running tg ≡ false
    → (update_all ((now, t) ∷ calls) tg).next_wakeup_time ≡ earliest t calls
unfolding update_all
update_all-earliest now t calls tg idle =
    let (next, still) = first in
    update_all-running calls (update now t tg).0 still ∙ ap (λ u. earliest u calls) next
  where
    first : ((update now t tg).0.next_wakeup_time ≡ t) × (is_running (update now t tg).0 ≡ true)
    first = unfold update in ground arith
