-- ===== src/Engine/BatchReader/Scan.antt =====
-- Which timers of a response the batch reader (server/engine/batch_reader.go) takes as ready.
use durable_timer.Base.{
  ◌≤◌, ◌≡◌, refl, Bool, false, not, Option, none, some, List, [], ◌∷◌, ◌++◌, arith, leb, All,
  filter, Bool-cases, inl, inr,
}
use durable_timer.Databases.Models.{Time, DbTimer}
use durable_timer.Engine.Offset.{TimerOffset}
use durable_timer.Engine.BatchReader.{scan_timers}
use mathlib.Core.List.{append-nil, append_assoc}

module _ {Json : Type 0} (now : Time) where
  -- The timer's time has come.
  abbrev pub is_due : DbTimer Json → Bool
  is_due timer = leb timer.execute_at now

  -- The response is in the order of the timers' times.
  abbrev pub IsInOrder : List (DbTimer Json) → Type 0
  IsInOrder [] = Unit
  IsInOrder (timer ∷ timers) =
      All (λ later. timer.execute_at ≤ later.execute_at) timers × IsInOrder timers

  abbrev pub offset_of : DbTimer Json → TimerOffset
  offset_of timer = record { timestamp = timer.execute_at; uuid = timer.timer_uuid }

  abbrev pub last_offset : TimerOffset → List (DbTimer Json) → TimerOffset
  last_offset offset [] = offset
  last_offset offset (timer ∷ timers) = last_offset (offset_of timer) timers

  abbrev pub first_time : List (DbTimer Json) → Option Time
  first_time [] = none
  first_time (timer ∷ timers) = some timer.execute_at

  abbrev pub is_later : DbTimer Json → Bool
  is_later timer = not (is_due timer)

  none_due :
      (timer : DbTimer Json) (timers : List (DbTimer Json))
      → is_due timer ≡ false
      → All (λ later. timer.execute_at ≤ later.execute_at) timers
      → filter is_due timers ≡ []
  unfolding filter
  none_due timer [] late all = refl
  none_due timer (next ∷ timers) late all = ground (arith, none_due timer timers late all.1, all.0)

  scan_timers-filter :
      (timers ready : List (DbTimer Json)) (offset : TimerOffset)
      → IsInOrder timers
      → scan_timers now timers ready offset ≡ (
        ready ++ filter is_due timers,
        last_offset offset (filter is_due timers),
        first_time (filter is_later timers),
      )
  unfolding scan_timers filter
  scan_timers-filter [] ready offset sorted = rw append-nil
  scan_timers-filter (timer ∷ timers) ready offset sorted = elim (Bool-cases (is_due timer)) [
    | inl due ↦ ground (
      arith,
      scan_timers-filter timers (ready ++ timer ∷ []) (offset_of timer) sorted.1,
      append_assoc ready (timer ∷ []) (filter is_due timers),
    )
    | inr late ↦ ground (arith, none_due timer timers late sorted.0, append-nil ready)
  ]

  -- For a response in the order of its times, the reader takes as ready exactly the timers whose time
  -- is not after the present time, in order, keeps the offset of the last of them, and wakes up next at
  -- the time of the first of the others, if there is one.
  pub scan_timers_lem :
      (timers : List (DbTimer Json)) (offset : TimerOffset)
      → IsInOrder timers
      → scan_timers now timers [] offset ≡ (
        filter is_due timers,
        last_offset offset (filter is_due timers),
        first_time (filter is_later timers),
      )
  scan_timers_lem timers offset sorted = scan_timers-filter timers [] offset sorted
