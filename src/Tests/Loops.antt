-- ===== src/Tests/Loops.antt =====
-- Examples for the loops of the engine.
use durable_timer.Base.{
  String, ◌+◌, ◌*◌, ◌≡◌, ◌≢◌, refl, ap, ◌∙◌, ℕ, suc, Bool, true, false, none, some, List, [], ◌∷◌,
  arith, All, filter, count,
}
use durable_timer.Databases.Models.{DbTimer, ShardMetadata, default_metadata}
use durable_timer.Databases.Rows.{Row, set_metadata, is_shard_row, is_shard_row_at}
use durable_timer.Databases.Mysql.Shard
use durable_timer.Config.{TimerBatchDeleterConfig, TimerBatchReaderConfig}
use durable_timer.Engine.Offset.{TimerOffset}
use durable_timer.Engine.ShardOwnership
use durable_timer.Engine.ShardOwnership.{ShardOwnership}
use durable_timer.Engine.BatchReader.{
  World, new_batch_reader_impl, scan_timers, read_timers_and_look_ahead_from_database,
}
use durable_timer.Engine.BatchReader.Scan.{
  is_due, is_later, last_offset, first_time, scan_timers_lem,
}
use durable_timer.Engine.BatchReader.Run.{Event, run}
use durable_timer.Engine.BatchReader.Stall.{IsForward, run_delivers_nothing, read_finds_nothing}
use durable_timer.Engine.BatchDeleter
use durable_timer.Engine.BatchDeleter.{
  Wakeup, commit_timer, delete_timer, offset_received, ownership_lost, panics, commit_offset,
  delete_timers, delete_request, metadata_of, run_round, close,
}
use durable_timer.Engine.BatchDeleter.Starvation.{
  Runs, here, next, from_channel, from_commit_timer, CommitsFirst, run_never_deletes,
}
use durable_timer.Engine.BatchDeleter.Commit.{start, run_committed, ownership_lost_panics}
use durable_timer.Tests.Fixtures.{
  tenths, clock, timer_at, store, shard_row, shard_db, empty_db, table, execute, change,
}

abbrev shard : ShardOwnership
shard = record {
  shard_id = 7;
  shard_version = 3;
  shard_metadata = default_metadata;
  is_released = false;
}

abbrev offset : TimerOffset
offset = record { timestamp = 100; uuid = 9 }

abbrev full_config : TimerBatchDeleterConfig
full_config = record {
  deleting_interval = 30;
  deleting_interval_jitter = 5;
  committing_interval = 10;
  committing_interval_jitter = 5;
  deleting_batch_limit_per_request = 1000;
}

abbrev loop : BatchDeleter.Loop store
loop = start store full_config shard shard_db

abbrev two_timers : List (DbTimer String)
two_timers = timer_at "t1" 1 100 ∷ timer_at "t2" 2 200 ∷ []

scan_timers_lem_example : scan_timers 150 two_timers [] offset ≡ (
  filter (is_due 150) two_timers,
  last_offset 150 offset (filter (is_due 150) two_timers),
  first_time 150 (filter (is_later 150) two_timers),
)
scan_timers_lem_example = scan_timers_lem 150 two_timers offset ((omega arith, tt), (tt, tt))

abbrev reader_config : TimerBatchReaderConfig
reader_config = record {
  min_look_ahead_time_duration = 10;
  max_look_ahead_time_duration = 100;
  batch_read_limit_per_request = 50;
}

abbrev world : World store clock tenths
world = record { outside = 0; db = empty_db; response = none }

run_delivers_nothing_example :
    (run store clock tenths 5
      (Event.gate_ran ∷ Event.fired ∷ Event.sent ∷ [])
      (new_batch_reader_impl String reader_config shard)
      world).delivered
    ≡ []
run_delivers_nothing_example =
    run_delivers_nothing store clock tenths 5 (Event.gate_ran ∷ Event.fired ∷ Event.sent ∷ [])
      reader_config shard world

clock-IsForward : IsForward store clock tenths
clock-IsForward = record {
  call_forward = λ x. omega arith;
  rand_forward = λ n x. omega arith;
  wait_forward = λ d x. omega arith;
}

read_finds_nothing_example :
    (read_timers_and_look_ahead_from_database store clock tenths
      (60 * 1_000_000_000 + 2)
      (new_batch_reader_impl String reader_config shard)
      world).0
    ≡ some ([], none, new_batch_reader_impl String reader_config shard)
read_finds_nothing_example =
    read_finds_nothing store clock tenths clock-IsForward
      (new_batch_reader_impl String reader_config shard) world

abbrev wakeups : List Wakeup
wakeups = offset_received (some offset) ∷ commit_timer ∷ []

-- The loop after it received the offset, and after it committed it.
abbrev received : BatchDeleter.Loop store
received = record loop { deleter = record loop.deleter { received_offset = some offset } }

abbrev committed : BatchDeleter.Loop store
committed = commit_offset store received

received_lem : run_round store (offset_received (some offset)) loop ≡ BatchDeleter.goes_on received
unfolding run_round
received_lem = refl

committed_lem : run_round store commit_timer received ≡ BatchDeleter.goes_on committed
unfolding run_round
committed_lem = refl

committed_offset : committed.deleter.committed_offset ≡ some offset
unfolding commit_offset ShardOwnership.update_shard_metadata BatchDeleter.new_batch_deleter_impl
    store shard_db shard_row is_shard_row_at is_shard_row Shard.update_shard_metadata
committed_offset = refl

loop-Runs :
    (s t u : BatchDeleter.Loop store)
    → run_round store (offset_received (some offset)) s ≡ BatchDeleter.goes_on t
    → run_round store commit_timer t ≡ BatchDeleter.goes_on u
    → Runs store full_config s wakeups u
unfolding BatchDeleter.get_commit_interval BatchDeleter.get_delete_interval
loop-Runs s t u e f = next (from_channel _ (λ h. cc) (λ h. cc)) e (
    next
      (from_commit_timer 0 0 (omega arith, omega arith) (omega arith, omega arith) (ground arith)) f
      here)

committed-Runs : Runs store full_config loop wakeups committed
committed-Runs = loop-Runs loop received committed received_lem committed_lem

run_committed_example : committed.deleter.shard.shard_metadata ≡ metadata_of offset
run_committed_example =
    run_committed store full_config shard shard_db wakeups committed offset committed-Runs
      committed_offset

ownership_lost_panics_example :
    (run_round store ownership_lost committed ≡ panics) × (close committed.deleter ≡ none)
ownership_lost_panics_example =
    ownership_lost_panics store full_config shard shard_db wakeups committed committed-Runs

default-CommitsFirst : CommitsFirst store full_config
default-CommitsFirst = record { no_wrap = omega arith; commits_first = omega arith }

-- The number of rows of the table.
row_count : store.State → ℕ
unfolding store
row_count db = count (λ r. true) db

count-change :
    (f : Row → Row) (p : Row → Bool) (rs : List Row)
    → count (λ r. true) (change f p rs) ≡ count (λ r. true) rs
unfolding change count
count-change f p [] = refl
count-change f p (r ∷ rs) = ap suc (count-change f p rs)

update_shard_metadata-row_count :
    (shard_id version : ℕ) (metadata : ShardMetadata) (db : store.State)
    → row_count db ≡ 1
    → row_count (store.update_shard_metadata shard_id version metadata db).1 ≡ 1
unfolding row_count store table execute Shard.update_shard_metadata
update_shard_metadata-row_count shard_id version metadata db p =
    count-change (set_metadata "default") (is_shard_row_at shard_id version) db ∙ p

run_never_deletes_example :
    All (λ w. w ≢ delete_timer) wakeups × (row_count loop.db ≡ 1 → row_count committed.db ≡ 1)
run_never_deletes_example =
    run_never_deletes store full_config (λ db. row_count db ≡ 1) default-CommitsFirst
      update_shard_metadata-row_count committed-Runs
