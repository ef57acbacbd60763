-- ===== src/Config.antt =====
-- server/config/engine.go and config.go: the configuration of the engine and its default values.
-- A duration and an int are the bit patterns of an int64, so that a negative one is 2 ^ 63 or more; the
-- YAML decoder is left out.
pub mod Defaults
use durable_timer.Base.{ℕ, ◌+◌, ◌-◌, ◌^◌, ltb, ◌*◌, Option, none, some, ◌==◌, if◌then◌else◌}

abbrev pub second : ℕ
second = 1_000_000_000

-- `t.Add(d)`; a time does not get below Go's zero time.
abbrev pub add_duration : ℕ → ℕ → ℕ
add_duration t d = if ltb d (2 ^ 63) then t + d else t - (2 ^ 64 - d)

pub record CallbackProcessorConfig : Type 0 where
  pub concurrency : ℕ

pub record TimerQueueConfig : Type 0 where
  pub queue_size : ℕ
  -- a pointer, nil if it is not set
  pub loading_buffer_channel_size : Option ℕ

pub record TimerBatchDeleterConfig : Type 0 where
  pub deleting_interval : ℕ
  pub deleting_interval_jitter : ℕ
  pub committing_interval : ℕ
  pub committing_interval_jitter : ℕ
  pub deleting_batch_limit_per_request : ℕ

pub record TimerBatchReaderConfig : Type 0 where
  pub min_look_ahead_time_duration : ℕ
  pub max_look_ahead_time_duration : ℕ
  pub batch_read_limit_per_request : ℕ

pub record EngineConfig : Type 0 where
  pub min_timer_duration : ℕ
  pub max_timer_payload_size_in_bytes : ℕ
  pub max_callback_timeout_seconds : ℕ
  pub engine_shutdown_timeout : ℕ
  pub shard_engine_shutdown_timeout : ℕ
  pub database_api_timeout : ℕ
  pub callback_processor_config : CallbackProcessorConfig
  pub timer_queue_config : TimerQueueConfig
  pub timer_batch_deleter_config : TimerBatchDeleterConfig
  pub timer_batch_reader_config : TimerBatchReaderConfig

-- `if field == 0 { field = default }`
abbrev pub or_default : ℕ → ℕ → ℕ
or_default value default = if value == 0 then default else value

unfoldable pub set_callback_processor_defaults : CallbackProcessorConfig → CallbackProcessorConfig
set_callback_processor_defaults config = record { concurrency = or_default config.concurrency 1000 }

unfoldable pub set_timer_queue_defaults : TimerQueueConfig → TimerQueueConfig
set_timer_queue_defaults config = record {
  queue_size = or_default config.queue_size 3000;
  loading_buffer_channel_size = elim config.loading_buffer_channel_size [
    | none ↦ some 10
    | some n ↦ some n
  ];
}

unfoldable pub set_timer_batch_deleter_defaults : TimerBatchDeleterConfig → TimerBatchDeleterConfig
set_timer_batch_deleter_defaults config = record {
  deleting_interval = or_default config.deleting_interval (30 * second);
  deleting_interval_jitter = or_default config.deleting_interval_jitter (5 * second);
  committing_interval = or_default config.committing_interval (10 * second);
  committing_interval_jitter = or_default config.committing_interval_jitter (5 * second);
  deleting_batch_limit_per_request = or_default config.deleting_batch_limit_per_request 1000;
}

unfoldable pub set_timer_batch_reader_defaults : TimerBatchReaderConfig → TimerBatchReaderConfig
set_timer_batch_reader_defaults config = record {
  min_look_ahead_time_duration = or_default config.min_look_ahead_time_duration (1 * second);
  max_look_ahead_time_duration = or_default config.max_look_ahead_time_duration (5 * 60 * second);
  batch_read_limit_per_request = or_default config.batch_read_limit_per_request 1000;
}

unfoldable pub set_engine_defaults : EngineConfig → EngineConfig
set_engine_defaults engine = record {
  min_timer_duration = or_default engine.min_timer_duration (1 * second);
  max_timer_payload_size_in_bytes = or_default engine.max_timer_payload_size_in_bytes (100 * 1024);
  max_callback_timeout_seconds = or_default engine.max_callback_timeout_seconds 10;
  engine_shutdown_timeout = or_default engine.engine_shutdown_timeout (10 * second);
  shard_engine_shutdown_timeout = or_default engine.shard_engine_shutdown_timeout (2 * second);
  database_api_timeout = or_default engine.database_api_timeout (10 * second);
  callback_processor_config = set_callback_processor_defaults engine.callback_processor_config;
  timer_queue_config = set_timer_queue_defaults engine.timer_queue_config;
  timer_batch_deleter_config = set_timer_batch_deleter_defaults engine.timer_batch_deleter_config;
  timer_batch_reader_config = set_timer_batch_reader_defaults engine.timer_batch_reader_config;
}
