-- ===== src/Config/Defaults.antt =====
-- What the default values (server/config/config.go) guarantee of every configuration.
use durable_timer.Base.{ℕ, ◌==◌, false, ◌≡◌, ◌≢◌, none, arith}
use durable_timer.Config.{
  EngineConfig, CallbackProcessorConfig, TimerQueueConfig, TimerBatchDeleterConfig,
  TimerBatchReaderConfig, set_engine_defaults, set_callback_processor_defaults,
  set_timer_queue_defaults, set_timer_batch_deleter_defaults, set_timer_batch_reader_defaults,
}

-- A number of the configuration, negative ones included, that is not 0.
abbrev pub IsNonzero : ℕ → Type 0
IsNonzero n = (n == 0) ≡ false

-- Every value is set: no number is 0 and no pointer is nil.
pub record IsSetDeleter (c : TimerBatchDeleterConfig) : Type 0 where
  pub deleting_interval : IsNonzero c.deleting_interval
  pub deleting_interval_jitter : IsNonzero c.deleting_interval_jitter
  pub committing_interval : IsNonzero c.committing_interval
  pub committing_interval_jitter : IsNonzero c.committing_interval_jitter
  pub deleting_batch_limit_per_request : IsNonzero c.deleting_batch_limit_per_request

pub record IsSetReader (c : TimerBatchReaderConfig) : Type 0 where
  pub min_look_ahead_time_duration : IsNonzero c.min_look_ahead_time_duration
  pub max_look_ahead_time_duration : IsNonzero c.max_look_ahead_time_duration
  pub batch_read_limit_per_request : IsNonzero c.batch_read_limit_per_request

pub record IsSetQueue (c : TimerQueueConfig) : Type 0 where
  pub queue_size : IsNonzero c.queue_size
  pub loading_buffer_channel_size : c.loading_buffer_channel_size ≢ none

pub record IsSetEngine (e : EngineConfig) : Type 0 where
  pub min_timer_duration : IsNonzero e.min_timer_duration
  pub max_timer_payload_size_in_bytes : IsNonzero e.max_timer_payload_size_in_bytes
  pub max_callback_timeout_seconds : IsNonzero e.max_callback_timeout_seconds
  pub engine_shutdown_timeout : IsNonzero e.engine_shutdown_timeout
  pub shard_engine_shutdown_timeout : IsNonzero e.shard_engine_shutdown_timeout
  pub database_api_timeout : IsNonzero e.database_api_timeout
  pub concurrency : IsNonzero e.callback_processor_config.concurrency
  pub queue : IsSetQueue e.timer_queue_config
  pub deleter : IsSetDeleter e.timer_batch_deleter_config
  pub reader : IsSetReader e.timer_batch_reader_config

queue_set : (c : TimerQueueConfig) → IsSetQueue (set_timer_queue_defaults c)
unfolding set_timer_queue_defaults
queue_set c = record { queue_size = ground arith; loading_buffer_channel_size = λ h. ground arith }

deleter_set : (c : TimerBatchDeleterConfig) → IsSetDeleter (set_timer_batch_deleter_defaults c)
unfolding set_timer_batch_deleter_defaults
deleter_set c = ground arith

reader_set : (c : TimerBatchReaderConfig) → IsSetReader (set_timer_batch_reader_defaults c)
unfolding set_timer_batch_reader_defaults
reader_set c = ground arith

queue_kept : (c : TimerQueueConfig) → IsSetQueue c → set_timer_queue_defaults c ≡ c
unfolding set_timer_queue_defaults
queue_kept c h = ground (arith, h.loading_buffer_channel_size)

deleter_kept :
    (c : TimerBatchDeleterConfig) → IsSetDeleter c → set_timer_batch_deleter_defaults c ≡ c
unfolding set_timer_batch_deleter_defaults
deleter_kept c h = ground arith

reader_kept : (c : TimerBatchReaderConfig) → IsSetReader c → set_timer_batch_reader_defaults c ≡ c
unfolding set_timer_batch_reader_defaults
reader_kept c h = ground arith

callback_kept :
    (c : CallbackProcessorConfig) → IsNonzero c.concurrency → set_callback_processor_defaults c ≡ c
unfolding set_callback_processor_defaults
callback_kept c h = ground arith

-- After the defaults are set, no number of the configuration is 0 and every pointer is set.
pub set_engine_defaults-IsSetEngine : (e : EngineConfig) → IsSetEngine (set_engine_defaults e)
unfolding set_engine_defaults
set_engine_defaults-IsSetEngine e = record {
  min_timer_duration = ground arith;
  max_timer_payload_size_in_bytes = ground arith;
  max_callback_timeout_seconds = ground arith;
  engine_shutdown_timeout = ground arith;
  shard_engine_shutdown_timeout = ground arith;
  database_api_timeout = ground arith;
  concurrency = unfold set_callback_processor_defaults in ground arith;
  queue = queue_set e.timer_queue_config;
  deleter = deleter_set e.timer_batch_deleter_config;
  reader = reader_set e.timer_batch_reader_config;
}

-- A configuration that has no number that is 0 and whose pointers are all set is left as it was.
pub set_engine_defaults_kept : (e : EngineConfig) → IsSetEngine e → set_engine_defaults e ≡ e
unfolding set_engine_defaults
set_engine_defaults_kept e h = ground (
  arith,
  queue_kept e.timer_queue_config h.queue,
  deleter_kept e.timer_batch_deleter_config h.deleter,
  reader_kept e.timer_batch_reader_config h.reader,
  callback_kept e.callback_processor_config h.concurrency,
)
