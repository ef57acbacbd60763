-- ===== src/Tests/Values.antt =====
-- Examples for the configuration and the UUIDs of timers.
use durable_timer.Base.{String, ◌≡◌, refl, true, none, some, inl, arith, str_eq, if◌then◌else◌}
use durable_timer.Databases.TimerUuid.{
  Layout, format_execute_at_with_uuid, parse_execute_at_with_uuid,
}
use durable_timer.Databases.TimerUuid.Identity.{generate_timer_uuid_injective}
use durable_timer.Databases.TimerUuid.RoundTrip.{parse-format}
use durable_timer.Config.{EngineConfig, set_engine_defaults}
use durable_timer.Config.Defaults.{
  IsSetEngine, set_engine_defaults-IsSetEngine, set_engine_defaults_kept,
}
use durable_timer.Tests.Fixtures.{digest}

abbrev empty_config : EngineConfig
empty_config = record {
  min_timer_duration = 0;
  max_timer_payload_size_in_bytes = 0;
  max_callback_timeout_seconds = 0;
  engine_shutdown_timeout = 0;
  shard_engine_shutdown_timeout = 0;
  database_api_timeout = 0;
  callback_processor_config = record { concurrency = 0 };
  timer_queue_config = record { queue_size = 0; loading_buffer_channel_size = none };
  timer_batch_deleter_config = record {
    deleting_interval = 0;
    deleting_interval_jitter = 0;
    committing_interval = 0;
    committing_interval_jitter = 0;
    deleting_batch_limit_per_request = 0;
  };
  timer_batch_reader_config = record {
    min_look_ahead_time_duration = 0;
    max_look_ahead_time_duration = 0;
    batch_read_limit_per_request = 0;
  };
}

set_engine_defaults-IsSetEngine_example : IsSetEngine (set_engine_defaults empty_config)
set_engine_defaults-IsSetEngine_example = set_engine_defaults-IsSetEngine empty_config

set_engine_defaults_kept_example :
    set_engine_defaults (set_engine_defaults empty_config) ≡ set_engine_defaults empty_config
set_engine_defaults_kept_example =
    set_engine_defaults_kept (set_engine_defaults empty_config)
      (set_engine_defaults-IsSetEngine empty_config)

abbrev namespace : String
namespace = "ns"

abbrev id : String
id = "t1"

generate_timer_uuid_injective_example : (namespace ≡ namespace) × (id ≡ id)
generate_timer_uuid_injective_example =
    generate_timer_uuid_injective digest namespace namespace id id (refl, (refl, tt))
      (refl, (refl, tt)) (λ h. refl) refl

-- The layout of milliseconds at one of them.
abbrev layout : Layout
layout = record {
  format_time = λ t. "0001-01-01T00:00:00.001Z";
  parse_time = λ s. if str_eq s "0001-01-01T00:00:00.001Z" then some 1_000_000 else none;
  is_uuid = λ s. true;
}

parse-format_example :
    parse_execute_at_with_uuid layout (format_execute_at_with_uuid layout 1_000_007 "u-1")
    ≡ inl (1_000_000, "u-1")
parse-format_example = parse-format layout 1_000_007 1_000_000 "u-1" (ground arith) refl refl
