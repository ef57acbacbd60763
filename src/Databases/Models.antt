-- ===== src/Databases/Models.antt =====
-- server/databases/db_unified_models.go: the records of the unified timer store.
-- A time is the number of nanoseconds since Go's zero time, so `time.Time{}` is 0. A UUID is the
-- number that its 16 bytes spell, the first byte the highest. An int64 or int32 is its bit pattern.
-- `Payload interface{}` is an `Option` of an abstract type of JSON values.
use durable_timer.Base.{
  ℕ, ◌*◌, ◌-◌, ◌^◌, String, ◌<>◌, Bool, true, false, Option, none, some, List, [],
}

abbrev pub Time : Type 0
Time = ℕ

abbrev pub Uuid : Type 0
Uuid = ℕ

abbrev pub row_type_shard : ℕ
row_type_shard = 1

abbrev pub row_type_timer : ℕ
row_type_timer = 2

abbrev pub second : ℕ
second = 1_000_000_000

-- `time.Unix(1, 0)`: the Unix epoch is 62135596800 seconds after Go's zero time.
abbrev pub zero_timestamp : Time
zero_timestamp = 62_135_596_801 * second

abbrev pub zero_uuid : Uuid
zero_uuid = 0

abbrev pub max_uuid : Uuid
max_uuid = 2 ^ 128 - 1

pub record ShardMetadata : Type 0 where
  pub committed_offset_timestamp : Time
  pub committed_offset_uuid : Uuid

-- `ShardMetadata{}`
abbrev pub default_metadata : ShardMetadata
default_metadata = record { committed_offset_timestamp = 0; committed_offset_uuid = 0 }

pub record ShardInfo : Type 0 where
  pub shard_id : ℕ
  pub owner_addr : String
  pub shard_version : ℕ
  pub metadata : ShardMetadata
  pub claimed_at : Time

-- An `error` value of a driver or a library, by what the code observes of it: whether it is
-- `sql.ErrNoRows` or `gocql.ErrNotFound`, the number of a MySQL error or the code of a PostgreSQL error
-- that it wraps, the codes of the write errors of a `mongo.WriteException` that it wraps, and its text.
pub record GoError : Type 0 where
  pub is_no_rows : Bool
  pub is_not_found : Bool
  pub mysql_number : Option ℕ
  pub pq_code : Option String
  pub write_codes : List ℕ
  pub text : String

-- `errors.New`
abbrev pub new_error : String → GoError
new_error msg = record {
  is_no_rows = false;
  is_not_found = false;
  mysql_number = none;
  pq_code = none;
  write_codes = [];
  text = msg;
}

pub record DbError : Type 0 where
  pub original_error : Option GoError
  pub custom_message : String
  pub shard_condition_fail : Bool
  pub not_exists : Bool
  pub not_support : Bool

abbrev pub new_generic_db_error : String → Option GoError → DbError
new_generic_db_error msg err = record {
  original_error = err;
  custom_message = msg;
  shard_condition_fail = false;
  not_exists = false;
  not_support = false;
}

abbrev pub new_db_error_on_shard_condition_fail : String → Option GoError → DbError
new_db_error_on_shard_condition_fail msg err = record {
  original_error = err;
  custom_message = msg;
  shard_condition_fail = true;
  not_exists = false;
  not_support = false;
}

abbrev pub new_db_error_not_exists : String → Option GoError → DbError
new_db_error_not_exists msg err = record {
  original_error = err;
  custom_message = msg;
  shard_condition_fail = false;
  not_exists = true;
  not_support = false;
}

abbrev pub new_db_error_not_support : String → Option GoError → DbError
new_db_error_not_support msg err = record {
  original_error = err;
  custom_message = msg;
  shard_condition_fail = false;
  not_exists = false;
  not_support = true;
}

-- `d.Error()`; `none` is the panic of a method call on a nil `OriginalError`.
unfoldable pub error_text : DbError → Option String
error_text d = elim d.original_error [
  | none ↦ none
  | some e ↦ some (d.custom_message <> "\n" <> "Original error: " <> e.text)
]

unfoldable pub is_db_error_not_exists : Option DbError → Bool
is_db_error_not_exists none = false
is_db_error_not_exists (some err) = err.not_exists

pub record DbTimer (Json : Type 0) : Type 0 where
  pub id : String
  pub timer_uuid : Uuid
  pub namespace : String
  pub execute_at : Time
  pub callback_url : String
  pub payload : Option Json
  pub retry_policy : Option Json
  pub callback_timeout_seconds : ℕ
  pub created_at : Time
  pub updated_at : Time
  pub executed_at : Time
  pub attempts : ℕ

pub record RangeGetTimersRequest : Type 0 where
  pub start_timestamp : Time
  pub start_time_uuid : Uuid
  pub end_timestamp : Time
  pub end_time_uuid : Uuid
  pub limit : ℕ

pub record RangeGetTimersResponse (Json : Type 0) : Type 0 where
  pub timers : List (DbTimer Json)

pub record RangeDeleteTimersRequest : Type 0 where
  pub start_timestamp : Time
  pub start_time_uuid : Uuid
  pub end_timestamp : Time
  pub end_time_uuid : Uuid

pub record RangeDeleteTimersResponse : Type 0 where
  pub deleted_count : ℕ

pub record UpdateDbTimerRequest (Json : Type 0) : Type 0 where
  pub timer_id : String
  pub execute_at : Time
  pub callback_url : String
  pub payload : Option Json
  pub retry_policy : Option Json
  pub callback_timeout_seconds : ℕ
