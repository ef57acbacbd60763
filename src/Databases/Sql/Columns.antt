-- ===== src/Databases/Sql/Columns.antt =====
-- How the SQL stores (server/databases/mysql, postgresql) read the columns of a row.
use durable_timer.Base.{ℕ, String, Option, none, some}
use durable_timer.Databases.Models.{Time, DbTimer}
use durable_timer.Databases.Results.{Answer, value, fault, Result, ok, ◌>>=◌}
use durable_timer.Databases.Codec.{Codec, decode_json}
use durable_timer.Databases.Rows.{Row}
use durable_timer.Databases.Sql.{Server}

-- The columns that `Scan` fills.
pub record ScannedTimer : Type 0 where
  pub row : Row
  pub timer_id : String
  pub timer_namespace : String
  pub timer_callback_url : String
  pub timer_callback_timeout_secs : ℕ
  pub timer_created_at : ℕ
  pub timer_attempts : ℕ

-- The columns that `Scan` fills of the row of a shard.
pub record ScannedShard : Type 0 where
  pub version : ℕ
  pub owner_addr : String
  pub claimed_at : Time
  pub metadata_json : String

module _ (server : Server) where
  -- `Scan` of a column into a variable that cannot hold NULL
  abbrev pub scan_column : {A : Type 0} → Option A → Answer A
  scan_column (some a) = value a
  scan_column none = fault server.scan_error

  unfoldable pub scan_shard : Row → Answer ScannedShard
  scan_shard r = elim (scan_column r.shard_version) [
    | fault e ↦ fault e
    | value v ↦ elim (scan_column r.shard_owner_addr) [
      | fault e ↦ fault e
      | value addr ↦ elim (scan_column r.shard_claimed_at) [
        | fault e ↦ fault e
        | value at ↦ elim (scan_column r.shard_metadata) [
          | fault e ↦ fault e
          | value json ↦
              value
                (record { version = v; owner_addr = addr; claimed_at = at; metadata_json = json })
        ]
      ]
    ]
  ]

  abbrev pub then_scan : {A : Type 0} {B : Type 0} → Option A → (A → Answer B) → Answer B
  then_scan (some a) f = f a
  then_scan none f = fault server.scan_error

  -- `Scan` into variables of which only the payload and the policy can hold NULL.
  unfoldable pub scan_timer : Row → Answer ScannedTimer
  scan_timer r = then_scan r.timer_id (λ timer_id. then_scan r.timer_namespace (λ timer_namespace.
      then_scan r.timer_callback_url (λ timer_callback_url.
        then_scan r.timer_callback_timeout_seconds (λ secs.
          then_scan r.timer_created_at (λ created_at. then_scan r.timer_attempts (λ attempts.
            value (record {
              row = r;
              timer_id = timer_id;
              timer_namespace = timer_namespace;
              timer_callback_url = timer_callback_url;
              timer_callback_timeout_secs = secs;
              timer_created_at = created_at;
              timer_attempts = attempts;
            })))))))

  module _ {Json : Type 0} (codec : Codec Json) where
    -- The timer of scanned columns; the update and the execution time keep their zero values.
    unfoldable pub timer_of : ScannedTimer → Result (DbTimer Json)
    unfolding decode_json
    timer_of s = do
      payload ← decode_json codec "failed to unmarshal timer payload" s.row.timer_payload
      retry_policy ←
          decode_json codec "failed to unmarshal timer retry policy" s.row.timer_retry_policy
      ok (record {
        id = s.timer_id;
        timer_uuid = s.row.timer_uuid;
        namespace = s.timer_namespace;
        execute_at = s.row.timer_execute_at;
        callback_url = s.timer_callback_url;
        payload = payload;
        retry_policy = retry_policy;
        callback_timeout_seconds = s.timer_callback_timeout_secs;
        created_at = s.timer_created_at;
        updated_at = 0;
        executed_at = 0;
        attempts = s.timer_attempts;
      })

    abbrev pub scan_first : Answer Row → Answer ScannedTimer
    scan_first (fault e) = fault e
    scan_first (value r) = scan_timer r
