-- ===== src/Databases/Mysql/Read/RoundTrip.antt =====
-- What the MySQL store reads back of a timer that it wrote
-- (server/databases/mysql/mysql_timer_store_impl.go).
use durable_timer.Base.{ℕ, ◌≡◌, arith}
use durable_timer.Databases.Models.{DbTimer}
use durable_timer.Databases.Results.{ok}
use durable_timer.Databases.Sql.{Server}
use durable_timer.Databases.Codec.{Codec, Encoded, encode}
use durable_timer.Databases.Codec.RoundTrip.{AllDecode, decode-encode, encode-parts}
use durable_timer.Databases.Rows.{timer_row}
use durable_timer.Databases.Sql.Columns.{scan_timer, timer_of}
use durable_timer.Databases.Mysql.Read.{timer_of_answer}

module _ {Json : Type 0} (codec : Codec Json) where
  module _ (server : Server) where
    -- A timer whose payload and policy are encoded by texts that decode to them is read back from the
    -- row that an insert of it makes, with all its fields but the time of the last update and of the
    -- execution, which have no column.
    pub timer_of-timer_row :
        (shard_id : ℕ) (timer : DbTimer Json) (j : Encoded)
        → AllDecode codec timer.payload
        → AllDecode codec timer.retry_policy
        → encode codec timer.payload timer.retry_policy ≡ ok j
        → timer_of_answer server codec
            (scan_timer server (timer_row shard_id timer j.payload_json j.retry_policy_json))
          ≡ ok (record timer { updated_at = 0; executed_at = 0 })
    unfolding timer_of_answer scan_timer timer_of timer_row
    timer_of-timer_row shard_id timer j d d' h =
        let (hp, hq) = encode-parts codec timer.payload timer.retry_policy j h in
        ground (
          arith,
          decode-encode codec _ "failed to unmarshal timer payload" timer.payload j.payload_json d
              hp,
          decode-encode codec _ "failed to unmarshal timer retry policy" timer.retry_policy
              j.retry_policy_json d' hq,
        )
