-- ===== src/Databases/Cassandra/Write.antt =====
-- The creation of timers and the deletion of ranges in the Cassandra store
-- (server/databases/cassandra/cassandra_timer_store_impl.go).
use durable_timer.Base.{ℕ, String, Option, none, some, List, [], ◌∷◌, if◌then◌else◌}
use durable_timer.Databases.Models.{
  DbError, DbTimer, RangeDeleteTimersRequest, RangeDeleteTimersResponse, new_generic_db_error,
  new_db_error_on_shard_condition_fail,
}
use durable_timer.Databases.Results.{Result, ok, err, Answer, value, fault, ◌>>=◌, error_of}
use durable_timer.Databases.Codec.{Codec, Encoded, encode}
use durable_timer.Databases.Rows.{Row, timer_row, is_timer_in_range}
use durable_timer.Databases.Cassandra.Cql.{
  Session, Cql, Cas, insert, update_if_version, delete_range, shard_key, or_zero,
}

-- SET shard_version = ?
unfoldable pub set_version : ℕ → Row → Row
set_version version r = record r { shard_version = some version }

-- The statement of a batch that lets it be applied only at the version of the shard.
unfoldable pub check_version : ℕ → ℕ → Cql
unfolding set_version
check_version shard_id shard_version =
    update_if_version (set_version shard_version) (shard_key shard_id) shard_version

-- What a batch that was not applied, or that failed, says.
unfoldable pub check_batch : String → String → Answer Cas → Result (Unit {0})
check_batch failed mismatch (fault e) = err (new_generic_db_error failed (some e))
check_batch failed mismatch (value c) = if c.applied then ok tt else elim c.previous_version [
  | some (some _) ↦ err (new_db_error_on_shard_condition_fail mismatch none)
  | some none ↦ err (new_generic_db_error "shard record does not exist" none)
  | none ↦ err (new_generic_db_error "shard record does not exist" none)
]

module _ {Json : Type 0} (codec : Codec Json) where
  -- Both texts, where a nil value is the empty text.
  unfoldable pub encode_texts : Option Json → Option Json → Result Encoded
  unfolding encode
  encode_texts payload retry_policy = do
    j ← encode codec payload retry_policy
    ok (record {
      payload_json = some (or_zero "" j.payload_json);
      retry_policy_json = some (or_zero "" j.retry_policy_json);
    })

  -- The statements that insert the timers of a batch.
  unfoldable pub insert_statements : ℕ → List (DbTimer Json) → Result (List Cql)
  unfolding encode_texts timer_row
  insert_statements shard_id [] = ok []
  insert_statements shard_id (timer ∷ timers) = do
    j ← encode_texts timer.payload timer.retry_policy
    rest ← insert_statements shard_id timers
    ok (insert (timer_row shard_id timer j.payload_json j.retry_policy_json) ∷ rest)

-- The range of a request
abbrev pub range_of : ℕ → RangeDeleteTimersRequest → Cql
range_of shard_id request = delete_range (
    is_timer_in_range shard_id request.start_timestamp request.start_time_uuid request.end_timestamp
      request.end_time_uuid)

module _ {Json : Type 0} (session : Session) (codec : Codec Json) where
  open session use {Db}

  -- `CreateTimer`
  unfoldable pub create_timer : ℕ → ℕ → String → DbTimer Json → Db → Option DbError × Db
  unfolding encode_texts timer_row check_version check_batch
  create_timer shard_id shard_version namespace timer db =
      elim (encode_texts codec timer.payload timer.retry_policy) [
        | err e ↦ (some e, db)
        | ok j ↦
            let row = timer_row shard_id timer j.payload_json j.retry_policy_json in
            let (res, db') =
              session.batch_cas (check_version shard_id shard_version ∷ insert row ∷ []) db in
            (
              error_of (
                  check_batch "failed to execute atomic timer creation batch"
                    "shard version mismatch during timer creation" res),
              db',
            )
      ]

  -- `CreateTimerNoLock`
  unfoldable pub create_timer_no_lock : ℕ → String → DbTimer Json → Db → Option DbError × Db
  unfolding encode_texts timer_row
  create_timer_no_lock shard_id namespace timer db =
      elim (encode_texts codec timer.payload timer.retry_policy) [
        | err e ↦ (some e, db)
        | ok j ↦
            let (res, db') =
              session.exec (insert (timer_row shard_id timer j.payload_json j.retry_policy_json))
                db in
            (
              elim res [
                | none ↦ none
                | some e ↦ some (new_generic_db_error "failed to insert timer" (some e))
              ],
              db',
            )
      ]

  abbrev nothing_counted : Result (Unit {0}) → Result RangeDeleteTimersResponse
  nothing_counted (ok _) = ok (record { deleted_count = 0 })
  nothing_counted (err e) = err e

  -- `RangeDeleteWithBatchInsertTxn`, which does not know how many timers it deleted.
  unfoldable pub range_delete_with_batch_insert_txn :
      ℕ
      → ℕ
      → RangeDeleteTimersRequest
      → List (DbTimer Json)
      → Db
      → Result RangeDeleteTimersResponse × Db
  unfolding insert_statements check_version check_batch
  range_delete_with_batch_insert_txn shard_id shard_version request timers_to_insert db =
      elim (insert_statements codec shard_id timers_to_insert) [
        | err e ↦ (err e, db)
        | ok inserts ↦
            let (res, db') =
              session.batch_cas
                (check_version shard_id shard_version ∷ range_of shard_id request ∷ inserts) db in
            (
              nothing_counted (
                  check_batch "failed to execute atomic delete and insert batch"
                    "shard version mismatch during delete and insert operation" res),
              db',
            )
      ]

  -- `RangeDeleteWithLimit`, which ignores the limit.
  unfoldable pub range_delete_with_limit :
      ℕ → RangeDeleteTimersRequest → ℕ → Db → Result RangeDeleteTimersResponse × Db
  range_delete_with_limit shard_id request limit db =
      let (res, db') = session.exec (range_of shard_id request) db in
      (
        elim res [
          | none ↦ ok (record { deleted_count = 0 })
          | some e ↦ err (new_generic_db_error "failed to execute range delete" (some e))
        ],
        db',
      )
