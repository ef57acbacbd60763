-- ===== src/Databases/Sql/Claim.antt =====
-- `ClaimShardOwnership` of the SQL stores (server/databases/mysql/mysql_timer_store_impl.go,
-- postgresql/postgresql_timer_store_impl.go), over the test that tells the error of a duplicate key.
use durable_timer.Base.{ℕ, String, Bool, Option, none, some, if◌then◌else◌}
use durable_timer.Databases.Models.{
  Time, GoError, ShardInfo, default_metadata, new_error, new_generic_db_error,
  new_db_error_on_shard_condition_fail,
}
use durable_timer.Databases.Results.{Result, ok, err, value, fault, ◌>>=◌, or_generic}
use durable_timer.Databases.Rows.{
  is_shard_row, is_shard_row_at, new_shard_row, claim_row, next_version,
}
use durable_timer.Databases.Sql.{Server, insert, update, select, first_row}
use durable_timer.Databases.Codec.{Codec, metadata_or_default}
use durable_timer.Databases.Sql.Columns.{scan_shard, ScannedShard}
use durable_timer.Databases.Sql.Session.{check_rows}

module _ {Json : Type 0} (server : Server) (codec : Codec Json)
    (is_duplicate : GoError → Bool) where
  open server use {Db}

  -- The claim of a shard that has no row.
  unfoldable pub create_shard : ℕ → String → Time → Db → Result (Option ShardInfo × ShardInfo) × Db
  create_shard shard_id owner_addr now db = elim (codec.marshal_metadata default_metadata) [
    | fault e ↦ (err (new_generic_db_error "failed to marshal default metadata" (some e)), db)
    | value json ↦
        let (res, db') = server.exec (insert (new_shard_row shard_id owner_addr now json)) db in
        elim res [
          | fault e ↦ (
            err (
                if is_duplicate e
                then new_db_error_on_shard_condition_fail
                    "failed to insert shard record due to concurrent insert" (some e)
                else new_generic_db_error "failed to insert new shard record" (some e)),
            db',
          )
          | value _ ↦ (
            ok (
              none,
              record {
                shard_id = shard_id;
                owner_addr = owner_addr;
                shard_version = 1;
                metadata = default_metadata;
                claimed_at = now;
              },
            ),
            db',
          )
        ]
  ]

  -- The claim of a shard whose row was read.
  unfoldable pub take_over :
      ℕ → String → Time → ScannedShard → Db → Result (Option ShardInfo × ShardInfo) × Db
  unfolding metadata_or_default
  take_over shard_id owner_addr now row db =
      let metadata = metadata_or_default codec row.metadata_json in
      let (res, db') =
        server.exec
          (update (claim_row (next_version row.version) owner_addr now)
            (is_shard_row_at shard_id row.version))
          db in
      (
        (do
          rows_affected ← or_generic "failed to update shard record" res
          _ ←
              check_rows
                (new_db_error_on_shard_condition_fail
                  "shard ownership claim failed due to concurrent modification"
                  (some (new_error "no rows affected")))
                rows_affected
          ok (
            some (record {
              shard_id = shard_id;
              owner_addr = row.owner_addr;
              shard_version = row.version;
              metadata = metadata;
              claimed_at = row.claimed_at;
            }),
            record {
              shard_id = shard_id;
              owner_addr = owner_addr;
              shard_version = next_version row.version;
              metadata = metadata;
              claimed_at = now;
            },
          )),
        db',
      )

  -- `ClaimShardOwnership` at the time `now`
  unfoldable pub claim : Time → ℕ → String → Db → Result (Option ShardInfo × ShardInfo) × Db
  unfolding create_shard take_over scan_shard
  claim now shard_id owner_addr db =
      let (res, db1) = server.query (select (is_shard_row shard_id)) db in
      elim (first_row server.no_rows res) [
        | fault e ↦
            if e.is_no_rows
            then create_shard shard_id owner_addr now db1
            else (err (new_generic_db_error "failed to read shard record" (some e)), db1)
        | value r ↦ elim (scan_shard server r) [
          | fault e ↦ (err (new_generic_db_error "failed to read shard record" (some e)), db1)
          | value row ↦ take_over shard_id owner_addr now row db1
        ]
      ]
