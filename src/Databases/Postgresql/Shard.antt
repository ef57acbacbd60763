-- ===== src/Databases/Postgresql/Shard.antt =====
-- The shard records of the PostgreSQL store
-- (server/databases/postgresql/postgresql_timer_store_impl.go): `ClaimShardOwnership` and
-- `UpdateShardMetadata`.
use durable_timer.Base.{ℕ, String, Bool, false, Option, none, some, str_eq}
use durable_timer.Databases.Models.{
  Time, GoError, DbError, ShardInfo, ShardMetadata, new_error, new_generic_db_error,
  new_db_error_on_shard_condition_fail,
}
use durable_timer.Databases.Results.{Result, value, fault, ◌>>=◌, or_generic, error_of}
use durable_timer.Databases.Rows.{is_shard_row_at, set_metadata}
use durable_timer.Databases.Sql.{Server, update}
use durable_timer.Databases.Codec.{Codec}
use durable_timer.Databases.Sql.Session.{check_rows}
use durable_timer.Databases.Sql.Claim.{claim}

-- The error code of PostgreSQL for a unique constraint violation
abbrev pub unique_violation : String
unique_violation = "23505"

-- `isDuplicateKeyError`
unfoldable pub is_duplicate_key_error : GoError → Bool
is_duplicate_key_error e = elim e.pq_code [
  | none ↦ false
  | some code ↦ str_eq code unique_violation
]

module _ {Json : Type 0} (server : Server) (codec : Codec Json) where
  open server use {Db}

  -- `ClaimShardOwnership` at the time `now`
  unfoldable pub claim_shard_ownership :
      Time → ℕ → String → Db → Result (Option ShardInfo × ShardInfo) × Db
  unfolding claim is_duplicate_key_error
  claim_shard_ownership = claim server codec is_duplicate_key_error

  -- `UpdateShardMetadata`
  unfoldable pub update_shard_metadata : ℕ → ℕ → ShardMetadata → Db → Option DbError × Db
  update_shard_metadata shard_id shard_version metadata db =
      elim (codec.marshal_metadata metadata) [
        | fault e ↦ (some (new_generic_db_error "failed to marshal shard metadata" (some e)), db)
        | value json ↦
            let (res, db') =
              server.exec (update (set_metadata json) (is_shard_row_at shard_id shard_version))
                db in
            (
              error_of (do
                rows_affected ← or_generic "failed to update shard metadata" res
                check_rows
                    (new_db_error_on_shard_condition_fail
                      "shard version mismatch during metadata update"
                      (some (new_error "no rows affected")))
                    rows_affected),
              db',
            )
      ]
