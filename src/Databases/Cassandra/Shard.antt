-- ===== src/Databases/Cassandra/Shard.antt =====
-- The shard records of the Cassandra store (server/databases/cassandra/cassandra_timer_store_impl.go):
-- `ClaimShardOwnership` and `UpdateShardMetadata`.
use durable_timer.Base.{
  ℕ, String, Bool, Option, none, some, [], ◌∷◌, str_eq, ◌&&◌, ◌==◌, if◌then◌else◌,
}
use durable_timer.Databases.Models.{
  Time, DbError, ShardInfo, ShardMetadata, row_type_shard, default_metadata, new_generic_db_error,
  new_db_error_on_shard_condition_fail,
}
use durable_timer.Databases.Results.{Result, ok, err, Answer, value, fault, or_generic, ◌>>=◌}
use durable_timer.Databases.Codec.{Codec}
use durable_timer.Databases.Rows.{Row, new_shard_row, claim_row, set_metadata, next_version}
use durable_timer.Databases.Sql.{select}
use durable_timer.Databases.Cassandra.Cql.{
  Session, insert_if_not_exists, update_if_version, shard_key, first_row, or_zero,
}

-- WHERE shard_id = ? AND row_type = 1
unfoldable pub is_shard_of : ℕ → Row → Bool
is_shard_of shard_id r = r.shard_id == shard_id && r.row_type == row_type_shard

module _ {Json : Type 0} (session : Session) (codec : Codec Json) where
  open session use {Db}

  -- Whether a conditional statement was applied.
  abbrev pub check_applied : String → DbError → Answer Bool → Result (Unit {0})
  check_applied msg refused (fault e) = err (new_generic_db_error msg (some e))
  check_applied msg refused (value applied) = if applied then ok tt else err refused

  -- The claim of a shard that has no row.
  unfoldable pub create_shard : ℕ → String → Time → Db → Result (Option ShardInfo × ShardInfo) × Db
  create_shard shard_id owner_addr now db = elim (codec.marshal_metadata default_metadata) [
    | fault e ↦ (err (new_generic_db_error "failed to marshal default metadata" (some e)), db)
    | value json ↦
        let (res, db') =
          session.cas (insert_if_not_exists (new_shard_row shard_id owner_addr now json)) db in
        (
          (do
            _ ←
                check_applied "failed to insert new shard record"
                  (new_db_error_on_shard_condition_fail
                    "failed to insert shard record due to concurrent insert" none)
                  res
            ok (
              none,
              record {
                shard_id = shard_id;
                owner_addr = owner_addr;
                shard_version = 1;
                metadata = default_metadata;
                claimed_at = now;
              },
            )),
          db',
        )
  ]

  -- The metadata of the row; a text that does not parse is an error.
  unfoldable pub parse_metadata : String → Result ShardMetadata
  parse_metadata json =
      if str_eq json ""
      then ok default_metadata
      else or_generic "failed to unmarshal shard metadata" (codec.unmarshal_metadata json)

  -- The claim of a shard whose row was read.
  unfoldable pub take_over :
      ℕ → String → Time → Row → Db → Result (Option ShardInfo × ShardInfo) × Db
  unfolding parse_metadata
  take_over shard_id owner_addr now r db =
      let version = or_zero 0 r.shard_version in
      elim (parse_metadata (or_zero "" r.shard_metadata)) [
        | err e ↦ (err e, db)
        | ok metadata ↦
            let (res, db') =
              session.cas
                (update_if_version (claim_row (next_version version) owner_addr now)
                  (shard_key shard_id) version)
                db in
            (
              (do
                _ ←
                    check_applied "failed to update shard record"
                      (new_db_error_on_shard_condition_fail
                        "shard ownership claim failed due to concurrent modification" none)
                      res
                ok (
                  some (record {
                    shard_id = shard_id;
                    owner_addr = or_zero "" r.shard_owner_addr;
                    shard_version = version;
                    metadata = metadata;
                    claimed_at = or_zero 0 r.shard_claimed_at;
                  }),
                  record {
                    shard_id = shard_id;
                    owner_addr = owner_addr;
                    shard_version = next_version version;
                    metadata = metadata;
                    claimed_at = now;
                  },
                )),
              db',
            )
      ]

  -- `ClaimShardOwnership` at the time `now`
  unfoldable pub claim_shard_ownership :
      Time → ℕ → String → Db → Result (Option ShardInfo × ShardInfo) × Db
  unfolding create_shard take_over is_shard_of
  claim_shard_ownership now shard_id owner_addr db =
      let (it, db1) = session.iterate (select (is_shard_of shard_id)) db in
      elim (first_row session.not_found it) [
        | fault e ↦
            if e.is_not_found
            then create_shard shard_id owner_addr now db1
            else (err (new_generic_db_error "failed to read shard record" (some e)), db1)
        | value r ↦ take_over shard_id owner_addr now r db1
      ]

  -- `UpdateShardMetadata`: a batch of one conditional statement
  unfoldable pub update_shard_metadata : ℕ → ℕ → ShardMetadata → Db → Option DbError × Db
  update_shard_metadata shard_id shard_version metadata db =
      elim (codec.marshal_metadata metadata) [
        | fault e ↦ (some (new_generic_db_error "failed to marshal metadata" (some e)), db)
        | value json ↦
            let (res, db') =
              session.batch_cas
                (update_if_version (set_metadata json) (shard_key shard_id) shard_version ∷ [])
                db in
            (
              elim res [
                | fault e ↦ some (new_generic_db_error "failed to update shard metadata" (some e))
                | value c ↦
                    if c.applied
                    then none
                    else some (
                        new_db_error_on_shard_condition_fail
                          "shard version mismatch during metadata update" none)
              ],
              db',
            )
      ]
