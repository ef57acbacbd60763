-- ===== src/Databases/Mongodb/Shard.antt =====
-- The shard records of the MongoDB store (server/databases/mongodb/mongodb_timer_store_impl.go):
-- `ClaimShardOwnership` and `UpdateShardMetadata`.
use durable_timer.Base.{ℕ, String, Bool, Option, none, some, any, ◌==◌, if◌then◌else◌}
use durable_timer.Databases.Models.{
  Time, GoError, DbError, ShardInfo, ShardMetadata, default_metadata, new_generic_db_error,
  new_db_error_on_shard_condition_fail,
}
use durable_timer.Databases.Results.{Result, ok, err, Answer, value, fault, ◌>>=◌, error_of}
use durable_timer.Databases.Codec.{Codec, metadata_or_default}
use durable_timer.Databases.Rows.{
  Row, is_shard_row, is_shard_row_at, new_shard_row, claim_row, set_metadata, next_version,
}
use durable_timer.Databases.Mongodb.Driver.{Client, insert_one, update_one, or_zero}

-- E11000 duplicate key error
abbrev pub duplicate_key : ℕ
duplicate_key = 11000

-- `isDuplicateKeyError`
unfoldable pub is_duplicate_key_error : GoError → Bool
unfolding any
is_duplicate_key_error e = any (λ code. code == duplicate_key) e.write_codes

-- The number of documents that an update matched, or the error for none.
abbrev pub check_matched : String → DbError → Answer ℕ → Result (Unit {0})
check_matched failed no_match (fault e) = err (new_generic_db_error failed (some e))
check_matched failed no_match (value n) = if n == 0 then err no_match else ok tt

module _ {Json : Type 0} (client : Client) (codec : Codec Json) where
  open client use {Db}

  -- `extractShardInfoFromMongoDoc`
  unfoldable pub extract_shard_info : Row → ℕ → ShardInfo
  unfolding metadata_or_default
  extract_shard_info doc shard_id = record {
    shard_id = shard_id;
    owner_addr = or_zero "" doc.shard_owner_addr;
    shard_version = or_zero 0 doc.shard_version;
    metadata = metadata_or_default codec (or_zero "" doc.shard_metadata);
    claimed_at = or_zero 0 doc.shard_claimed_at;
  }

  -- The claim of a shard that has no document.
  unfoldable pub create_shard : ℕ → String → Time → Db → Result (Option ShardInfo × ShardInfo) × Db
  unfolding is_duplicate_key_error
  create_shard shard_id owner_addr now db = elim (codec.marshal_metadata default_metadata) [
    | fault e ↦ (err (new_generic_db_error "failed to marshal default metadata" (some e)), db)
    | value json ↦
        let (res, db') =
          client.write (insert_one (new_shard_row shard_id owner_addr now json)) db in
        elim res [
          | fault e ↦ (
            err (
                if is_duplicate_key_error e
                then new_db_error_on_shard_condition_fail
                    "failed to insert shard record due to concurrent insert" (some e)
                else new_generic_db_error "failed to insert new shard record" (some e)),
            db',
          )
          | value _ ↦ (
            ok (
              none,
              record {
                shard_id = shard_id;
                owner_addr = owner_addr;
                shard_version = 1;
                metadata = default_metadata;
                claimed_at = now;
              },
            ),
            db',
          )
        ]
  ]

  -- The claim of a shard whose document was read.
  unfoldable pub take_over :
      ℕ → String → Time → Row → Db → Result (Option ShardInfo × ShardInfo) × Db
  unfolding extract_shard_info
  take_over shard_id owner_addr now doc db =
      let previous = extract_shard_info doc shard_id in
      let version = or_zero 0 doc.shard_version in
      let (res, db') =
        client.write
          (update_one (is_shard_row_at shard_id version)
            (claim_row (next_version version) owner_addr now))
          db in
      (
        (do
          _ ←
              check_matched "failed to update shard record"
                (new_db_error_on_shard_condition_fail
                  "shard ownership claim failed due to concurrent modification" none)
                res
          ok (
            some previous,
            record {
              shard_id = shard_id;
              owner_addr = owner_addr;
              shard_version = next_version version;
              metadata = previous.metadata;
              claimed_at = now;
            },
          )),
        db',
      )

  -- `ClaimShardOwnership` at the time `now`
  unfoldable pub claim_shard_ownership :
      Time → ℕ → String → Db → Result (Option ShardInfo × ShardInfo) × Db
  unfolding create_shard take_over
  claim_shard_ownership now shard_id owner_addr db =
      let (found, db1) = client.find_one (is_shard_row shard_id) db in
      elim found [
        | fault e ↦ (err (new_generic_db_error "failed to read shard record" (some e)), db1)
        | value none ↦ create_shard shard_id owner_addr now db1
        | value (some doc) ↦ take_over shard_id owner_addr now doc db1
      ]

  -- `UpdateShardMetadata`
  unfoldable pub update_shard_metadata : ℕ → ℕ → ShardMetadata → Db → Option DbError × Db
  update_shard_metadata shard_id shard_version metadata db =
      elim (codec.marshal_metadata metadata) [
        | fault e ↦ (some (new_generic_db_error "failed to marshal shard metadata" (some e)), db)
        | value json ↦
            let (res, db') =
              client.write (update_one (is_shard_row_at shard_id shard_version) (set_metadata json))
                db in
            (
              error_of (
                  check_matched "failed to update shard metadata"
                    (new_db_error_on_shard_condition_fail
                      "shard version mismatch during metadata update" none)
                    res),
              db',
            )
      ]
