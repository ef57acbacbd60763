-- ===== src/Databases/Sql/Claimed.antt =====
-- What `ClaimShardOwnership` of the SQL stores (server/databases/mysql/mysql_timer_store_impl.go,
-- postgresql/postgresql_timer_store_impl.go) makes of the table.
use durable_timer.Base.{ℕ, Bool, String, ◌≡◌, ◌<◌, Option, none, some}
use durable_timer.Databases.Models.{Time, GoError, ShardInfo, ShardMetadata, default_metadata}
use durable_timer.Databases.Results.{Result, ok, err, value}
use durable_timer.Databases.Rows.{is_shard_row_at, new_shard_row, claim_row, next_version}
use durable_timer.Databases.Sql.{Server}
use durable_timer.Databases.Codec.{Codec}
use durable_timer.Databases.Table.{Table, with_row, with_rows_changed}
use durable_timer.Databases.Sql.Laws.{TableView}

module _ (server : Server) (view : TableView server) {Json : Type 0} (codec : Codec Json)
    (is_duplicate : GoError → Bool) where
  open server use {Db}
  open view use {rows}

  module _ (now : Time) (shard_id : ℕ) (owner_addr : String) where
    -- The shard as the caller holds it, at a version.
    abbrev pub held_at : ℕ → ShardMetadata → ShardInfo
    held_at version metadata = record {
      shard_id = shard_id;
      owner_addr = owner_addr;
      shard_version = version;
      metadata = metadata;
      claimed_at = now;
    }

    -- A claim that failed left the table as it was. One that found no owner inserted the row of the shard
    -- at version 1 with the default metadata. One that found an owner before it found a row of the shard at
    -- that owner's version, and wrote itself and the next version into such rows; it keeps the metadata.
    unfoldable pub Claims : Table → Result (Option ShardInfo × ShardInfo) × Db → Type 0
    Claims before (err _, db') = rows db' ≡ before
    Claims before (ok (none, current), db') =
        (current ≡ held_at 1 default_metadata)
        × ((json : String) × (codec.marshal_metadata default_metadata ≡ value json)
            × (rows db'
                ≡ with_row (view.stored (new_shard_row shard_id owner_addr now json)) before))
    Claims before (ok (some previous, current), db') =
        (current ≡ held_at (next_version previous.shard_version) previous.metadata)
        × (0 < before (is_shard_row_at shard_id previous.shard_version))
        × (rows db'
            ≡ with_rows_changed
                (λ r.
                  view.stored (claim_row (next_version previous.shard_version) owner_addr now r))
                (is_shard_row_at shard_id previous.shard_version) before)
