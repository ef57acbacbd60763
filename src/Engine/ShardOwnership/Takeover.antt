-- ===== src/Engine/ShardOwnership/Takeover.antt =====
-- The ownership of a shard (server/engine/shard_ownership.go) over the MySQL store
-- (server/databases/mysql/mysql_timer_store_impl.go), when another owner may have claimed the shard.
use durable_timer.Base.{ℕ, String, ◌≡◌, ◌||◌, ◌==◌, arith, if◌then◌else◌}
use durable_timer.Databases.Models.{Time, Uuid, ShardMetadata}
use durable_timer.Databases.Sql.{Server, update}
use durable_timer.Databases.Codec.{Codec}
use durable_timer.Databases.Results.{Answer, value}
use durable_timer.Databases.Rows.{is_shard_row_at, set_metadata}
use durable_timer.Databases.Sql.Laws.{TableView}
use durable_timer.Databases.Table.{with_rows_changed}
use durable_timer.Databases.Mysql.{mysql_timer_store}
use durable_timer.Databases.Mysql.Shard
use durable_timer.Engine.ShardOwnership.{ShardOwnership, update_shard_metadata}

module _ {Json : Type 0} (server : Server) (view : TableView server) (codec : Codec Json)
    (md5 : String → Uuid) (now : server.Db → Time) where
  -- Over a server that keeps the laws of a table, for metadata that can be encoded and an update that
  -- the server carries out: an owner whose version no row of the shard has changes nothing in the table,
  -- keeps the metadata it held and signals its loss; any other owner changes the metadata of the
  -- shard's row and its own, and signals nothing new.
  pub owner_after_claim :
      (metadata : ShardMetadata) (json : String) (s : ShardOwnership) (db : server.Db)
      (n : Answer ℕ)
      → codec.marshal_metadata metadata ≡ value json
      → (server.exec (update (set_metadata json) (is_shard_row_at s.shard_id s.shard_version)) db).0
        ≡ value n
      → let p = is_shard_row_at s.shard_id s.shard_version in
        let is_stale = view.rows db p == 0 in
        let (_, s', db') =
          update_shard_metadata (mysql_timer_store server codec md5 now) metadata s db in
        (s'.is_released ≡ (s.is_released || is_stale))
        × (s'.shard_metadata ≡ (if is_stale then s.shard_metadata else metadata))
        × (view.rows db' ≡ (
            if is_stale
            then view.rows db
            else with_rows_changed (λ r. view.stored (set_metadata json r)) p (view.rows db)))
  unfolding update_shard_metadata Shard.update_shard_metadata
  owner_after_claim metadata json s db n h e =
      let p = is_shard_row_at s.shard_id s.shard_version in
      ground (
        arith,
        h,
        e,
        view.exec_update (set_metadata json) p db n e,
        view.none_changed (λ r. view.stored (set_metadata json r)) p db,
      )
