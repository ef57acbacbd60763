-- ===== src/Databases/Postgresql/Agreement.antt =====
-- Where the PostgreSQL store does what the MySQL store does
-- (server/databases/postgresql/postgresql_timer_store_impl.go, mysql/mysql_timer_store_impl.go).
use durable_timer.Base.{
  none, some, true, false, ◌==◌, ◌⊎◌, Bool-cases, ℕ, String, ◌≡◌, refl, List, [], ◌∷◌, arith, inl,
  inr,
}
use durable_timer.Databases.Models.{new_db_error_not_exists, Uuid, RangeGetTimersRequest}
use durable_timer.Databases.Results.{Result-cases, Answer, Answer-cases, value}
use durable_timer.Databases.Rows.{Row, is_timer_row, is_timer_in_range}
use durable_timer.Databases.Sql.{Server, delete, select, select_in_order, first_row}
use durable_timer.Databases.Sql.Columns.{ScannedTimer, scan_timer, timer_of, scan_first}
use durable_timer.Databases.Codec.{Codec, decode_json}
use durable_timer.Databases.Sql.Session.{with_shard_version, finish, read_shard_version}
use durable_timer.Databases.Mysql.Read
use durable_timer.Databases.Mysql.Write
use durable_timer.Databases.Mysql.Range
use durable_timer.Databases.Postgresql.Write.{delete_timer}
use durable_timer.Databases.Postgresql.Read.{
  parsed_timer_of, timer_of_answer, get_timer, read_rows, range_get_timers,
}

module _ {Json : Type 0} (server : Server) (codec : Codec Json) (parse_uuid : Uuid → Answer Uuid)
    (parses : (u : Uuid) → parse_uuid u ≡ value u) where
  parsed-timer_of :
      (s : ScannedTimer) → parsed_timer_of server codec parse_uuid s ≡ timer_of server codec s
  unfolding parsed_timer_of timer_of
  parsed-timer_of s =
      let payload = decode_json codec "failed to unmarshal timer payload" s.row.timer_payload in
      let policy =
        decode_json codec "failed to unmarshal timer retry policy" s.row.timer_retry_policy in
      elim (Result-cases payload) [
        | inr (error, e) ↦ ground (arith, parses s.row.timer_uuid, e)
        | inl (j, e) ↦ elim (Result-cases policy) [
          | inr (error, e1) ↦ ground (arith, parses s.row.timer_uuid, e, e1)
          | inl (k, e1) ↦ ground (arith, parses s.row.timer_uuid, e, e1)
        ]
      ]

  read_rows-agrees :
      (rs : List Row) → read_rows server codec parse_uuid rs ≡ Range.read_rows server codec rs
  unfolding read_rows Range.read_rows
  read_rows-agrees [] = refl
  read_rows-agrees (r ∷ rs) = elim (Answer-cases (scan_timer server r)) [
    | inr (error, e) ↦ rw e refl
    | inl (s, e) ↦ ground (arith, e, parsed-timer_of s, read_rows-agrees rs)
  ]

  -- Over one server, and if the text of a UUID parses to it, the PostgreSQL store and the MySQL store
  -- answer `GetTimer` and `RangeGetTimers` alike, errors included.
  pub reads_agree :
      (shard_id : ℕ) (namespace timer_id : String) (request : RangeGetTimersRequest)
      (db : server.Db)
      → (get_timer server codec parse_uuid shard_id namespace timer_id db
          ≡ Read.get_timer server codec shard_id namespace timer_id db)
        × (range_get_timers server codec parse_uuid shard_id request db
            ≡ Range.range_get_timers server codec shard_id request db)
  unfolding get_timer Read.get_timer range_get_timers Range.range_get_timers timer_of_answer
      Read.timer_of_answer
  reads_agree shard_id ns id request db =
      let in_range =
        is_timer_in_range shard_id request.start_timestamp request.start_time_uuid
          request.end_timestamp request.end_time_uuid in
      let first =
        scan_first server codec
          (first_row server.no_rows (server.query (select (is_timer_row shard_id ns id)) db).0) in
      (
        elim (Answer-cases first) [
          | inr (error, e) ↦ ground (arith, e)
          | inl (s, e) ↦ ground (arith, e, parsed-timer_of s)
        ],
        elim (Answer-cases (server.query (select_in_order in_range request.limit) db).0) [
          | inr (error, e) ↦ ground (arith, e)
          | inl (set, e) ↦ ground (arith, e, read_rows-agrees set.rows)
        ],
      )

module _ (server : Server) where
  open server use {Db, Tx}

  -- If the transaction starts, the version that it reads is the caller's, and the deletion answers with
  -- a number of rows, then the PostgreSQL store and the MySQL store do the same where the number is
  -- not 0; where it is 0, the PostgreSQL store rolls back and says that the timer does not exist, and
  -- the MySQL store commits.
  pub deletes_agree_on_existing :
      (shard_id shard_version : ℕ) (namespace timer_id : String) (n : ℕ) (db db1 : Db)
      (tx tx1 tx2 : Tx)
      → server.begin db ≡ (value tx, db1)
      → read_shard_version server shard_id tx ≡ (value shard_version, tx1)
      → server.tx_exec (delete (is_timer_row shard_id namespace timer_id) none) tx1
        ≡ (value (value n), tx2)
      → let deleted = delete_timer server shard_id shard_version namespace timer_id db in
        let deleted' = Write.delete_timer server shard_id shard_version namespace timer_id db in
        (((n == 0) ≡ false) × (deleted ≡ deleted'))
        ⊎ (((n == 0) ≡ true)
            × (deleted
                ≡ (some (new_db_error_not_exists "timer not found" none), server.rollback tx2))
            × (deleted'.1 ≡ (server.commit tx2).1))
  unfolding delete_timer Write.delete_timer with_shard_version finish
  deletes_agree_on_existing s v ns id n db db1 tx tx1 tx2 hb hr hd = elim (Bool-cases (n == 0)) [
    | inl e ↦ inr (ground (arith, e, hb, hr, hd))
    | inr e ↦ inl (ground (arith, e, hb, hr, hd))
  ]
