-- ===== src/Databases/Mysql/Read.antt =====
-- How the MySQL store reads timers (server/databases/mysql/mysql_timer_store_impl.go): the columns of
-- a row, and `GetTimer`.
pub mod RoundTrip
use durable_timer.Base.{ℕ, String, Option, none, some, if◌then◌else◌, str_eq}
use durable_timer.Databases.Models.{GoError, DbTimer, new_generic_db_error, new_db_error_not_exists}
use durable_timer.Databases.Results.{Result, ok, err, Answer, value, fault, ◌>>=◌}
use durable_timer.Databases.Rows.{Row, is_timer_row}
use durable_timer.Databases.Sql.{Server, select, first_row}
use durable_timer.Databases.Codec.{Codec, decode_json}
use durable_timer.Databases.Sql.Columns.{
  scan_column, timer_of, scan_timer, ScannedTimer, scan_first,
}

module _ (server : Server) {Json : Type 0} (codec : Codec Json) where
  -- What `GetTimer` makes of the row that it reads.
  unfoldable pub timer_of_answer : Answer ScannedTimer → Result (DbTimer Json)
  unfolding timer_of
  timer_of_answer (value s) = timer_of server codec s
  timer_of_answer (fault e) = err (
      if e.is_no_rows
      then new_db_error_not_exists "timer not found" (some e)
      else new_generic_db_error "failed to query timer" (some e))

  -- `GetTimer`
  unfoldable pub get_timer : ℕ → String → String → server.Db → Result (DbTimer Json) × server.Db
  unfolding scan_timer timer_of_answer
  get_timer shard_id namespace timer_id db =
      let (res, db') = server.query (select (is_timer_row shard_id namespace timer_id)) db in
      (timer_of_answer (scan_first server codec (first_row server.no_rows res)), db')
