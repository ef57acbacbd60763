-- ===== src/Databases/Cassandra/Lookup.antt =====
-- How the Cassandra store (server/databases/cassandra/cassandra_timer_store_impl.go) finds the primary
-- key of a timer: by the index on the timer's id, with the namespace compared in the code.
use durable_timer.Base.{
  ℕ, String, Bool, Option, none, some, List, [], ◌∷◌, str_eq, ◌&&◌, ◌==◌, if◌then◌else◌,
}
use durable_timer.Databases.Models.{DbError, row_type_timer, new_generic_db_error}
use durable_timer.Databases.Results.{Result, ok, err}
use durable_timer.Databases.Rows.{Row, text_is}
use durable_timer.Databases.Sql.{select}
use durable_timer.Databases.Cassandra.Cql.{Session, Iterator, or_zero}

-- WHERE shard_id = ? AND timer_id = ?
unfoldable pub has_timer_id : ℕ → String → Row → Bool
has_timer_id shard_id timer_id r = r.shard_id == shard_id && text_is r.timer_id timer_id

-- The test of the loop over the rows
unfoldable pub is_match : ℕ → String → Row → Bool
is_match shard_id namespace r =
    r.shard_id == shard_id
    && r.row_type == row_type_timer
    && str_eq (or_zero "" r.timer_namespace) namespace

-- The loop, which stops at the first row that matches.
unfoldable pub find_timer : ℕ → String → List Row → Option Row
unfolding is_match
find_timer shard_id namespace [] = none
find_timer shard_id namespace (r ∷ rs) =
    let rest = find_timer shard_id namespace rs in
    if is_match shard_id namespace r then some r else rest

-- What the loop and `Close` give; `missing` is the error for a timer that is not there.
unfoldable pub found_or_error : ℕ → String → DbError → Iterator → Result Row
unfolding find_timer
found_or_error shard_id namespace missing it = elim it.close_err [
  | some e ↦ err (new_generic_db_error "failed to close lookup iterator" (some e))
  | none ↦ elim (find_timer shard_id namespace it.rows) [ none ↦ err missing | some r ↦ ok r ]
]

module _ (session : Session) where
  open session use {Db}

  unfoldable pub look_up : ℕ → String → String → DbError → Db → Result Row × Db
  unfolding found_or_error has_timer_id
  look_up shard_id namespace timer_id missing db =
      let (it, db') = session.iterate (select (has_timer_id shard_id timer_id)) db in
      (found_or_error shard_id namespace missing it, db')
