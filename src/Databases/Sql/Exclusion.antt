-- ===== src/Databases/Sql/Exclusion.antt =====
-- Claims of one shard that race with each other (server/databases/mysql/mysql_timer_store_impl.go,
-- postgresql/postgresql_timer_store_impl.go): each has read the shard's row before any of them writes.
use durable_timer.Base.{
  ℕ, ◌≤◌, String, Bool, true, false, ◌≡◌, ◌⊎◌, inl, inr, ◌∙◌, ap, List, arith, ◌==◌, if◌then◌else◌,
  Bool-cases,
}
use durable_timer.Databases.Models.{Time, GoError}
use durable_timer.Databases.Results.{is_ok, Answer-cases}
use durable_timer.Databases.Rows.{Row, is_shard_row_at, claim_row, next_version}
use durable_timer.Databases.Sql.{Server, update}
use durable_timer.Databases.Codec.{Codec}
use durable_timer.Databases.Race.{TakesAll, winners, winners-at_most_one}
use durable_timer.Databases.Table.{with_rows_changed}
use durable_timer.Databases.Sql.Laws.{TableView}
use durable_timer.Databases.Sql.Columns.{ScannedShard}
use durable_timer.Databases.Sql.Claim.{take_over}

module _ (server : Server) (view : TableView server) {Json : Type 0} (codec : Codec Json)
    (is_duplicate : GoError → Bool) where
  open server use {Db}
  open view use {rows}

  changes-away :
      (shard_id version : ℕ) (owner_addr : String) (now : Time) (r : Row)
      → is_shard_row_at shard_id version (
          if is_shard_row_at shard_id version r
          then view.stored (claim_row (next_version version) owner_addr now r)
          else r)
        ≡ false
  unfolding is_shard_row_at claim_row
  changes-away s v owner now r = elim (Bool-cases (is_shard_row_at s v r)) [
    | inr e ↦ ground (arith, e)
    | inl e ↦ ground (arith, e, view.stored_version (claim_row (next_version v) owner now r))
  ]

  none_left :
      (shard_id version : ℕ) (owner_addr : String) (now : Time) (db : Db)
      → with_rows_changed
          (λ r. view.stored (claim_row (next_version version) owner_addr now r))
          (is_shard_row_at shard_id version)
          (rows db)
          (is_shard_row_at shard_id version)
        ≡ 0
  unfolding with_rows_changed
  none_left s v owner now db =
      ap (rows db) (λ i r. changes-away s v owner now r i) ∙ view.rows_never db

  -- The claim of an owner at a time, for a shard whose row was read.
  abbrev pub attempt : ℕ → ScannedShard → String × Time → Db → Bool × Db
  attempt shard_id row (owner_addr, now) db =
      let (res, db1) = take_over server codec is_duplicate shard_id owner_addr now row db in
      (is_ok res, db1)

  abbrev pub left : ℕ → ScannedShard → Db → ℕ
  left shard_id row db = rows db (is_shard_row_at shard_id row.version)

  take_over-cases :
      (shard_id : ℕ) (row : ScannedShard) (owner_addr : String) (now : Time) (db : Db)
      → let (res, db1) = take_over server codec is_duplicate shard_id owner_addr now row db in
        ((is_ok res ≡ true) × (left shard_id row db1 ≡ 0) × ((left shard_id row db == 0) ≡ false))
        ⊎ ((is_ok res ≡ false) × (rows db1 ≡ rows db))
  unfolding take_over
  take_over-cases s row owner now db =
      let p = is_shard_row_at s row.version in
      let f = claim_row (next_version row.version) owner now in
      elim (Answer-cases (server.exec (update f p) db).0) [
        | inr (error, e) ↦ inr (ground (arith, e), view.exec_fault _ db error e)
        | inl (n, e) ↦
            let (count, changed) = view.exec_update f p db n e in
            elim (Bool-cases (rows db p == 0)) [
              | inl nobody ↦ inr (
                ground (arith, e, count, nobody),
                changed ∙ view.none_changed (λ r. view.stored (f r)) p db (ground (arith, nobody)),
              )
              | inr somebody ↦ inl (
                ground (arith, e, count, somebody),
                ap (λ t. t p) changed ∙ none_left s row.version owner now db,
                somebody,
              )
            ]
      ]

  attempt-TakesAll :
      (shard_id : ℕ) (row : ScannedShard) → TakesAll (attempt shard_id row) (left shard_id row)
  attempt-TakesAll s row = record {
    takes = λ a db won. elim (take_over-cases s row a.0 a.1 db) [
      | inl (_, gone, _) ↦ gone
      | inr (lost, _) ↦ absurd (ground (arith, won, lost))
    ];
    late = λ a db gone. elim (take_over-cases s row a.0 a.1 db) [
      | inl (_, _, somebody) ↦ absurd (ground (arith, somebody, gone))
      | inr (lost, same) ↦ (lost, ap (λ t. t (is_shard_row_at s row.version)) same ∙ gone)
    ];
  }

  -- Over a server that keeps the laws of a table: of any number of claims that have read one row of a
  -- shard before any of them writes, at most one takes the shard over.
  pub one_winner_per_version :
      (shard_id : ℕ) (row : ScannedShard) (claims : List (String × Time)) (db : Db)
      → (winners (attempt shard_id row) (left shard_id row) claims db).0 ≤ 1
  one_winner_per_version s row = winners-at_most_one _ _ (attempt-TakesAll s row)
