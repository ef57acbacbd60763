-- ===== src/Databases/Cassandra/Exclusion.antt =====
-- Claims of one shard of the Cassandra store that race with each other
-- (server/databases/cassandra/cassandra_timer_store_impl.go): each has read the shard's row before any
-- of them writes.
use durable_timer.Base.{
  ℕ, ◌≤◌, String, Bool, true, false, ◌≡◌, inl, inr, ◌∙◌, ap, List, arith, if◌then◌else◌, Bool-cases,
}
use durable_timer.Databases.Models.{Time}
use durable_timer.Databases.Results.{is_ok, Result-cases}
use durable_timer.Databases.Codec.{Codec}
use durable_timer.Databases.Race.{winners, winners-at_most_one}
use durable_timer.Databases.Rows.{Row, claim_row, next_version}
use durable_timer.Databases.Table.{with_rows_changed}
use durable_timer.Databases.Cassandra.Cql.{Session, Key, update_if_version, shard_key, or_zero}
use durable_timer.Databases.Cassandra.Laws.{CasView, has_version, is_applied}
use durable_timer.Databases.Cassandra.Shard.{take_over, parse_metadata}

module _ (session : Session) (view : CasView session) {Json : Type 0} (codec : Codec Json) where
  open session use {Db}
  open view use {rows}

  -- The claim of an owner at a time, for a shard whose row was read.
  abbrev pub attempt : ℕ → Row → String × Time → Db → Bool × Db
  attempt shard_id row (owner_addr, now) db =
      let (res, db1) = take_over session codec shard_id owner_addr now row db in (is_ok res, db1)

  abbrev pub left : ℕ → Row → Db → ℕ
  left shard_id row db = rows db (has_version (shard_key shard_id) (or_zero 0 row.shard_version))

  changes-away :
      (k : Key) (version : ℕ) (owner_addr : String) (now : Time) (r : Row)
      → has_version k version (
          if has_version k version r
          then view.stored (claim_row (next_version version) owner_addr now r)
          else r)
        ≡ false
  unfolding has_version claim_row
  changes-away k v owner now r = elim (Bool-cases (has_version k v r)) [
    | inr e ↦ ground (arith, e)
    | inl e ↦ ground (arith, e, view.stored_version (claim_row (next_version v) owner now r))
  ]

  none_left :
      (k : Key) (version : ℕ) (owner_addr : String) (now : Time) (db : Db)
      → with_rows_changed
          (λ r. view.stored (claim_row (next_version version) owner_addr now r))
          (has_version k version)
          (rows db)
          (has_version k version)
        ≡ 0
  unfolding with_rows_changed
  none_left k v owner now db =
      ap (rows db) (λ i r. changes-away k v owner now r i) ∙ view.rows_never db

  take_over-takes :
      (shard_id : ℕ) (row : Row) (owner_addr : String) (now : Time) (db : Db)
      → (attempt shard_id row (owner_addr, now) db).0 ≡ true
      → left shard_id row (attempt shard_id row (owner_addr, now) db).1 ≡ 0
  unfolding take_over
  take_over-takes s row owner now db won =
      let version = or_zero 0 row.shard_version in
      let f = claim_row (next_version version) owner now in
      elim (Result-cases (parse_metadata session codec (or_zero "" row.shard_metadata))) [
        | inr (error, e) ↦ absurd (ground (arith, e, won))
        | inl (metadata, e) ↦
            elim (Bool-cases
              (is_applied (session.cas (update_if_version f (shard_key s) version) db).0)) [
                | inl applied ↦
                    let changed = view.cas_applied f (shard_key s) version db applied in
                    rw (e, take_over)
                      (ap (λ t. t (has_version (shard_key s) version)) changed
                        ∙ none_left (shard_key s) version owner now db)
                | inr refused ↦ absurd (ground (arith, e, refused, won))
              ]
      ]

  take_over-late :
      (shard_id : ℕ) (row : Row) (owner_addr : String) (now : Time) (db : Db)
      → left shard_id row db ≡ 0
      → ((attempt shard_id row (owner_addr, now) db).0 ≡ false)
        × (left shard_id row (attempt shard_id row (owner_addr, now) db).1 ≡ 0)
  unfolding take_over
  take_over-late s row owner now db gone =
      let version = or_zero 0 row.shard_version in
      let f = claim_row (next_version version) owner now in
      let (fails, same) = view.cas_refused f (shard_key s) version db gone in
      elim (Result-cases (parse_metadata session codec (or_zero "" row.shard_metadata))) [
        | inr (error, e) ↦ rw (e, take_over) (ground (arith, e), gone)
        | inl (metadata, e) ↦
            rw (e, take_over)
              (
                ground (arith, e, fails),
                ap (λ t. t (has_version (shard_key s) version)) same ∙ gone,
              )
      ]

  -- Over a session that keeps the laws of conditional statements: of any number of claims that have
  -- read one row of a shard before any of them writes, at most one takes the shard over.
  pub one_winner_per_row :
      (shard_id : ℕ) (row : Row) (claims : List (String × Time)) (db : Db)
      → (winners (attempt shard_id row) (left shard_id row) claims db).0 ≤ 1
  one_winner_per_row s row = winners-at_most_one _ _ (record {
    takes = λ a db won. take_over-takes s row a.0 a.1 db won;
    late = λ a db gone. take_over-late s row a.0 a.1 db gone;
  })
