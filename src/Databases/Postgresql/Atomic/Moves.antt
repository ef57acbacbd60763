-- ===== src/Databases/Postgresql/Atomic/Moves.antt =====
-- What the move of a timer to another execution time in the PostgreSQL store
-- (server/databases/postgresql/postgresql_timer_store_impl.go) makes of the table.
use durable_timer.Base.{ℕ, ◌≡◌, inl, inr, ◌∙◌, ap, none, arith}
use durable_timer.Databases.Models.{Uuid, UpdateDbTimerRequest}
use durable_timer.Databases.Results.{ok, Answer, Answer-cases}
use durable_timer.Databases.Rows.{Row}
use durable_timer.Databases.Sql.{Server, delete, insert}
use durable_timer.Databases.Codec.{Codec}
use durable_timer.Databases.Table.{without_rows, with_row}
use durable_timer.Databases.Sql.Laws.{TableView}
use durable_timer.Databases.Postgresql.Update.{CurrentTimer, is_timer_at, move_timer}

module _ (server : Server) (view : TableView server) {Json : Type 0} (codec : Codec Json)
    (parse_uuid : Uuid → Answer Uuid) where
  open server use {Db, Tx}
  open view use {tx_rows, tx_before}

  pub move_timer-rows :
      (shard_id : ℕ) (request : UpdateDbTimerRequest Json) (current : CurrentTimer) (uuid : Uuid)
      (row : Row) (tx tx' : Tx) (a : Unit {0})
      → move_timer server codec parse_uuid shard_id request current uuid row tx ≡ (ok a, tx')
      → tx_rows tx'
        ≡ with_row
            (view.stored row)
            (without_rows (is_timer_at shard_id current.execute_at uuid) (tx_rows tx))
  unfolding move_timer
  move_timer-rows s request current uuid row tx tx' a h =
      let p = is_timer_at s current.execute_at uuid in
      let tx1 = (server.tx_exec (delete p none) tx).1 in
      elim (Answer-cases (server.tx_exec (delete p none) tx).0) [
        | inr (error, e) ↦ absurd (ground (arith, e, h))
        | inl (n, e) ↦ elim (Answer-cases (server.tx_exec (insert row) tx1).0) [
          | inr (error, e1) ↦ absurd (ground (arith, e, e1, h))
          | inl (k, e1) ↦ ground (
            arith,
            e,
            e1,
            h,
            view.tx_insert row tx1 k e1,
            ap (with_row (view.stored row)) (view.tx_delete p tx n e).1,
          )
        ]
      ]

  pub move_timer-before :
      (shard_id : ℕ) (request : UpdateDbTimerRequest Json) (current : CurrentTimer) (uuid : Uuid)
      (row : Row) (tx : Tx)
      → tx_before (move_timer server codec parse_uuid shard_id request current uuid row tx).1
        ≡ tx_before tx
  unfolding move_timer
  move_timer-before s request current uuid row tx =
      let p = is_timer_at s current.execute_at uuid in
      let tx1 = (server.tx_exec (delete p none) tx).1 in
      elim (Answer-cases (server.tx_exec (delete p none) tx).0) [
        | inr (error, e) ↦ rw (e, move_timer) (view.tx_exec_before _ tx)
        | inl (n, e) ↦ rw (e, move_timer) (view.tx_exec_before _ tx1 ∙ view.tx_exec_before _ tx)
      ]
