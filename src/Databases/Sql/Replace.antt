-- ===== src/Databases/Sql/Replace.antt =====
-- What `RangeDeleteWithBatchInsertTxn` of the SQL stores
-- (server/databases/mysql/mysql_timer_store_impl.go, postgresql/postgresql_timer_store_impl.go) makes of
-- the table.
use durable_timer.Base.{ℕ, Bool, ◌≡◌, inl, inr, refl, ◌∙◌, ap, none, List, [], ◌∷◌, arith, String}
use durable_timer.Databases.Models.{DbTimer, RangeDeleteTimersRequest}
use durable_timer.Databases.Results.{ok, err, Result-cases, Answer-cases}
use durable_timer.Databases.Rows.{Row, is_timer_in_range, timer_row}
use durable_timer.Databases.Sql.{Server, insert, delete}
use durable_timer.Databases.Codec.{Codec, encode}
use durable_timer.Databases.Table.{Becomes, Table, without_rows, with_row}
use durable_timer.Databases.Sql.Laws.{TableView}
use durable_timer.Databases.Sql.Ranges.{replace_range, delete_and_insert, insert_timers}
use durable_timer.Databases.Sql.Atomic.{IsAtomic, HasEffect, with_shard_version-IsAtomic}

module _ (server : Server) (view : TableView server) {Json : Type 0} (codec : Codec Json) where
  open server use {Db, Tx}
  open view use {rows, tx_rows, tx_before}

  -- The rows of the timers, in the table after the inserts.
  unfoldable pub with_timers : ℕ → List (DbTimer Json) → Table → Table
  with_timers shard_id [] t = t
  with_timers shard_id (timer ∷ timers) t = elim (encode codec timer.payload timer.retry_policy) [
    | err _ ↦ t
    | ok j ↦
        with_timers shard_id timers
          (with_row (view.stored (timer_row shard_id timer j.payload_json j.retry_policy_json)) t)
  ]

  insert_timers-effect :
      (shard_id : ℕ) (timers : List (DbTimer Json)) (tx : Tx)
      → (tx_before (insert_timers server codec shard_id timers tx).1 ≡ tx_before tx)
        × ((insert_timers server codec shard_id timers tx).0 ≡ ok tt
            → tx_rows (insert_timers server codec shard_id timers tx).1
              ≡ with_timers shard_id timers (tx_rows tx))
  unfolding insert_timers with_timers
  insert_timers-effect s [] tx = (refl, λ h. refl)
  insert_timers-effect s (timer ∷ timers) tx =
      elim (Result-cases (encode codec timer.payload timer.retry_policy)) [
        | inr (error, e) ↦ rw (e, insert_timers, with_timers) (refl, λ h. refl)
        | inl (j, e) ↦
            let row = timer_row s timer j.payload_json j.retry_policy_json in
            let tx1 = (server.tx_exec (insert row) tx).1 in
            let (before, effect) = insert_timers-effect s timers tx1 in
            elim (Answer-cases (server.tx_exec (insert row) tx).0) [
              | inr (error, e1) ↦
                  rw (e, insert_timers, with_timers)
                    (rw e1 (view.tx_exec_before _ tx, λ h. ground (arith, h)))
              | inl (n, e1) ↦
                  rw (e, insert_timers, with_timers)
                    (rw e1 (
                      before ∙ view.tx_exec_before _ tx,
                      λ h. effect h ∙ ap (with_timers s timers) (view.tx_insert row tx n e1),
                    ))
            ]
      ]

  abbrev pub in_range : ℕ → RangeDeleteTimersRequest → Row → Bool
  in_range shard_id request =
      is_timer_in_range shard_id request.start_timestamp request.start_time_uuid
        request.end_timestamp request.end_time_uuid

  abbrev pub replaced : ℕ → RangeDeleteTimersRequest → List (DbTimer Json) → Table → Table
  replaced shard_id request timers t =
      with_timers shard_id timers (without_rows (in_range shard_id request) t)

  delete_and_insert-HasEffect :
      (shard_id : ℕ) (request : RangeDeleteTimersRequest) (timers : List (DbTimer Json))
      → HasEffect server view
          (Becomes (replaced shard_id request timers))
          (delete_and_insert server codec shard_id request timers)
  unfolding delete_and_insert
  delete_and_insert-HasEffect s request timers = record {
    before_kept = λ tx.
        let tx1 = (server.tx_exec (delete (in_range s request) none) tx).1 in
        ground (
          arith,
          view.tx_exec_before (delete (in_range s request) none) tx,
          (insert_timers-effect s timers tx1).0,
        );
    effect_done = λ tx tx' a h.
        let tx1 = (server.tx_exec (delete (in_range s request) none) tx).1 in
        elim (Answer-cases (server.tx_exec (delete (in_range s request) none) tx).0) [
          | inr (error, e) ↦ ground (arith, e, h)
          | inl (n, e) ↦
              let done = (insert_timers-effect s timers tx1).1 (ground (arith, e, h)) in
              ground (
                arith,
                h,
                e,
                done,
                ap (with_timers s timers) (view.tx_delete (in_range s request) tx n e).1,
              )
        ];
  }

  pub replace_range-IsAtomic :
      (start_failed : String) (shard_id shard_version : ℕ) (request : RangeDeleteTimersRequest)
      (timers : List (DbTimer Json)) (db : Db)
      → IsAtomic server view shard_id shard_version
          (Becomes (replaced shard_id request timers))
          db
          (replace_range server codec start_failed shard_id shard_version request timers db)
  unfolding replace_range
  replace_range-IsAtomic msg s v request timers db =
      with_shard_version-IsAtomic server view s v _ _ (delete_and_insert-HasEffect s request timers)
        msg _ _ db
