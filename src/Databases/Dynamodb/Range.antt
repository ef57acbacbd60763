-- ===== src/Databases/Dynamodb/Range.antt =====
-- The deletions of ranges in the DynamoDB store
-- (server/databases/dynamodb/dynamodb_timer_store_impl.go): a query for the timers of the range, and then
-- writes by their keys.
use durable_timer.Base.{
  ℕ, zero, suc, ◌+◌, ◌%◌, ◌^◌, Bool, true, false, ◌&&◌, Option, none, some, List, [], ◌∷◌, ◌++◌,
  length, ltb, if◌then◌else◌,
}
use durable_timer.Databases.Models.{
  DbTimer, RangeDeleteTimersRequest, RangeDeleteTimersResponse, new_generic_db_error,
  new_db_error_on_shard_condition_fail,
}
use durable_timer.Databases.TimerUuid.{format_execute_at_with_uuid}
use durable_timer.Databases.Results.{Result, ok, err, value, fault, ◌>>=◌}
use durable_timer.Databases.Codec.{Codec, encode}
use durable_timer.Databases.Dynamodb.Client.{
  Client, Formats, Item, Attribute, Query, Write, put, remove, check, version_is, shard_key,
  timer_key, is_conditional_check_failed,
}
use durable_timer.Databases.Dynamodb.Shard.{attribute}
use durable_timer.Databases.Dynamodb.Create.{timer_item}

abbrev pub is_empty : {A : Type 0} → List A → Bool
is_empty [] = true
is_empty (_ ∷ _) = false

-- The range of a request as a query
unfoldable pub range_query : Formats → ℕ → RangeDeleteTimersRequest → Option ℕ → Query
unfolding format_execute_at_with_uuid
range_query formats shard_id request limit = record {
  shard_id = shard_id;
  lower_bound =
      format_execute_at_with_uuid formats.layout request.start_timestamp
        (formats.format_uuid request.start_time_uuid);
  upper_bound =
      format_execute_at_with_uuid formats.layout request.end_timestamp
        (formats.format_uuid request.end_time_uuid);
  limit = limit;
}

abbrev remove_at : Option Attribute → Option Attribute → Result (List Write) → Result (List Write)
remove_at (some shard_id) (some sort_key) rest = do
  writes ← rest
  ok (remove (some shard_id) (some sort_key) ∷ writes)
remove_at _ _ rest = err (new_generic_db_error "missing required key attributes in timer item" none)

-- The deletions of the items that were found; the first one without a key ends the loop.
unfoldable pub removals : List Item → Result (List Write)
unfolding attribute
removals [] = ok []
removals (item ∷ items) =
    remove_at (attribute "shard_id" item) (attribute "sort_key" item) (removals items)

-- The items in runs of the given size plus one: what is left of the present run, and the runs after it.
unfoldable pub fill_batches : {A : Type 0} → ℕ → ℕ → List A → List A × List (List A)
fill_batches size room [] = ([], [])
fill_batches size zero (w ∷ ws) =
    let (batch, batches) = fill_batches size size ws in ([], (w ∷ batch) ∷ batches)
fill_batches size (suc room) (w ∷ ws) =
    let (batch, batches) = fill_batches size room ws in (w ∷ batch, batches)

-- The deletion of an item by its attributes, which may be missing
unfoldable pub removal_of : Item → Write
unfolding attribute
removal_of item = remove (attribute "shard_id" item) (attribute "sort_key" item)

unfoldable pub removals_of : List Item → List Write
unfolding removal_of
removals_of [] = []
removals_of (item ∷ items) = removal_of item ∷ removals_of items

module _ (client : Client) (formats : Formats) where
  open client use {Db}

  -- The loop of `RangeDeleteWithLimit` over its batches, after `count` deletions
  unfoldable pub delete_batches : ℕ → List (List Write) → Db → Result RangeDeleteTimersResponse × Db
  delete_batches count [] db = (ok (record { deleted_count = count }), db)
  delete_batches count (batch ∷ batches) db =
      let (res, db1) = client.batch_write batch db in
      let rest = delete_batches (count + length batch) batches db1 in
      elim res [
        | fault e ↦ (err (new_generic_db_error "failed to batch delete timers" (some e)), db1)
        | value unprocessed ↦
            if unprocessed
            then (err (new_generic_db_error "batch delete had unprocessed items" none), db1)
            else rest
      ]

  -- `RangeDeleteWithLimit`, in batches of 25; the limit is an int that counts where it is positive.
  unfoldable pub range_delete_with_limit :
      ℕ → RangeDeleteTimersRequest → ℕ → Db → Result RangeDeleteTimersResponse × Db
  unfolding range_query removals_of fill_batches delete_batches
  range_delete_with_limit shard_id request limit db =
      let is_limited = ltb 0 limit && ltb limit (2 ^ 63) in
      let (found, db1) =
        client.query
          (range_query formats shard_id request
            (if is_limited then some (limit % 2 ^ 32) else none))
          db in
      elim found [
        | fault e ↦ (err (new_generic_db_error "failed to query timers to delete" (some e)), db1)
        | value [] ↦ (ok (record { deleted_count = 0 }), db1)
        | value (item ∷ items) ↦
            delete_batches 0 (fill_batches 24 0 (removals_of (item ∷ items))).1 db1
      ]

  module _ {Json : Type 0} (codec : Codec Json) where
    -- The puts of the new timers; the first one that does not encode ends the loop.
    unfoldable pub insertions : ℕ → List (DbTimer Json) → Result (List Write)
    unfolding encode timer_item
    insertions shard_id [] = ok []
    insertions shard_id (timer ∷ timers) = do
      j ← encode codec timer.payload timer.retry_policy
      writes ← insertions shard_id timers
      ok (
          put (timer_key shard_id timer.namespace timer.id)
            (timer_item formats shard_id timer.namespace timer j) none
          ∷ writes)

    -- The transaction of a batch, where it holds more than the check of the version.
    unfoldable pub run_batch : ℕ → ℕ → ℕ → List Write → Db → Result RangeDeleteTimersResponse × Db
    unfolding is_conditional_check_failed
    run_batch shard_id shard_version count [] db = (ok (record { deleted_count = count }), db)
    run_batch shard_id shard_version count (w ∷ writes) db =
        let (res, db') =
          client.transact (check (shard_key shard_id) (version_is shard_version) ∷ w ∷ writes) db in
        (
          elim res [
            | none ↦ ok (record { deleted_count = count })
            | some e ↦ err (
                if is_conditional_check_failed e
                then new_db_error_on_shard_condition_fail
                    "shard version mismatch during delete and insert operation" none
                else new_generic_db_error "failed to execute atomic delete and insert transaction"
                    (some e.error))
          ],
          db',
        )

    -- The writes of a batch on the items that were found
    abbrev pub batch_writes : ℕ → List Item → List (DbTimer Json) → Result (List Write)
    batch_writes shard_id items timers = do
      removed ← removals items
      inserted ← insertions shard_id timers
      ok (removed ++ inserted)

    -- `RangeDeleteWithBatchInsertTxn`
    unfoldable pub range_delete_with_batch_insert_txn :
        ℕ
        → ℕ
        → RangeDeleteTimersRequest
        → List (DbTimer Json)
        → Db
        → Result RangeDeleteTimersResponse × Db
    unfolding range_query removals insertions run_batch
    range_delete_with_batch_insert_txn shard_id shard_version request timers db =
        let (found, db1) = client.query (range_query formats shard_id request none) db in
        elim found [
          | fault e ↦ (err (new_generic_db_error "failed to query timers to delete" (some e)), db1)
          | value items ↦ elim (batch_writes shard_id items timers) [
            | err e ↦ (err e, db1)
            | ok writes ↦ run_batch shard_id shard_version (length items) writes db1
          ]
        ]
