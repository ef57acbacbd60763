-- ===== src/Databases/Dynamodb/Batch.antt =====
-- What the deletions of ranges in the DynamoDB store
-- (server/databases/dynamodb/dynamodb_timer_store_impl.go) send, and whom a batch refuses.
use durable_timer.Base.{
  Bool, Bool-cases, ltb, if◌then◌else◌, ◌%◌, ◌^◌, some, ℕ, zero, suc, ◌+◌, ◌≤◌, false, ◌&&◌, ◌≡◌,
  refl, none, Option-cases, inl, inr, List, [], ◌∷◌, ◌++◌, length, length-append, arith, ap, ◌∙◌,
  ◌==◌, All,
}
use durable_timer.Databases.Models.{
  RangeDeleteTimersResponse, DbTimer, DbError, RangeDeleteTimersRequest,
}
use durable_timer.Databases.Results.{Answer, Answer-cases, ok, err, value, is_ok, Result-cases}
use durable_timer.Databases.Codec.{Codec, encode}
use durable_timer.Databases.Dynamodb.Client.{
  Client, Formats, Query, Item, Write, check, version_is, shard_key,
}
use durable_timer.Databases.Dynamodb.Shard.{attribute}
use durable_timer.Databases.Dynamodb.Range.{
  is_empty, range_query, delete_batches, removals_of, range_delete_with_limit, removals, insertions,
  run_batch, batch_writes, range_delete_with_batch_insert_txn, fill_batches,
}
use durable_timer.Databases.Dynamodb.Outcomes.{VersionView}

unfoldable pub join : {A : Type 0} → List (List A) → List A
join [] = []
join (xs ∷ xss) = xs ++ join xss

module _ {A : Type 0} (size : ℕ) where
  fill_batches-join :
      (room : ℕ) (ws : List A)
      → (fill_batches size room ws).0 ++ join (fill_batches size room ws).1 ≡ ws
  unfolding fill_batches join
  fill_batches-join room [] = refl
  fill_batches-join zero (w ∷ ws) = ap (λ t. w ∷ t) (fill_batches-join size ws)
  fill_batches-join (suc room) (w ∷ ws) = ap (λ t. w ∷ t) (fill_batches-join room ws)

  fill_batches-length :
      (room : ℕ) (ws : List A)
      → (length (fill_batches size room ws).0 ≤ room)
        × All (λ batch. length batch ≤ suc size) (fill_batches size room ws).1
  unfolding fill_batches
  fill_batches-length room [] = (omega arith, tt)
  fill_batches-length zero (w ∷ ws) =
      let (h, hs) = fill_batches-length size ws in (omega arith, (omega (arith, h), hs))
  fill_batches-length (suc room) (w ∷ ws) =
      let (h, hs) = fill_batches-length room ws in (omega (arith, h), hs)

-- The batches hold all of the items.
all_filled : {A : Type 0} (size : ℕ) (ws : List A) → join (fill_batches size 0 ws).1 ≡ ws
unfolding fill_batches join
all_filled size [] = refl
all_filled size (w ∷ ws) = fill_batches-join size 0 (w ∷ ws)

module _ (client : Client) (formats : Formats) where
  open client use {Db}

  -- The client with another answer to BatchWriteItem
  abbrev pub with_batch_write : (List Write → Db → Answer Bool × Db) → Client
  with_batch_write batch_write = record client { batch_write = batch_write }

  module _ (f : List Write → Db → Answer Bool × Db)
      (agrees : (ws : List Write) (db : Db)
        → length ws ≤ 25
        → client.batch_write ws db ≡ f ws db) where
    delete_batches-agree :
        (count : ℕ) (batches : List (List Write)) (db : Db)
        → All (λ batch. length batch ≤ 25) batches
        → delete_batches client formats count batches db
          ≡ delete_batches (with_batch_write f) formats count batches db
    unfolding delete_batches
    delete_batches-agree count [] db small = refl
    delete_batches-agree count (batch ∷ batches) db (h, hs) =
        let same = agrees batch db h in
        let later =
          delete_batches-agree (count + length batch) batches (client.batch_write batch db).1 hs in
        elim (Answer-cases (client.batch_write batch db).0) [
          | inr (error, e) ↦ ground (arith, same, e)
          | inl (unprocessed, e) ↦ elim (Bool-cases unprocessed) [
            | inl left ↦ ground (arith, same, e, left)
            | inr done ↦ ground (arith, same, e, done, later)
          ]
        ]

  delete_batches-count :
      (count : ℕ) (batches : List (List Write)) (db db' : Db) (response : RangeDeleteTimersResponse)
      → delete_batches client formats count batches db ≡ (ok response, db')
      → response.deleted_count ≡ count + length (join batches)
  unfolding delete_batches join
  delete_batches-count count [] db db' response h = ground (arith, h)
  delete_batches-count count (batch ∷ batches) db db' response h =
      let db1 = (client.batch_write batch db).1 in
      elim (Answer-cases (client.batch_write batch db).0) [
        | inr (error, e) ↦ absurd (ground (arith, e, h))
        | inl (unprocessed, e) ↦ elim (Bool-cases unprocessed) [
          | inl left ↦ absurd (ground (arith, e, left, h))
          | inr done ↦ omega (
            arith,
            delete_batches-count (count + length batch) batches db1 db' response
                (ground (arith, e, done, h)),
            length-append batch (join batches),
          )
        ]
      ]

  removals_of-length : (items : List Item) → length (removals_of items) ≡ length items
  unfolding removals_of
  removals_of-length [] = refl
  removals_of-length (item ∷ items) = omega (arith, removals_of-length items)

  -- The query of a range, whose limit counts where it is positive
  abbrev pub limited_query : ℕ → RangeDeleteTimersRequest → ℕ → Query
  limited_query shard_id request limit =
      range_query formats shard_id request
        (if ltb 0 limit && ltb limit (2 ^ 63) then some (limit % 2 ^ 32) else none)

  agree_found :
      (f : List Write → Db → Answer Bool × Db) (shard_id limit : ℕ)
      (request : RangeDeleteTimersRequest) (items : List Item) (db db1 : Db)
      → ((ws : List Write) (db : Db) → length ws ≤ 25 → client.batch_write ws db ≡ f ws db)
      → client.query (limited_query shard_id request limit) db ≡ (value items, db1)
      → range_delete_with_limit client formats shard_id request limit db
        ≡ range_delete_with_limit (with_batch_write f) formats shard_id request limit db
  unfolding range_delete_with_limit
  agree_found f s limit request [] db db1 agrees found = ground (arith, found)
  agree_found f s limit request (item ∷ items) db db1 agrees found =
      let ws = removals_of (item ∷ items) in
      ground (
        arith,
        found,
        delete_batches-agree f agrees 0 (fill_batches 24 0 ws).1 db1
            (fill_batches-length 24 0 ws).1,
      )

  count_found :
      (shard_id limit : ℕ) (request : RangeDeleteTimersRequest) (items : List Item)
      (response : RangeDeleteTimersResponse) (db db1 db2 : Db)
      → client.query (limited_query shard_id request limit) db ≡ (value items, db1)
      → range_delete_with_limit client formats shard_id request limit db ≡ (ok response, db2)
      → response.deleted_count ≡ length items
  unfolding range_delete_with_limit
  count_found s limit request [] response db db1 db2 found h = ground (arith, found, h)
  count_found s limit request (item ∷ items) response db db1 db2 found h =
      let ws = removals_of (item ∷ items) in
      let counted =
        delete_batches-count 0 (fill_batches 24 0 ws).1 db1 db2 response
          (ground (arith, found, h)) in
      omega (arith, counted, ap length (all_filled 24 ws), removals_of-length (item ∷ items))

  -- `RangeDeleteWithLimit` sends no batch of more than 25 writes: it does the same over any client that
  -- answers only larger batches otherwise. Where it succeeds after a query that finds items, its count is
  -- their number.
  pub batches_of_25 :
      (f : List Write → Db → Answer Bool × Db) (shard_id limit : ℕ)
      (request : RangeDeleteTimersRequest) (db : Db)
      → ((ws : List Write) (db : Db) → length ws ≤ 25 → client.batch_write ws db ≡ f ws db)
      → (range_delete_with_limit client formats shard_id request limit db
          ≡ range_delete_with_limit (with_batch_write f) formats shard_id request limit db)
        × ((items : List Item) (response : RangeDeleteTimersResponse) (db1 db2 : Db)
            → client.query (limited_query shard_id request limit) db ≡ (value items, db1)
            → range_delete_with_limit client formats shard_id request limit db ≡ (ok response, db2)
            → response.deleted_count ≡ length items)
  unfolding range_delete_with_limit
  batches_of_25 f s limit request db agrees = (
    elim (Answer-cases (client.query (limited_query s request limit) db).0) [
      | inr (error, e) ↦ ground (arith, e)
      | inl (items, e) ↦
          agree_found f s limit request items db (client.query (limited_query s request limit) db).1
            agrees (ground (arith, e))
    ],
    λ items response db1 db2 found done.
        count_found s limit request items response db db1 db2 found done,
  )

module _ {Json : Type 0} (client : Client) (codec : Codec Json) (formats : Formats) where
  open client use {Db}

  removals-length :
      (items : List Item) (ws : List Write) → removals items ≡ ok ws → length ws ≡ length items
  unfolding removals
  removals-length [] ws h = ground (arith, h)
  removals-length (item ∷ items) ws h = elim (Option-cases (attribute "shard_id" item)) [
    | inl e ↦ absurd (ground (arith, e, h))
    | inr (a, e) ↦ elim (Option-cases (attribute "sort_key" item)) [
      | inl e' ↦ absurd (ground (arith, e, e', h))
      | inr (b, e') ↦ elim (Result-cases (removals items)) [
        | inr (error, r) ↦ absurd (ground (arith, e, e', r, h))
        | inl (writes, r) ↦ ground (arith, e, e', r, h, removals-length items writes r)
      ]
    ]
  ]

  insertions-length :
      (shard_id : ℕ) (timers : List (DbTimer Json)) (ws : List Write)
      → insertions client formats codec shard_id timers ≡ ok ws
      → length ws ≡ length timers
  unfolding insertions
  insertions-length s [] ws h = ground (arith, h)
  insertions-length s (timer ∷ timers) ws h =
      elim (Result-cases (encode codec timer.payload timer.retry_policy)) [
        | inr (error, e) ↦ absurd (ground (arith, e, h))
        | inl (j, e) ↦ elim (Result-cases (insertions client formats codec s timers)) [
          | inr (error, r) ↦ absurd (ground (arith, e, r, h))
          | inl (writes, r) ↦ ground (arith, e, r, h, insertions-length s timers writes r)
        ]
      ]

  run_batch-stale :
      (view : VersionView client) (shard_id shard_version count : ℕ) (writes : List Write) (db : Db)
      → (view.version db shard_id == shard_version) ≡ false
      → is_ok (run_batch client formats codec shard_id shard_version count writes db).0
        ≡ is_empty writes
  unfolding run_batch
  run_batch-stale view s v count [] db h = refl
  run_batch-stale view s v count (w ∷ writes) db h =
      elim (Option-cases (client.transact (check (shard_key s) (version_is v) ∷ w ∷ writes) db).0) [
        | inl e ↦ absurd (view.check_refused s v (w ∷ writes) db h e)
        | inr (error, e) ↦ ground (arith, e)
      ]

  same_emptiness :
      {A B C : Type 0} (xs : List A) (ys : List B) (zs : List C)
      → length xs ≡ length ys + length zs
      → is_empty xs ≡ (is_empty ys && is_empty zs)
  same_emptiness [] [] [] h = refl
  same_emptiness [] [] (z ∷ zs) h = absurd (omega (arith, h))
  same_emptiness [] (y ∷ ys) zs h = absurd (omega (arith, h))
  same_emptiness (x ∷ xs) [] [] h = absurd (omega (arith, h))
  same_emptiness (x ∷ xs) [] (z ∷ zs) h = refl
  same_emptiness (x ∷ xs) (y ∷ ys) zs h = refl

  batch_writes-stale :
      (view : VersionView client) (shard_id shard_version : ℕ) (items : List Item)
      (timers : List (DbTimer Json)) (writes : List Write) (db : Db)
      → batch_writes client formats codec shard_id items timers ≡ ok writes
      → (view.version db shard_id == shard_version) ≡ false
      → is_ok (run_batch client formats codec shard_id shard_version (length items) writes db).0
        ≡ (is_empty items && is_empty timers)
  batch_writes-stale view s v items timers writes db h stale =
      elim (Result-cases (removals items)) [
        | inr (error, e) ↦ absurd (ground (arith, e, h))
        | inl (ws, e) ↦ elim (Result-cases (insertions client formats codec s timers)) [
          | inr (error, e') ↦ absurd (ground (arith, e, e', h))
          | inl (ws', e') ↦
              let joined : writes ≡ ws ++ ws' = ground (arith, e, e', h) in
              run_batch-stale view s v (length items) writes db stale
              ∙ same_emptiness writes items timers (
                  ground (
                    arith,
                    joined,
                    length-append ws ws',
                    removals-length items ws e,
                    insertions-length s timers ws' e',
                  ))
        ]
      ]

  failed_writes :
      (shard_id : ℕ) (items : List Item) (timers : List (DbTimer Json)) (error : DbError)
      → batch_writes client formats codec shard_id items timers ≡ err error
      → false ≡ (is_empty items && is_empty timers)
  unfolding removals insertions
  failed_writes s [] [] error h = absurd (ground (arith, h))
  failed_writes s [] (t ∷ timers) error h = refl
  failed_writes s (i ∷ items) timers error h = refl

  -- If the transactions keep the documented laws, and the query of a batch finds items while the stored
  -- version of the shard is not the given one: the batch returns no error exactly where there is nothing
  -- to delete and nothing to insert.
  pub stale_batch_outcome :
      (view : VersionView client) (shard_id shard_version : ℕ) (request : RangeDeleteTimersRequest)
      (timers : List (DbTimer Json)) (items : List Item) (db db1 : Db)
      → client.query (range_query formats shard_id request none) db ≡ (value items, db1)
      → (view.version db1 shard_id == shard_version) ≡ false
      → is_ok
          (range_delete_with_batch_insert_txn client formats codec shard_id shard_version request
            timers db).0
        ≡ (is_empty items && is_empty timers)
  unfolding range_delete_with_batch_insert_txn
  stale_batch_outcome view s v request timers items db db1 found stale =
      elim (Result-cases (batch_writes client formats codec s items timers)) [
        | inl (writes, e) ↦
            ground (arith, found, e, batch_writes-stale view s v items timers writes db1 e stale)
        | inr (error, e) ↦ ground (arith, found, e, failed_writes s items timers error e)
      ]
