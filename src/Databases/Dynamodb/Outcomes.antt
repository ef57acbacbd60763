-- ===== src/Databases/Dynamodb/Outcomes.antt =====
-- What the updates and deletions of timers in the DynamoDB store
-- (server/databases/dynamodb/dynamodb_timer_store_impl.go) do to the version of the shard.
use durable_timer.Base.{
  ◌∙◌, ap, ℕ, ◌+◌, String, false, ◌≡◌, ◌≢◌, none, Option-cases, inl, inr, List, [], ◌∷◌, arith,
  ◌==◌, Bool-cases,
}
use durable_timer.Databases.Models.{DbTimer, UpdateDbTimerRequest}
use durable_timer.Databases.Results.{ok}
use durable_timer.Databases.Codec.{Codec, Encoded, encode}
use durable_timer.Databases.Dynamodb.Client.{
  Client, Formats, Assignment, Write, update, put, Condition, increment, check, exists, version_is,
  shard_key, timer_key,
}
use durable_timer.Databases.Dynamodb.Create.{create_timer, timer_item}
use durable_timer.Databases.Dynamodb.Change.{
  update_expressions, bump_version, update_timer_in_place, update_timer,
}

-- The stored versions of the shards, and what is documented of transactions on them.
pub record VersionView (client : Client) : Type 0 where
  pub version : client.Db → ℕ → ℕ
  -- a transaction that succeeds met its condition on a version, and has added what it adds to one
  pub condition_met :
      (w : Write) (shard_id shard_version : ℕ) (assignments : List Assignment) (db : client.Db)
      → (client.transact
          (w ∷ update (shard_key shard_id) assignments (version_is shard_version) ∷ [])
          db).0
        ≡ none
      → version db shard_id ≡ shard_version
  pub increment_applied :
      (w : Write) (shard_id n : ℕ) (condition : Condition) (db : client.Db)
      → let bump = update (shard_key shard_id) (increment "shard_version" n ∷ []) condition in
        (client.transact (w ∷ bump ∷ []) db).0 ≡ none
        → version (client.transact (w ∷ bump ∷ []) db).1 shard_id ≡ version db shard_id + n
  -- one whose condition on the version does not hold fails
  pub check_refused :
      (shard_id shard_version : ℕ) (others : List Write) (db : client.Db)
      → (version db shard_id == shard_version) ≡ false
      → (client.transact (check (shard_key shard_id) (version_is shard_version) ∷ others) db).0
        ≢ none

module _ {Json : Type 0} (client : Client) (codec : Codec Json) (formats : Formats) where
  open client use {Db}

  -- A creation at another version than the stored one fails.
  stale_creation :
      (view : VersionView client) (shard_id shard_version : ℕ) (namespace : String)
      (timer : DbTimer Json) (j : Encoded) (db : Db)
      → encode codec timer.payload timer.retry_policy ≡ ok j
      → (view.version db shard_id == shard_version) ≡ false
      → (create_timer client codec formats shard_id shard_version namespace timer db).0 ≢ none
  unfolding create_timer
  stale_creation view s v ns timer j db he hv none_left =
      let item : List Write =
        put (timer_key s ns timer.id) (timer_item formats s ns timer j) none ∷ [] in
      elim (Option-cases (client.transact (check (shard_key s) (version_is v) ∷ item) db).0) [
        | inl e ↦ view.check_refused s v item db hv e
        | inr (e, q) ↦ absurd (ground (arith, he, q, none_left))
      ]

  bump_applied :
      (view : VersionView client) (w : Write) (shard_id shard_version : ℕ) (db : Db)
      → (client.transact (w ∷ bump_version shard_id shard_version ∷ []) db).0 ≡ none
      → view.version (client.transact (w ∷ bump_version shard_id shard_version ∷ []) db).1 shard_id
        ≡ shard_version + 1
  unfolding bump_version
  bump_applied view w s v db h =
      view.increment_applied w s 1 (version_is v) db h
      ∙ ap (λ n. n + 1) (view.condition_met w s v (increment "shard_version" 1 ∷ []) db h)

  -- If the transactions keep the documented laws: an update of a timer by the owner of a shard that
  -- succeeds and has something to set leaves the shard at the version after the owner's, so that the
  -- owner's next creation of a timer, whose values can be encoded, fails.
  pub update_loses_shard :
      (view : VersionView client) (shard_id shard_version : ℕ) (namespace : String)
      (request : UpdateDbTimerRequest Json) (timer : DbTimer Json) (j j' : Encoded) (a : Assignment)
      (rest : List Assignment) (db db1 : Db)
      → encode codec request.payload request.retry_policy ≡ ok j
      → update_expressions request j ≡ a ∷ rest
      → encode codec timer.payload timer.retry_policy ≡ ok j'
      → update_timer client codec shard_id shard_version namespace request db ≡ (none, db1)
      → (view.version db1 shard_id ≡ shard_version + 1)
        × ((create_timer client codec formats shard_id shard_version namespace timer db1).0 ≢ none)
  unfolding update_timer update_timer_in_place
  update_loses_shard view s v ns request timer j j' a rest db db1 he hu he' h =
      let w : Write = update (timer_key s ns request.timer_id) (a ∷ rest) exists in
      elim (Bool-cases (request.execute_at == 0)) [
        | inr e0 ↦ absurd (ground (arith, e0, h))
        | inl e0 ↦ elim (Option-cases (client.transact (w ∷ bump_version s v ∷ []) db).0) [
          | inr (_, e1) ↦ absurd (ground (arith, e0, e1, he, hu, h))
          | inl e1 ↦
              let left : db1 ≡ (client.transact (w ∷ bump_version s v ∷ []) db).1 =
                ground (arith, e0, he, hu, h) in
              let bumped : view.version db1 s ≡ v + 1 = rw left (bump_applied view w s v db e1) in
              (bumped, stale_creation view s v ns timer j' db1 he' (ground (arith, bumped)))
        ]
      ]
