-- ===== src/Tests/Items.antt =====
-- A DynamoDB table with one shard in memory: the version of the shard, and the sort keys of its timers.
-- It keeps the laws of transactions.
use durable_timer.Base.{
  ℕ, ◌+◌, String, Bool, true, false, not, ◌&&◌, ◌||◌, ◌≡◌, ◌≢◌, refl, Option, none, some, List, [],
  ◌∷◌, arith, ltb, ◌==◌, str_eq, any, filter, count, if◌then◌else◌, Bool-cases, inl, inr,
}
use durable_timer.Databases.Results.{value}
use durable_timer.Databases.Dynamodb.Client.{
  remove, text, number, Client, AwsError, Assignment, set, increment, Condition, exists, not_exists,
  version_is, exists_at, Write, put, update, delete, check, Key, shard_key,
}
use durable_timer.Databases.Dynamodb.Outcomes.{VersionView}

abbrev Table : Type 0
Table = ℕ × List String

unfoldable pub is_shard : Key → Bool
is_shard k = str_eq k.sort_key "SHARD"

unfoldable pub to_shard : Write → Bool
unfolding is_shard
to_shard (put k i c) = is_shard k
to_shard (update k a c) = is_shard k
to_shard (delete k c) = is_shard k
to_shard (remove s k) = false
to_shard (check k c) = is_shard k

unfoldable pub is_stored : Key → Table → Bool
unfolding is_shard any
is_stored k (n, keys) = is_shard k || any (str_eq k.sort_key) keys

unfoldable pub holds : Condition → Key → Table → Bool
unfolding is_stored is_shard
holds exists k db = is_stored k db
holds not_exists k db = not (is_stored k db)
holds (version_is v) k db = is_shard k && db.0 == v
holds (exists_at v) k db = is_shard k && db.0 == v

unfoldable pub is_met : Table → Write → Bool
unfolding holds
is_met db (put k i none) = true
is_met db (put k i (some c)) = holds c k db
is_met db (update k a c) = holds c k db
is_met db (delete k c) = holds c k db
is_met db (remove s k) = true
is_met db (check k c) = holds c k db

unfoldable pub increments : List Assignment → ℕ
increments [] = 0
increments (set f a ∷ rest) = increments rest
increments (increment f n ∷ rest) = n + increments rest

unfoldable pub version_after : Write → ℕ → ℕ
unfolding is_shard increments
version_after (put k i c) n = n
version_after (update k a c) n = if is_shard k then n + increments a else n
version_after (delete k c) n = n
version_after (remove s k) n = n
version_after (check k c) n = n

unfoldable pub keys_after : Write → List String → List String
unfolding is_shard filter
keys_after (put k i c) keys = if is_shard k then keys else k.sort_key ∷ keys
keys_after (update k a c) keys = keys
keys_after (delete k c) keys = filter (λ s. not (str_eq k.sort_key s)) keys
keys_after (remove s (some (text key))) keys = filter (λ s. not (str_eq key s)) keys
keys_after (remove s _) keys = keys
keys_after (check k c) keys = keys

unfoldable pub all_met : Table → List Write → Bool
unfolding is_met
all_met db [] = true
all_met db (w ∷ ws) = is_met db w && all_met db ws

unfoldable pub apply_all : List Write → Table → Table
unfolding version_after keys_after
apply_all [] db = db
apply_all (w ∷ ws) db = apply_all ws (version_after w db.0, keys_after w db.1)

abbrev pub aws_error : Option String → Option (List (Option String)) → AwsError
aws_error code reasons = record {
  error = record {
    is_no_rows = false;
    is_not_found = false;
    mysql_number = none;
    pq_code = none;
    write_codes = [];
    text = "aws";
  };
  api_code = code;
  cancellation = reasons;
}

unfoldable pub reasons_of : Table → List Write → List (Option String)
unfolding is_met
reasons_of db [] = []
reasons_of db (w ∷ ws) =
    (if is_met db w then none else some "ConditionalCheckFailed") ∷ reasons_of db ws

-- Two writes on one item are refused.
unfoldable pub transact : List Write → Table → Option AwsError × Table
unfolding all_met apply_all reasons_of count to_shard
transact ws db =
    if ltb 1 (count to_shard ws)
    then (some (aws_error (some "ValidationException") none), db)
    else if all_met db ws
    then (none, apply_all ws db)
    else (some (aws_error (some "TransactionCanceledException") (some (reasons_of db ws))), db)

unfoldable pub client : Client
unfolding transact apply_all is_met version_after keys_after
client = record {
  Db = Table;
  get_item =
      λ k db. (value (if is_shard k then some (("shard_version", number db.0) ∷ []) else none), db);
  query = λ q db. (value [], db);
  batch_write = λ ws db. (value false, apply_all ws db);
  write = λ w db.
      if is_met db w
      then (none, (version_after w db.0, keys_after w db.1))
      else (some (aws_error (some "ConditionalCheckFailedException") none), db);
  transact = transact;
}

version_after-other : (w : Write) (n : ℕ) → to_shard w ≡ false → version_after w n ≡ n
unfolding version_after to_shard
version_after-other (put k i c) n h = refl
version_after-other (update k a c) n h = ground (arith, h)
version_after-other (delete k c) n h = refl
version_after-other (remove s k) n h = refl
version_after-other (check k c) n h = refl

pub condition_met :
    (w : Write) (s v : ℕ) (assignments : List Assignment) (db : Table)
    → (transact (w ∷ update (shard_key s) assignments (version_is v) ∷ []) db).0 ≡ none
    → db.0 ≡ v
unfolding transact count to_shard is_shard all_met is_met holds
condition_met w s v assignments db h = elim (Bool-cases (to_shard w)) [
  | inl e ↦ absurd (ground (arith, e, h))
  | inr e ↦ ground (arith, e, h)
]

pub increment_applied :
    (w : Write) (s n : ℕ) (condition : Condition) (db : Table)
    → let bump = update (shard_key s) (increment "shard_version" n ∷ []) condition in
      (transact (w ∷ bump ∷ []) db).0 ≡ none → (transact (w ∷ bump ∷ []) db).1.0 ≡ db.0 + n
unfolding transact count to_shard is_shard all_met apply_all is_met version_after increments
increment_applied w s n condition db h = elim (Bool-cases (to_shard w)) [
  | inl e ↦ absurd (ground (arith, e, h))
  | inr e ↦ ground (arith, e, h, version_after-other w db.0 e)
]

pub check_refused :
    (s v : ℕ) (others : List Write) (db : Table)
    → (db.0 == v) ≡ false
    → (transact (check (shard_key s) (version_is v) ∷ others) db).0 ≢ none
unfolding transact all_met is_met holds is_shard
check_refused s v others db hv h =
    elim (Bool-cases (ltb 1 (count to_shard (check (shard_key s) (version_is v) ∷ others)))) [
      | inl e ↦ absurd (ground (arith, e, hv, h))
      | inr e ↦ absurd (ground (arith, e, hv, h))
    ]

unfoldable pub view : VersionView client
unfolding client
view = record {
  version = λ db s. db.0;
  condition_met = condition_met;
  increment_applied = increment_applied;
  check_refused = check_refused;
}
