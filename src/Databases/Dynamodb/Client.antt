-- ===== src/Databases/Dynamodb/Client.antt =====
-- The writes that the DynamoDB store (server/databases/dynamodb/dynamodb_timer_store_impl.go) sends, as
-- data, its keys, and the interface of the AWS client, which is a parameter.
use durable_timer.Base.{ℕ, String, ◌<>◌, Bool, false, ◌||◌, Option, none, some, List, str_eq}
use durable_timer.Databases.Models.{Time, Uuid, GoError}
use durable_timer.Databases.Results.{Answer}
use durable_timer.Databases.TimerUuid.{Layout, ParseError}

-- An attribute: a number is the bit pattern of the int64 that its text stands for, a decimal any other
-- number, as its text.
pub data Attribute : Type 0 where
  number : ℕ → Attribute
  decimal : String → Attribute
  text : String → Attribute

abbrev pub Item : Type 0
Item = List (String × Attribute)

pub record Key : Type 0 where
  pub shard_id : ℕ
  pub sort_key : String

-- `GetTimerSortKey`
unfoldable pub get_timer_sort_key : String → String → String
get_timer_sort_key namespace timer_id = "TIMER#" <> namespace <> "#" <> timer_id

abbrev pub shard_key : ℕ → Key
shard_key shard_id = record { shard_id = shard_id; sort_key = "SHARD" }

abbrev pub timer_key : ℕ → String → String → Key
timer_key shard_id namespace timer_id = record {
  shard_id = shard_id;
  sort_key = get_timer_sort_key namespace timer_id;
}

-- An assignment of a SET expression: a value, or `shard_version + :inc`.
pub data Assignment : Type 0 where
  set : String → Attribute → Assignment
  increment : String → ℕ → Assignment

pub data Condition : Type 0 where
  -- attribute_exists(sort_key)
  exists : Condition
  -- attribute_not_exists(shard_id)
  not_exists : Condition
  -- shard_version = ?
  version_is : ℕ → Condition
  -- attribute_exists(sort_key) AND shard_version = ?
  exists_at : ℕ → Condition

pub data Write : Type 0 where
  put : Key → Item → Option Condition → Write
  update : Key → List Assignment → Condition → Write
  delete : Key → Condition → Write
  -- the deletion of the item with these values of shard_id and sort_key, without a condition
  remove : Option Attribute → Option Attribute → Write
  -- the ConditionCheck of a transaction
  check : Key → Condition → Write

-- A query of the index on the composite field: `shard_id = ? AND timer_execute_at_with_uuid BETWEEN ? AND
-- ?`, filtered by `row_type = timer`, in ascending order.
pub record Query : Type 0 where
  pub shard_id : ℕ
  pub lower_bound : String
  pub upper_bound : String
  pub limit : Option ℕ

-- An error of the client: the code of the `smithy.APIError` that it wraps, and the codes of the
-- cancellation reasons of the `types.TransactionCanceledException` that it wraps.
pub record AwsError : Type 0 where
  pub error : GoError
  pub api_code : Option String
  pub cancellation : Option (List (Option String))

-- `*dynamodb.Client` with the table
pub record Client : Type 1 where
  pub Db : Type 0
  -- GetItem
  pub get_item : Key → Db → Answer (Option Item) × Db
  -- The items of a Query
  pub query : Query → Db → Answer (List Item) × Db
  -- PutItem, UpdateItem and DeleteItem
  pub write : Write → Db → Option AwsError × Db
  -- BatchWriteItem, and whether there are unprocessed items
  pub batch_write : List Write → Db → Answer Bool × Db
  -- TransactWriteItems
  pub transact : List Write → Db → Option AwsError × Db

-- The formats of the texts in an item: the composite field's, RFC 3339 with nanoseconds, and a UUID's;
-- the error of `strconv.ParseInt` on a decimal, and the number that `strconv.Atoi` returns with its error;
-- the error that `ParseExecuteAtWithUuid` makes, whose text quotes the library's.
pub record Formats : Type 0 where
  pub layout : Layout
  pub format_rfc3339_nano : Time → String
  pub parse_rfc3339_nano : String → Option Time
  pub parse_int_error : String → GoError
  pub atoi_decimal : String → ℕ
  pub composite_error : ParseError → String → GoError
  pub parse_uuid : String → Answer Uuid
  pub format_uuid : Uuid → String

-- `isConditionalCheckFailedException`
unfoldable pub is_conditional_check_failed : AwsError → Bool
is_conditional_check_failed e = elim e.api_code [
  | none ↦ false
  | some code ↦
      str_eq code "ConditionalCheckFailedException" || str_eq code "TransactionCanceledException"
]
