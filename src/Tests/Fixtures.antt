-- ===== src/Tests/Fixtures.antt =====
-- The parameters of the model as concrete functions: arithmetic in tenths for float64, a clock, a
-- table in memory for MySQL, and texts for JSON.
use durable_timer.Base.{
  ℕ, zero, suc, ◌+◌, ◌*◌, ◌/◌, ◌^◌, String, ◌<>◌, Bool, true, false, none, some, List, [], ◌∷◌, ℤ,
  pos, pos_part, ◌==◌, leb, str_eq, not, any, filter, count, take, if◌then◌else◌,
}
use durable_timer.Databases.Models.{Time, Uuid, GoError, DbTimer, new_error, default_metadata}
use durable_timer.Databases.TimerStore.{TimerStore}
use durable_timer.Databases.Rows.{Row, conflicts, at_or_before, new_shard_row, claim_row}
use durable_timer.Databases.Sql.{
  RowSet, Server, Statement, insert, upsert, upsert_on, update, delete, delete_in_order, Query,
  select, select_in_order,
}
use durable_timer.Databases.Codec.{Codec}
use durable_timer.Databases.Results.{Answer, value, fault}
use durable_timer.Databases.Mysql.{mysql_timer_store}
use durable_timer.Backoff.Policy.{Float}
use durable_timer.Engine.BatchReader.{Platform}

abbrev pub tenths : Float
tenths = record {
  F = ℕ;
  of_int = λ z. 10 * pos_part z;
  to_int = λ a. pos (a / 10);
  add = λ a b. a + b;
  mul = λ a b. a * b / 10;
  pow = λ a b. 10 * (a / 10) ^ (b / 10);
  min = λ a b. if leb a b then a else b;
  max = λ a b. if leb a b then b else a;
  is_le_zero = λ a. a == 0;
  two = 20;
  one_fifth = 2;
  four_fifths = 8;
}

-- A random source that always gives 0.
abbrev pub rand_zero : ℤ → ℕ → ℕ × ℕ
rand_zero n w = (0, w)

abbrev pub clock : Platform
clock = record {
  X = ℕ;
  now = λ x. x;
  rand_intn = rand_zero;
  wait = λ d x. (false, suc (x + pos_part d));
  after_call = λ x. suc x;
}

abbrev pub duplicate_entry : GoError
duplicate_entry = record {
  is_no_rows = false;
  is_not_found = false;
  mysql_number = some 1062;
  pq_code = none;
  write_codes = [];
  text = "Duplicate entry";
}

abbrev pub no_rows_error : GoError
no_rows_error = record {
  is_no_rows = true;
  is_not_found = false;
  mysql_number = none;
  pq_code = none;
  write_codes = [];
  text = "sql: no rows in result set";
}

unfoldable pub change : (Row → Row) → (Row → Bool) → List Row → List Row
change f p [] = []
change f p (r ∷ rs) = (if p r then f r else r) ∷ change f p rs

-- Without the first rows that pass the test.
unfoldable pub drop_some : ℕ → (Row → Bool) → List Row → List Row
drop_some n p [] = []
drop_some zero p (r ∷ rs) = r ∷ rs
drop_some (suc n) p (r ∷ rs) =
    let fewer = drop_some n p rs in
    let same = drop_some (suc n) p rs in if p r then fewer else r ∷ same

unfoldable pub insert_in_order : Row → List Row → List Row
insert_in_order r [] = r ∷ []
insert_in_order r (s ∷ rs) =
    let later = insert_in_order r rs in
    if at_or_before r.timer_execute_at r.timer_uuid s.timer_execute_at s.timer_uuid
    then r ∷ s ∷ rs
    else s ∷ later

unfoldable pub in_order : List Row → List Row
unfolding insert_in_order
in_order [] = []
in_order (r ∷ rs) = insert_in_order r (in_order rs)

unfoldable pub execute : Statement → List Row → Answer (Answer ℕ) × List Row
unfolding change drop_some conflicts filter count any
execute (insert r) db =
    if any (conflicts r) db then (fault duplicate_entry, db) else (value (value 1), r ∷ db)
execute (upsert r f) db =
    if any (conflicts r) db
    then (value (value 2), change f (conflicts r) db)
    else (value (value 1), r ∷ db)
execute (upsert_on same r f) db =
    if any (same r) db
    then (value (value 1), change f (same r) db)
    else if any (conflicts r) db
    then (fault duplicate_entry, db)
    else (value (value 1), r ∷ db)
execute (update f p) db = (value (value (count p db)), change f p db)
execute (delete p none) db = (value (value (count p db)), filter (λ r. not (p r)) db)
execute (delete_in_order p n) db =
    (value (value (if leb n (count p db) then n else count p db)), drop_some n p (in_order db))
execute (delete p (some n)) db =
    (value (value (if leb n (count p db) then n else count p db)), drop_some n p db)

abbrev row_set : List Row → RowSet
row_set rs = record { rows = rs; rows_err = none }

unfoldable pub answer_query : Query → List Row → Answer RowSet × List Row
unfolding filter in_order
answer_query (select p) db = (value (row_set (filter p db)), db)
answer_query (select_in_order p n) db = (value (row_set (take n (in_order (filter p db)))), db)

-- A transaction is the table before it and the table that it sees.
unfoldable pub table : Server
unfolding execute answer_query
table = record {
  Db = List Row;
  Tx = List Row × List Row;
  exec = execute;
  query = answer_query;
  begin = λ db. (value (db, db), db);
  tx_exec = λ statement tx. let (res, now) = execute statement tx.1 in (res, (tx.0, now));
  tx_query = λ q tx. ((answer_query q tx.1).0, tx);
  commit = λ tx. (none, tx.1);
  rollback = λ tx. tx.0;
  scan_error = new_error "sql: Scan error";
  no_rows = no_rows_error;
}

-- Values that are their own texts; the metadata is always the default.
abbrev pub texts : Codec String
texts = record {
  marshal = λ s. value ("=" <> s);
  unmarshal = λ s. if str_eq s "=a" then value (some "a") else fault (new_error "unexpected text");
  marshal_metadata = λ m. value "default";
  unmarshal_metadata = λ s. value default_metadata;
}

abbrev pub digest : String → Uuid
digest s = if str_eq s "ns:t1" then 1 else 2

unfoldable pub store : TimerStore String
unfolding table
store = mysql_timer_store table texts digest (λ db. 1000)

-- A timer of the namespace `ns`.
abbrev pub timer_at : String → Uuid → Time → DbTimer String
timer_at id uuid execute_at = record {
  id = id;
  timer_uuid = uuid;
  namespace = "ns";
  execute_at = execute_at;
  callback_url = "http://localhost/callback";
  payload = some "a";
  retry_policy = none;
  callback_timeout_seconds = 10;
  created_at = 500;
  updated_at = 0;
  executed_at = 0;
  attempts = 0;
}

-- The row of the shard 7 at version 3, and the table that holds only it.
unfoldable pub shard_row : Row
unfolding new_shard_row claim_row
shard_row = claim_row 3 "localhost" 900 (new_shard_row 7 "localhost" 800 "default")

unfoldable pub shard_db : store.State
unfolding store shard_row
shard_db = shard_row ∷ []

unfoldable pub empty_db : store.State
unfolding store
empty_db = []
