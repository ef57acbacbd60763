-- ===== src/Databases/Rows.antt =====
-- The rows of the table `timers` of the SQL stores and of Cassandra (server/databases/*/schema): the
-- conditions on them that the stores write, as tests, and what the stores set in them.
use durable_timer.Base.{
  ℕ, ◌+◌, ◌%◌, ◌^◌, String, Bool, false, ◌&&◌, ◌||◌, Option, none, some, ◌==◌, str_eq, ltb, leb,
}
use durable_timer.Databases.Models.{
  Time, Uuid, DbTimer, row_type_shard, row_type_timer, zero_timestamp, zero_uuid,
}

-- A row of `timers`; `none` is NULL, or the default of a column that an INSERT does not name.
pub record Row : Type 0 where
  pub shard_id : ℕ
  pub row_type : ℕ
  pub timer_execute_at : Time
  pub timer_uuid : Uuid
  pub timer_id : Option String
  pub timer_namespace : Option String
  pub timer_callback_url : Option String
  pub timer_payload : Option String
  pub timer_retry_policy : Option String
  pub timer_callback_timeout_seconds : Option ℕ
  pub shard_version : Option ℕ
  pub shard_owner_addr : Option String
  pub shard_claimed_at : Option Time
  pub shard_metadata : Option String
  pub timer_created_at : Option Time
  pub timer_attempts : Option ℕ

-- `column = ?`: a comparison with NULL is not true.
abbrev pub text_is : Option String → String → Bool
text_is none t = false
text_is (some s) t = str_eq s t

abbrev pub number_is : Option ℕ → ℕ → Bool
number_is none n = false
number_is (some m) n = m == n

abbrev pub same_text : Option String → Option String → Bool
same_text none t = false
same_text (some s) t = text_is t s

-- PRIMARY KEY (shard_id, row_type, timer_execute_at, timer_uuid)
unfoldable pub same_primary_key : Row → Row → Bool
same_primary_key r s =
    r.shard_id == s.shard_id
    && r.row_type == s.row_type
    && r.timer_execute_at == s.timer_execute_at
    && r.timer_uuid == s.timer_uuid

-- UNIQUE INDEX idx_timer_lookup (shard_id, row_type, timer_namespace, timer_id); NULLs are distinct.
unfoldable pub same_lookup_key : Row → Row → Bool
same_lookup_key r s =
    r.shard_id == s.shard_id
    && r.row_type == s.row_type
    && same_text r.timer_namespace s.timer_namespace
    && same_text r.timer_id s.timer_id

unfoldable pub conflicts : Row → Row → Bool
conflicts r s = same_primary_key r s || same_lookup_key r s

-- WHERE shard_id = ? AND row_type = 1 AND timer_execute_at = ZeroTimestamp AND timer_uuid = ZeroUUID
unfoldable pub is_shard_row : ℕ → Row → Bool
is_shard_row shard_id r =
    r.shard_id == shard_id
    && r.row_type == row_type_shard
    && r.timer_execute_at == zero_timestamp
    && r.timer_uuid == zero_uuid

-- ... AND shard_version = ?
unfoldable pub is_shard_row_at : ℕ → ℕ → Row → Bool
is_shard_row_at shard_id version r = is_shard_row shard_id r && number_is r.shard_version version

-- WHERE shard_id = ? AND row_type = 2 AND timer_namespace = ? AND timer_id = ?
unfoldable pub is_timer_row : ℕ → String → String → Row → Bool
is_timer_row shard_id namespace timer_id r =
    r.shard_id == shard_id
    && r.row_type == row_type_timer
    && text_is r.timer_namespace namespace
    && text_is r.timer_id timer_id

-- (t, u) <= (t', u')
abbrev pub at_or_before : Time → Uuid → Time → Uuid → Bool
at_or_before t u t' u' = ltb t t' || (t == t' && leb u u')

-- WHERE shard_id = ? AND row_type = 2 AND (timer_execute_at, timer_uuid) >= (?, ?)
-- AND (timer_execute_at, timer_uuid) <= (?, ?)
unfoldable pub is_timer_in_range : ℕ → Time → Uuid → Time → Uuid → Row → Bool
is_timer_in_range shard_id t u t' u' r =
    r.shard_id == shard_id
    && r.row_type == row_type_timer
    && at_or_before t u r.timer_execute_at r.timer_uuid
    && at_or_before r.timer_execute_at r.timer_uuid t' u'

-- The row that an INSERT of a timer gives.
unfoldable pub timer_row : {Json : Type 0} → ℕ → DbTimer Json → Option String → Option String → Row
timer_row shard_id timer payload_json retry_policy_json = record {
  shard_id = shard_id;
  row_type = row_type_timer;
  timer_execute_at = timer.execute_at;
  timer_uuid = timer.timer_uuid;
  timer_id = some timer.id;
  timer_namespace = some timer.namespace;
  timer_callback_url = some timer.callback_url;
  timer_payload = payload_json;
  timer_retry_policy = retry_policy_json;
  timer_callback_timeout_seconds = some timer.callback_timeout_seconds;
  shard_version = none;
  shard_owner_addr = none;
  shard_claimed_at = none;
  shard_metadata = none;
  timer_created_at = some timer.created_at;
  timer_attempts = some timer.attempts;
}

-- What an upsert of a timer sets in the row that is there.
unfoldable pub overwrite_timer : Row → Row → Row
overwrite_timer new r = record r {
  timer_execute_at = new.timer_execute_at;
  timer_uuid = new.timer_uuid;
  timer_callback_url = new.timer_callback_url;
  timer_payload = new.timer_payload;
  timer_retry_policy = new.timer_retry_policy;
  timer_callback_timeout_seconds = new.timer_callback_timeout_seconds;
  timer_created_at = new.timer_created_at;
  timer_attempts = new.timer_attempts;
}

-- An int64 plus 1.
abbrev pub next_version : ℕ → ℕ
next_version v = (v + 1) % 2 ^ 64

-- The row of a shard that is claimed for the first time.
unfoldable pub new_shard_row : ℕ → String → Time → String → Row
new_shard_row shard_id owner_addr now metadata_json = record {
  shard_id = shard_id;
  row_type = row_type_shard;
  timer_execute_at = zero_timestamp;
  timer_uuid = zero_uuid;
  timer_id = none;
  timer_namespace = none;
  timer_callback_url = none;
  timer_payload = none;
  timer_retry_policy = none;
  timer_callback_timeout_seconds = none;
  shard_version = some 1;
  shard_owner_addr = some owner_addr;
  shard_claimed_at = some now;
  shard_metadata = some metadata_json;
  timer_created_at = none;
  timer_attempts = none;
}

-- SET shard_version = ?, shard_owner_addr = ?, shard_claimed_at = ?
unfoldable pub claim_row : ℕ → String → Time → Row → Row
claim_row version owner_addr now r = record r {
  shard_version = some version;
  shard_owner_addr = some owner_addr;
  shard_claimed_at = some now;
}

-- SET shard_metadata = ?
unfoldable pub set_metadata : String → Row → Row
set_metadata metadata_json r = record r { shard_metadata = some metadata_json }
