-- ===== src/Tests/Keyspace.antt =====
-- A table in memory for Cassandra, and that it keeps the laws of conditional statements.
use durable_timer.Base.{
  ℕ, Bool, true, false, not, ◌&&◌, ◌≡◌, refl, Option, none, some, List, [], ◌∷◌, arith, any, filter,
  count, if◌then◌else◌, Bool-cases, inl, inr,
}
use durable_timer.Databases.Models.{GoError}
use durable_timer.Databases.Results.{Answer, value, fault}
use durable_timer.Databases.Rows.{Row, same_primary_key}
use durable_timer.Databases.Sql.{RowSet}
use durable_timer.Databases.Table.{with_rows_changed}
use durable_timer.Databases.Cassandra.Cql.{
  Key, Cql, insert, insert_if_not_exists, update_if_version, update_if_exists, delete_range,
  delete_if_exists, has_key, Iterator, Session,
}
use durable_timer.Databases.Cassandra.Laws.{is_applied, CasView, has_version}
use durable_timer.Tests.Fixtures.{change, answer_query}
use durable_timer.Tests.View.{rows, count-never, rows-change, queried}

abbrev pub not_found_error : GoError
not_found_error = record {
  is_no_rows = false;
  is_not_found = true;
  mysql_number = none;
  pq_code = none;
  write_codes = [];
  text = "not found";
}

unfoldable pub holds : Cql → List Row → Bool
unfolding any has_key has_version same_primary_key
holds (insert r) db = true
holds (insert_if_not_exists r) db = not (any (same_primary_key r) db)
holds (update_if_version f k v) db = any (has_version k v) db
holds (update_if_exists f k) db = any (has_key k) db
holds (delete_range p) db = true
holds (delete_if_exists k) db = any (has_key k) db

unfoldable pub apply : Cql → List Row → List Row
unfolding filter change has_key has_version same_primary_key
apply (insert r) db = r ∷ filter (λ s. not (same_primary_key r s)) db
apply (insert_if_not_exists r) db = r ∷ db
apply (update_if_version f k v) db = change f (has_version k v) db
apply (update_if_exists f k) db = change f (has_key k) db
apply (delete_range p) db = filter (λ r. not (p r)) db
apply (delete_if_exists k) db = filter (λ r. not (has_key k r)) db

unfoldable pub all_hold : List Cql → List Row → Bool
unfolding holds
all_hold [] db = true
all_hold (c ∷ cs) db = holds c db && all_hold cs db

unfoldable pub apply_all : List Cql → List Row → List Row
unfolding apply
apply_all [] db = db
apply_all (c ∷ cs) db = apply_all cs (apply c db)

abbrev first_version : List Row → Option (Option ℕ)
first_version [] = none
first_version (r ∷ _) = some r.shard_version

unfoldable pub previous : List Cql → List Row → Option (Option ℕ)
unfolding filter has_key
previous (update_if_version f k v ∷ _) db = first_version (filter (has_key k) db)
previous _ db = none

abbrev iterator_of : Answer RowSet → Iterator
iterator_of (value s) = record { rows = s.rows; close_err = none }
iterator_of (fault e) = record { rows = []; close_err = some e }

unfoldable pub cas_of : Cql → List Row → Answer Bool × List Row
unfolding holds apply
cas_of c db = if holds c db then (value true, apply c db) else (value false, db)

unfoldable pub keyspace : Session
unfolding answer_query cas_of holds apply all_hold apply_all previous
keyspace = record {
  Db = List Row;
  iterate = λ q db. (iterator_of (answer_query q db).0, (answer_query q db).1);
  exec = λ c db. (none, if holds c db then apply c db else db);
  cas = cas_of;
  batch_cas = λ cs db.
      if all_hold cs db
      then (value (record { applied = true; previous_version = none }), apply_all cs db)
      else (value (record { applied = false; previous_version = previous cs db }), db);
  not_found = not_found_error;
}

pub any-none : (p : Row → Bool) (db : List Row) → count p db ≡ 0 → any p db ≡ false
unfolding any count
any-none p [] h = refl
any-none p (r ∷ db) h = elim (Bool-cases (p r)) [
  | inl e ↦ absurd (ground (arith, e, h))
  | inr e ↦ ground (arith, e, h, any-none p db)
]

pub cas-applied :
    (f : Row → Row) (k : Key) (v : ℕ) (db : List Row)
    → is_applied (cas_of (update_if_version f k v) db).0 ≡ true
    → rows (cas_of (update_if_version f k v) db).1 ≡ with_rows_changed f (has_version k v) (rows db)
unfolding cas_of
cas-applied f k v db h = elim (Bool-cases (any (has_version k v) db)) [
  | inl e ↦ rw (e, cas_of) (rows-change f (has_version k v) db)
  | inr e ↦ absurd (ground (arith, e, h))
]

unfoldable pub cas_view : CasView keyspace
unfolding keyspace
cas_view = record {
  rows = rows;
  stored = λ r. r;
  stored_version = λ r. refl;
  rows_never = count-never;
  iterate_rows = queried;
  cas_refused = λ f k v db h. rw (any-none (has_version k v) db h, keyspace) (refl, refl);
  batch_refused = λ f k v others db h. rw (any-none (has_version k v) db h, keyspace) (refl, refl);
  cas_applied = cas-applied;
}
