-- ===== src/Tests/View.antt =====
-- The table in memory keeps the laws of the server.
use durable_timer.Base.{
  ℕ, true, false, ◌<◌, ◌+◌, Bool, not, ◌&&◌, ◌≡◌, refl, ap, inl, inr, none, some, List, [], ◌∷◌,
  arith, filter, count, any, if◌then◌else◌, Bool-cases,
}
use durable_timer.Databases.Models.{GoError}
use durable_timer.Databases.Rows.{Row, conflicts}
use durable_timer.Databases.Sql.{
  Query, select, select_in_order, first_row, Statement, insert, upsert, upsert_on, update, delete,
  delete_in_order,
}
use durable_timer.Databases.Results.{Answer, value, fault}
use durable_timer.Databases.Table.{Table, with_row, with_rows_changed, without_rows}
use durable_timer.Databases.Sql.Laws.{TableView}
use durable_timer.Tests.Fixtures.{table, no_rows_error, execute, change, answer_query}

abbrev pub rows : List Row → Table
rows db q = count q db

count-change :
    (f : Row → Row) (p q : Row → Bool) (db : List Row)
    → count q (change f p db) ≡ count (λ r. q (if p r then f r else r)) db
unfolding count change
count-change f p q [] = refl
count-change f p q (r ∷ db) = ground (arith, count-change f p q db)

count-filter :
    (p q : Row → Bool) (db : List Row)
    → count q (filter (λ r. not (p r)) db) ≡ count (λ r. q r && not (p r)) db
unfolding count filter
count-filter p q [] = refl
count-filter p q (r ∷ db) = ground (arith, count-filter p q db)

count-none :
    (f : Row → Row) (p q : Row → Bool) (db : List Row)
    → count p db ≡ 0
    → count (λ r. q (if p r then f r else r)) db ≡ count q db
unfolding count
count-none f p q [] h = refl
count-none f p q (r ∷ db) h = elim (Bool-cases (p r)) [
  | inl e ↦ absurd (ground (arith, e, h))
  | inr e ↦ ground (arith, e, h, count-none f p q db)
]

pub rows-change :
    (f : Row → Row) (p : Row → Bool) (db : List Row)
    → rows (change f p db) ≡ with_rows_changed f p (rows db)
unfolding with_rows_changed
rows-change f p db = λ i q. count-change f p q db i

rows-filter :
    (p : Row → Bool) (db : List Row) → rows (filter (λ r. not (p r)) db) ≡ without_rows p (rows db)
unfolding without_rows
rows-filter p db = λ i q. count-filter p q db i

rows-cons : (r : Row) (db : List Row) → rows (r ∷ db) ≡ with_row r (rows db)
unfolding with_row count
rows-cons r db = λ i q. cons q i
  where
    cons : (q : Row → Bool) → count q (r ∷ db) ≡ count q db + (if q r then 1 else 0)
    cons q = ground arith

pub rows-none :
    (f : Row → Row) (p : Row → Bool) (db : List Row)
    → count p db ≡ 0
    → with_rows_changed f p (rows db) ≡ rows db
unfolding with_rows_changed
rows-none f p db h = λ i q. count-none f p q db h i

pub execute_fault :
    (s : Statement) (db : List Row) (e : GoError)
    → (execute s db).0 ≡ fault e
    → (execute s db).1 ≡ db
unfolding execute
execute_fault (insert r) db e h = ground (arith, h)
execute_fault (upsert r f) db e h = ground (arith, h)
execute_fault (upsert_on same r f) db e h = ground (arith, h)
execute_fault (delete_in_order p n) db e h = ground (arith, h)
execute_fault (update f p) db e h = ground (arith, h)
execute_fault (delete p none) db e h = ground (arith, h)
execute_fault (delete p (some n)) db e h = ground (arith, h)

pub queried : (q : Query) (db : List Row) → rows (answer_query q db).1 ≡ rows db
unfolding answer_query
queried (select p) db = refl
queried (select_in_order p n) db = refl

pub count-never : (db : List Row) → count (λ r. false) db ≡ 0
unfolding count
count-never [] = refl
count-never (r ∷ db) = count-never db

-- The first row that passes a test passes it, and counts for any test that it passes.
first-filter :
    (p : Row → Bool) (db : List Row) (r : Row) (e : GoError)
    → first_row e (value (record { rows = filter p db; rows_err = none })) ≡ value r
    → (p r ≡ true) × ((q : Row → Bool) → q r ≡ true → 0 < count q db)
unfolding filter count
first-filter p [] r e h = absurd (ground (arith, h))
first-filter p (s ∷ db) r e h = elim (Bool-cases (p s)) [
  | inl t ↦ ground (arith, t, h)
  | inr t ↦
      let (passes, counts) = first-filter p db r e (ground (arith, t, h)) in
      (passes, λ q c. ground (arith, counts q c))
]

pub first_passes :
    (p : Row → Bool) (db : List Row) (r : Row)
    → first_row no_rows_error (answer_query (select p) db).0 ≡ value r
    → (p r ≡ true) × ((q : Row → Bool) → q r ≡ true → 0 < count q db)
unfolding answer_query
first_passes p db r h = first-filter p db r no_rows_error h

pub exec-update :
    (f : Row → Row) (p : Row → Bool) (db : List Row) (n : Answer ℕ)
    → (execute (update f p) db).0 ≡ value n
    → (n ≡ value (rows db p)) × (rows (execute (update f p) db).1 ≡ with_rows_changed f p (rows db))
unfolding execute
exec-update f p db n h = (ground (arith, h), rows-change f p db)

pub exec-delete :
    (p : Row → Bool) (db : List Row) (n : Answer ℕ)
    → (execute (delete p none) db).0 ≡ value n
    → (n ≡ value (rows db p)) × (rows (execute (delete p none) db).1 ≡ without_rows p (rows db))
unfolding execute
exec-delete p db n h = (ground (arith, h), rows-filter p db)

pub exec-insert :
    (r : Row) (db : List Row) (n : Answer ℕ)
    → (execute (insert r) db).0 ≡ value n
    → rows (execute (insert r) db).1 ≡ with_row r (rows db)
unfolding execute
exec-insert r db n h = elim (Bool-cases (any (conflicts r) db)) [
  | inl e ↦ absurd (ground (arith, e, h))
  | inr e ↦ rw (e, execute) (rows-cons r db)
]

pub begin-value :
    (db : List Row) (tx : List Row × List Row)
    → value (db, db) ≡ value tx
    → (rows tx.1 ≡ rows db) × (rows tx.0 ≡ rows db)
begin-value db tx h = ground (arith, h)

unfoldable pub view : TableView table
unfolding table execute answer_query
view = record {
  rows = rows;
  tx_rows = λ tx. rows tx.1;
  tx_before = λ tx. rows tx.0;
  stored = λ r. r;
  exec_fault = λ s db e h. ap rows (execute_fault s db e h);
  exec_update = exec-update;
  exec_insert = exec-insert;
  tx_insert = λ r tx n h. exec-insert r tx.1 n h;
  tx_update = λ f p tx n h. exec-update f p tx.1 n h;
  tx_delete = λ p tx n h. exec-delete p tx.1 n h;
  none_changed = rows-none;
  tx_exec_before = λ s tx. refl;
  tx_query_before = λ q tx. refl;
  query_rows = λ q db. queried q db;
  tx_query_rows = λ q tx. refl;
  tx_select_first = λ p tx r h. first_passes p tx.1 r h;
  rows_never = count-never;
  stored_version = λ r. refl;
  begin_fault = λ db e h. refl;
  begin_value = begin-value;
  commit_none = λ tx h. refl;
  commit_some = λ tx e h. inr refl;
  rollback_rows = λ tx. refl;
}
