-- ===== src/Databases/Table.antt =====
-- A table as the number of its rows that pass a test, which forgets the order of the rows.
use durable_timer.Base.{ℕ, ◌+◌, Bool, not, ◌&&◌, ◌≡◌, if◌then◌else◌}
use durable_timer.Databases.Rows.{Row}

-- How many rows pass a test.
abbrev pub Table : Type 0
Table = (Row → Bool) → ℕ

unfoldable pub with_row : Row → Table → Table
with_row r t q = t q + (if q r then 1 else 0)

unfoldable pub with_rows_changed : (Row → Row) → (Row → Bool) → Table → Table
with_rows_changed f p t q = t (λ r. q (if p r then f r else r))

unfoldable pub without_rows : (Row → Bool) → Table → Table
without_rows p t q = t (λ r. q r && not (p r))

-- An effect on a table relates the table before it to the table after it; a function is one.
abbrev pub Becomes : (Table → Table) → Table → Table → Type 0
Becomes f before after = after ≡ f before
