-- ===== src/Databases/Race.antt =====
-- Attempts that race for one thing, of which every attempt sees the state that the one before it left:
-- the claims of a shard, in any store (server/databases).
use durable_timer.Base.{
  ℕ, ◌+◌, ◌≤◌, Bool, true, false, ◌≡◌, inl, inr, refl, List, [], ◌∷◌, arith, if◌then◌else◌,
  Bool-cases,
}

-- `attempt` answers whether it succeeded; `left` is how much there is to take.
module _ {A Db : Type 0} (attempt : A → Db → Bool × Db) (left : Db → ℕ) where
  -- How many of the attempts succeed.
  unfoldable pub winners : List A → Db → ℕ × Db
  winners [] db = (0, db)
  winners (a ∷ rest) db =
      let (won, db1) = attempt a db in
      let (n, db2) = winners rest db1 in ((if won then 1 else 0) + n, db2)

  -- An attempt that succeeds leaves nothing, and one that finds nothing fails and leaves nothing.
  pub record TakesAll : Type 0 where
    pub takes : (a : A) (db : Db) → (attempt a db).0 ≡ true → left (attempt a db).1 ≡ 0
    pub late :
        (a : A) (db : Db) → left db ≡ 0 → ((attempt a db).0 ≡ false) × (left (attempt a db).1 ≡ 0)

  module _ (race : TakesAll) where
    late-lose : (rest : List A) (db : Db) → left db ≡ 0 → (winners rest db).0 ≡ 0
    unfolding winners
    late-lose [] db gone = refl
    late-lose (a ∷ rest) db gone =
        let (lost, still_gone) = race.late a db gone in
        ground (arith, lost, late-lose rest (attempt a db).1 still_gone)

    pub winners-at_most_one : (rest : List A) (db : Db) → (winners rest db).0 ≤ 1
    unfolding winners
    winners-at_most_one [] db = omega arith
    winners-at_most_one (a ∷ rest) db = elim (Bool-cases (attempt a db).0) [
      | inl won ↦ ground (arith, won, late-lose rest (attempt a db).1 (race.takes a db won))
      | inr lost ↦ ground (arith, lost, winners-at_most_one rest (attempt a db).1)
    ]
