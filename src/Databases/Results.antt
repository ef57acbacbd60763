-- ===== src/Databases/Results.antt =====
-- What calls return: of a library, and of the operations of a store (server/databases), whose value and
-- `*DbError` are one of the two.
use durable_timer.Base.{String, Bool, true, false, Option, none, some, ◌≡◌, ◌⊎◌, inl, inr, refl}
use durable_timer.Databases.Models.{GoError, DbError, new_generic_db_error}

-- What a call of a library returns: a value, or an error that is not nil.
pub data Answer {ℓ} (A : Type ℓ) : Type ℓ where
  value : A → Answer A
  fault : GoError → Answer A

pub Answer-cases :
    {A : Type 0} (a : Answer A) → ((v : A) × (a ≡ value v)) ⊎ ((e : GoError) × (a ≡ fault e))
Answer-cases (value v) = inl (v, refl)
Answer-cases (fault e) = inr (e, refl)

pub data Result {ℓ} (A : Type ℓ) : Type ℓ where
  ok : A → Result A
  err : DbError → Result A

pub Result-cases {ℓ} :
    {A : Type ℓ} (r : Result A) → ((a : A) × (r ≡ ok a)) ⊎ ((e : DbError) × (r ≡ err e))
Result-cases (ok a) = inl (a, refl)
Result-cases (err e) = inr (e, refl)

infixl 5 ◌>>=◌
abbrev pub ◌>>=◌ {ℓ κ} : {A : Type ℓ} {B : Type κ} → Result A → (A → Result B) → Result B
ok a >>= f = f a
err e >>= f = err e

-- The returned `*DbError` of an operation that returns nothing else.
abbrev pub error_of : Result (Unit {0}) → Option DbError
error_of (ok _) = none
error_of (err e) = some e

-- An error of a library under a message of the store.
abbrev pub or_generic {ℓ} : {A : Type ℓ} → String → Answer A → Result A
or_generic msg (value a) = ok a
or_generic msg (fault e) = err (new_generic_db_error msg (some e))

-- An error, or a result, that says the caller has lost the shard.
abbrev pub is_loss : Option DbError → Bool
is_loss none = false
is_loss (some e) = e.shard_condition_fail

abbrev pub is_lost {ℓ} : {A : Type ℓ} → Result A → Bool
is_lost (ok _) = false
is_lost (err e) = e.shard_condition_fail

abbrev pub is_ok {ℓ} : {A : Type ℓ} → Result A → Bool
is_ok (ok _) = true
is_ok (err _) = false
