-- ===== src/Store/Rules.antt =====
-- Rules for a chain of repository steps.
use agentchatbot_v.Prelude.{◌≡◌, refl}
use agentchatbot_v.Store.Schema.{Db, Failure, Result, ok, err, Action, ◌>>=◌}

-- What holds of the rest after a success, and of a failure, holds of the chain.
pub bind_rule :
    {A C : Type 0} (P : Result C × Db → Type 0) (m : Action A) (k : A → Action C) (db : Db)
    → ((a : A) (db' : Db) → m db ≡ (ok a, db') → P (k a db'))
    → ((e : Failure) (db' : Db) → m db ≡ (err e, db') → P (err e, db'))
    → P ((m >>= k) db)
bind_rule {A} {C} P m k db good bad = go (m db) refl
  where
    next : Result A × Db → Result C × Db
    next x = elim x.0 as (λ _. Result C × Db) [ ok a ↦ k a x.1 | err e ↦ (err e, x.1) ]

    go : (x : Result A × Db) → m db ≡ x → P (next x)
    go (ok a, db') e = good a db' e
    go (err x, db') e = bad x db' e
