-- ===== src/Api/Outcome.antt =====
-- A handler of app.py as a function on the world. `HTTPException` ends it with a status; any other
-- exception is the framework's status 500.
use agentchatbot_v.Prelude.{ℕ, Bool, Option, none, some, if◌then◌else◌}
use agentchatbot_v.Store.Schema.{Result, ok, err, Failure}
use agentchatbot_v.Run.World.{World, Gen}

pub data Outcome (A : Type 0) : Type 0 where
  done : A → Outcome A
  refused : ℕ → Outcome A
  crashed : Failure → Outcome A

abbrev pub Api : Type 0 → Type 0
Api A = World → Outcome A × World

module _ {A : Type 0} where
  abbrev pub reply : A → Api A
  reply a w = (done a, w)

  abbrev pub refuse : ℕ → Api A
  refuse status w = (refused status, w)

  abbrev pub crash : Failure → Api A
  crash e w = (crashed e, w)

  abbrev pub outcome_of : (Failure → Option ℕ) → Result A → Outcome A
  outcome_of status (ok a) = done a
  outcome_of status (err e) = elim (status e) [ none ↦ crashed e | some s ↦ refused s ]

  -- `try: ... except ... : raise HTTPException(status)`, by the exceptions that it names
  abbrev pub catch : (Failure → Option ℕ) → Gen A → Api A
  catch status m w = let (r, w') = m w in (outcome_of status r, w')

  abbrev pub within : Gen A → Api A
  within m = catch (λ _. none) m

infixl 5 ◌>>=◌ ◌>>◌
abbrev pub ◌>>=◌ : {A B : Type 0} → Api A → (A → Api B) → Api B
◌>>=◌ m f w =
    let (r, w') = m w in
    elim r [ done a ↦ f a w' | refused s ↦ (refused s, w') | crashed e ↦ (crashed e, w') ]

abbrev pub ◌>>◌ : {A B : Type 0} → Api A → Api B → Api B
m >> k = m >>= λ _. k

-- `if not test: raise HTTPException(status)`
abbrev pub must : Bool → ℕ → Api (Unit {0})
must test status w = (if test then done tt else refused status, w)

abbrev pub some_or : {A : Type 0} → Option A → ℕ → Api A
some_or none status = refuse status
some_or (some a) status = reply a
