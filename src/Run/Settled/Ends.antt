-- ===== src/Run/Settled/Ends.antt =====
-- What it is for a run to rest, and the rules for calls that bring it to rest.
use agentchatbot_v.Prelude.{
  ℕ, ◌≡◌, refl, sym, ap, ◌∙◌, subst, Bool, true, false, Option, none, some, [], arith, ◌==◌, first,
  update, first-update, map_row, change, first_holds,
}
use agentchatbot_v.Store.Schema.{Status, same_status, Run, Db, Result, ok, err}
use agentchatbot_v.Store.Runs.{is_run, is_run_in, is_active, move, find_run, try_transition}
use agentchatbot_v.Store.Lifecycle.{in_status}
use agentchatbot_v.Run.World.{World, Gen, ◌>>=◌}
use agentchatbot_v.Run.Settled.Chunks.{Kept, KeepsRuns}

-- The run is not running: it has ended, or waits for an approval.
abbrev pub Rests : ℕ → Db → Type 0
Rests r db = in_status Status.running (find_run r db) ≡ false

pub Rests-alike : (r : ℕ) (db db' : Db) → db'.runs ≡ db.runs → Rests r db → Rests r db'
unfolding find_run
Rests-alike r db db' e h = rw e h

moved_rests :
    (r now : ℕ) (to : Status) (ended : Bool) (o : Option Run)
    → same_status to Status.running ≡ false
    → ((run : Run) → o ≡ some run → (run.id == r) ≡ true)
    → in_status Status.running (map_row (change (is_run_in r Status.running) (move now to ended)) o)
      ≡ false
moved_rests r now to ended none h k = refl
moved_rests r now to ended (some run) h k = ground (arith, h, k run refl)

-- The compare-and-set from running, whether it succeeds or not.
pub try_transition-Rests :
    (now r : ℕ) (to : Status) (ended : Bool) (db : Db)
    → same_status to Status.running ≡ false
    → is_active to ≡ false
    → Rests r (try_transition now r Status.running to ended db).1
unfolding try_transition find_run
try_transition-Rests now r to ended db h a =
    subst (λ xs. in_status Status.running (first (is_run r) xs) ≡ false) (sym written)
      (ap (in_status Status.running) (
          first-update (is_run r) (is_run_in r Status.running) (move now to ended) db.runs
            (λ x. refl))
        ∙ moved_rests r now to ended (first (is_run r) db.runs) h (first_holds (is_run r) db.runs))
  where
    written :
        (try_transition now r Status.running to ended db).1.runs
        ≡ update (is_run_in r Status.running) (move now to ended) db.runs
    written = ground (arith, a)

-- An outcome after which the run rests, whatever the result; and one where it does if there is one.
pub record Settles {A : Type 0} (r : ℕ) (x : Result A × World) : Type 0 where
  pub still : x.1.turns ≡ []
  pub rests : Rests r x.1.db

abbrev pub RestsOnOk : {A : Type 0} → ℕ → Result A → Db → Type 0
RestsOnOk r (ok a) db = Rests r db
RestsOnOk r (err e) db = Unit

pub record SettlesOnOk {A : Type 0} (r : ℕ) (x : Result A × World) : Type 0 where
  pub still : x.1.turns ≡ []
  pub rests : RestsOnOk r x.0 x.1.db

pub Settles-then :
    {A C : Type 0} (r : ℕ) (m : Gen A) (f : A → Gen C) (w : World)
    → Settles r (m w)
    → ((a : A) → KeepsRuns (f a))
    → Settles r ((m >>= f) w)
Settles-then {A} {C} r m f w s k = go (m w) s
  where
    next : Result A × World → Result C × World
    next x = elim x.0 as (λ _. Result C × World) [ ok a ↦ f a x.1 | err e ↦ (err e, x.1) ]

    go : (x : Result A × World) → Settles r x → Settles r (next x)
    go (ok a, w') g =
        let c = k a w' g.still in
        record { still = c.still; rests = Rests-alike r w'.db _ c.runs_eq g.rests }
    go (err e, w') g = record { still = g.still; rests = g.rests }

pub SettlesOnOk-then :
    {A C : Type 0} (r : ℕ) (m : Gen A) (f : A → Gen C) (w : World)
    → SettlesOnOk r (m w)
    → ((a : A) → KeepsRuns (f a))
    → SettlesOnOk r ((m >>= f) w)
SettlesOnOk-then {A} {C} r m f w s k = go (m w) s
  where
    next : Result A × World → Result C × World
    next x = elim x.0 as (λ _. Result C × World) [ ok a ↦ f a x.1 | err e ↦ (err e, x.1) ]

    rested : (x : Result C × World) → Rests r x.1.db → RestsOnOk r x.0 x.1.db
    rested (ok a, w') h = h
    rested (err e, w') h = tt

    go : (x : Result A × World) → SettlesOnOk r x → SettlesOnOk r (next x)
    go (ok a, w') g =
        let c = k a w' g.still in
        record {
          still = c.still;
          rests = rested (f a w') (Rests-alike r w'.db _ c.runs_eq g.rests);
        }
    go (err e, w') g = record { still = g.still; rests = tt }

-- What keeps the runs may come first.
pub then-SettlesOnOk :
    {A C : Type 0} (r : ℕ) (m : Gen A) (f : A → Gen C) (w : World)
    → w.turns ≡ []
    → KeepsRuns m
    → ((a : A) (w' : World) → w'.turns ≡ [] → SettlesOnOk r (f a w'))
    → SettlesOnOk r ((m >>= f) w)
then-SettlesOnOk {A} {C} r m f w h k s = go (m w) (k w h)
  where
    next : Result A × World → Result C × World
    next x = elim x.0 as (λ _. Result C × World) [ ok a ↦ f a x.1 | err e ↦ (err e, x.1) ]

    go : (x : Result A × World) → Kept (λ _. Unit) w x → SettlesOnOk r (next x)
    go (ok a, w') g = s a w' g.still
    go (err e, w') g = record { still = g.still; rests = tt }
