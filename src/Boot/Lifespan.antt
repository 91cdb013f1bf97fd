-- ===== src/Boot/Lifespan.antt =====
-- The lifespan of the application (app.py, lines 69-102): the start in its order, and the end,
-- which comes whatever fails.
use agentchatbot_v.Prelude.{
  ℕ, ◌+◌, ◌-◌, ◌≡◌, refl, Bool, true, false, Option, none, some, List, arith, if◌then◌else◌,
}
use agentchatbot_v.Text.{Text}
use agentchatbot_v.Env.{Env}
use agentchatbot_v.Store.Schema.{Db}
use agentchatbot_v.Store.Runs.{reconcile_orphan_runs}
use agentchatbot_v.Run.Service.{RunService}
use agentchatbot_v.Boot.Database.{
  no_checkpoints, no_models, Trial, good, bad, or_bad, Machine, Pool, build_pool, run_migrations,
}
use agentchatbot_v.Boot.Registry.{Given, run_service}

-- The database, the connection pools that are open, the run managers whose threads run, and whether
-- `app.state.runs` is set.
pub record Site : Type 0 where
  pub db : Db
  pub pools : ℕ
  pub managers : ℕ
  pub has_runs : Bool

abbrev pub Start : Type 0 → Type 0
Start A = Site → Trial A × Site

infixl 5 ◌>>=◌
abbrev pub ◌>>=◌ : {A B : Type 0} → Start A → (A → Start B) → Start B
◌>>=◌ m f s = let (r, s') = m s in elim r [ good a ↦ f a s' | bad e ↦ (bad e, s') ]

-- The stale time of `reconcile_orphan_runs` that the start leaves as it is.
abbrev stale_seconds : ℕ
stale_seconds = 30

-- What the start calls that is given: the machine, `PostgresSaver.setup`, the agent factory, and the
-- requests that are served between the start and the end, with the time of the start.
pub record Parts : Type 0 where
  pub machine : Machine Db
  pub setup : Db → Option Db
  pub factory : Option Given
  pub serve : RunService → Db → Db
  pub now : ℕ

module _ (p : Parts) (env : Env) where
  unfoldable pub migrate : Start (List Text)
  migrate s = let (r, db') = run_migrations p.machine env s.db in (r, record s { db = db' })

  abbrev set_up_with : Option Db → Start (Unit {0})
  set_up_with none s = (bad no_checkpoints, s)
  set_up_with (some db') s = (good tt, record s { db = db' })

  unfoldable pub set_up : Start (Unit {0})
  set_up s = set_up_with (p.setup s.db) s

  unfoldable pub reconcile : Start (Unit {0})
  reconcile s = (good tt, record s { db = (reconcile_orphan_runs p.now stale_seconds s.db).1 })

  abbrev of_given : Option Given → Option RunService
  of_given none = none
  of_given (some given) = run_service given none

  unfoldable pub assemble : Start RunService
  assemble s = (or_bad no_models (of_given p.factory), s)

  -- The manager starts its thread, then the application serves.
  unfoldable pub served : RunService → Start (Unit {0})
  served svc s =
      (good tt, record s { db = p.serve svc s.db; managers = s.managers + 1; has_runs = true })

  unfoldable pub body : Start (Unit {0})
  unfolding migrate set_up reconcile assemble served
  body = do names ← migrate; done ← set_up; swept ← reconcile; svc ← assemble; served svc

  -- The `finally`: a manager that was started is shut down, and the pool is closed.
  unfoldable pub finish : Site → Site
  finish s = record s {
    pools = s.pools - 1;
    managers = if s.has_runs then s.managers - 1 else s.managers;
  }

  abbrev with_pool : Trial Pool → Start (Unit {0})
  with_pool (bad e) s = (bad e, s)
  with_pool (good pool) s = let (r, s') = body (record s { pools = s.pools + 1 }) in (r, finish s')

  unfoldable pub lifespan : Start (Unit {0})
  unfolding body finish
  lifespan s = with_pool (build_pool p.machine env none none none) s

  body_leaves :
      (s : Site)
      → s.has_runs ≡ false
      → ((body s).1.pools ≡ s.pools)
        × ((body s).1.managers ≡ (if (body s).1.has_runs then s.managers + 1 else s.managers))
  unfolding body
  body_leaves s h = (ground arith, ground (arith, h))

  -- Whatever fails at the start or whether the application has served, no pool stays open and no
  -- thread of a manager stays behind.
  pub lifespan_closes :
      (s : Site)
      → s.has_runs ≡ false
      → ((lifespan s).1.pools ≡ s.pools) × ((lifespan s).1.managers ≡ s.managers)
  unfolding lifespan
  lifespan_closes s h = go (build_pool p.machine env none none none)
    where
      go :
          (t : Trial Pool)
          → ((with_pool t s).1.pools ≡ s.pools) × ((with_pool t s).1.managers ≡ s.managers)
      go (bad e) = (refl, refl)
      go (good pool) =
          let l = body_leaves (record s { pools = s.pools + 1 }) h in
          (ground (arith, l.0), ground (arith, l.1))
