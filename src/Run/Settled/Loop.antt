-- ===== src/Run/Settled/Loop.antt =====
-- The ways in which `_drive` ends its loop, and the status of the run after them.
use agentchatbot_v.Prelude.{
  ℕ, ◌≡◌, refl, ◌∙◌, subst, Bool, true, false, Option, none, some, List, [], ◌∷◌, arith,
}
use agentchatbot_v.Store.Schema.{Db, Result, ok, err}
use agentchatbot_v.Run.World.{World, Gen, pure, ◌>>=◌, request_cancel}
use agentchatbot_v.Run.Chat.{Chunk, interrupt, updates, Item, chunk, crash, Round}
use agentchatbot_v.Run.Handle.{Running, handle_chunk}
use agentchatbot_v.Run.Drive.{
  stop_cancelled, pause, heed, handle_item, cancel_or_handle, round_of, loop,
}
use agentchatbot_v.Run.Settled.Chunks.{Kept, KeepsRuns, SameRun, SameRun-chunk}
use agentchatbot_v.Run.Settled.Ends.{Rests, SettlesOnOk}
use agentchatbot_v.Run.Settled.Stops.{stop_cancelled-Settles, pause-Settles}

abbrev pub Left : Running → World → Result (Option Running) → Db → Type 0
Left rs w (err e) db = Unit
Left rs w (ok none) db = Rests rs.run_id db
Left rs w (ok (some rs')) db = (db.runs ≡ w.db.runs) × SameRun rs rs'

-- How the loop leaves the run: at rest if it has ended the generator, and as it was if it goes on.
pub record Leaves (rs : Running) (w : World) (x : Result (Option Running) × World) : Type 0 where
  pub still : x.1.turns ≡ []
  pub left : Left rs w x.0 x.1.db

-- The generator ends after a part that brings the run to rest.
ends :
    (rs : Running) (w w0 : World) (m : Gen (Unit {0}))
    → SettlesOnOk rs.run_id (m w)
    → Leaves rs w0 ((m >>= λ _. pure none) w)
ends rs w w0 m s = go (m w) s
  where
    next : Result (Unit {0}) × World → Result (Option Running) × World
    next x = elim x.0 as (λ _. Result (Option Running) × World) [
      | ok _ ↦ (ok none, x.1)
      | err e ↦ (err e, x.1)
    ]

    go : (x : Result (Unit {0}) × World) → SettlesOnOk rs.run_id x → Leaves rs w0 (next x)
    go (ok _, w') g = record { still = g.still; left = g.rests }
    go (err e, w') g = record { still = g.still; left = tt }

handled :
    (nodes : List _) (rs : Running) (t : ℕ) (w : World)
    → w.turns ≡ []
    → Leaves rs w ((handle_chunk nodes rs t >>= λ rs'. pure (some rs')) w)
handled nodes rs t w h = go (handle_chunk nodes rs t w) (SameRun-chunk nodes rs t w h)
  where
    next : Result Running × World → Result (Option Running) × World
    next x = elim x.0 as (λ _. Result (Option Running) × World) [
      | ok rs' ↦ (ok (some rs'), x.1)
      | err e ↦ (err e, x.1)
    ]

    go : (x : Result Running × World) → Kept (SameRun rs) w x → Leaves rs w (next x)
    go (ok rs', w') g = record { still = g.still; left = (g.runs_eq, g.meets) }
    go (err e, w') g = record { still = g.still; left = tt }

branch-Leaves :
    (cancelled : Bool) (c : Chunk) (rs : Running) (t : ℕ) (w : World)
    → w.turns ≡ []
    → Leaves rs w (cancel_or_handle cancelled c rs t w)
unfolding handle_item
branch-Leaves true c rs t w h =
    ends rs w w (stop_cancelled rs.run_id t) (stop_cancelled-Settles rs.run_id t w h)
branch-Leaves false (interrupt is) rs t w h =
    ends rs w w (pause rs.run_id t is) (pause-Settles rs.run_id t is w h)
branch-Leaves false (updates nodes) rs t w h = handled nodes rs t w h

-- The flags of the requests to cancel are no part of the database.
KeepsRuns-heed : (round : Round) (r : ℕ) → KeepsRuns (heed round r)
unfolding request_cancel
KeepsRuns-heed round r w h = record {
  still = ground (arith, h);
  runs_eq = ground arith;
  meets = ground arith;
}

onto :
    (rs : Running) (w w' : World) (x : Result (Option Running) × World)
    → w'.db.runs ≡ w.db.runs
    → Leaves rs w' x
    → Leaves rs w x
onto rs w w' (err e, w'') s g = record { still = g.still; left = tt }
onto rs w w' (ok none, w'') s g = record { still = g.still; left = g.left }
onto rs w w' (ok (some rs'), w'') s g = record { still = g.still; left = (g.left.0 ∙ s, g.left.1) }

round-Leaves :
    (item : Item) (round : Round) (rs : Running) (t : ℕ) (w : World)
    → w.turns ≡ []
    → Leaves rs w (round_of item round rs t w)
unfolding round_of
round-Leaves crash round rs t w h = record { still = h; left = tt }
round-Leaves (chunk c) round rs t w h =
    go (heed round rs.run_id w) (KeepsRuns-heed round rs.run_id w h)
  where
    next : Result Bool × World → Result (Option Running) × World
    next x = elim x.0 as (λ _. Result (Option Running) × World) [
      | ok cancelled ↦ cancel_or_handle cancelled c rs t x.1
      | err e ↦ (err e, x.1)
    ]

    go : (x : Result Bool × World) → Kept (λ _. Unit) w x → Leaves rs w (next x)
    go (ok cancelled, w') g =
        onto rs w w' (cancel_or_handle cancelled c rs t w') g.runs_eq
          (branch-Leaves cancelled c rs t w' g.still)
    go (err e, w') g = record { still = g.still; left = tt }

same_run :
    (rs rs' : Running) (w w' : World) (x : Result (Option Running) × World)
    → w'.db.runs ≡ w.db.runs
    → SameRun rs rs'
    → Leaves rs' w' x
    → Leaves rs w x
same_run rs rs' w w' (err e, w'') s i g = record { still = g.still; left = tt }
same_run rs rs' w w' (ok none, w'') s i g = record {
  still = g.still;
  left = subst (λ r. Rests r w''.db) i g.left;
}
same_run rs rs' w w' (ok (some q), w'') s i g = record {
  still = g.still;
  left = (g.left.0 ∙ s, g.left.1 ∙ i);
}

pub loop-Leaves :
    (rounds : List Round) (rs : Running) (t : ℕ) (w : World)
    → w.turns ≡ []
    → Leaves rs w (loop rounds rs t w)
unfolding loop
loop-Leaves [] rs t w h = record { still = h; left = (refl, refl) }
loop-Leaves (round ∷ rounds) rs t w h =
    go (λ rs' w' h'. loop-Leaves rounds rs' t w' h') (round_of round.item round rs t w)
      (round-Leaves round.item round rs t w h)
  where
    more : Option Running → Gen (Option Running)
    more o = elim o [ none ↦ pure none | some rs' ↦ loop rounds rs' t ]

    next : Result (Option Running) × World → Result (Option Running) × World
    next x = elim x.0 as (λ _. Result (Option Running) × World) [
      | ok o ↦ more o x.1
      | err e ↦ (err e, x.1)
    ]

    go :
        ((rs' : Running) (w' : World) → w'.turns ≡ [] → Leaves rs' w' (loop rounds rs' t w'))
        → (x : Result (Option Running) × World) → Leaves rs w x
        → Leaves rs w (next x)
    go k (err e, w') g = record { still = g.still; left = tt }
    go k (ok none, w') g = record { still = g.still; left = g.left }
    go k (ok (some rs'), w') g =
        same_run rs rs' w w' (loop rounds rs' t w') g.left.0 g.left.1 (k rs' w' g.still)
