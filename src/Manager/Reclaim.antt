-- ===== src/Manager/Reclaim.antt =====
-- One tick of the maintenance loop (run_manager.py, lines 81-105): which runs it keeps alive, which
-- ones it gives up, and that a thread is free again after its worker died.
use agentchatbot_v.Prelude.{
  ℕ, ◌+◌, ◌≡◌, refl, ap, ◌∙◌, Bool, true, false, ◌&&◌, not, Option, some, List, [], ◌∷◌, map, ◌==◌,
  ltb, arith, if◌then◌else◌, update, exists,
}
use agentchatbot_v.Text.{Text}
use agentchatbot_v.Store.Schema.{Status, same_status, Run, Db, ok}
use agentchatbot_v.Store.Runs.{
  is_run, active_on, open_run, heartbeat_runs, reconcile_orphan_runs, sweep, move, is_stale_run,
}
use agentchatbot_v.Store.Threads.{is_thread, gc_orphan_checkpoints}
use agentchatbot_v.Store.Events.{gc_run_events}
use agentchatbot_v.Run.World.{World, call}
use agentchatbot_v.Manager.Pump.{tick}

-- What a tick does to a run: it is alive, if this instance drives it; it is given up, if its last
-- sign of life is too old; any other run is left alone.
abbrev pub fate : ℕ → ℕ → List ℕ → Run → Run
fate now stale active run =
    if not (same_status run.status Status.running)
    then run
    else if exists (λ r. run.id == r) active
    then record run { heartbeat_at = now }
    else if ltb (run.heartbeat_at + stale) now
    then record run { status = Status.error; ended_at = some now }
    else run

abbrev beaten : ℕ → List ℕ → List Run → List Run
beaten now ids =
    update (λ run. exists (λ r. run.id == r) ids && same_status run.status Status.running)
      (λ run. record run { heartbeat_at = now })

none_beaten : (now : ℕ) (xs : List Run) → xs ≡ beaten now [] xs
none_beaten now [] = refl
none_beaten now (x ∷ xs) = ap (λ l. x ∷ l) (none_beaten now xs)

heartbeat_lem :
    (now : ℕ) (ids : List ℕ) (db : Db) → (heartbeat_runs now ids db).1.runs ≡ beaten now ids db.runs
unfolding heartbeat_runs
heartbeat_lem now [] db = none_beaten now db.runs
heartbeat_lem now (r ∷ ids) db = refl

fates :
    (now stale : ℕ) (ids : List ℕ) (xs : List Run)
    → update (is_stale_run now stale) (move now Status.error true) (beaten now ids xs)
      ≡ map (fate now stale ids) xs
fates now stale ids [] = refl
fates now stale ids (x ∷ xs) = ground (arith, fates now stale ids xs)

two_statements :
    (stale retention : ℕ) (collect : Bool) (w : World)
    → w.turns ≡ []
    → (tick stale retention collect w).1.db.runs
      ≡ update
          (is_stale_run w.now stale)
          (move w.now Status.error true)
          (heartbeat_runs w.now w.active w.db).1.runs
unfolding tick call heartbeat_runs reconcile_orphan_runs sweep gc_run_events gc_orphan_checkpoints
two_statements stale retention collect w h = ground (arith, h)

tick_runs :
    (stale retention : ℕ) (collect : Bool) (w : World)
    → w.turns ≡ []
    → (tick stale retention collect w).1.db.runs ≡ map (fate w.now stale w.active) w.db.runs
tick_runs stale retention collect w h =
    two_statements stale retention collect w h
    ∙ (ap (update (is_stale_run w.now stale) (move w.now Status.error true))
          (heartbeat_lem w.now w.active w.db)
        ∙ fates w.now stale w.active w.db.runs)

-- A run that nobody drives any more: it is running, this instance does not drive it, and its last
-- sign of life is too old.
abbrev pub is_dead : ℕ → ℕ → List ℕ → Run → Bool
is_dead now stale active run =
    same_status run.status Status.running
    && (not (exists (λ r. run.id == r) active) && ltb (run.heartbeat_at + stale) now)

freed :
    (now stale t : ℕ) (ids : List ℕ) (xs : List Run)
    → exists (λ run. active_on t run && not (is_dead now stale ids run)) xs ≡ false
    → exists (active_on t) (map (fate now stale ids) xs) ≡ false
freed now stale t ids [] h = refl
freed now stale t ids (x ∷ xs) h = ground (arith, freed now stale t ids xs)

same_keys :
    (now stale r : ℕ) (ids : List ℕ) (xs : List Run)
    → exists (is_run r) (map (fate now stale ids) xs) ≡ exists (is_run r) xs
same_keys now stale r ids [] = refl
same_keys now stale r ids (x ∷ xs) = ground (arith, same_keys now stale r ids xs)

tick_threads :
    (stale retention : ℕ) (collect : Bool) (w : World)
    → w.turns ≡ []
    → (tick stale retention collect w).1.db.threads ≡ w.db.threads
unfolding tick call heartbeat_runs reconcile_orphan_runs sweep gc_run_events gc_orphan_checkpoints
tick_threads stale retention collect w h = ground (arith, h)

-- One tick of the maintenance loop of any instance decides every run by itself: a running run that
-- the instance drives has the time of the tick as its heartbeat, another running run goes to error
-- if its heartbeat is older than the allowance, and every other run is as it was. So a thread all
-- of whose active runs have been given up by their workers is unlocked by the tick: a run can be
-- opened on it at once. The conditions are that the thread is there, that the key of the new run is
-- new, and that no other instance acts and no call fails meanwhile.
pub tick_unlocks :
    (stale retention : ℕ) (collect : Bool) (w : World) (t r now : ℕ) (model : Option Text)
    → w.turns ≡ []
    → exists (is_thread t) w.db.threads ≡ true
    → exists (is_run r) w.db.runs ≡ false
    → exists (λ run. active_on t run && not (is_dead w.now stale w.active run)) w.db.runs ≡ false
    → ((tick stale retention collect w).1.db.runs ≡ map (fate w.now stale w.active) w.db.runs)
      × ((open_run r now t model (tick stale retention collect w).1.db).0 ≡ ok r)
unfolding open_run
tick_unlocks stale retention collect w t r now model h there new dead =
    let runs = tick_runs stale retention collect w h in
    (
      runs,
      rw
          (
            runs,
            tick_threads stale retention collect w h,
            same_keys w.now stale r w.active w.db.runs,
            new,
            freed w.now stale t w.active w.db.runs dead,
            there,
          )
          refl,
    )
