-- ===== src/Api/Deleting.antt =====
-- The route that deletes a conversation, on each of its outcomes.
use agentchatbot_v.Prelude.{
  ℕ, ◌≡◌, refl, ap, ◌∙◌, sym, subst, ◌⊎◌, inl, inr, Bool, true, false, ◌||◌, ◌&&◌, not, ◌==◌,
  Option, none, some, List, [], ◌∷◌, arith, ltb, exists, count,
}
use agentchatbot_v.Text.{Text}
use agentchatbot_v.Json.{Json}
use agentchatbot_v.Store.Schema.{Status, same_status, Run, Db, Result, ok, err, fk_violation}
use agentchatbot_v.Store.Runs.{has_running_run}
use agentchatbot_v.Store.Threads.{
  has_fork_children, delete_thread, is_thread, is_child_of, points_into,
}
use agentchatbot_v.Store.Deletion.{IsGone, KeepsOthers, delete_thread_lem}
use agentchatbot_v.Run.World.{World, ask, call}
use agentchatbot_v.Run.Alone.{call_alone}
use agentchatbot_v.Api.Outcome.{
  Outcome, done, refused, crashed, Api, within, outcome_of, ◌>>=◌, ◌>>◌, must, some_or,
}
use agentchatbot_v.Api.Threads.{delete_thread_route}
use agentchatbot_v.Api.Invert.{bind_value, within-ask, follow}

-- The conversation is in use: a run of it is running, or a conversation was forked from it.
abbrev pub is_in_use : ℕ → Db → Bool
is_in_use t db =
    exists (λ (run : Run). run.thread_id == t && same_status run.status Status.running) db.runs
    || exists (is_child_of t) db.threads

-- All rows of the conversation have gone, and no other has.
abbrev pub IsDeleted : ℕ → Db → Db → Type 0
IsDeleted t db db' = IsGone t db' × KeepsOthers t db db'

-- What each outcome of the route says.
abbrev pub Settled : ℕ → World → Outcome (Unit {0}) × World → Type 0
Settled t w (done _, w') =
    (is_in_use t w.db ≡ false) × (exists (is_thread t) w.db.threads ≡ true) × IsDeleted t w.db w'.db
Settled t w (refused s, w') =
    ((s ≡ 409) × (is_in_use t w.db ≡ true) × (w'.db ≡ w.db))
    ⊎ ((s ≡ 404) × (exists (is_thread t) w.db.threads ≡ false) × IsDeleted t w.db w'.db)
Settled t w (crashed e, w') = (exists (points_into t w.db) w.db.messages ≡ true) × (w'.db ≡ w.db)

some_counted : {A : Type 0} (p : A → Bool) (xs : List A) → ltb 0 (count p xs) ≡ exists p xs
some_counted p [] = refl
some_counted p (x ∷ xs) = ground (arith, some_counted p xs)

deleted_row :
    (t : ℕ) (db : Db)
    → exists (points_into t db) db.messages ≡ false
    → (delete_thread (some t) db).0 ≡ ok (exists (is_thread t) db.threads)
unfolding delete_thread
deleted_row t db h = rw (h, some_counted (is_thread t) db.threads) refl

blocked :
    (t : ℕ) (db : Db)
    → exists (points_into t db) db.messages ≡ true
    → delete_thread (some t) db ≡ (err fk_violation, db)
unfolding delete_thread
blocked t db h = rw h refl

unblocked :
    (t : ℕ) (db : Db)
    → exists (points_into t db) db.messages ≡ false
    → IsDeleted t db (delete_thread (some t) db).1
unblocked t db h = elim (delete_thread_lem t db) [ inl (e, same) ↦ ground arith | inr d ↦ d ]

module _ (t : ℕ) where
  abbrev gone : Api (Unit {0})
  gone = within (call (λ now. delete_thread (some t))) >>= λ b. must b 404

  abbrev after_forked : Bool → Api (Unit {0})
  after_forked forked = must (not forked) 409 >> gone

  abbrev unless_forked : Api (Unit {0})
  unless_forked = within (ask (has_fork_children (some t))) >>= after_forked

  abbrev after_running : Bool → Api (Unit {0})
  after_running running = must (not running) 409 >> unless_forked

  answered : World → Result Bool × Db → Outcome (Unit {0}) × World
  answered w x = follow (λ b. must b 404) (outcome_of (λ _. none) x.0, record w { db = x.1 })

  gone_eq : (w : World) → w.turns ≡ [] → gone w ≡ answered w (delete_thread (some t) w.db)
  unfolding answered
  gone_eq w h =
      ap (λ x. follow (λ b. must b 404) (outcome_of (λ _. none) x.0, x.1))
        (call_alone (λ now. delete_thread (some t)) w h)

  answered-Settled :
      (w : World) (x : Result Bool × Db) (there : Bool)
      → is_in_use t w.db ≡ false
      → exists (is_thread t) w.db.threads ≡ there
      → x.0 ≡ ok there
      → IsDeleted t w.db x.1
      → Settled t w (answered w x)
  unfolding answered
  answered-Settled w x true u e k d =
      subst
        (λ r.
          Settled t w (follow (λ b. must b 404) (outcome_of (λ _. none) r, record w { db = x.1 })))
        (sym k) (u, e, d)
  answered-Settled w x false u e k d =
      subst
        (λ r.
          Settled t w (follow (λ b. must b 404) (outcome_of (λ _. none) r, record w { db = x.1 })))
        (sym k) (inr (refl, e, d))

  gone-Settled : (w : World) → w.turns ≡ [] → is_in_use t w.db ≡ false → Settled t w (gone w)
  gone-Settled w h u =
      subst (Settled t w) (sym (gone_eq w h))
        (by_pointers (exists (points_into t w.db) w.db.messages) refl)
    where
      by_pointers :
          (b : Bool)
          → exists (points_into t w.db) w.db.messages ≡ b
          → Settled t w (answered w (delete_thread (some t) w.db))
      by_pointers true e =
          subst (λ x. Settled t w (answered w x)) (sym (blocked t w.db e))
            (unfold answered in (e, refl))
      by_pointers false e =
          answered-Settled w (delete_thread (some t) w.db) (exists (is_thread t) w.db.threads) u
            refl (deleted_row t w.db e) (unblocked t w.db e)

  unless_forked-Settled :
      (forked : Bool) (w : World)
      → w.turns ≡ []
      → exists (is_child_of t) w.db.threads ≡ forked
      → exists
          (λ (run : Run). run.thread_id == t && same_status run.status Status.running)
          w.db.runs
        ≡ false
      → Settled t w (after_forked forked w)
  unless_forked-Settled true w h e k = inl (refl, ground (arith, e), refl)
  unless_forked-Settled false w h e k = gone-Settled w h (ground (arith, e, k))

  running-Settled :
      (running : Bool) (w : World)
      → w.turns ≡ []
      → exists
          (λ (run : Run). run.thread_id == t && same_status run.status Status.running)
          w.db.runs
        ≡ running
      → Settled t w (after_running running w)
  unfolding has_fork_children
  running-Settled true w h e = inl (refl, ground (arith, e), refl)
  running-Settled false w h e =
      subst (Settled t w)
        (sym (
          bind_value (within (ask (has_fork_children (some t)))) after_forked w w
            (has_fork_children (some t) w.db) (within-ask (has_fork_children (some t)) w h)))
        (unless_forked-Settled (has_fork_children (some t) w.db) w h refl e)

-- The route that deletes a conversation succeeds only if no run of it is running and no conversation
-- was forked from it, and then it leaves nothing of the conversation and keeps all rows of the
-- others. It answers 409 only where the conversation is in use, 404 only where it does not exist, and
-- fails only where a foreign key points into it, with the database as it was. The conditions are
-- that the identifier is a UUID, and that no other instance acts and no call fails meanwhile.
pub delete_thread_route-Settled :
    (uuid_of : Json → Option ℕ) (thread : Text) (t : ℕ) (w : World)
    → w.turns ≡ []
    → uuid_of (Json.text thread) ≡ some t
    → Settled t w (delete_thread_route uuid_of thread w)
unfolding delete_thread_route has_running_run
delete_thread_route-Settled uuid_of thread t w h u =
    subst (Settled t w)
      (sym (
        ap (λ o. (some_or o 404 >>= known) w) u
        ∙ bind_value (within (ask (has_running_run (some t)))) (after_running t) w w
            (has_running_run (some t) w.db) (within-ask (has_running_run (some t)) w h)))
      (running-Settled t (has_running_run (some t) w.db) w h refl)
  where
    known : ℕ → Api (Unit {0})
    known k = within (ask (has_running_run (some k))) >>= after_running k
