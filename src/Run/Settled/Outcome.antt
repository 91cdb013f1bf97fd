-- ===== src/Run/Settled/Outcome.antt =====
-- `_finalize` and `_drive` bring the run to rest, or the answer is refused by the database.
use agentchatbot_v.Prelude.{
  ℕ, ◌+◌, ◌≡◌, refl, sym, ap, ◌∙◌, subst, ◌⊎◌, inl, inr, true, false, Option, none, some, List, [],
  ◌∷◌, map_row,
}
use agentchatbot_v.Text.{Text}
use agentchatbot_v.Store.Schema.{Status, Event, Citation, Run, Db, Failure, Result, ok, err}
use agentchatbot_v.Store.Runs.{find_run, try_transition}
use agentchatbot_v.Store.Lifecycle.{IsKeyed, in_status}
use agentchatbot_v.Store.Messages.{Draft, answer, commit_agent_answer}
use agentchatbot_v.Store.Forks.{get_thread_citations}
use agentchatbot_v.Store.Posting.{Outcome, commit_agent_answer-Outcome}
use agentchatbot_v.Run.World.{World, Gen, call, ask}
use agentchatbot_v.Run.Alone.{call_alone, ask_alone, bind_alone}
use agentchatbot_v.Run.Markers.{find_all}
use agentchatbot_v.Run.Compose.{compose, distinct}
use agentchatbot_v.Run.Chat.{Round}
use agentchatbot_v.Run.Handle.{Running}
use agentchatbot_v.Run.Finalize.{
  finalize, withhold, publish, announce, settle, forgery_notice, forged_in, valid_ids, body_of,
}
use agentchatbot_v.Run.Drive.{drive, loop, after_loop}
use agentchatbot_v.Run.Settled.Chunks.{
  KeepsRuns, KeepsRuns-bind, KeepsRuns-emit, KeepsRuns-yield, Ensures-pure, Ensures-if,
}
use agentchatbot_v.Run.Settled.Ends.{Rests, SettlesOnOk, Settles-then, SettlesOnOk-then}
use agentchatbot_v.Run.Settled.Stops.{transition-Settles, fail_run-Settles, of_Settles}
use agentchatbot_v.Run.Settled.Loop.{Leaves, loop-Leaves}

completed_rests :
    (now : ℕ) (o : Option Run)
    → in_status Status.running
        (map_row (λ (run : Run). record run { status = Status.completed; ended_at = some now }) o)
      ≡ false
completed_rests now none = refl
completed_rests now (some run) = refl

commit-Settles :
    (mid t r : ℕ) (d : Draft) (w : World)
    → w.turns ≡ []
    → IsKeyed w.db.runs
    → SettlesOnOk r (call (λ now. commit_agent_answer mid now t r d) w)
commit-Settles mid t r d w h k = rw (call_alone (λ now. commit_agent_answer mid now t r d) w h) (
    go (commit_agent_answer mid w.now t r d w.db)
      (commit_agent_answer-Outcome mid w.now t r d w.db k))
  where
    go :
        (x : Result (Option (ℕ × ℕ)) × Db)
        → Outcome mid w.now t r d w.db x
        → SettlesOnOk r (x.0, record w { db = x.1 })
    go (ok (some at), db') o = record {
      still = h;
      rests = ap (in_status Status.running) o.1 ∙ completed_rests w.now (find_run r w.db);
    }
    go (ok none, db') o = record {
      still = h;
      rests = ap (λ b. in_status Status.running (find_run r b)) o.1 ∙ o.0;
    }
    go (err e, db') o = record { still = h; rests = tt }

announce-KeepsRuns :
    (final : Text) (cited : List Text) (rs : Running) (t : ℕ) (o : Option (ℕ × ℕ))
    → KeepsRuns (announce final cited rs t o)
announce-KeepsRuns final cited rs t none = Ensures-pure _ tt tt
announce-KeepsRuns final cited rs t (some (mid, seq)) =
    KeepsRuns-bind _ _ _ (KeepsRuns-yield (Event.message_completed final cited) seq)
      (λ _. KeepsRuns-emit (Event.run_done rs.run_id none) t)

abbrev final_text : Text → Running → Text
final_text body rs = compose body (distinct (find_all body)) rs.cited_eff

settle-Settles :
    (forged : List Text) (body : Text) (rs : Running) (t : ℕ) (w : World)
    → w.turns ≡ []
    → IsKeyed w.db.runs
    → SettlesOnOk rs.run_id (settle forged body rs t w)
unfolding publish withhold
settle-Settles [] body rs t w h k =
    SettlesOnOk-then rs.run_id
      (call (λ now.
        commit_agent_answer w.next_id now t rs.run_id
          (answer rs.run_id (final_text body rs) (distinct (find_all body)) rs.parent_id rs.model)))
      _ (record w { next_id = w.next_id + 1 })
      (commit-Settles w.next_id t rs.run_id
        (answer rs.run_id (final_text body rs) (distinct (find_all body)) rs.parent_id rs.model)
        (record w { next_id = w.next_id + 1 }) h k)
      (λ res. announce-KeepsRuns (final_text body rs) (distinct (find_all body)) rs t res)
settle-Settles (c ∷ cs) body rs t w h k = of_Settles rs.run_id _ (
    Settles-then rs.run_id
      (call (λ now. try_transition now rs.run_id Status.running Status.error true)) _ w
      (transition-Settles rs.run_id Status.error w refl refl h)
      (λ won.
        Ensures-if _ won _ _ (KeepsRuns-emit (Event.error forgery_notice (c ∷ cs)) t)
          (Ensures-pure _ tt tt)))

finalize-Settles :
    (rs : Running) (t : ℕ) (w : World)
    → w.turns ≡ []
    → IsKeyed w.db.runs
    → SettlesOnOk rs.run_id (finalize rs t w)
unfolding finalize
finalize-Settles rs t w h k =
    subst (SettlesOnOk rs.run_id)
      (sym (
        bind_alone (ask (get_thread_citations t)) checked w w (get_thread_citations t w.db)
          (ask_alone (get_thread_citations t) w h)))
      (settle-Settles
        (forged_in (valid_ids rs (get_thread_citations t w.db)) (find_all (body_of rs.draft)))
        (body_of rs.draft) rs t w h k)
  where
    checked : List Citation → Gen (Unit {0})
    checked cites =
        settle (forged_in (valid_ids rs cites) (find_all (body_of rs.draft))) (body_of rs.draft) rs
          t

-- A drive leaves its run at rest, that is, ended or waiting for an approval, whatever the agent
-- streams, also if the agent fails or the user cancels. There is one exception: the stream has ended
-- by itself and the database has refused the answer; then the drive raises, and the run may still
-- be running. The conditions are that the primary key of the runs holds, and that no other instance
-- acts and no call fails for want of a database meanwhile.
pub drive_settles :
    (rounds : List Round) (rs : Running) (t : ℕ) (w : World)
    → w.turns ≡ []
    → IsKeyed w.db.runs
    → Rests rs.run_id (drive rounds rs t w).1.db
      ⊎ ((rs' : Running) × (e : Failure) × ((loop rounds rs t w).0 ≡ ok (some rs'))
          × ((drive rounds rs t w).0 ≡ err e))
unfolding drive
drive_settles rounds rs t w h k = go (loop rounds rs t w) (loop-Leaves rounds rs t w h)
  where
    end : Result (Option Running) × World → Result (Unit {0}) × World
    end x = after_loop rs t x.0 x.1

    published :
        (rs' : Running) (x : Result (Unit {0}) × World)
        → rs'.run_id ≡ rs.run_id
        → SettlesOnOk rs'.run_id x
        → Rests rs.run_id x.1.db
          ⊎ ((q : Running) × (e : Failure) × (ok (some rs') ≡ ok (some q)) × (x.0 ≡ err e))
    published rs' (ok _, w') same s = inl (subst (λ r. Rests r w'.db) same s.rests)
    published rs' (err e, w') same s = inr (rs', e, refl, refl)

    go :
        (x : Result (Option Running) × World)
        → Leaves rs w x
        → Rests rs.run_id (end x).1.db
          ⊎ ((rs' : Running) × (e : Failure) × (x.0 ≡ ok (some rs')) × ((end x).0 ≡ err e))
    go (err e, w') l = inl (fail_run-Settles rs.run_id t w' l.still).rests
    go (ok none, w') l = inl l.left
    go (ok (some rs'), w') l =
        published rs' (finalize rs' t w') l.left.1
          (finalize-Settles rs' t w' l.still (subst IsKeyed (sym l.left.0) k))
