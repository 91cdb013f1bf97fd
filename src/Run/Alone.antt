-- ===== src/Run/Alone.antt =====
-- Runs of the generator while no other instance acts and the database answers.
use agentchatbot_v.Prelude.{
  ℕ, ◌≡◌, refl, ap, ◌∙◌, Bool, true, false, Option, some, List, [], ◌∷◌, arith, if◌then◌else◌,
  first, update, first-update, map_row, change, first_holds,
}
use agentchatbot_v.Text.{Text}
use agentchatbot_v.Store.Schema.{
  Status, Approval, Citation, PendingCall, Run, Db, Event, Action, Result, ok, err,
}
use agentchatbot_v.Store.Runs.{is_run, find_run, move, set_run_status, try_transition, clashes}
use agentchatbot_v.Store.Threads.{next_seq}
use agentchatbot_v.Store.Messages.{set_pending_approval, get_pending_tool_calls}
use agentchatbot_v.Store.Forks.{get_thread_citations}
use agentchatbot_v.Store.Ops.Frames.{runs-next_seq, runs-set_pending_approval}
use agentchatbot_v.Run.World.{World, Gen, pure, perform, call, ask, yield, emit, ◌>>=◌, ◌>>◌}
use agentchatbot_v.Run.Markers.{find_all}
use agentchatbot_v.Run.Handle.{Running}
use agentchatbot_v.Run.Chat.{interrupt_detail}
use agentchatbot_v.Run.Drive.{pause}
use agentchatbot_v.Run.Finalize.{
  finalize, withhold, forgery_notice, settle, forged_in, valid_ids, body_of,
}

-- A call is then one step of the database.
pub call_alone :
    {A : Type 0} (m : ℕ → Action A) (w : World) → w.turns ≡ [] → call m w ≡ perform (m w.now) w
unfolding call
call_alone m w h = rw h refl

pub ask_alone : {A : Type 0} (f : Db → A) (w : World) → w.turns ≡ [] → ask f w ≡ (ok (f w.db), w)
unfolding ask
ask_alone f w h = call_alone _ w h

-- What a generator goes on with, on the outcome of its first part.
abbrev pub go_on : {A B : Type 0} → (A → Gen B) → Result A × World → Result B × World
go_on {B} f x = elim x.0 as (λ _. Result B × World) [ ok a ↦ f a x.1 | err e ↦ (err e, x.1) ]

pub bind_alone :
    {A B : Type 0} (m : Gen A) (f : A → Gen B) (w w' : World) (a : A)
    → m w ≡ (ok a, w')
    → (m >>= f) w ≡ f a w'
bind_alone m f w w' a e = ap (go_on f) e

-- With no other instance about, the generator leaves a projection of the database as it is.
abbrev pub Keeps : {A B : Type 0} → (Db → B) → Gen A → Type 0
Keeps f m = (w : World) → w.turns ≡ [] → ((m w).1.turns ≡ []) × (f (m w).1.db ≡ f w.db)

pub Keeps-bind :
    {A B C : Type 0} (p : Db → C) (m : Gen A) (f : A → Gen B)
    → Keeps p m
    → ((a : A) → Keeps p (f a))
    → Keeps p (m >>= f)
Keeps-bind p m f k j w h = go (m w) (k w h)
  where
    go :
        (x : Result _ × World)
        → (x.1.turns ≡ []) × (p x.1.db ≡ p w.db)
        → ((go_on f x).1.turns ≡ []) × (p (go_on f x).1.db ≡ p w.db)
    go (ok a, w') g = let i = j a w' g.0 in (i.0, i.1 ∙ g.1)
    go (err e, w') g = g

pub Keeps-call :
    {A B : Type 0} (p : Db → B) (m : ℕ → Action A)
    → ((now : ℕ) (db : Db) → p (m now db).1 ≡ p db)
    → Keeps p (call m)
Keeps-call p m k w h = rw (call_alone m w h) (h, k w.now w.db)

pub Keeps-emit :
    {B : Type 0} (p : Db → B) (e : Event) (t : ℕ)
    → ((now : ℕ) (db : Db) → p (next_seq now t db).1 ≡ p db)
    → Keeps p (emit e t)
unfolding emit
Keeps-emit p e t k =
    Keeps-bind p (call (λ now. next_seq now t)) (yield e) (Keeps-call p (λ now. next_seq now t) k)
      (λ seq w h. (h, refl))

messages-next_seq : (now t : ℕ) (db : Db) → (next_seq now t db).1.messages ≡ db.messages
unfolding next_seq
messages-next_seq now t db = ground arith

messages-try_transition :
    (now r : ℕ) (from to : Status) (ended : Bool) (db : Db)
    → (try_transition now r from to ended db).1.messages ≡ db.messages
unfolding try_transition
messages-try_transition now r from to ended db = ground arith

Keeps-withhold :
    (forged : List Text) (rs : Running) (t : ℕ) → Keeps (λ db. db.messages) (withhold forged rs t)
unfolding withhold
Keeps-withhold forged rs t =
    Keeps-bind (λ db. db.messages)
      (call (λ now. try_transition now rs.run_id Status.running Status.error true))
      (λ won. if won then emit (Event.error forgery_notice forged) t else pure tt)
      (Keeps-call _ (λ now. try_transition now rs.run_id Status.running Status.error true)
        (λ now db. messages-try_transition now rs.run_id Status.running Status.error true db))
      (λ won. report won)
  where
    report :
        (won : Bool)
        → Keeps
            (λ db. db.messages)
            (if won then emit (Event.error forgery_notice forged) t else pure tt)
    report true w h =
        Keeps-emit (λ db. db.messages) (Event.error forgery_notice forged) t
          (λ now db. messages-next_seq now t db) w h
    report false w h = (h, refl)

-- A draft that cites an id which is neither frozen in this run nor cited in the thread before is not
-- published: `_finalize` adds and changes no message. The condition is that no other instance acts
-- and no call fails meanwhile.
pub forged_answer_withheld :
    (rs : Running) (t : ℕ) (w : World) (c : Text) (cs : List Text)
    → w.turns ≡ []
    → forged_in (valid_ids rs (get_thread_citations t w.db)) (find_all (body_of rs.draft)) ≡ c ∷ cs
    → (finalize rs t w).1.db.messages ≡ w.db.messages
unfolding finalize
forged_answer_withheld rs t w c cs h f =
    ap (λ x. x.1.db.messages)
      (bind_alone (ask (get_thread_citations t)) checked w w (get_thread_citations t w.db)
        (ask_alone (get_thread_citations t) w h))
    ∙ (ap (λ l. (settle l (body_of rs.draft) rs t w).1.db.messages) f
        ∙ (Keeps-withhold (c ∷ cs) rs t w h).1)
  where
    checked : List Citation → Gen (Unit {0})
    checked cites =
        settle (forged_in (valid_ids rs cites) (find_all (body_of rs.draft))) (body_of rs.draft) rs
          t

Keeps-ask : {A B : Type 0} (p : Db → B) (f : Db → A) → Keeps p (ask f)
unfolding ask
Keeps-ask p f = Keeps-call p (λ now db. (ok (f db), db)) (λ now db. refl)

-- What `pause` does after it has set the status.
abbrev request : ℕ → ℕ → List (Option Text) → Gen (Unit {0})
request r t is = do
  call (λ now. set_pending_approval r Approval.pending)
  tools ← ask (get_pending_tool_calls r)
  emit (Event.approval_requested r tools (interrupt_detail is)) t

Keeps-request : (r t : ℕ) (is : List (Option Text)) → Keeps (λ db. db.runs) (request r t is)
Keeps-request r t is =
    Keeps-bind (λ db. db.runs) (call (λ now. set_pending_approval r Approval.pending)) (λ _. asked)
      (Keeps-call _ (λ now. set_pending_approval r Approval.pending)
        (λ now db. runs-set_pending_approval r Approval.pending db))
      (λ _.
        Keeps-bind (λ db. db.runs) (ask (get_pending_tool_calls r)) requested
          (Keeps-ask _ (get_pending_tool_calls r))
          (λ tools.
            Keeps-emit _ (Event.approval_requested r tools (interrupt_detail is)) t
              (λ now db. runs-next_seq now t db)))
  where
    requested : List PendingCall → Gen (Unit {0})
    requested tools = emit (Event.approval_requested r tools (interrupt_detail is)) t

    asked : Gen (Unit {0})
    asked = ask (get_pending_tool_calls r) >>= requested

moved_row :
    (r now : ℕ) (to : Status) (ended : Bool) (xs : List Run) (run : Run)
    → first (is_run r) xs ≡ some run
    → first (is_run r) (update (is_run r) (move now to ended) xs) ≡ some (move now to ended run)
moved_row r now to ended xs run e =
    first-update (is_run r) (is_run r) (move now to ended) xs (λ x. refl)
    ∙ (ap (map_row (change (is_run r) (move now to ended))) e
        ∙ rw (first_holds (is_run r) xs run e) refl)

-- The interrupt branch of `_drive` sets the status without a test of the old one: a run in whatever
-- status, also one that has ended, is waiting for an approval after it, and keeps the time at which
-- it ended. The conditions are that no other run of the thread is active, and that no other instance
-- acts and no call fails meanwhile.
pub pause_revives :
    (r t : ℕ) (is : List (Option Text)) (w : World) (run : Run)
    → w.turns ≡ []
    → find_run r w.db ≡ some run
    → clashes r w.db ≡ false
    → find_run r (pause r t is w).1.db ≡ some (record run { status = Status.awaiting_approval })
unfolding pause find_run set_run_status
pause_revives r t is w run h e c =
    ap (λ x. first (is_run r) x.1.db.runs)
      (bind_alone (call (λ now. set_run_status now r Status.awaiting_approval false))
        (λ _. request r t is) w waiting tt written)
    ∙ (ap (first (is_run r)) (Keeps-request r t is waiting h).1
        ∙ moved_row r w.now Status.awaiting_approval false w.db.runs run e)
  where
    waiting : World
    waiting = record w {
      db = record w.db {
        runs = update (is_run r) (move w.now Status.awaiting_approval false) w.db.runs;
      };
    }

    written : call (λ now. set_run_status now r Status.awaiting_approval false) w ≡ (ok tt, waiting)
    written = call_alone _ w h ∙ rw c refl
