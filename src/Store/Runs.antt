-- ===== src/Store/Runs.antt =====
-- The run methods of conversation.py (lines 111-123, 182-267, 449-455, 470-490, 588-620) and the
-- partial unique index one_active_run_per_thread.
use agentchatbot_v.Prelude.{
  ℕ, ◌+◌, Bool, true, false, ◌&&◌, ◌||◌, not, Option, none, some, List, [], ◌∷◌, ◌==◌, ltb,
  if◌then◌else◌, select, update, exists, first, count, holds, is_some,
}
use agentchatbot_v.Text.{Text, codes}
use agentchatbot_v.Store.Schema.{
  Status, same_status, is_tool, Content, Run, Message, Db, active_run_exists, unique_violation,
  fk_violation, ok, err, Action,
}

-- ACTIVE_STATUSES, and the predicate of the partial index
abbrev pub is_active : Status → Bool
is_active Status.running = true
is_active Status.awaiting_approval = true
is_active _ = false

abbrev pub is_run : ℕ → Run → Bool
is_run r run = run.id == r

-- The row that the key leads to, and its status.
unfoldable pub find_run : ℕ → Db → Option Run
find_run r db = first (is_run r) db.runs

abbrev pub active_on : ℕ → Run → Bool
active_on t run = run.thread_id == t && is_active run.status

abbrev new_run : ℕ → ℕ → ℕ → Option Text → Run
new_run rid now t model = record {
  id = rid;
  thread_id = t;
  status = Status.running;
  started_at = now;
  ended_at = none;
  heartbeat_at = now;
  model = model;
}

-- `open_run`: any unique violation of the insert, of the key or of the index, is reported as an
-- active run; the foreign key is checked after them.
unfoldable pub open_run : ℕ → ℕ → ℕ → Option Text → Action ℕ
open_run rid now t model db =
    if exists (is_run rid) db.runs || exists (active_on t) db.runs
    then (err active_run_exists, db)
    else if exists (λ th. th.id == t) db.threads
    then (ok rid, record db { runs = new_run rid now t model ∷ db.runs })
    else (err fk_violation, db)

-- `get_run_model`; `none` as the key is a text that `uuid.UUID` refuses
unfoldable pub get_run_model : Option ℕ → Db → Option Text
unfolding find_run
get_run_model none db = none
get_run_model (some r) db = elim (find_run r db) [ none ↦ none | some run ↦ run.model ]

-- `ended_at = CASE WHEN ended THEN now() ELSE ended_at END`
abbrev pub move : ℕ → Status → Bool → Run → Run
move now to ended run = record run {
  status = to;
  ended_at = if ended then some now else run.ended_at;
}

-- Whether a run that becomes active meets another active run of its thread.
abbrev pub clashes : ℕ → Db → Bool
clashes r db = elim (first (is_run r) db.runs) [
  | none ↦ false
  | some run ↦ exists (λ q. not (q.id == r) && active_on run.thread_id q) db.runs
]

-- `set_run_status`: no test of the old status
unfoldable pub set_run_status : ℕ → ℕ → Status → Bool → Action (Unit {0})
set_run_status now r to ended db =
    if is_active to && clashes r db
    then (err unique_violation, db)
    else (ok tt, record db { runs = update (is_run r) (move now to ended) db.runs })

-- `try_transition`: compare and set
abbrev pub is_run_in : ℕ → Status → Run → Bool
is_run_in r from run = run.id == r && same_status run.status from

unfoldable pub try_transition : ℕ → ℕ → Status → Status → Bool → Action Bool
try_transition now r from to ended db =
    if exists (is_run_in r from) db.runs && (is_active to && clashes r db)
    then (err unique_violation, db)
    else (
      ok (count (is_run_in r from) db.runs == 1),
      record db { runs = update (is_run_in r from) (move now to ended) db.runs },
    )

-- _INTERRUPTED_TOOL_MARKER
abbrev pub interrupted_tool : Content
interrupted_tool = Content.str (codes "실행이 중단되어 결과를 받지 못했습니다.")

abbrev pub fill : Content → Message → Message
fill marker m = record m { tool_result = some marker }

-- `role = 'tool' AND tool_result IS NULL`
abbrev pub is_open_cell : Message → Bool
is_open_cell m = is_tool m.role && not (is_some m.tool_result)

abbrev is_orphan_of : List Run → Message → Bool
is_orphan_of swept m = is_open_cell m && exists (λ run. holds m.run_id run.id) swept

-- The statement that `reconcile_orphan_runs` and `_timeout` share: the runs that meet the test go
-- to error, and their open tool cells are filled.
unfoldable pub sweep : ℕ → (Run → Bool) → Action ℕ
sweep now stale db = (
  ok (count stale db.runs),
  record db {
    runs = update stale (move now Status.error true) db.runs;
    messages = update (is_orphan_of (select stale db.runs)) (fill interrupted_tool) db.messages;
  },
)

abbrev pub is_stale_run : ℕ → ℕ → Run → Bool
is_stale_run now secs run =
    same_status run.status Status.running && ltb (run.heartbeat_at + secs) now

abbrev pub is_stale_approval : ℕ → ℕ → Run → Bool
is_stale_approval now secs run =
    same_status run.status Status.awaiting_approval && ltb (run.started_at + secs) now

-- RECONCILE_STATUSES is running alone
unfoldable pub reconcile_orphan_runs : ℕ → ℕ → Action ℕ
unfolding sweep
reconcile_orphan_runs now stale_seconds = sweep now (is_stale_run now stale_seconds)

unfoldable pub timeout_stale_approvals : ℕ → ℕ → Action ℕ
unfolding sweep
timeout_stale_approvals now ttl = sweep now (is_stale_approval now ttl)

unfoldable pub timeout_stale_runs : ℕ → ℕ → Action ℕ
unfolding sweep
timeout_stale_runs now ttl = sweep now (is_stale_run now ttl)

abbrev beats : List ℕ → Run → Bool
beats ids run = exists (λ r. run.id == r) ids && same_status run.status Status.running

unfoldable pub heartbeat_runs : ℕ → List ℕ → Action ℕ
heartbeat_runs now [] db = (ok 0, db)
heartbeat_runs now (r ∷ ids) db = (
  ok (count (beats (r ∷ ids)) db.runs),
  record db { runs = update (beats (r ∷ ids)) (λ run. record run { heartbeat_at = now }) db.runs },
)

unfoldable pub get_run : Option ℕ → Db → Option (ℕ × Status)
unfolding find_run
get_run none db = none
get_run (some r) db = elim (find_run r db) [
  | none ↦ none
  | some run ↦ some (run.thread_id, run.status)
]

-- `ORDER BY started_at DESC LIMIT 1`
newest : List Run → Option Run
newest [] = none
newest (run ∷ runs) = elim (newest runs) [
  | none ↦ some run
  | some q ↦ if ltb run.started_at q.started_at then some q else some run
]

unfoldable pub get_active_run : ℕ → Db → Option (ℕ × Status)
unfolding newest
get_active_run t db = elim (newest (select (active_on t) db.runs)) [
  | none ↦ none
  | some run ↦ some (run.id, run.status)
]

unfoldable pub has_running_run : Option ℕ → Db → Bool
has_running_run none db = false
has_running_run (some t) db =
    exists (λ run. run.thread_id == t && same_status run.status Status.running) db.runs

-- `run_status_counts`, asked for one status: 0 stands for a status that the result does not list
unfoldable pub run_status_counts : Db → Status → ℕ
run_status_counts db s = count (λ run. same_status run.status s) db.runs
