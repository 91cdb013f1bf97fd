-- ===== src/Examples/Sample.antt =====
-- A conversation of one thread with two runs.
use agentchatbot_v.Prelude.{ℕ, ◌≡◌, refl, false, Option, none, some, [], ◌∷◌}
use agentchatbot_v.Text.{Text, codes}
use agentchatbot_v.Store.Schema.{Status, Role, Thread, Run, Message, Citation, Event, Db}
use agentchatbot_v.Store.Runs.{find_run}
use agentchatbot_v.Run.World.{World}
use agentchatbot_v.Run.Handle.{Running}

abbrev pub sample_thread : Thread
sample_thread = record {
  id = 1;
  title = none;
  owner_id = none;
  forked_from = none;
  fork_point = none;
  last_seq = 3;
  created_at = 100;
  updated_at = 120;
}

abbrev pub run_in : ℕ → Status → Option ℕ → Run
run_in r s ended = record {
  id = r;
  thread_id = 1;
  status = s;
  started_at = 110;
  ended_at = ended;
  heartbeat_at = 115;
  model = none;
}

abbrev pub question : Message
question = record {
  id = 20;
  thread_id = 1;
  run_id = some 10;
  seq = 1;
  parent_id = none;
  role = Role.user;
  content_md = some (codes "?");
  tool_name = none;
  tool_args = none;
  tool_result = none;
  approval_state = none;
  tool_call_id = none;
  model = none;
  created_at = 110;
}

abbrev pub cell : ℕ → ℕ → Text → Message
cell m seq call = record question {
  id = m;
  seq = seq;
  parent_id = some 20;
  role = Role.tool;
  content_md = none;
  tool_name = some (codes "search");
  tool_call_id = some call;
}

abbrev pub law : Citation
law = record {
  id = codes "ab-1";
  kind = codes "law";
  title = codes "Civil Act";
  ref = codes "1";
  snippet = [];
  url = [];
  article_text = [];
  law_uri = [];
  resource_id = [];
  eff_date = [];
}

abbrev pub started : Event
started = Event.run_started 10 1 none

abbrev pub with_status : Status → Option ℕ → Db
with_status s ended = record {
  threads = sample_thread ∷ [];
  runs = run_in 10 s ended ∷ run_in 9 Status.completed (some 105) ∷ [];
  messages = cell 22 3 (codes "b") ∷ cell 21 2 (codes "a") ∷ question ∷ [];
  citations = law ∷ [];
  links = [];
  summaries = [];
  settings = [];
  events = record { thread_id = 1; run_id = 10; seq = 1; event = started; created_at = 110 } ∷ [];
  checkpoint_writes = 1 ∷ [];
  checkpoint_blobs = [];
  checkpoints = 1 ∷ [];
}

abbrev pub busy : Db
busy = with_status Status.running none

abbrev pub waiting : Db
waiting = with_status Status.awaiting_approval none

abbrev pub world_of : Db → World
world_of db = record {
  db = db;
  turns = [];
  cancels = (10, false) ∷ [];
  active = 10 ∷ [];
  out = [];
  now = 130;
  next_id = 40;
}

abbrev pub state : Text → Running
state draft = record {
  run_id = 10;
  frozen = codes "ab-1" ∷ [];
  cited_eff = [];
  draft = draft;
  parent_id = some 20;
  model = none;
}

abbrev pub ended : Db
ended = with_status Status.interrupted (some 125)

pub sample_row : (s : Status) (e : Option ℕ) → find_run 10 (with_status s e) ≡ some (run_in 10 s e)
unfolding find_run
sample_row s e = refl
