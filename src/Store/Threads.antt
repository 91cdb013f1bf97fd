-- ===== src/Store/Threads.antt =====
-- The thread, settings and summary methods of conversation.py (lines 54-179 and 371-418) and
-- `gc_orphan_checkpoints`.
use agentchatbot_v.Prelude.{
  ℕ, ◌+◌, Bool, true, false, ◌&&◌, ◌||◌, not, Option, none, some, List, ◌∷◌, ◌==◌, ltb,
  if◌then◌else◌, select, remove, update, sort_by, exists, first, count, holds, is_some, take,
  reverse,
}
use agentchatbot_v.Text.{Text, text_eq}
use agentchatbot_v.Store.Schema.{
  Thread, Run, Message, Link, Summary, Settings, EventRow, Db, key_error, unique_violation,
  fk_violation, ok, err, Action,
}

abbrev pub is_thread : ℕ → Thread → Bool
is_thread t th = th.id == t

abbrev new_thread : ℕ → ℕ → Option Text → Option ℕ → Thread
new_thread tid now title owner = record {
  id = tid;
  title = title;
  owner_id = owner;
  forked_from = none;
  fork_point = none;
  last_seq = 0;
  created_at = now;
  updated_at = now;
}

unfoldable pub create_thread : ℕ → ℕ → Option Text → Option ℕ → Action ℕ
create_thread tid now title owner db =
    if exists (is_thread tid) db.threads
    then (err unique_violation, db)
    else (ok tid, record db { threads = new_thread tid now title owner ∷ db.threads })

-- `ORDER BY updated_at DESC`
abbrev later : Thread → Thread → Bool
later th u = ltb u.updated_at th.updated_at

abbrev owned : Option ℕ → Thread → Bool
owned none th = true
owned (some o) th = holds th.owner_id o

unfoldable pub list_threads : Option ℕ → ℕ → Db → List Thread
unfolding sort_by
list_threads owner limit db = take limit (sort_by later (select (owned owner) db.threads))

unfoldable pub thread_exists : Option ℕ → Db → Bool
thread_exists none db = false
thread_exists (some t) db = exists (is_thread t) db.threads

unfoldable pub rename_thread : ℕ → Option ℕ → Text → Action Bool
rename_thread now none title db = (ok false, db)
rename_thread now (some t) title db = (
  ok (ltb 0 (count (is_thread t) db.threads)),
  record db {
    threads =
        update (is_thread t) (λ th. record th { title = some title; updated_at = now }) db.threads;
  },
)

abbrev untitled : ℕ → Thread → Bool
untitled t th = th.id == t && not (is_some th.title)

unfoldable pub set_thread_title_if_empty : Option ℕ → Text → Action Bool
set_thread_title_if_empty none title db = (ok false, db)
set_thread_title_if_empty (some t) title db = (
  ok (ltb 0 (count (untitled t) db.threads)),
  record db { threads = update (untitled t) (λ th. record th { title = some title }) db.threads },
)

abbrev pub is_child_of : ℕ → Thread → Bool
is_child_of t th = holds th.forked_from t

unfoldable pub has_fork_children : Option ℕ → Db → Bool
has_fork_children none db = false
has_fork_children (some t) db = exists (is_child_of t) db.threads

abbrev pub in_thread : ℕ → Message → Bool
in_thread t m = m.thread_id == t

abbrev pub links_into : ℕ → List Message → Link → Bool
links_into t ms l = exists (λ m. m.thread_id == t && m.id == l.message_id) ms

-- A row of another thread that points at a message or a run of this one: the foreign keys
-- messages.parent_id and messages.run_id refuse the delete.
abbrev pub points_into : ℕ → Db → Message → Bool
points_into t db m =
    not (m.thread_id == t)
    && (exists (λ (p : Message). p.thread_id == t && holds m.parent_id p.id) db.messages
        || exists (λ (run : Run). run.thread_id == t && holds m.run_id run.id) db.runs)

-- The statements of the cascade, in their order.
unfoldable delete_rows : ℕ → Db → Db
delete_rows t db = record db {
  links = remove (links_into t db.messages) db.links;
  messages = remove (in_thread t) db.messages;
  events = remove (λ (e : EventRow). e.thread_id == t) db.events;
  runs = remove (λ (run : Run). run.thread_id == t) db.runs;
  summaries = remove (λ (s : Summary). s.thread_id == t) db.summaries;
  checkpoint_writes = remove (λ (k : ℕ). k == t) db.checkpoint_writes;
  checkpoint_blobs = remove (λ (k : ℕ). k == t) db.checkpoint_blobs;
  checkpoints = remove (λ (k : ℕ). k == t) db.checkpoints;
}

-- The children's pointers are cleared before the row goes.
unfoldable drop_thread : ℕ → Db → Db
drop_thread t db = record db {
  threads =
      remove (is_thread t)
        (update (is_child_of t) (λ th. record th { forked_from = none }) db.threads);
}

unfoldable pub delete_thread : Option ℕ → Action Bool
unfolding delete_rows drop_thread
delete_thread none db = (ok false, db)
delete_thread (some t) db =
    if exists (points_into t db) db.messages
    then (err fk_violation, db)
    else (ok (ltb 0 (count (is_thread t) db.threads)), drop_thread t (delete_rows t db))

abbrev pub bump : ℕ → Thread → Thread
bump now th = record th { last_seq = th.last_seq + 1; updated_at = now }

-- `UPDATE threads SET last_seq = last_seq + 1 ... RETURNING last_seq`, and KeyError on no row
unfoldable pub next_seq : ℕ → ℕ → Action ℕ
next_seq now t db = elim (first (is_thread t) db.threads) [
  | none ↦ (err key_error, db)
  | some th ↦
      (ok (th.last_seq + 1), record db { threads = update (is_thread t) (bump now) db.threads })
]

-- Settings. A field of the request is not sent (`_UNSET`), or sent with a value that may be null.
pub data Sent : Type 0 where
  unset : Sent
  sent : Option Text → Sent

abbrev pub given : Sent → Option Text
given unset = none
given (sent v) = v

abbrev pub or_kept : Sent → Option Text → Option Text
or_kept unset old = old
or_kept (sent v) old = v

abbrev pub is_scope : Text → Settings → Bool
is_scope scope row = text_eq row.scope scope

unfoldable pub get_settings : Text → Db → Option Settings
get_settings scope db = first (is_scope scope) db.settings

unfoldable pub put_settings : Text → Sent → Sent → Sent → Action (Unit {0})
put_settings scope model server_url theme db =
    if exists (is_scope scope) db.settings
    then (ok tt, record db { settings = update (is_scope scope) merge db.settings })
    else (ok tt, record db { settings = fresh ∷ db.settings })
  where
    merge : Settings → Settings
    merge row = record row {
      model = or_kept model row.model;
      server_url = or_kept server_url row.server_url;
      theme = or_kept theme row.theme;
    }

    fresh : Settings
    fresh = record {
      scope = scope;
      model = given model;
      server_url = given server_url;
      theme = given theme;
    }

unfoldable pub add_summary : ℕ → ℕ → Option ℕ → Option ℕ → Text → Action ℕ
add_summary sid t from to content db =
    if exists (λ (s : Summary). s.id == sid) db.summaries
    then (err unique_violation, db)
    else if exists (is_thread t) db.threads
    then (
      ok sid,
      record db {
        summaries =
            record {
              id = sid;
              thread_id = t;
              covers_from_seq = from;
              covers_to_seq = to;
              content_md = content;
            }
            ∷ db.summaries;
      },
    )
    else (err fk_violation, db)

-- `ORDER BY created_at`: rows are added in front, so that the oldest is the last.
unfoldable pub get_summaries : ℕ → Db → List Summary
get_summaries t db = reverse (select (λ (s : Summary). s.thread_id == t) db.summaries)

-- `gc_orphan_checkpoints`
abbrev no_thread : Db → ℕ → Bool
no_thread db k = not (exists (is_thread k) db.threads)

unfoldable pub gc_orphan_checkpoints : Action ℕ
gc_orphan_checkpoints db = (
  ok (
      count (no_thread db) db.checkpoint_writes
      + (count (no_thread db) db.checkpoint_blobs + count (no_thread db) db.checkpoints)),
  record db {
    checkpoint_writes = remove (no_thread db) db.checkpoint_writes;
    checkpoint_blobs = remove (no_thread db) db.checkpoint_blobs;
    checkpoints = remove (no_thread db) db.checkpoints;
  },
)
