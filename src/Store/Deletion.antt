-- ===== src/Store/Deletion.antt =====
-- `delete_thread` and the garbage collection of the event log.
use agentchatbot_v.Prelude.{
  ℕ, ◌≡◌, refl, ◌∙◌, ◌⊎◌, Bool, true, false, ◌&&◌, not, none, some, List, [], ◌∷◌, ◌==◌, arith,
  remove, select, update, map, ap, if◌then◌else◌, exists, first, exists-remove, Bool-cases, inl,
  inr, eq_of_==, exists_of_first,
}
use agentchatbot_v.Store.Schema.{Thread, Run, Summary, EventRow, Db, err, fk_violation}
use agentchatbot_v.Store.Runs.{find_run, is_run}
use agentchatbot_v.Store.Threads.{
  is_thread, in_thread, is_child_of, links_into, points_into, delete_thread,
}
use agentchatbot_v.Store.Events.{gc_run_events, is_event, is_expired, is_orphan, ended_before}
use agentchatbot_v.Store.Lifecycle.{IsKeyed}

-- The rows outside of `gone` are the same, under every test.
abbrev pub Keeps {ℓ} : {A : Type ℓ} → (A → Bool) → List A → List A → Type ℓ
Keeps {A} gone rows rows' =
    (p : A → Bool)
    → select (λ x. p x && not (gone x)) rows' ≡ select (λ x. p x && not (gone x)) rows

-- A child of the thread without its pointer.
abbrev pub orphaned : ℕ → Thread → Thread
orphaned t th = if is_child_of t th then record th { forked_from = none } else th

-- No table keeps a row of the thread, and no thread points at it.
pub record IsGone (t : ℕ) (db : Db) : Type 0 where
  pub thread_row : exists (is_thread t) db.threads ≡ false
  pub messages_gone : exists (in_thread t) db.messages ≡ false
  pub runs_gone : exists (λ (run : Run). run.thread_id == t) db.runs ≡ false
  pub events_gone : exists (λ (e : EventRow). e.thread_id == t) db.events ≡ false
  pub summaries_gone : exists (λ (s : Summary). s.thread_id == t) db.summaries ≡ false
  pub writes_gone : exists (λ (k : ℕ). k == t) db.checkpoint_writes ≡ false
  pub blobs_gone : exists (λ (k : ℕ). k == t) db.checkpoint_blobs ≡ false
  pub checkpoints_gone : exists (λ (k : ℕ). k == t) db.checkpoints ≡ false
  pub no_child : exists (is_child_of t) db.threads ≡ false

-- Of every table exactly the rows of the thread have gone: whatever test one searches the others by,
-- the same row is found. A thread that was forked from it has lost its pointer and nothing else.
pub record KeepsOthers (t : ℕ) (db db' : Db) : Type 0 where
  pub links_gone : exists (links_into t db.messages) db'.links ≡ false
  pub same_links : Keeps (links_into t db.messages) db.links db'.links
  pub same_citations : db'.citations ≡ db.citations
  pub same_settings : db'.settings ≡ db.settings
  pub same_messages : Keeps (in_thread t) db.messages db'.messages
  pub same_runs : Keeps (λ (x : Run). x.thread_id == t) db.runs db'.runs
  pub same_events : Keeps (λ (x : EventRow). x.thread_id == t) db.events db'.events
  pub same_summaries : Keeps (λ (x : Summary). x.thread_id == t) db.summaries db'.summaries
  pub same_writes : Keeps (λ (k : ℕ). k == t) db.checkpoint_writes db'.checkpoint_writes
  pub same_blobs : Keeps (λ (k : ℕ). k == t) db.checkpoint_blobs db'.checkpoint_blobs
  pub same_checkpoints : Keeps (λ (k : ℕ). k == t) db.checkpoints db'.checkpoints
  pub same_threads : Keeps (is_thread t) (map (orphaned t) db.threads) db'.threads

Keeps-remove {ℓ} : {A : Type ℓ} (gone : A → Bool) (xs : List A) → Keeps gone xs (remove gone xs)
Keeps-remove gone [] p = refl
Keeps-remove gone (x ∷ xs) p = ground (arith, Keeps-remove gone xs p)

update-map :
    (t : ℕ) (ths : List Thread)
    → update (is_child_of t) (λ th. record th { forked_from = none }) ths ≡ map (orphaned t) ths
update-map t [] = refl
update-map t (th ∷ ths) = ap (λ l. orphaned t th ∷ l) (update-map t ths)

Keeps-threads :
    (t : ℕ) (ths : List Thread)
    → Keeps
        (is_thread t)
        (map (orphaned t) ths)
        (remove (is_thread t) (update (is_child_of t) (λ th. record th { forked_from = none }) ths))
Keeps-threads t ths p =
    ap (λ l. select (λ x. p x && not (is_thread t x)) (remove (is_thread t) l)) (update-map t ths)
    ∙ Keeps-remove (is_thread t) (map (orphaned t) ths) p

no_child_left :
    (t : ℕ) (ths : List Thread)
    → exists
        (is_child_of t)
        (remove (is_thread t) (update (is_child_of t) (λ th. record th { forked_from = none }) ths))
      ≡ false
no_child_left t [] = refl
no_child_left t (th ∷ ths) = ground (arith, no_child_left t ths)

-- Deleting a thread either is refused by a foreign key and changes nothing, which happens only if a
-- message of another thread points to a message or a run of it, or leaves no row of the thread in
-- any table and no pointer to it, while in every table all rows that are not the thread's stay as
-- they are, in their order: links, messages, events, runs, summaries, the checkpoint tables, frozen
-- citations and settings, and the threads, of which those forked from it have lost the pointer.
pub delete_thread_lem :
    (t : ℕ) (db : Db)
    → ((exists (points_into t db) db.messages ≡ true)
        × (delete_thread (some t) db ≡ (err fk_violation, db)))
      ⊎ (IsGone t (delete_thread (some t) db).1 × KeepsOthers t db (delete_thread (some t) db).1)
unfolding delete_thread
delete_thread_lem t db = elim (Bool-cases (exists (points_into t db) db.messages)) [
  | inl e ↦ inl (e, rw e refl)
  | inr e ↦ inr (
      rw e (
        record {
          thread_row = exists-remove (is_thread t) _;
          messages_gone = exists-remove (in_thread t) db.messages;
          runs_gone = exists-remove _ db.runs;
          events_gone = exists-remove _ db.events;
          summaries_gone = exists-remove _ db.summaries;
          writes_gone = exists-remove _ db.checkpoint_writes;
          blobs_gone = exists-remove _ db.checkpoint_blobs;
          checkpoints_gone = exists-remove _ db.checkpoints;
          no_child = no_child_left t db.threads;
        },
        record {
          links_gone = exists-remove (links_into t db.messages) db.links;
          same_links = Keeps-remove (links_into t db.messages) db.links;
          same_citations = refl;
          same_settings = refl;
          same_messages = Keeps-remove (in_thread t) db.messages;
          same_runs = Keeps-remove _ db.runs;
          same_events = Keeps-remove _ db.events;
          same_summaries = Keeps-remove _ db.summaries;
          same_writes = Keeps-remove _ db.checkpoint_writes;
          same_blobs = Keeps-remove _ db.checkpoint_blobs;
          same_checkpoints = Keeps-remove _ db.checkpoints;
          same_threads = Keeps-threads t db.threads;
        },
      ))
]

ended_absent :
    (now secs : ℕ) (r : ℕ) (xs : List Run)
    → exists (is_run r) xs ≡ false
    → exists (λ (x : Run). x.id == r && ended_before now secs x.ended_at) xs ≡ false
ended_absent now secs r [] h = refl
ended_absent now secs r (x ∷ xs) h = ground (arith, ended_absent now secs r xs)

not_ended :
    (now secs r : ℕ) (xs : List Run) (run : Run)
    → IsKeyed xs
    → first (is_run r) xs ≡ some run
    → run.ended_at ≡ none
    → exists (λ (x : Run). x.id == r && ended_before now secs x.ended_at) xs ≡ false
not_ended now secs r [] run k e h = refl
not_ended now secs r (x ∷ xs) run k e h = elim (Bool-cases (x.id == r)) [
  | inl here ↦ ground (arith, eq_of_== x.id r here, ended_absent now secs r xs, k.0, e, h)
  | inr there ↦ ground (arith, not_ended now secs r xs run k.1, e)
]

keeps_row :
    (r seq : ℕ) (gone : EventRow → Bool) (rows : List EventRow)
    → ((row : EventRow) → is_event r seq row ≡ true → gone row ≡ false)
    → first (is_event r seq) (remove gone rows) ≡ first (is_event r seq) rows
keeps_row r seq gone [] h = refl
keeps_row r seq gone (row ∷ rows) h = ground (arith, keeps_row r seq gone rows h, h row)

row_run : (r seq : ℕ) (row : EventRow) → is_event r seq row ≡ true → row.run_id ≡ r
row_run r seq row h = ground arith

-- The garbage collection of the event log leaves every event of a run that has no time of ending
-- where it is. The condition is that the primary key of the runs holds.
pub gc_run_events_spares :
    (db : Db) (now secs r seq : ℕ) (run : Run)
    → IsKeyed db.runs
    → find_run r db ≡ some run
    → run.ended_at ≡ none
    → first (is_event r seq) (gc_run_events now secs db).1.events ≡ first (is_event r seq) db.events
unfolding gc_run_events find_run
gc_run_events_spares db now secs r seq run k e h =
    keeps_row r seq (is_orphan now secs db.runs) _ not_orphan
    ∙ keeps_row r seq (is_expired now secs db.runs) db.events not_expired
  where
    not_expired :
        (row : EventRow) → is_event r seq row ≡ true → is_expired now secs db.runs row ≡ false
    not_expired row m = simp (row_run r seq row m) (not_ended now secs r db.runs run k e h)

    not_orphan :
        (row : EventRow) → is_event r seq row ≡ true → is_orphan now secs db.runs row ≡ false
    not_orphan row m =
        simp (row_run r seq row m, exists_of_first (is_run r) db.runs run e) (ground arith)
