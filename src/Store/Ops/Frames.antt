-- ===== src/Store/Ops/Frames.antt =====
-- What the writes of messages, events and threads leave alone.
use agentchatbot_v.Prelude.{ℕ, ◌≡◌, refl, Option, none, some, List, [], ◌∷◌, arith, ◌∙◌}
use agentchatbot_v.Text.{Text}
use agentchatbot_v.Store.Schema.{
  Approval, Content, Citation, Event, Db, Result, ok, err, Action, rolled_back, ◌>>=◌,
}
use agentchatbot_v.Store.Threads.{
  Sent, next_seq, create_thread, rename_thread, set_thread_title_if_empty, put_settings,
  add_summary, gc_orphan_checkpoints,
}
use agentchatbot_v.Store.Messages.{
  Draft, insert_message, link_citation, link_citations, link_all, insert_and_link, post,
  add_message, set_tool_result, mark_partial_approval, resolve_orphan_tool_cells,
  set_pending_approval, freeze_citation,
}
use agentchatbot_v.Store.Events.{append_run_event, gc_run_events}
use agentchatbot_v.Store.Forks.{fork_thread}

-- A chain of steps that each keep `f`.
pub bind_keeps :
    {B A C : Type 0} (f : Db → B) (m : Action A) (k : A → Action C) (db : Db)
    → f (m db).1 ≡ f db
    → ((a : A) (db' : Db) → f (k a db').1 ≡ f db')
    → f ((m >>= k) db).1 ≡ f db
bind_keeps {A} {C} f m k db h g = go (m db) h
  where
    next : Result A × Db → Result C × Db
    next x = elim x.0 as (λ _. Result C × Db) [ ok a ↦ k a x.1 | err e ↦ (err e, x.1) ]

    go : (x : Result A × Db) → f x.1 ≡ f db → f (next x).1 ≡ f db
    go (ok a, db') e = g a db' ∙ e
    go (err x, db') e = e

pub transaction_keeps :
    {B A : Type 0} (f : Db → B) (db : Db) (x : Result A × Db)
    → f x.1 ≡ f db
    → f (rolled_back db x).1 ≡ f db
transaction_keeps f db (ok a, db') e = e
transaction_keeps f db (err x, db') e = refl

pub runs-next_seq : (now t : ℕ) (db : Db) → (next_seq now t db).1.runs ≡ db.runs
unfolding next_seq
runs-next_seq now t db = ground arith

pub runs-insert_message :
    (mid now t seq : ℕ) (d : Draft) (db : Db) → (insert_message mid now t seq d db).1.runs ≡ db.runs
unfolding insert_message
runs-insert_message mid now t seq d db = ground arith

pub runs-link_citation : (m : ℕ) (c : Text) (db : Db) → (link_citation m c db).1.runs ≡ db.runs
unfolding link_citation
runs-link_citation m c db = ground arith

pub runs-link_citations :
    (m : ℕ) (cs : List Text) (db : Db) → (link_citations m cs db).1.runs ≡ db.runs
unfolding link_citations
runs-link_citations m [] db = refl
runs-link_citations m (c ∷ cs) db =
    bind_keeps (λ x. x.runs) (link_citation m c) (λ _. link_citations m cs) db
      (runs-link_citation m c db) (λ _ x. runs-link_citations m cs x)

runs-link_all :
    (mid : ℕ) (cs : List Text) (seq : ℕ) (db : Db) → (link_all mid cs seq db).1.runs ≡ db.runs
unfolding link_all
runs-link_all mid cs seq db =
    bind_keeps (λ x. x.runs) (link_citations mid cs) (λ _ x. (ok (mid, seq), x)) db
      (runs-link_citations mid cs db) (λ _ x. refl)

runs-insert_and_link :
    (mid now t : ℕ) (d : Draft) (seq : ℕ) (db : Db)
    → (insert_and_link mid now t d seq db).1.runs ≡ db.runs
unfolding insert_and_link
runs-insert_and_link mid now t d seq db =
    bind_keeps (λ x. x.runs) (insert_message mid now t seq d) (λ _. link_all mid d.citation_ids seq)
      db (runs-insert_message mid now t seq d db) (λ _ x. runs-link_all mid d.citation_ids seq x)

-- Posting a message touches no run.
pub runs-post : (mid now t : ℕ) (d : Draft) (db : Db) → (post mid now t d db).1.runs ≡ db.runs
unfolding post
runs-post mid now t d db =
    bind_keeps (λ x. x.runs) (next_seq now t) (insert_and_link mid now t d) db
      (runs-next_seq now t db) (λ seq x. runs-insert_and_link mid now t d seq x)

pub runs-add_message :
    (mid now t : ℕ) (d : Draft) (db : Db) → (add_message mid now t d db).1.runs ≡ db.runs
unfolding add_message
runs-add_message mid now t d db =
    transaction_keeps (λ x. x.runs) db (post mid now t d db) (runs-post mid now t d db)

pub runs-create_thread :
    (t now : ℕ) (title : Option Text) (owner : Option ℕ) (db : Db)
    → (create_thread t now title owner db).1.runs ≡ db.runs
unfolding create_thread
runs-create_thread t now title owner db = ground arith

pub runs-rename_thread :
    (now : ℕ) (t : Option ℕ) (title : Text) (db : Db)
    → (rename_thread now t title db).1.runs ≡ db.runs
unfolding rename_thread
runs-rename_thread now none title db = refl
runs-rename_thread now (some t) title db = refl

pub runs-set_thread_title_if_empty :
    (t : Option ℕ) (title : Text) (db : Db)
    → (set_thread_title_if_empty t title db).1.runs ≡ db.runs
unfolding set_thread_title_if_empty
runs-set_thread_title_if_empty none title db = refl
runs-set_thread_title_if_empty (some t) title db = refl

pub runs-put_settings :
    (scope : Text) (m s th : Sent) (db : Db) → (put_settings scope m s th db).1.runs ≡ db.runs
unfolding put_settings
runs-put_settings scope m s th db = ground arith

pub runs-add_summary :
    (sid t : ℕ) (from to : Option ℕ) (content : Text) (db : Db)
    → (add_summary sid t from to content db).1.runs ≡ db.runs
unfolding add_summary
runs-add_summary sid t from to content db = ground arith

pub runs-set_tool_result :
    (r : ℕ) (call : Text) (result : Content) (db : Db)
    → (set_tool_result r call result db).1.runs ≡ db.runs
unfolding set_tool_result
runs-set_tool_result r call result db = ground arith

pub runs-mark_partial_approval :
    (r : ℕ) (ids : List Text) (m : Content) (db : Db)
    → (mark_partial_approval r ids m db).1.runs ≡ db.runs
unfolding mark_partial_approval
runs-mark_partial_approval r ids m db = ground arith

pub runs-resolve_orphan_tool_cells :
    (r : ℕ) (m : Content) (db : Db) → (resolve_orphan_tool_cells r m db).1.runs ≡ db.runs
unfolding resolve_orphan_tool_cells
runs-resolve_orphan_tool_cells r m db = ground arith

pub runs-set_pending_approval :
    (r : ℕ) (state : Approval) (db : Db) → (set_pending_approval r state db).1.runs ≡ db.runs
unfolding set_pending_approval
runs-set_pending_approval r state db = ground arith

pub runs-freeze_citation : (c : Citation) (db : Db) → (freeze_citation c db).1.runs ≡ db.runs
unfolding freeze_citation
runs-freeze_citation c db = ground arith

pub runs-append_run_event :
    (now t r seq : ℕ) (e : Event) (db : Db) → (append_run_event now t r seq e db).1.runs ≡ db.runs
unfolding append_run_event
runs-append_run_event now t r seq e db = ground arith

pub runs-gc_run_events : (now secs : ℕ) (db : Db) → (gc_run_events now secs db).1.runs ≡ db.runs
unfolding gc_run_events
runs-gc_run_events now secs db = ground arith

pub runs-gc_orphan_checkpoints : (db : Db) → (gc_orphan_checkpoints db).1.runs ≡ db.runs
unfolding gc_orphan_checkpoints
runs-gc_orphan_checkpoints db = ground arith

pub runs-fork_thread :
    (tid now t fp : ℕ) (title : Option Text) (db : Db)
    → (fork_thread tid now t fp title db).1.runs ≡ db.runs
unfolding fork_thread
runs-fork_thread tid now t fp title db = ground arith
