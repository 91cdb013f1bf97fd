-- ===== src/Store/Posting.antt =====
-- What posting a message writes, and that an answer and the end of its run are written together.
use agentchatbot_v.Prelude.{
  ℕ, ◌+◌, ◌≡◌, refl, ap, ◌∙◌, sym, subst, inl, inr, Bool, true, false, Option, none, some, List, [],
  ◌∷◌, ◌==◌, arith, exists, first, count, All, Bool-cases, ==_refl, first-update, map_row, change,
  first_holds,
}
use agentchatbot_v.Text.{Text, text_eq_refl}
use agentchatbot_v.Store.Schema.{Status, Run, Db, Result, ok, err}
use agentchatbot_v.Store.Runs.{is_run, is_run_in, move, find_run}
use agentchatbot_v.Store.Threads.{is_thread, next_seq}
use agentchatbot_v.Store.Messages.{
  Draft, to_row, is_link, insert_message, link_citation, link_citations, link_all, insert_and_link,
  post, commit_agent_answer, committed, complete,
}
use agentchatbot_v.Store.Lifecycle.{IsKeyed, in_status, count-is_run_in}
use agentchatbot_v.Store.Rules.{bind_rule}
use agentchatbot_v.Store.Ops.Frames.{runs-post}

messages-link_citation :
    (m : ℕ) (c : Text) (db : Db) → (link_citation m c db).1.messages ≡ db.messages
unfolding link_citation
messages-link_citation m c db = ground arith

link_citation_links :
    (m : ℕ) (c : Text) (db : Db)
    → (link_citation m c db).0 ≡ ok tt
    → exists (is_link m c) (link_citation m c db).1.links ≡ true
unfolding link_citation
link_citation_links m c db h = ground (arith, text_eq_refl c, ==_refl m)

link_citation_keeps :
    (m : ℕ) (c d : Text) (db : Db)
    → exists (is_link m d) db.links ≡ true
    → exists (is_link m d) (link_citation m c db).1.links ≡ true
unfolding link_citation
link_citation_keeps m c d db h = ground arith

-- The links that are there stay while others are added.
link_citations_keeps :
    (m : ℕ) (d : Text) (cs : List Text) (db : Db)
    → exists (is_link m d) db.links ≡ true
    → exists (is_link m d) (link_citations m cs db).1.links ≡ true
unfolding link_citations
link_citations_keeps m d [] db h = h
link_citations_keeps m d (c ∷ cs) db h =
    bind_rule (λ x. exists (is_link m d) x.1.links ≡ true) (link_citation m c)
      (λ _. link_citations m cs) db
      (λ _ db' e.
        link_citations_keeps m d cs db' (subst (λ x. exists (is_link m d) x.1.links ≡ true) e kept))
      (λ _ db' e. subst (λ x. exists (is_link m d) x.1.links ≡ true) e kept)
  where
    kept : exists (is_link m d) (link_citation m c db).1.links ≡ true
    kept = link_citation_keeps m c d db h

-- What a chain that linked the citations has done: the messages are those before, and each citation
-- is linked.
abbrev pub Linked : {A : Type 0} → ℕ → List Text → Db → Result A × Db → Type 0
Linked m cs db (ok _, db') =
    (db'.messages ≡ db.messages) × All (λ c. exists (is_link m c) db'.links ≡ true) cs
Linked m cs db (err _, db') = Unit

link_citations-Linked : (m : ℕ) (cs : List Text) (db : Db) → Linked m cs db (link_citations m cs db)
unfolding link_citations
link_citations-Linked m [] db = (refl, tt)
link_citations-Linked m (c ∷ cs) db =
    bind_rule (Linked m (c ∷ cs) db) (link_citation m c) (λ _. link_citations m cs) db
      (λ _ db' e.
        add m c cs db db' (link_citations m cs db')
          (ap (λ x. x.1.messages) (sym e) ∙ messages-link_citation m c db)
          (link_citations_keeps m c cs db' (
            subst (λ x. exists (is_link m c) x.1.links ≡ true) e
              (link_citation_links m c db (ap (λ x. x.0) e))))
          (link_citations-Linked m cs db'))
      (λ _ db' e. tt)
  where
    add :
        (m : ℕ) (c : Text) (cs : List Text) (db db' : Db) (x : Result (Unit {0}) × Db)
        → db'.messages ≡ db.messages
        → exists (is_link m c) x.1.links ≡ true
        → Linked m cs db' x
        → Linked m (c ∷ cs) db x
    add m c cs db db' (ok _, db'') same here h = (h.0 ∙ same, (here, h.1))
    add m c cs db db' (err _, db'') same here h = tt

-- What a successful post has done: the seq is the thread's counter plus one, the row is the only new
-- message, and its citations are linked.
abbrev pub Posted : ℕ → ℕ → ℕ → Draft → Db → Result (ℕ × ℕ) × Db → Type 0
Posted mid now t d db (ok (m, seq), db') =
    (m ≡ mid)
    × (map_row (λ th. th.last_seq + 1) (first (is_thread t) db.threads) ≡ some seq)
    × (db'.messages ≡ to_row mid now t seq d ∷ db.messages)
    × All (λ c. exists (is_link mid c) db'.links ≡ true) d.citation_ids
Posted mid now t d db (err _, db') = Unit

next_seq_draws :
    (now t seq : ℕ) (db db' : Db)
    → next_seq now t db ≡ (ok seq, db')
    → (map_row (λ th. th.last_seq + 1) (first (is_thread t) db.threads) ≡ some seq)
      × (db'.messages ≡ db.messages)
unfolding next_seq
next_seq_draws now t seq db db' e = ground arith

insert_message_adds :
    (mid now t seq : ℕ) (d : Draft) (db db' : Db)
    → insert_message mid now t seq d db ≡ (ok tt, db')
    → db'.messages ≡ to_row mid now t seq d ∷ db.messages
unfolding insert_message
insert_message_adds mid now t seq d db db' e = ground arith

finish :
    (mid now t seq : ℕ) (d : Draft) (db db' : Db) (x : Result (Unit {0}) × Db)
    → map_row (λ th. th.last_seq + 1) (first (is_thread t) db.threads) ≡ some seq
    → db'.messages ≡ to_row mid now t seq d ∷ db.messages
    → Linked mid d.citation_ids db' x
    → Posted mid now t d db (elim x.0 as (λ _. Result (ℕ × ℕ) × Db) [
      | ok _ ↦ (ok (mid, seq), x.1)
      | err e ↦ (err e, x.1)
    ])
finish mid now t seq d db db' (ok _, db'') s m h = (refl, s, h.0 ∙ m, h.1)
finish mid now t seq d db db' (err e, db'') s m h = tt

-- A post that succeeds has written exactly the row with the next seq of the thread, and its links.
pub post-Posted :
    (mid now t : ℕ) (d : Draft) (db : Db) → Posted mid now t d db (post mid now t d db)
unfolding post insert_and_link link_all
post-Posted mid now t d db =
    bind_rule (Posted mid now t d db) (next_seq now t) (insert_and_link mid now t d) db
      (λ seq db1 e1.
        let drawn = next_seq_draws now t seq db db1 e1 in
        bind_rule (Posted mid now t d db) (insert_message mid now t seq d)
          (λ _. link_all mid d.citation_ids seq) db1
          (λ u db2 e2.
            finish mid now t seq d db db2 (link_citations mid d.citation_ids db2) drawn.0
              (insert_message_adds mid now t seq d db1 db2 e2
                ∙ ap (◌∷◌ (to_row mid now t seq d)) drawn.1)
              (link_citations-Linked mid d.citation_ids db2))
          (λ _ _ _. tt))
      (λ _ _ _. tt)

-- The row of the run after the answer is committed.
abbrev completed_row : ℕ → Run → Run
completed_row now run = record run { status = Status.completed; ended_at = some now }

-- A commit of an answer that went through.
abbrev pub Committed : ℕ → ℕ → ℕ → ℕ → Draft → Db → ℕ × ℕ → Db → Type 0
Committed mid now t r d db at db' =
    (in_status Status.running (find_run r db) ≡ true)
    × (find_run r db' ≡ map_row (completed_row now) (find_run r db))
    × Posted mid now t d db (ok at, db')

abbrev pub Outcome : ℕ → ℕ → ℕ → ℕ → Draft → Db → Result (Option (ℕ × ℕ)) × Db → Type 0
Outcome mid now t r d db (ok (some at), db') = Committed mid now t r d db at db'
Outcome mid now t r d db (ok none, db') =
    (in_status Status.running (find_run r db) ≡ false) × (db' ≡ db)
Outcome mid now t r d db (err _, db') = db' ≡ db

committed-Outcome :
    (mid now t r : ℕ) (d : Draft) (db : Db) (x : Result (ℕ × ℕ) × Db)
    → in_status Status.running (find_run r db) ≡ true
    → find_run r x.1 ≡ map_row (completed_row now) (find_run r db)
    → Posted mid now t d (complete now r db) x
    → Outcome mid now t r d db (committed db x)
committed-Outcome mid now t r d db (ok at, db') was after p = (was, after, p)
committed-Outcome mid now t r d db (err e, db') was after p = refl

completes :
    (now r : ℕ) (o : Option Run)
    → ((run : Run) → o ≡ some run → (run.id == r) ≡ true)
    → in_status Status.running o ≡ true
    → map_row (change (is_run_in r Status.running) (move now Status.completed true)) o
      ≡ map_row (completed_row now) o
completes now r none h was = cc
completes now r (some run) h was = ground (arith, h run refl)

-- `commit_agent_answer` is atomic. It writes the answer and ends the run together, and only if the
-- run was running at that moment: then the run is completed at the time of the call, and the
-- answer's row, with the thread's next seq, is the one new message, with all its citations linked.
-- Otherwise, when the run was not running or the thread, a run, a parent or a citation was missing,
-- the database is exactly as before. The condition is that the primary key of the runs holds.
pub commit_agent_answer-Outcome :
    (mid now t r : ℕ) (d : Draft) (db : Db)
    → IsKeyed db.runs
    → Outcome mid now t r d db (commit_agent_answer mid now t r d db)
unfolding commit_agent_answer find_run
commit_agent_answer-Outcome mid now t r d db k =
    elim (Bool-cases (in_status Status.running (first (is_run r) db.runs))) [
      | inl e ↦ rw (counted e) (
          committed-Outcome mid now t r d db (post mid now t d (complete now r db)) e (after e)
            (post-Posted mid now t d (complete now r db)))
      | inr e ↦ rw (counted e) (e, refl)
    ]
  where
    counted :
        {b : Bool}
        → in_status Status.running (first (is_run r) db.runs) ≡ b
        → (count (is_run_in r Status.running) db.runs == 1) ≡ b
    counted e = ground (arith, count-is_run_in r Status.running db.runs k, e)

    after :
        in_status Status.running (first (is_run r) db.runs) ≡ true
        → first (is_run r) (post mid now t d (complete now r db)).1.runs
          ≡ map_row (completed_row now) (first (is_run r) db.runs)
    after e =
        ap (first (is_run r)) (runs-post mid now t d (complete now r db))
        ∙ (first-update (is_run r) (is_run_in r Status.running) (move now Status.completed true)
              db.runs (λ x. refl)
            ∙ completes now r (first (is_run r) db.runs) (first_holds (is_run r) db.runs) e)
