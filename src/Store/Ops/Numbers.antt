-- ===== src/Store/Ops/Numbers.antt =====
-- The methods that draw a number, add a thread or drop one, and the bound of the counters.
use agentchatbot_v.Prelude.{
  ℕ, ◌+◌, ◌<◌, ◌≡◌, refl, sym, ap, subst, ◌∙◌, true, Option, none, some, List, [], ◌∷◌, ◌==◌, arith,
  if◌then◌else◌, update, exists, first, All, inl, inr, Bool-cases, eq_of_==, first-update, map_row,
  first_holds,
}
use agentchatbot_v.Text.{Text}
use agentchatbot_v.Store.Schema.{Thread, Message, Db, Result, ok, err, unique_violation, key_error}
use agentchatbot_v.Store.Threads.{
  is_thread, is_child_of, bump, next_seq, create_thread, rename_thread, set_thread_title_if_empty,
  delete_thread, points_into,
}
use agentchatbot_v.Store.Messages.{
  Draft, insert_message, link_citation, link_citations, link_all, insert_and_link, post,
}
use agentchatbot_v.Store.Forks.{fork_thread, is_fork_point, fork_row}
use agentchatbot_v.Store.Rules.{bind_rule}
use agentchatbot_v.Store.Ops.Counted.{
  Within, IsCounted, IsCounted-update, IsCounted-cons, IsCounted-remove,
}

abbrev pub Holds : Db → Type 0
Holds db = IsCounted db.threads db.messages

-- A database with the same threads and messages.
Holds-alike :
    (db db' : Db) → db'.threads ≡ db.threads → db'.messages ≡ db.messages → Holds db → Holds db'
Holds-alike db db' a b h = rw (a, b) h

-- What a draw of a number leaves: the counter stands at that number, above all messages so far.
abbrev pub Drawn : ℕ → Db → Result ℕ × Db → Type 0
Drawn t db (ok seq, db') =
    (db'.messages ≡ db.messages)
    × Holds db'
    × (map_row (λ (th : Thread). th.last_seq) (first (is_thread t) db'.threads) ≡ some seq)
    × All (λ (m : Message). (m.thread_id == t) ≡ true → m.seq < seq) db.messages
Drawn t db (err e, db') = db' ≡ db

below_next :
    (t : ℕ) (ths : List Thread) (th : Thread) (ms : List Message)
    → first (is_thread t) ths ≡ some th
    → IsCounted ths ms
    → All (λ (m : Message). (m.thread_id == t) ≡ true → m.seq < th.last_seq + 1) ms
below_next t ths th [] e h = tt
below_next t ths th (m ∷ ms) e h = (below, below_next t ths th ms e h.1)
  where
    below : (m.thread_id == t) ≡ true → m.seq < th.last_seq + 1
    below same =
        let c : Within m.seq (some th) =
          subst (Within m.seq) (ap (λ i. first (is_thread i) ths) (eq_of_== m.thread_id t same) ∙ e)
            h.0 in
        omega arith

pub next_seq-Drawn : (now t : ℕ) (db : Db) → Holds db → Drawn t db (next_seq now t db)
unfolding next_seq
next_seq-Drawn now t db h = go (first (is_thread t) db.threads) refl
  where
    next : Option Thread → Result ℕ × Db
    next o = elim o [
      | none ↦ (err key_error, db)
      | some th ↦
          (ok (th.last_seq + 1), record db { threads = update (is_thread t) (bump now) db.threads })
    ]

    go : (o : Option Thread) → first (is_thread t) db.threads ≡ o → Drawn t db (next o)
    go none e = refl
    go (some th) e = (
      refl,
      IsCounted-update (is_thread t) (bump now) db.threads db.messages (λ th. refl)
          (λ th. omega arith) h,
      ap (map_row (λ th. th.last_seq))
            (first-update (is_thread t) (is_thread t) (bump now) db.threads (λ th. refl))
          ∙ rw (e, first_holds (is_thread t) db.threads th e) refl,
      below_next t db.threads th db.messages e h,
    )

pub create_thread-Holds :
    (t now : ℕ) (title : Option Text) (owner : Option ℕ) (db : Db)
    → Holds db
    → Holds (create_thread t now title owner db).1
unfolding create_thread
create_thread-Holds t now title owner db h = elim (Bool-cases (exists (is_thread t) db.threads)) [
  | inl e ↦ rw e h
  | inr e ↦ rw e (IsCounted-cons _ db.threads db.messages e h)
]

pub fork_thread-Holds :
    (tid now t fp : ℕ) (title : Option Text) (db : Db)
    → Holds db
    → Holds (fork_thread tid now t fp title db).1
unfolding fork_thread
fork_thread-Holds tid now t fp title db h = go (first (is_fork_point t fp) db.messages)
  where
    next : Option Message → Result ℕ × Db
    next o = elim o [
      | none ↦ (err key_error, db)
      | some m ↦
          if exists (is_thread tid) db.threads
          then (err unique_violation, db)
          else (ok tid, record db { threads = fork_row tid now t fp m.seq title ∷ db.threads })
    ]

    go : (o : Option Message) → Holds (next o).1
    go none = h
    go (some m) = elim (Bool-cases (exists (is_thread tid) db.threads)) [
      | inl e ↦ rw e h
      | inr e ↦ rw e (IsCounted-cons _ db.threads db.messages e h)
    ]

pub delete_thread-Holds : (t : Option ℕ) (db : Db) → Holds db → Holds (delete_thread t db).1
unfolding delete_thread
delete_thread-Holds none db h = h
delete_thread-Holds (some t) db h = elim (Bool-cases (exists (points_into t db) db.messages)) [
  | inl e ↦ rw e h
  | inr e ↦ rw e (
      IsCounted-remove t _ db.messages (
        IsCounted-update (is_child_of t) (λ th. record th { forked_from = none }) db.threads
          db.messages (λ th. refl) (λ th. omega arith) h))
]

pub rename_thread-Holds :
    (now : ℕ) (t : Option ℕ) (title : Text) (db : Db)
    → Holds db
    → Holds (rename_thread now t title db).1
unfolding rename_thread
rename_thread-Holds now none title db h = h
rename_thread-Holds now (some t) title db h =
    IsCounted-update _ _ db.threads db.messages (λ th. refl) (λ th. omega arith) h

pub set_title-Holds :
    (t : Option ℕ) (title : Text) (db : Db)
    → Holds db
    → Holds (set_thread_title_if_empty t title db).1
unfolding set_thread_title_if_empty
set_title-Holds none title db h = h
set_title-Holds (some t) title db h =
    IsCounted-update _ _ db.threads db.messages (λ th. refl) (λ th. omega arith) h

abbrev pub After : {A : Type 0} → Result A × Db → Type 0
After x = Holds x.1

counter_covers :
    (seq : ℕ) (o : Option Thread)
    → map_row (λ (th : Thread). th.last_seq) o ≡ some seq
    → Within seq o
counter_covers seq none e = cc
counter_covers seq (some th) e = ground arith

pub insert_message-Holds :
    (mid now t seq : ℕ) (d : Draft) (db : Db)
    → map_row (λ (th : Thread). th.last_seq) (first (is_thread t) db.threads) ≡ some seq
    → Holds db
    → Holds (insert_message mid now t seq d db).1
unfolding insert_message
insert_message-Holds mid now t seq d db e h =
    ground (arith, counter_covers seq (first (is_thread t) db.threads) e)

pub link_citations-Holds :
    (m : ℕ) (cs : List Text) (db : Db) → Holds db → Holds (link_citations m cs db).1
unfolding link_citations link_citation
link_citations-Holds m [] db h = h
link_citations-Holds m (c ∷ cs) db h =
    bind_rule After (link_citation m c) (λ _. link_citations m cs) db
      (λ _ db' e. link_citations-Holds m cs db' (subst After e kept))
      (λ _ db' e. subst After e kept)
  where
    kept : After (link_citation m c db)
    kept = ground arith

pub link_all-Holds :
    (m : ℕ) (cs : List Text) (seq : ℕ) (db : Db) → Holds db → Holds (link_all m cs seq db).1
unfolding link_all
link_all-Holds m cs seq db h =
    bind_rule After (link_citations m cs) (λ _ db'. (ok (m, seq), db')) db
      (λ _ db' e. subst After e kept) (λ _ db' e. subst After e kept)
  where
    kept : After (link_citations m cs db)
    kept = link_citations-Holds m cs db h

pub post-Holds : (mid now t : ℕ) (d : Draft) (db : Db) → Holds db → Holds (post mid now t d db).1
unfolding post insert_and_link
post-Holds mid now t d db h =
    bind_rule After (next_seq now t) (insert_and_link mid now t d) db
      (λ seq db1 e1.
        let drawn : Drawn t db (ok seq, db1) = subst (Drawn t db) e1 (next_seq-Drawn now t db h) in
        let kept = insert_message-Holds mid now t seq d db1 drawn.2 drawn.1 in
        bind_rule After (insert_message mid now t seq d) (λ _. link_all mid d.citation_ids seq) db1
          (λ _ db2 e2. link_all-Holds mid d.citation_ids seq db2 (subst After e2 kept))
          (λ _ db2 e2. subst After e2 kept))
      (λ _ db1 e1. subst Holds (sym (subst (Drawn t db) e1 (next_seq-Drawn now t db h))) h)
