-- ===== src/Store/Ops/Fresh.antt =====
-- The numbers that new messages get after any history.
use agentchatbot_v.Prelude.{
  ℕ, ◌<◌, ◌≡◌, ◌≢◌, refl, ap, ◌∙◌, subst, true, false, List, [], ◌∷◌, ◌==◌, arith, exists, All,
}
use agentchatbot_v.Text.{Text}
use agentchatbot_v.Store.Schema.{
  Message, Db, Failure, Result, ok, err, unique_violation, rolled_back,
}
use agentchatbot_v.Store.Threads.{next_seq}
use agentchatbot_v.Store.Messages.{
  Draft, is_message, duplicates, insert_message, link_citation, link_citations, link_all,
  insert_and_link, post, add_message,
}
use agentchatbot_v.Store.Rules.{bind_rule}
use agentchatbot_v.Store.Ops.{Op, history}
use agentchatbot_v.Store.Ops.Numbers.{
  Holds, After, Drawn, next_seq-Drawn, insert_message-Holds, link_citations-Holds,
}
use agentchatbot_v.Store.Ops.Held.{history-Holds}

unused :
    (mid t seq : ℕ) (ms : List Message)
    → exists (is_message mid) ms ≡ false
    → All (λ (m : Message). (m.thread_id == t) ≡ true → m.seq < seq) ms
    → exists (duplicates mid t seq) ms ≡ false
unused mid t seq [] h k = refl
unused mid t seq (m ∷ ms) h k = ground (arith, unused mid t seq ms, k.0)

abbrev Fine : {A : Type 0} → Result A × Db → Type 0
Fine x = x.0 ≢ err unique_violation

insert_message-Fine :
    (mid now t seq : ℕ) (d : Draft) (db : Db)
    → exists (duplicates mid t seq) db.messages ≡ false
    → Fine (insert_message mid now t seq d db)
unfolding insert_message
insert_message-Fine mid now t seq d db e = ground arith

link_citation-Fine : (m : ℕ) (c : Text) (db : Db) → Fine (link_citation m c db)
unfolding link_citation
link_citation-Fine m c db = ground arith

-- A failure that a chain passes on.
passed_on :
    {A B : Type 0} (x : Result A × Db) (e : Failure) (db : Db)
    → x ≡ (err e, db)
    → Fine x
    → Fine {A = B} (err e, db)
passed_on x e db same f = λ h. f (ap (λ y. y.0) same ∙ ground (arith, h))

link_citations-Fine : (m : ℕ) (cs : List Text) (db : Db) → Fine (link_citations m cs db)
unfolding link_citations
link_citations-Fine m [] db = λ h. cc h
link_citations-Fine m (c ∷ cs) db =
    bind_rule Fine (link_citation m c) (λ _. link_citations m cs) db
      (λ _ db' e. link_citations-Fine m cs db')
      (λ x db' e. passed_on (link_citation m c db) x db' e (link_citation-Fine m c db))

next_seq-Fine : (now t : ℕ) (db : Db) → Fine (next_seq now t db)
unfolding next_seq
next_seq-Fine now t db = ground arith

failure-ne :
    {A : Type 0} (x : Result A × Db) (e : Failure) (db : Db)
    → x ≡ (err e, db)
    → Fine x
    → e ≢ unique_violation
failure-ne x e db same f = λ h. f (ap (λ y. y.0) same ∙ ap err h)

-- The outcome within the transaction, before a failure takes it back.
abbrev Inside : ℕ → Db → Result (ℕ × ℕ) × Db → Type 0
Inside t db (ok (mid, seq), db') =
    All (λ (m : Message). (m.thread_id == t) ≡ true → m.seq < seq) db.messages × Holds db'
Inside t db (err e, db') = e ≢ unique_violation

module _ (mid now t : ℕ) (d : Draft) (db : Db) (h : Holds db) where
  -- The links that follow the row, with the number that is drawn.
  links-Inside :
      (seq : ℕ) (db2 : Db)
      → All (λ (m : Message). (m.thread_id == t) ≡ true → m.seq < seq) db.messages
      → Holds db2
      → Inside t db (link_all mid d.citation_ids seq db2)
  unfolding link_all
  links-Inside seq db2 above kept =
      bind_rule (Inside t db) (link_citations mid d.citation_ids) (λ _ db'. (ok (mid, seq), db'))
        db2 (λ _ db3 e. (above, subst After e (link_citations-Holds mid d.citation_ids db2 kept)))
        (λ x db3 e.
          failure-ne (link_citations mid d.citation_ids db2) x db3 e
            (link_citations-Fine mid d.citation_ids db2))

  post-Inside : exists (is_message mid) db.messages ≡ false → Inside t db (post mid now t d db)
  unfolding post insert_and_link
  post-Inside new =
      bind_rule (Inside t db) (next_seq now t) (insert_and_link mid now t d) db
        (λ seq db1 e1. inserted seq db1 (subst (Drawn t db) e1 (next_seq-Drawn now t db h)))
        (λ x db1 e1. failure-ne (next_seq now t db) x db1 e1 (next_seq-Fine now t db))
    where
      inserted :
          (seq : ℕ) (db1 : Db)
          → Drawn t db (ok seq, db1)
          → Inside t db (insert_and_link mid now t d seq db1)
      inserted seq db1 drawn =
          bind_rule (Inside t db) (insert_message mid now t seq d)
            (λ _. link_all mid d.citation_ids seq) db1
            (λ _ db2 e2.
              links-Inside seq db2 drawn.3
                (subst After e2 (insert_message-Holds mid now t seq d db1 drawn.2 drawn.1)))
            (λ x db2 e2. failure-ne (insert_message mid now t seq d db1) x db2 e2 (
              insert_message-Fine mid now t seq d db1
                (rw drawn.0 (unused mid t seq db.messages new drawn.3))))

-- What became of a new message: its seq is above all those of the thread, or the reason is not a
-- number or key that is taken.
abbrev pub Numbered : ℕ → Db → Result (ℕ × ℕ) × Db → Type 0
Numbered t db (ok (mid, seq), db') =
    All (λ (m : Message). (m.thread_id == t) ≡ true → m.seq < seq) db.messages × Holds db'
Numbered t db (err e, db') = (e ≢ unique_violation) × (db' ≡ db)

numbered :
    (t : ℕ) (db : Db) (x : Result (ℕ × ℕ) × Db) → Inside t db x → Numbered t db (rolled_back db x)
numbered t db (ok at, db') k = k
numbered t db (err e, db') k = (k, refl)

-- After any sequence of repository calls, of any instances and whether they succeed or fail, a new
-- message gets a seq above those of all messages of its thread, and it is never refused because a
-- number is taken: if it fails, it changes nothing, and for another reason. The conditions are that
-- before the first call no message was above the counter of its thread, as in an empty database,
-- and that the key of the new message is new.
pub history-add_message :
    (ops : List Op) (db : Db) (mid now t : ℕ) (d : Draft)
    → Holds db
    → exists (is_message mid) (history ops db).messages ≡ false
    → Numbered t (history ops db) (add_message mid now t d (history ops db))
unfolding add_message
history-add_message ops db mid now t d h new =
    numbered t (history ops db) (post mid now t d (history ops db))
      (post-Inside mid now t d (history ops db) (history-Holds ops db h) new)
