-- ===== src/Store/Forks.antt =====
-- The reference model of forks in conversation.py (lines 641-714): a fork copies no message, and
-- the history of a thread is read through the chain of its ancestors.
use agentchatbot_v.Prelude.{
  ℕ, zero, suc, Bool, true, ◌&&◌, ◌||◌, Option, none, some, List, [], ◌∷◌, ◌++◌, ◌==◌, ltb, leb,
  if◌then◌else◌, select, sort_by, exists, first, length,
}
use agentchatbot_v.Text.{Text, text_eq}
use agentchatbot_v.Store.Schema.{
  Thread, Message, Citation, Link, Db, key_error, unique_violation, ok, err, Action,
}
use agentchatbot_v.Store.Threads.{is_thread}
use agentchatbot_v.Store.Messages.{is_message}

abbrev pub is_fork_point : ℕ → ℕ → Message → Bool
is_fork_point t fp m = m.id == fp && m.thread_id == t

abbrev pub fork_row : ℕ → ℕ → ℕ → ℕ → ℕ → Option Text → Thread
fork_row tid now t fp cut title = record {
  id = tid;
  title = title;
  owner_id = none;
  forked_from = some t;
  fork_point = some fp;
  last_seq = cut;
  created_at = now;
  updated_at = now;
}

-- `fork_thread`: the new thread's counter starts at the seq of the fork point
unfoldable pub fork_thread : ℕ → ℕ → ℕ → ℕ → Option Text → Action ℕ
fork_thread tid now t fp title db = elim (first (is_fork_point t fp) db.messages) [
  | none ↦ (err key_error, db)
  | some m ↦
      if exists (is_thread tid) db.threads
      then (err unique_violation, db)
      else (ok tid, record db { threads = fork_row tid now t fp m.seq title ∷ db.threads })
]

-- One row of the recursive query `chain`: a thread and the highest seq that is seen of it, `none`
-- for all.
pub record Visible : Type 0 where
  pub thread_id : ℕ
  pub cut : Option ℕ

-- `(SELECT seq FROM messages WHERE id = c.fork_point_message_id)`
abbrev cut_at : Option ℕ → Db → Option ℕ
cut_at none db = none
cut_at (some fp) db = elim (first (is_message fp) db.messages) [ none ↦ none | some m ↦ some m.seq ]

-- The recursive part of the query, on fuel: the rows that the thread `t`, seen up to `cut`, adds.
unfoldable pub chain_from : ℕ → Db → ℕ → Option ℕ → List Visible
chain_from zero db t cut = []
chain_from (suc fuel) db t cut = elim (first (is_thread t) db.threads) [
  | none ↦ []
  | some th ↦ record { thread_id = t; cut = cut } ∷ elim th.forked_from [
    | none ↦ []
    | some parent ↦ chain_from fuel db parent (cut_at th.fork_point db)
  ]
]

-- An ancestor is an older row, so that as many rounds as there are threads are enough.
unfoldable pub chain : ℕ → Db → List Visible
unfolding chain_from
chain t db = chain_from (length db.threads) db t none

abbrev pub below_cut : Option ℕ → Message → Bool
below_cut none m = true
below_cut (some cut) m = leb m.seq cut

-- The join of messages with the chain.
unfoldable pub seen : List Visible → List Message → List Message
seen [] ms = []
seen (v ∷ vs) ms = select (λ m. m.thread_id == v.thread_id && below_cut v.cut m) ms ++ seen vs ms

-- `ORDER BY m.seq, m.created_at, m.id`
abbrev pub precedes : Message → Message → Bool
precedes m q =
    ltb m.seq q.seq
    || (m.seq == q.seq
        && (ltb m.created_at q.created_at || (m.created_at == q.created_at && ltb m.id q.id)))

unfoldable pub get_thread_messages : ℕ → Db → List Message
unfolding chain seen sort_by
get_thread_messages t db = sort_by precedes (seen (chain t db) db.messages)

abbrev cited_by : List Message → List Link → Text → Bool
cited_by ms links c =
    exists (λ (l : Link). text_eq l.citation_id c && exists (is_message l.message_id) ms) links

-- `get_thread_citations`: DISTINCT holds since the citations' key is unique
unfoldable pub get_thread_citations : ℕ → Db → List Citation
unfolding chain seen
get_thread_citations t db =
    let ms = seen (chain t db) db.messages in
    select (λ (c : Citation). cited_by ms db.links c.id) db.citations
