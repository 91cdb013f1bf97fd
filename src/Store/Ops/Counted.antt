-- ===== src/Store/Ops/Counted.antt =====
-- The counter of a thread is at least the seq of each of its messages, and what keeps it so.
use agentchatbot_v.Prelude.{
  ℕ, ◌≤◌, ◌≡◌, sym, ap, subst, Bool, false, Option, none, some, List, [], ◌∷◌, ◌==◌, arith,
  if◌then◌else◌, update, remove, exists, first, first_of_exists, All, All-mono, first-update,
  map_row, change, inl, inr, Bool-cases, eq_of_==,
}
use agentchatbot_v.Store.Schema.{Thread, Message}
use agentchatbot_v.Store.Threads.{is_thread, in_thread}

abbrev pub Within : ℕ → Option Thread → Type 0
Within n none = ⊥
Within n (some th) = n ≤ th.last_seq

-- The message's thread is there and has counted up to it.
abbrev pub Covered : List Thread → Message → Type 0
Covered ths m = Within m.seq (first (is_thread m.thread_id) ths)

abbrev pub IsCounted : List Thread → List Message → Type 0
IsCounted ths ms = All (Covered ths) ms

-- An update of threads that keeps their keys and lowers no counter.
pub Covered-update :
    (p : Thread → Bool) (f : Thread → Thread) (ths : List Thread) (m : Message)
    → ((th : Thread) → (f th).id ≡ th.id)
    → ((th : Thread) → th.last_seq ≤ (f th).last_seq)
    → Covered ths m
    → Covered (update p f ths) m
Covered-update p f ths m ids up c =
    subst (Within m.seq)
      (sym (
        first-update (is_thread m.thread_id) p f ths
          (λ th. ap (λ (i : ℕ). i == m.thread_id) (ids th))))
      (go (first (is_thread m.thread_id) ths) c)
  where
    go : (o : Option Thread) → Within m.seq o → Within m.seq (map_row (change p f) o)
    go none w = w
    go (some th) w = ground (arith, up th)

pub IsCounted-update :
    (p : Thread → Bool) (f : Thread → Thread) (ths : List Thread) (ms : List Message)
    → ((th : Thread) → (f th).id ≡ th.id)
    → ((th : Thread) → th.last_seq ≤ (f th).last_seq)
    → IsCounted ths ms
    → IsCounted (update p f ths) ms
IsCounted-update p f ths ms ids up =
    All-mono (Covered ths) (Covered (update p f ths)) ms (λ m. Covered-update p f ths m ids up)

-- A new thread has a new key.
Covered-cons :
    (th : Thread) (ths : List Thread) (m : Message)
    → exists (is_thread th.id) ths ≡ false
    → Covered ths m
    → Covered (th ∷ ths) m
Covered-cons th ths m new c = elim (Bool-cases (th.id == m.thread_id)) [
  | inl e ↦ absurd (
      subst (Within m.seq)
        (first_of_exists (is_thread m.thread_id) ths
          (subst (λ i. exists (is_thread i) ths ≡ false) (eq_of_== th.id m.thread_id e) new))
        c)
  | inr e ↦ rw e c
]

pub IsCounted-cons :
    (th : Thread) (ths : List Thread) (ms : List Message)
    → exists (is_thread th.id) ths ≡ false
    → IsCounted ths ms
    → IsCounted (th ∷ ths) ms
IsCounted-cons th ths ms new =
    All-mono (Covered ths) (Covered (th ∷ ths)) ms (λ m. Covered-cons th ths m new)

Covered-alike :
    (ths : List Thread) (m q : Message)
    → q.thread_id ≡ m.thread_id
    → q.seq ≡ m.seq
    → Covered ths m
    → Covered ths q
Covered-alike ths m q a b c = rw (a, b) c

-- An update of messages that leaves their thread and seq.
pub IsCounted-rows :
    (p : Message → Bool) (f : Message → Message) (ths : List Thread) (ms : List Message)
    → ((m : Message) → (f m).thread_id ≡ m.thread_id)
    → ((m : Message) → (f m).seq ≡ m.seq)
    → IsCounted ths ms
    → IsCounted ths (update p f ms)
IsCounted-rows p f ths [] a b c = tt
IsCounted-rows p f ths (m ∷ ms) a b c = (row, IsCounted-rows p f ths ms a b c.1)
  where
    row : Covered ths (if p m then f m else m)
    row = elim (Bool-cases (p m)) [
      | inl e ↦ rw e (Covered-alike ths m (f m) (a m) (b m) c.0)
      | inr e ↦ rw e c.0
    ]

-- The threads without one, for the messages of the others.
Covered-remove :
    (t : ℕ) (ths : List Thread) (m : Message)
    → (m.thread_id == t) ≡ false
    → Covered ths m
    → Covered (remove (is_thread t) ths) m
Covered-remove t [] m e c = c
Covered-remove t (th ∷ ths) m e c = elim (Bool-cases (th.id == t)) [
  | inl gone ↦ ground (arith, Covered-remove t ths m e)
  | inr kept ↦ elim (Bool-cases (th.id == m.thread_id)) [
    | inl here ↦ rw (kept, here) (rw here at c)
    | inr there ↦ rw (kept, there) (Covered-remove t ths m e (rw there at c))
  ]
]

pub IsCounted-remove :
    (t : ℕ) (ths : List Thread) (ms : List Message)
    → IsCounted ths ms
    → IsCounted (remove (is_thread t) ths) (remove (in_thread t) ms)
IsCounted-remove t ths [] c = tt
IsCounted-remove t ths (m ∷ ms) c = elim (Bool-cases (m.thread_id == t)) [
  | inl e ↦ rw e (IsCounted-remove t ths ms c.1)
  | inr e ↦ rw e (Covered-remove t ths m e c.0, IsCounted-remove t ths ms c.1)
]
