-- ===== src/Manager/Replay.antt =====
-- What `stream` of run_manager.py (lines 206-231) delivers from the durable log: all that is there,
-- page by page.
use agentchatbot_v.Prelude.{
  ℕ, zero, suc, ◌+◌, ◌<◌, ◌≤◌, ◌≡◌, refl, ap, ◌∙◌, sym, subst, ◌⊎◌, inl, inr, Bool, true, false,
  Option, none, some, List, [], ◌∷◌, ◌++◌, arith, select, map, take, drop, length, append_assoc,
  if◌then◌else◌, Bool-cases,
}
use agentchatbot_v.Store.Schema.{Status, Run, RunEvent, EventRow, Db, Result, ok}
use agentchatbot_v.Store.Runs.{get_run, find_run}
use agentchatbot_v.Store.Events.{to_event, get_run_events_after}
use agentchatbot_v.Run.World.{World, Gen, pure, ask}
use agentchatbot_v.Run.Alone.{ask_alone, bind_alone, go_on}
use agentchatbot_v.Manager.Pump.{is_terminal, is_ended}
use agentchatbot_v.Manager.Tail.{db_terminal_event, deliver, end_by_status, poll_rows, poll, stream}
use agentchatbot_v.Manager.Rows.{
  unseen_rows, IsKeyed, later, Ascends, select_all, select_passed, unseen_rows-Ascends,
  unseen_rows-later,
}

-- The status that `get_run` reads off the row.
get_run_eq :
    (r : ℕ) (db : Db) (run : Run)
    → find_run r db ≡ some run
    → get_run (some r) db ≡ some (run.thread_id, run.status)
unfolding get_run
get_run_eq r db run e = rw (e, get_run) refl

-- What the stream does after one poll.
abbrev further : ℕ → ℕ → Option ℕ → Gen Bool
further polls r next = elim next as (λ _. Gen Bool) [
  | none ↦ pure true
  | some cursor ↦ stream polls r cursor
]

-- What a client is told who sees these rows: each of them up to the first terminal event, and, if
-- there is none, at last an event that is made up from the status of the run.
unfoldable pub told : ℕ → Status → ℕ → List EventRow → List RunEvent
told r s cursor [] = record { event = db_terminal_event r s; seq = cursor } ∷ []
told r s cursor (row ∷ rows) =
    let rest = told r s (row.seq + 1) rows in
    to_event row ∷ (if is_terminal row.event then [] else rest)

-- Outcome `x` of delivering rows at `w`, of which `rows` are all that is unseen: the client has been
-- told everything, or it still has to be told the rows `left` from a later cursor on.
abbrev HasAll : List RunEvent → World → Result (Option ℕ) × World → Type 0
HasAll es w x = (x.0 ≡ ok none) × (x.1.out ≡ w.out ++ es)

abbrev HasSome :
    ℕ → Status → ℕ → List EventRow → List EventRow → World → Result (Option ℕ) × World → Type 0
HasSome r s c rows left w x =
    (d : ℕ) × (x.0 ≡ ok (some d))
    × (c ≤ d)
    × (select (later d) rows ≡ left)
    × (x.1.db ≡ w.db)
    × (x.1.turns ≡ w.turns)
    × (w.out ++ told r s c rows ≡ x.1.out ++ told r s d left)

heard : EventRow → World → World
heard row w = record w { out = w.out ++ to_event row ∷ [] }

told_next :
    (r c : ℕ) (s : Status) (row : EventRow) (rows : List EventRow)
    → is_terminal row.event ≡ false
    → told r s c (row ∷ rows) ≡ to_event row ∷ told r s (row.seq + 1) rows
unfolding told
told_next r c s row rows e = rw e refl

one_more :
    (r c : ℕ) (s : Status) (row : EventRow) (rows left : List EventRow) (w : World)
    (x : Result (Option ℕ) × World)
    → is_terminal row.event ≡ false
    → c ≤ row.seq
    → HasAll (told r s (row.seq + 1) rows) (heard row w) x
      ⊎ HasSome r s (row.seq + 1) rows left (heard row w) x
    → HasAll (told r s c (row ∷ rows)) w x ⊎ HasSome r s c (row ∷ rows) left w x
unfolding heard
one_more r c s row rows left w x e h (inl (a, o)) =
    inl (a, o ∙ append_assoc w.out _ _ ∙ ap (λ es. w.out ++ es) (sym (told_next r c s row rows e)))
one_more r c s row rows left w x e h (inr (d, a, k, l, db, turns, o)) = inr (
  d,
  a,
  omega arith,
  select_passed c d row rows (omega arith) ∙ l,
  db,
  turns,
  ap (λ es. w.out ++ es) (told_next r c s row rows e) ∙ sym (append_assoc w.out _ _) ∙ o,
)

deliver-told :
    (r : ℕ) (s : Status) (n c : ℕ) (rows : List EventRow) (w : World)
    → Ascends c rows
    → HasAll (told r s c rows) w (deliver (take n (map to_event rows)) c w)
      ⊎ HasSome r s c rows (drop n rows) w (deliver (take n (map to_event rows)) c w)
unfolding deliver told Ascends heard
deliver-told r s zero c rows w h =
    inr (c, refl, omega arith, select_all c c rows (omega arith) h, refl, refl, refl)
deliver-told r s (suc n) c [] w h = inr (c, refl, omega arith, refl, refl, refl, refl)
deliver-told r s (suc n) c (row ∷ rows) w h = elim (Bool-cases (is_terminal row.event)) [
  | inl e ↦ inl (rw e (refl, refl))
  | inr e ↦
      let rest = deliver-told r s n (row.seq + 1) rows (heard row w) h.1 in
      one_more r c s row rows (drop n rows) w
        (deliver (take (suc n) (map to_event (row ∷ rows))) c w) e h.0 (rw e rest)
]

fewer_left :
    (n : ℕ) (row : EventRow) (rows : List EventRow)
    → length (drop (suc n) (row ∷ rows)) < length (row ∷ rows)
fewer_left zero row rows = omega arith
fewer_left (suc n) row [] = omega arith
fewer_left (suc n) row (next ∷ rows) = omega (arith, fewer_left n next rows)

-- One poll: everything has been told, or fewer rows are left.
abbrev Told :
    ℕ → Status → ℕ → List EventRow → List EventRow → World → Result (Option ℕ) × World → Type 0
Told r s c rows left w x =
    HasAll (told r s c rows) w x ⊎ (HasSome r s c rows left w x × (length left < length rows))

poll_rows-Told :
    (r n c : ℕ) (rows : List EventRow) (w : World) (run : Run)
    → w.turns ≡ []
    → find_run r w.db ≡ some run
    → is_ended run.status ≡ true
    → Ascends c rows
    → Told r run.status c rows
        (drop (suc n) rows)
        w
        (poll_rows r c (take (suc n) (map to_event rows)) w)
unfolding told
poll_rows-Told r n c [] w run h e s k = inl (
    subst (HasAll (told r run.status c []) w)
      (sym (
        bind_alone (ask (get_run (some r))) (end_by_status r c) w w (get_run (some r) w.db)
          (ask_alone (get_run (some r)) w h)
        ∙ ap (λ o. end_by_status r c o w) (get_run_eq r w.db run e)))
      (rw s (refl, refl)))
poll_rows-Told r n c (row ∷ rows) w run h e s k =
    elim (deliver-told r run.status (suc n) c (row ∷ rows) w k) [
      | inl a ↦ inl a
      | inr a ↦ inr (a, fewer_left n row rows)
    ]

page : ℕ → ℕ → ℕ → Db → List RunEvent
page r c limit db = take limit (map to_event (unseen_rows r c db))

page_lem : (r c limit : ℕ) (db : Db) → get_run_events_after (some r) c limit db ≡ page r c limit db
unfolding get_run_events_after page unseen_rows
page_lem r c limit db = refl

poll-Told :
    (r c : ℕ) (w : World) (run : Run)
    → w.turns ≡ []
    → find_run r w.db ≡ some run
    → is_ended run.status ≡ true
    → IsKeyed r w.db.events
    → Told r run.status c (unseen_rows r c w.db) (drop 1000 (unseen_rows r c w.db)) w (poll r c w)
unfolding poll page
poll-Told r c w run h e s k =
    let rows = get_run_events_after (some r) c 1000 in
    subst (Told r run.status c (unseen_rows r c w.db) (drop 1000 (unseen_rows r c w.db)) w)
      (sym (
        bind_alone (ask rows) (poll_rows r c) w w (rows w.db) (ask_alone rows w h)
        ∙ ap (λ es. poll_rows r c es w) (page_lem r c 1000 w.db)))
      (poll_rows-Told r 999 c (unseen_rows r c w.db) w run h e s (unseen_rows-Ascends r c w.db k))

-- Ends and has said `es`.
abbrev Replays : List RunEvent → World → Result Bool × World → Type 0
Replays es w x = (x.0 ≡ ok true) × (x.1.out ≡ w.out ++ es)

told_or_further :
    (polls r c : ℕ) (s : Status) (w : World) (x : Result (Option ℕ) × World)
    → Told r s c (unseen_rows r c w.db) (drop 1000 (unseen_rows r c w.db)) w x
    → ((d : ℕ)
        → x.1.db ≡ w.db
        → x.1.turns ≡ w.turns
        → length (unseen_rows r d x.1.db) < length (unseen_rows r c w.db)
        → Replays (told r s d (unseen_rows r d x.1.db)) x.1 (stream polls r d x.1))
    → Replays (told r s c (unseen_rows r c w.db)) w (go_on (further polls r) x)
told_or_further polls r c s w x (inl (o, a)) f = (
  ap (λ y. (go_on (further polls r) (y, x.1)).0) o,
  ap (λ y. (go_on (further polls r) (y, x.1)).1.out) o ∙ a,
)
told_or_further polls r c s w x (inr ((d, o, h, left, db, turns, a), fewer)) f =
    let u = ap (unseen_rows r d) db ∙ sym (unseen_rows-later r c d w.db h) ∙ left in
    let rest = f d db turns (
      subst (λ (rows : List EventRow). length rows < length (unseen_rows r c w.db)) (sym u)
        fewer) in
    (
      ap (λ y. (go_on (further polls r) (y, x.1)).0) o ∙ rest.0,
      ap (λ y. (go_on (further polls r) (y, x.1)).1.out) o
          ∙ rest.1
          ∙ ap (λ rows. x.1.out ++ told r s d rows) u
          ∙ sym a,
    )

-- The client of an ended run hears, from its cursor on, each event of the log once and in the order
-- of the numbers, up to the first terminal event, and, if the log has none, at last one event that
-- tells the status of the run; then the stream ends. The conditions are the primary key of the log,
-- that the log grows no more, that no call fails, and one poll more than there are unseen rows.
pub stream_replays :
    (polls r cursor : ℕ) (w : World) (run : Run)
    → w.turns ≡ []
    → find_run r w.db ≡ some run
    → is_ended run.status ≡ true
    → IsKeyed r w.db.events
    → length (unseen_rows r cursor w.db) < polls
    → ((stream polls r cursor w).0 ≡ ok true)
      × ((stream polls r cursor w).1.out
          ≡ w.out ++ told r run.status cursor (unseen_rows r cursor w.db))
unfolding stream
stream_replays zero r cursor w run h e s k l = ground arith
stream_replays (suc polls) r cursor w run h e s k l =
    told_or_further polls r cursor run.status w (poll r cursor w) (poll-Told r cursor w run h e s k)
      (λ d db turns fewer.
        stream_replays polls r d (poll r cursor w).1 run (turns ∙ h) (ap (find_run r) db ∙ e) s
          (subst (λ (b : Db). IsKeyed r b.events) (sym db) k) (omega arith))
