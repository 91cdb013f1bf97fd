-- ===== src/Store/Approval.antt =====
-- What the approval methods do to the tool cells of a run.
use agentchatbot_v.Prelude.{
  ℕ, ◌≡◌, refl, ap₂, change, eq_of_==, Bool, true, false, ◌&&◌, Option, none, some, List, [], ◌∷◌,
  arith, if◌then◌else◌, update, exists, map, holds, Bool-cases, inl, inr, select,
}
use agentchatbot_v.Text.{Text}
use agentchatbot_v.Store.Schema.{Approval, Content, Message, Run, Db, ok}
use agentchatbot_v.Store.Runs.{is_open_cell, fill, sweep, is_run, interrupted_tool}
use agentchatbot_v.Store.Messages.{
  is_open_in, is_rejected_in, refuse, mark, mark_partial_approval, resolve_orphan_tool_cells,
}

-- The verdict on one cell: a selected rejection, an approval, or no concern of this run's turn.
abbrev pub judged : ℕ → List Text → Content → Message → Message
judged r rejected marker m =
    if is_rejected_in r rejected m
    then refuse marker m
    else if is_open_in r m
    then mark Approval.approved m
    else m

judge_one :
    (r : ℕ) (rejected : List Text) (marker : Content) (m : Message)
    → change
        (is_open_in r)
        (mark Approval.approved)
        (change (is_rejected_in r rejected) (refuse marker) m)
      ≡ judged r rejected marker m
judge_one r rejected marker m = elim (Bool-cases (is_rejected_in r rejected m)) [
  | inl e ↦ rw e (ground arith)
  | inr e ↦ rw e refl
]

judge-update :
    (r : ℕ) (rejected : List Text) (marker : Content) (ms : List Message)
    → update
        (is_open_in r)
        (mark Approval.approved)
        (update (is_rejected_in r rejected) (refuse marker) ms)
      ≡ map (judged r rejected marker) ms
judge-update r rejected marker [] = refl
judge-update r rejected marker (m ∷ ms) =
    ap₂ ◌∷◌ (judge_one r rejected marker m) (judge-update r rejected marker ms)

-- The two statements of a selective approval decide every message by itself: a tool cell of the run
-- with a rejected id is rejected and holds the marker, any other tool cell of the run without a
-- result is approved and stays without a result, and every other message is as it was.
pub mark_partial_approval_lem :
    (r : ℕ) (rejected : List Text) (marker : Content) (db : Db)
    → mark_partial_approval r rejected marker db
      ≡ (ok tt, record db { messages = map (judged r rejected marker) db.messages })
unfolding mark_partial_approval
mark_partial_approval_lem r rejected marker db =
    rw (judge-update r rejected marker db.messages) refl

no_open_cell :
    (r : ℕ) (marker : Content) (ms : List Message)
    → exists (is_open_in r) (update (is_open_in r) (fill marker) ms) ≡ false
no_open_cell r marker [] = refl
no_open_cell r marker (m ∷ ms) = ground (arith, no_open_cell r marker ms)

fill_twice :
    (r : ℕ) (first second : Content) (ms : List Message)
    → update (is_open_in r) (fill second) (update (is_open_in r) (fill first) ms)
      ≡ update (is_open_in r) (fill first) ms
fill_twice r first second [] = refl
fill_twice r first second (m ∷ ms) = ground (arith, fill_twice r first second ms)

-- After the clean-up of a run no tool cell of it waits for a result, and a second clean-up, with
-- whatever marker, changes nothing more.
pub resolve_orphan_tool_cells_settles :
    (r : ℕ) (marker later : Content) (db : Db)
    → let (_, db') = resolve_orphan_tool_cells r marker db in
      (exists (is_open_in r) db'.messages ≡ false)
      × (resolve_orphan_tool_cells r later db' ≡ (ok tt, db'))
unfolding resolve_orphan_tool_cells
resolve_orphan_tool_cells_settles r marker later db =
    (no_open_cell r marker db.messages, rw (fill_twice r marker later db.messages) refl)

holds_swept :
    (o : Option ℕ) (r : ℕ) (swept : List Run)
    → holds o r ≡ true
    → exists (is_run r) swept ≡ true
    → exists (λ run. holds o run.id) swept ≡ true
holds_swept none r swept e h = cc
holds_swept (some a) r [] e h = cc
holds_swept (some a) r (x ∷ xs) e h =
    ground (arith, holds_swept (some a) r xs e, eq_of_== a r e, eq_of_== x.id r)

swept_cell :
    (r : ℕ) (swept : List Run) (ms : List Message)
    → exists (is_run r) swept ≡ true
    → exists (is_open_in r) (
        update
          (λ m. is_open_cell m && exists (λ run. holds m.run_id run.id) swept)
          (fill interrupted_tool)
          ms)
      ≡ false
swept_cell r swept [] h = refl
swept_cell r swept (m ∷ ms) h =
    ground (arith, swept_cell r swept ms h, holds_swept m.run_id r swept)

-- A sweep leaves no tool cell without a result in any run that it ends.
pub sweep_settles :
    (now : ℕ) (stale : Run → Bool) (r : ℕ) (db : Db)
    → exists (is_run r) (select stale db.runs) ≡ true
    → exists (is_open_in r) (sweep now stale db).1.messages ≡ false
unfolding sweep
sweep_settles now stale r db h = swept_cell r (select stale db.runs) db.messages h
