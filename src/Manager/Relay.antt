-- ===== src/Manager/Relay.antt =====
-- From the generator of a run to the client of its stream, `_spawn_pump` and `stream` of
-- run_manager.py (lines 130-168 and 206-231) over the log of conversation.py (lines 493-521).
use agentchatbot_v.Prelude.{
  ℕ, suc, ◌+◌, ◌<◌, ◌≡◌, refl, ap, ◌∙◌, sym, subst, Bool, true, false, some, List, [], ◌∷◌, ◌++◌,
  arith, select, exists, first, map, length, sort_by, if◌then◌else◌, Bool-cases, inl, inr,
}
use agentchatbot_v.Store.Schema.{Status, Run, RunEvent, EventRow, Db, Result, ok, err}
use agentchatbot_v.Store.Runs.{find_run, is_run}
use agentchatbot_v.Store.Events.{is_after, to_event, earlier_row}
use agentchatbot_v.Run.World.{World}
use agentchatbot_v.Manager.Pump.{
  Seen, unseen, is_terminal, is_ended, pump_events, close_log, discard, spawn_pump,
}
use agentchatbot_v.Manager.Tail.{stream}
use agentchatbot_v.Manager.Rows.{unseen_rows, IsKeyed}
use agentchatbot_v.Manager.Replay.{told, stream_replays}
use agentchatbot_v.Manager.Pumped.{ends, IsNumbered, Pumped, pump_events-Pumped}

-- The events of a run up to the first terminal one.
unfoldable pub until_terminal : List RunEvent → List RunEvent
until_terminal [] = []
until_terminal (e ∷ es) =
    let rest = until_terminal es in e ∷ (if is_terminal e.event then [] else rest)

select_none :
    (p : EventRow → Bool) (rows : List EventRow) → exists p rows ≡ false → select p rows ≡ []
select_none p [] h = refl
select_none p (row ∷ rows) h = ground (arith, select_none p rows)

told_until :
    (r : ℕ) (s : Status) (c : ℕ) (rows : List EventRow)
    → ends (map to_event rows) ≡ true
    → told r s c rows ≡ until_terminal (map to_event rows)
unfolding told until_terminal
told_until r s c [] h = cc
told_until r s c (row ∷ rows) h = elim (Bool-cases (is_terminal row.event)) [
  | inl e ↦ rw e refl
  | inr e ↦ rw (e, told_until r s (row.seq + 1) rows (ground arith)) refl
]

length-map : {A B : Type 0} (f : A → B) (xs : List A) → length (map f xs) ≡ length xs
length-map f [] = refl
length-map f (x ∷ xs) = ap suc (length-map f xs)

close_log_seen :
    (t r : ℕ) (s : Seen) (w : World) → s.terminal ≡ true → close_log t r s w ≡ (ok tt, w)
unfolding close_log
close_log_seen t r s w h = rw h refl

-- The end of the pump, after its loop.
after_loop : ℕ → ℕ → Result Seen × World → Result (Unit {0}) × World
after_loop t r x = elim x.0 as (λ _. Result (Unit {0}) × World) [
  | ok s ↦ close_log t r s (discard r x.1)
  | err e ↦ (err e, discard r x.1)
]

driven : ℕ → World → World
driven r w = record w { active = r ∷ w.active }

spawn_pump_lem :
    (es : List RunEvent) (t r : ℕ) (w : World)
    → spawn_pump es t r w ≡ after_loop t r (pump_events es t r unseen (driven r w))
unfolding spawn_pump after_loop driven
spawn_pump_lem es t r w = refl

-- Outcome `x` of a pump at `w`: the events are the unseen part of the log, and nothing else that
-- the client reads has changed.
abbrev IsRelayed : ℕ → ℕ → List RunEvent → World → World → Type 0
IsRelayed r c es w w' =
    (w'.turns ≡ [])
    × (w'.db.runs ≡ w.db.runs)
    × (w'.out ≡ w.out)
    × IsKeyed r w'.db.events
    × (map to_event (unseen_rows r c w'.db) ≡ es)

after_loop-IsRelayed :
    (t r c : ℕ) (es : List RunEvent) (w : World) (x : Result Seen × World)
    → ends es ≡ true
    → unseen_rows r c w.db ≡ []
    → Pumped r c unseen es (driven r w) x
    → IsRelayed r c es w (after_loop t r x).1
unfolding after_loop driven
after_loop-IsRelayed t r c es w x h k (s, o, terminal, turns, runs, out, keyed, rows) =
    let closed : after_loop t r x ≡ (ok tt, discard r x.1) =
      ap (λ y. after_loop t r (y, x.1)) o
      ∙ close_log_seen t r s (discard r x.1) (terminal ∙ rw h refl) in
    subst (λ (y : Result (Unit {0}) × World). IsRelayed r c es w y.1) (sym closed)
      (turns, runs, out, keyed, rows ∙ ap (λ l. map to_event l ++ es) k)

unseen_rows_none :
    (r c : ℕ) (db : Db) → exists (is_after r c) db.events ≡ false → unseen_rows r c db ≡ []
unfolding unseen_rows sort_by
unseen_rows_none r c db h = ap (sort_by earlier_row) (select_none (is_after r c) db.events h)

relayed_is_told :
    (polls r c : ℕ) (es : List RunEvent) (w w' : World) (run : Run)
    → find_run r w.db ≡ some run
    → is_ended run.status ≡ true
    → ends es ≡ true
    → length es < polls
    → IsRelayed r c es w w'
    → ((stream polls r c w').0 ≡ ok true)
      × ((stream polls r c w').1.out ≡ w.out ++ until_terminal es)
unfolding find_run
relayed_is_told polls r c es w w' run h k l n (turns, runs, out, keyed, rows) =
    let size = sym (length-map to_event (unseen_rows r c w'.db)) ∙ ap length rows in
    let told_all =
      stream_replays polls r c w' run turns (ap (first (is_run r)) runs ∙ h) k keyed
        (omega (arith, size)) in
    (
      told_all.0,
      told_all.1
          ∙ ap (λ o. o ++ told r run.status c (unseen_rows r c w'.db)) out
          ∙ ap (λ l. w.out ++ l)
              (told_until r run.status c (unseen_rows r c w'.db) (ap ends rows ∙ l)
                ∙ ap until_terminal rows),
    )

-- What a generator yields is what the client of the stream hears: once the pump has consumed the
-- numbered events of a run, of which one is terminal, the stream of a client that had seen all that
-- was in the log before delivers exactly these events in their order, up to the first terminal one,
-- and ends. The conditions are that the run has ended, the primary key of the log, that no other
-- instance acts and no call fails, and one poll more than there are events.
pub stream-spawn_pump :
    (polls t r cursor : ℕ) (es : List RunEvent) (w : World) (run : Run)
    → w.turns ≡ []
    → find_run r w.db ≡ some run
    → is_ended run.status ≡ true
    → IsKeyed r w.db.events
    → exists (is_after r cursor) w.db.events ≡ false
    → IsNumbered cursor es
    → ends es ≡ true
    → length es < polls
    → ((stream polls r cursor (spawn_pump es t r w).1).0 ≡ ok true)
      × ((stream polls r cursor (spawn_pump es t r w).1).1.out ≡ w.out ++ until_terminal es)
unfolding driven
stream-spawn_pump polls t r cursor es w run h k l keyed m numbered e n =
    relayed_is_told polls r cursor es w (spawn_pump es t r w).1 run k l e n (
      subst (λ (y : Result (Unit {0}) × World). IsRelayed r cursor es w y.1)
        (sym (spawn_pump_lem es t r w))
        (after_loop-IsRelayed t r cursor es w (pump_events es t r unseen (driven r w)) e
          (unseen_rows_none r cursor w.db m)
          (pump_events-Pumped t r cursor cursor unseen es (driven r w) h (omega arith) numbered
            keyed m)))
