-- ===== src/Store/Events.antt =====
-- The durable event log of conversation.py (lines 493-550).
use agentchatbot_v.Prelude.{
  ℕ, ◌+◌, Bool, false, ◌&&◌, not, Option, none, some, List, [], ◌∷◌, ◌==◌, ltb, leb, if◌then◌else◌,
  select, remove, sort_by, map, exists, count, take,
}
use agentchatbot_v.Store.Schema.{Event, RunEvent, EventRow, Run, Db, ok, Action}

abbrev pub is_event : ℕ → ℕ → EventRow → Bool
is_event r seq row = row.run_id == r && row.seq == seq

-- ON CONFLICT (run_id, seq) DO NOTHING
unfoldable pub append_run_event : ℕ → ℕ → ℕ → ℕ → Event → Action (Unit {0})
append_run_event now t r seq event db = if exists (is_event r seq) db.events then (ok tt, db) else (
  ok tt,
  record db {
    events =
        record { thread_id = t; run_id = r; seq = seq; event = event; created_at = now }
        ∷ db.events;
  },
)

abbrev pub to_event : EventRow → RunEvent
to_event row = record { event = row.event; seq = row.seq }

-- `ORDER BY seq`
abbrev pub earlier_row : EventRow → EventRow → Bool
earlier_row row q = ltb row.seq q.seq

-- `seq > after`. A cursor is the least seq that is wanted, `after_seq + 1`, since the source starts
-- at -1.
abbrev pub is_after : ℕ → ℕ → EventRow → Bool
is_after r cursor row = row.run_id == r && leb cursor row.seq

unfoldable pub get_run_events_after : Option ℕ → ℕ → ℕ → Db → List RunEvent
unfolding sort_by
get_run_events_after none cursor limit db = []
get_run_events_after (some r) cursor limit db =
    take limit (map to_event (sort_by earlier_row (select (is_after r cursor) db.events)))

abbrev pub ended_before : ℕ → ℕ → Option ℕ → Bool
ended_before now secs none = false
ended_before now secs (some ended) = ltb (ended + secs) now

-- `USING runs r WHERE re.run_id = r.id AND r.ended_at < now() - retention`
abbrev pub is_expired : ℕ → ℕ → List Run → EventRow → Bool
is_expired now secs runs row =
    exists (λ (run : Run). run.id == row.run_id && ended_before now secs run.ended_at) runs

abbrev pub is_orphan : ℕ → ℕ → List Run → EventRow → Bool
is_orphan now secs runs row =
    ltb (row.created_at + secs) now && not (exists (λ (run : Run). run.id == row.run_id) runs)

unfoldable pub gc_run_events : ℕ → ℕ → Action ℕ
gc_run_events now secs db =
    let kept = remove (is_expired now secs db.runs) db.events in
    (
      ok (count (is_expired now secs db.runs) db.events + count (is_orphan now secs db.runs) kept),
      record db { events = remove (is_orphan now secs db.runs) kept },
    )
