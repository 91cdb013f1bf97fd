-- ===== src/Store/Log.antt =====
-- The durable log under `append_run_event` of conversation.py (lines 493-504).
use agentchatbot_v.Prelude.{
  ℕ, ◌≡◌, refl, ap₂, ◌∙◌, Bool, true, false, ◌&&◌, not, Option, some, List, ◌==◌, arith,
  if◌then◌else◌, exists, first, Bool-cases, inl, inr,
}
use agentchatbot_v.Store.Schema.{Event, EventRow, Db}
use agentchatbot_v.Store.Events.{is_event, append_run_event}

abbrev pub logged : ℕ → ℕ → ℕ → ℕ → Event → EventRow
logged now t r seq e = record { thread_id = t; run_id = r; seq = seq; event = e; created_at = now }

same_event :
    (r q seq k : ℕ) (rows : List EventRow)
    → (r == q && seq == k) ≡ true
    → exists (is_event q k) rows ≡ exists (is_event r seq) rows
same_event r q seq k rows h = ap₂ (λ a b. exists (is_event a b) rows) (ground arith) (ground arith)

kept :
    (same there : Bool) (new old : Option EventRow)
    → (same ≡ true → there ≡ true)
    → old ≡ (if same && not there then new else old)
kept true true new old h = refl
kept true false new old h = ground (arith, h refl)
kept false there new old h = refl

added :
    (same there : Bool) (new old : Option EventRow)
    → (same ≡ true → there ≡ false)
    → (if same then new else old) ≡ (if same && not there then new else old)
added true true new old h = ground (arith, h refl)
added true false new old h = refl
added false there new old h = refl

-- The log is append-only, and the first writer of a number wins: after an append the event under
-- any number of any run is the one that was there, or, if there was none under the number that is
-- written, the new one.
pub append_run_event_lem :
    (now t r seq : ℕ) (e : Event) (db : Db) (q k : ℕ)
    → first (is_event q k) (append_run_event now t r seq e db).1.events ≡ (
        if (r == q && seq == k) && not (exists (is_event q k) db.events)
        then some (logged now t r seq e)
        else first (is_event q k) db.events)
unfolding append_run_event
append_run_event_lem now t r seq e db q k = elim (Bool-cases (exists (is_event r seq) db.events)) [
  | inl x ↦ rw x (
      kept (r == q && seq == k) (exists (is_event q k) db.events) _ _
        (λ h. same_event r q seq k db.events h ∙ x))
  | inr x ↦ rw x (
      added (r == q && seq == k) (exists (is_event q k) db.events) _ _
        (λ h. same_event r q seq k db.events h ∙ x))
]
