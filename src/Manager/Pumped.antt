-- ===== src/Manager/Pumped.antt =====
-- What the loop of `_spawn_pump` (run_manager.py, lines 139-151) adds to the durable log.
use agentchatbot_v.Prelude.{
  ℕ, ◌+◌, ◌<◌, ◌≤◌, ◌==◌, ◌≡◌, refl, ap, ◌∙◌, sym, subst, Bool, true, false, ◌||◌, List, [], ◌∷◌,
  ◌++◌, append_assoc, append_nil, arith, select, exists, count, count_of_exists, exists_mono, All,
  All-sort, map, sort_by, insert_by, Bool-cases, inl, inr,
}
use agentchatbot_v.Store.Schema.{RunEvent, Event, EventRow, Result, ok, err}
use agentchatbot_v.Store.Events.{is_event, is_after, to_event, earlier_row, append_run_event}
use agentchatbot_v.Store.Log.{logged}
use agentchatbot_v.Run.World.{World, call}
use agentchatbot_v.Run.Alone.{call_alone}
use agentchatbot_v.Manager.Pump.{Seen, note, is_terminal, pump_events}
use agentchatbot_v.Manager.Rows.{unseen_rows, IsKeyed}

abbrev pub ends : List RunEvent → Bool
ends es = exists (λ (e : RunEvent). is_terminal e.event) es

-- The generator numbers its events upwards.
unfoldable pub IsNumbered : ℕ → List RunEvent → Type 0
IsNumbered c [] = Unit
IsNumbered c (e ∷ es) = (c ≤ e.seq) × IsNumbered (e.seq + 1) es

insert_last :
    (a : EventRow) (xs : List EventRow)
    → All (λ x. x.seq < a.seq) xs
    → insert_by earlier_row a xs ≡ xs ++ a ∷ []
unfolding insert_by
insert_last a [] h = refl
insert_last a (x ∷ xs) h = ground (arith, insert_last a xs h.1, h.0)

select_below :
    (r c n : ℕ) (xs : List EventRow)
    → exists (is_after r n) xs ≡ false
    → All (λ x. x.seq < n) (select (is_after r c) xs)
select_below r c n [] h = tt
select_below r c n (x ∷ xs) h = elim (Bool-cases (is_after r c x)) [
  | inl e ↦ rw e (ground arith, select_below r c n xs (ground arith))
  | inr e ↦ rw e (select_below r c n xs (ground arith))
]

append-IsKeyed :
    (now t r q k : ℕ) (e : Event) (rows : List EventRow)
    → exists (is_event r q) rows ≡ false
    → count (is_event r k) rows ≤ 1
    → count (is_event r k) (logged now t r q e ∷ rows) ≤ 1
append-IsKeyed now t r q k e rows h l = elim (Bool-cases (q == k)) [
  | inl same ↦
      let none_yet : count (is_event r k) rows ≡ 0 =
        subst (λ z. count (is_event r z) rows ≡ 0) (ground arith)
          (count_of_exists (is_event r q) rows h) in
      ground (arith, none_yet)
  | inr other ↦ ground arith
]

-- The world after one append.
with_row : ℕ → ℕ → RunEvent → World → World
with_row t r e w = record w {
  db = record w.db { events = logged w.now t r e.seq e.event ∷ w.db.events };
}

append_alone :
    (t r : ℕ) (e : RunEvent) (w : World)
    → w.turns ≡ []
    → exists (is_event r e.seq) w.db.events ≡ false
    → call (λ now. append_run_event now t r e.seq e.event) w ≡ (ok tt, with_row t r e w)
unfolding append_run_event with_row
append_alone t r e w h k =
    rw (call_alone (λ now. append_run_event now t r e.seq e.event) w h, k) refl

no_event :
    (r n q : ℕ) (rows : List EventRow)
    → n ≤ q
    → exists (is_after r n) rows ≡ false
    → exists (is_event r q) rows ≡ false
no_event r n q rows h k = exists_mono (is_event r q) (is_after r n) rows (λ x l. ground arith) k

no_later :
    (r n q : ℕ) (rows : List EventRow)
    → n ≤ q
    → exists (is_after r n) rows ≡ false
    → exists (is_after r q) rows ≡ false
no_later r n q rows h k = exists_mono (is_after r q) (is_after r n) rows (λ x l. ground arith) k

unseen_rows-with_row :
    (t r c : ℕ) (e : RunEvent) (w : World)
    → c ≤ e.seq
    → exists (is_after r e.seq) w.db.events ≡ false
    → unseen_rows r c (with_row t r e w).db
      ≡ unseen_rows r c w.db ++ logged w.now t r e.seq e.event ∷ []
unfolding unseen_rows sort_by with_row
unseen_rows-with_row t r c e w h k =
    let row = logged w.now t r e.seq e.event in
    let kept : is_after r c row ≡ true = ground arith in
    rw kept (
      insert_last row (sort_by earlier_row (select (is_after r c) w.db.events)) (
        All-sort (λ x. x.seq < e.seq) earlier_row (select (is_after r c) w.db.events)
          (select_below r c e.seq w.db.events k)))

map-append : {A B : Type 0} (f : A → B) (xs ys : List A) → map f (xs ++ ys) ≡ map f xs ++ map f ys
map-append f [] ys = refl
map-append f (x ∷ xs) ys = ap (λ l. f x ∷ l) (map-append f xs ys)

-- Outcome `x` of pumping the events at `w`.
abbrev pub Pumped : ℕ → ℕ → Seen → List RunEvent → World → Result Seen × World → Type 0
Pumped r c s es w x =
    (s' : Seen) × (x.0 ≡ ok s')
    × (s'.terminal ≡ (ends es || s.terminal))
    × (x.1.turns ≡ [])
    × (x.1.db.runs ≡ w.db.runs)
    × (x.1.out ≡ w.out)
    × IsKeyed r x.1.db.events
    × (map to_event (unseen_rows r c x.1.db) ≡ map to_event (unseen_rows r c w.db) ++ es)

-- What the loop does after an append.
after_append :
    List RunEvent → ℕ → ℕ → Seen → RunEvent → Result (Unit {0}) × World → Result Seen × World
after_append es t r s e x = elim x.0 as (λ _. Result Seen × World) [
  | ok _ ↦ pump_events es t r (note e.event s) x.1
  | err _ ↦ (ok (note e.event s), x.1)
]

pump_events_step :
    (t r : ℕ) (s : Seen) (e : RunEvent) (es : List RunEvent) (w : World)
    → w.turns ≡ []
    → exists (is_event r e.seq) w.db.events ≡ false
    → pump_events (e ∷ es) t r s w ≡ pump_events es t r (note e.event s) (with_row t r e w)
unfolding pump_events after_append
pump_events_step t r s e es w h k = ap (after_append es t r s e) (append_alone t r e w h k)

or_moved : (a b c : Bool) → (b || (a || c)) ≡ ((a || b) || c)
or_moved a b c = ground arith

mapped-with_row :
    (t r c : ℕ) (e : RunEvent) (w : World)
    → c ≤ e.seq
    → exists (is_after r e.seq) w.db.events ≡ false
    → map to_event (unseen_rows r c (with_row t r e w).db)
      ≡ map to_event (unseen_rows r c w.db) ++ e ∷ []
mapped-with_row t r c e w h k =
    ap (map to_event) (unseen_rows-with_row t r c e w h k)
    ∙ map-append to_event (unseen_rows r c w.db) (logged w.now t r e.seq e.event ∷ [])

one-Pumped :
    (t r c : ℕ) (s : Seen) (e : RunEvent) (es : List RunEvent) (w : World) (x : Result Seen × World)
    → c ≤ e.seq
    → exists (is_after r e.seq) w.db.events ≡ false
    → Pumped r c (note e.event s) es (with_row t r e w) x
    → Pumped r c s (e ∷ es) w x
unfolding with_row
one-Pumped t r c s e es w x h k (s', o, terminal, turns, runs, out, keyed, rows) = (
  s',
  o,
  terminal ∙ or_moved (is_terminal e.event) (ends es) s.terminal,
  turns,
  runs,
  out,
  keyed,
  rows
      ∙ ap (λ l. l ++ es) (mapped-with_row t r c e w h k)
      ∙ append_assoc (map to_event (unseen_rows r c w.db)) (e ∷ []) es,
)

pub pump_events-Pumped :
    (t r c n : ℕ) (s : Seen) (es : List RunEvent) (w : World)
    → w.turns ≡ []
    → c ≤ n
    → IsNumbered n es
    → IsKeyed r w.db.events
    → exists (is_after r n) w.db.events ≡ false
    → Pumped r c s es w (pump_events es t r s w)
unfolding pump_events IsNumbered with_row
pump_events-Pumped t r c n s [] w h k l keyed m =
    (s, refl, refl, h, refl, refl, keyed, sym (append_nil (map to_event (unseen_rows r c w.db))))
pump_events-Pumped t r c n s (e ∷ es) w h k l keyed m =
    let free = no_event r n e.seq w.db.events l.0 m in
    let later = no_later r n e.seq w.db.events l.0 m in
    let past = no_later r n (e.seq + 1) w.db.events (omega (arith, l.0)) m in
    let rest =
      pump_events-Pumped t r c (e.seq + 1) (note e.event s) es (with_row t r e w) h
        (omega (arith, l.0)) l.1
        (λ q. append-IsKeyed w.now t r e.seq q e.event w.db.events free (keyed q))
        (ground (arith, past)) in
    subst (Pumped r c s (e ∷ es) w) (sym (pump_events_step t r s e es w h free)) (
      one-Pumped t r c s e es w (pump_events es t r (note e.event s) (with_row t r e w))
        (omega (arith, l.0)) later rest)
