-- ===== src/Store/Races.antt =====
-- Races on the status of a run: two calls of `try_transition` (conversation.py, lines 257-267), and
-- a resumed run against the sweep of `reconcile_orphan_runs` (lines 214-237).
use agentchatbot_v.Prelude.{
  ℕ, ◌+◌, ◌<◌, ◌≤◌, ◌≡◌, refl, ap, ◌∙◌, sym, Bool, true, false, ◌&&◌, not, Option, none, some, List,
  [], ◌∷◌, ◌==◌, ltb, arith, if◌then◌else◌, first, exists, count, update, update_of_none,
  first-update, map_row, change, first_holds, ==_refl, Bool-cases, inl, inr,
}
use agentchatbot_v.Store.Schema.{Status, same_status, Run, Db, ok}
use agentchatbot_v.Store.Runs.{
  is_active, active_on, is_run, find_run, is_run_in, move, try_transition, clashes, sweep,
  is_stale_run, reconcile_orphan_runs,
}
use agentchatbot_v.Store.Lifecycle.{
  IsKeyed, in_status, moved_if, count-is_run_in, eq_of_same_status, try_transition_lem,
  try_transition-eq,
}
use agentchatbot_v.Store.Ops.Lawful.{IsLawful}
use agentchatbot_v.Store.Ops.OneActive.{try_transition-IsLawful}

moved_out :
    (now r : ℕ) (from to : Status) (ended : Bool) (o : Option Run)
    → same_status to from ≡ false
    → in_status from (moved_if (in_status from o && r == r) now to ended o) ≡ false
moved_out now r from to ended none d = refl
moved_out now r from to ended (some run) d = ground (arith, ==_refl r)

and_false : (b c : Bool) → c ≡ false → (b && c) ≡ false
and_false b c h = ground arith

counted : {A : Type 0} (p : A → Bool) (xs : List A) → exists p xs ≡ true → 1 ≤ count p xs
counted p [] h = cc
counted p (x ∷ xs) h = ground (arith, counted p xs)

exists_more :
    {A : Type 0} (p q : A → Bool) (xs : List A)
    → ((x : A) → p x ≡ true → q x ≡ true)
    → exists p xs ≡ true
    → exists q xs ≡ true
exists_more p q [] f h = h
exists_more p q (x ∷ xs) f h = ground (arith, exists_more p q xs f, f x)

found_too :
    {A : Type 0} (p k : A → Bool) (xs : List A) (x : A)
    → first p xs ≡ some x
    → k x ≡ true
    → exists (λ y. p y && k y) xs ≡ true
found_too p k [] x h e = cc
found_too p k (y ∷ xs) x h e = elim (Bool-cases (p y)) [
  | inl g ↦ let same : y ≡ x = ground (arith, h) in rw (g, ap k same ∙ e) refl
  | inr g ↦ ground (arith, found_too p k xs x)
]

-- Two active runs of a thread, where one is the run `r` and one is not.
two_active :
    (r t : ℕ) (xs : List Run)
    → exists (λ q. not (q.id == r) && active_on t q) xs ≡ true
    → exists (λ q. is_run r q && active_on t q) xs ≡ true
    → 2 ≤ count (active_on t) xs
two_active r t [] h k = cc
two_active r t (x ∷ xs) h k = ground (
  arith,
  two_active r t xs,
  counted (active_on t) xs,
  exists_more (λ q. not (q.id == r) && active_on t q) (active_on t) xs (λ q e. ground arith),
  exists_more (λ q. is_run r q && active_on t q) (active_on t) xs (λ q e. ground arith),
)

-- Where a thread has at most one active run, an active run meets no other.
clashes_not :
    (r : ℕ) (from : Status) (db : Db)
    → IsLawful db.runs
    → is_active from ≡ true
    → in_status from (find_run r db) ≡ true
    → clashes r db ≡ false
unfolding find_run
clashes_not r from db v a h = go (first (is_run r) db.runs) refl h
  where
    go :
        (o : Option Run)
        → first (is_run r) db.runs ≡ o
        → in_status from o ≡ true
        → (elim o as (λ _. Bool) [
          | none ↦ false
          | some run ↦ exists (λ q. not (q.id == r) && active_on run.thread_id q) db.runs
        ])
          ≡ false
    go none e k = refl
    go (some run) e k =
        elim (Bool-cases (exists (λ q. not (q.id == r) && active_on run.thread_id q) db.runs)) [
          | inl x ↦
              let active : active_on run.thread_id run ≡ true =
                rw (ap is_active (eq_of_same_status run.status from k) ∙ a)
                  (ground (arith, ==_refl run.thread_id)) in
              let twice =
                two_active r run.thread_id db.runs x
                  (found_too (is_run r) (active_on run.thread_id) db.runs run e active) in
              ground (arith, twice, v.one_active run.thread_id)
          | inr x ↦ x
        ]

-- A compare-and-set on a run that is not in the status fails and changes nothing.
try_transition-fails :
    (now r : ℕ) (from to : Status) (ended : Bool) (db : Db)
    → IsKeyed db.runs
    → in_status from (find_run r db) ≡ false
    → try_transition now r from to ended db ≡ (ok false, db)
unfolding try_transition find_run
try_transition-fails now r from to ended db k h =
    let none_in : count (is_run_in r from) db.runs ≡ 0 =
      count-is_run_in r from db.runs k ∙ ap (λ b. if b then 1 else 0) h in
    let absent : exists (is_run_in r from) db.runs ≡ false =
      elim (Bool-cases (exists (is_run_in r from) db.runs)) [
        | inl x ↦ ground (arith, counted (is_run_in r from) db.runs x)
        | inr x ↦ x
      ] in
    rw (absent, none_in, update_of_none (is_run_in r from) (move now to ended) db.runs absent) refl

-- Two compare-and-sets out of the same active status, one after the other, with whatever clocks and
-- targets, as in the race of two resumes of a run or of an interrupt and an end: the first succeeds
-- exactly if the run was in that status, and the second fails and changes nothing, in either case.
-- The conditions are that the primary key holds and each thread has at most one active run, which
-- every history of calls keeps, and that the first target is a status other than the source.
pub try_transition_once :
    (db : Db) (now later r : ℕ) (from to to' : Status) (ended ended' : Bool)
    → IsLawful db.runs
    → is_active from ≡ true
    → same_status to from ≡ false
    → let (won, db') = try_transition now r from to ended db in
      let (again, db'') = try_transition later r from to' ended' db' in
      (won ≡ ok (in_status from (find_run r db))) × (again ≡ ok false) × (db'' ≡ db')
try_transition_once db now later r from to to' ended ended' v a d =
    let db' = (try_transition now r from to ended db).1 in
    let first_call = won_if (in_status from (find_run r db)) refl in
    let second =
      try_transition-fails later r from to' ended' db'
        (try_transition-IsLawful now r from to ended db v).keyed first_call.1 in
    (first_call.0, ap (λ x. x.0) second, ap (λ x. x.1) second)
  where
    won_if :
        (b : Bool)
        → in_status from (find_run r db) ≡ b
        → ((try_transition now r from to ended db).0 ≡ ok (in_status from (find_run r db)))
          × (in_status from (find_run r (try_transition now r from to ended db).1) ≡ false)
    won_if true e =
        let c =
          try_transition_lem db now r from to ended v.keyed
            (and_false (is_active to) (clashes r db) (clashes_not r from db v a e)) in
        (c.0, ap (in_status from) (c.1 r) ∙ moved_out now r from to ended (find_run r db) d)
    won_if false e =
        let c = try_transition-fails now r from to ended db v.keyed e in
        (ap (λ x. x.0) c ∙ ap ok (sym e), ap (λ x. in_status from (find_run r x.1)) c ∙ e)

swept_row :
    (r now later secs : ℕ) (xs : List Run) (run : Run)
    → first (is_run r) xs ≡ some run
    → run.status ≡ Status.awaiting_approval
    → run.heartbeat_at + secs < later
    → first (is_run r) (
        update
          (is_stale_run later secs)
          (move later Status.error true)
          (update (is_run_in r Status.awaiting_approval) (move now Status.running false) xs))
      ≡ some (move later Status.error true (move now Status.running false run))
swept_row r now later secs xs run e s h =
    first-update (is_run r) (is_stale_run later secs) (move later Status.error true) _ (λ x. refl)
    ∙ (ap (map_row (change (is_stale_run later secs) (move later Status.error true))) (
          first-update (is_run r) (is_run_in r Status.awaiting_approval)
            (move now Status.running false) xs (λ x. refl)
          ∙ (ap (map_row _) e ∙ ap some resumed))
        ∙ ap some stale)
  where
    resumed :
        change (is_run_in r Status.awaiting_approval) (move now Status.running false) run
        ≡ move now Status.running false run
    resumed = rw (first_holds (is_run r) xs run e, s) refl

    stale :
        change
          (is_stale_run later secs)
          (move later Status.error true)
          (move now Status.running false run)
        ≡ move later Status.error true (move now Status.running false run)
    stale = let old : ltb (run.heartbeat_at + secs) later ≡ true = ground arith in rw old refl

-- A run that is resumed after it waited for its approval can be taken for an orphan at once: the
-- compare-and-set to running keeps the old heartbeat, so that a sweep whose clock is beyond that
-- heartbeat by more than the allowance moves the run to error. The conditions are that the run waits
-- for approval, that no other run of its thread is active, and that its last heartbeat is that old.
pub resumed_run_swept :
    (db : Db) (now later secs r : ℕ) (run : Run)
    → find_run r db ≡ some run
    → run.status ≡ Status.awaiting_approval
    → clashes r db ≡ false
    → run.heartbeat_at + secs < later
    → let (_, db') = try_transition now r Status.awaiting_approval Status.running false db in
      find_run r (reconcile_orphan_runs later secs db').1
      ≡ some (move later Status.error true (move now Status.running false run))
unfolding find_run reconcile_orphan_runs sweep
resumed_run_swept db now later secs r run e s c h =
    rw (try_transition-eq db now r Status.awaiting_approval Status.running false c)
      (swept_row r now later secs db.runs run e s h)
