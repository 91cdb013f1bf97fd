-- ===== src/Store/Lifecycle.antt =====
-- The life cycle of runs: the compare-and-set, and the invariant of the table `runs`.
use agentchatbot_v.Prelude.{
  ℕ, ◌≡◌, refl, ap, ◌∙◌, inl, inr, Bool, true, false, ◌&&◌, Option, none, some, List, [], ◌∷◌, ◌==◌,
  arith, if◌then◌else◌, update, exists, first, count, first-update, map_row, change, Bool-cases,
  count_of_exists, exists_mono, first_holds, eq_of_==,
}
use agentchatbot_v.Store.Schema.{Status, same_status, Run, Db, ok}
use agentchatbot_v.Store.Runs.{
  is_active, is_run, find_run, is_run_in, move, try_transition, clashes,
}

-- The primary key of `runs`.
abbrev pub IsKeyed : List Run → Type 0
IsKeyed [] = Unit
IsKeyed (x ∷ xs) = (exists (is_run x.id) xs ≡ false) × IsKeyed xs

pub same_status_refl : (s : Status) → same_status s s ≡ true
same_status_refl s = ground arith

pub eq_of_same_status : (s t : Status) → same_status s t ≡ true → s ≡ t
eq_of_same_status Status.running t h = ground arith
eq_of_same_status Status.awaiting_approval t h = ground arith
eq_of_same_status Status.interrupted t h = ground arith
eq_of_same_status Status.completed t h = ground arith
eq_of_same_status Status.rejected t h = ground arith
eq_of_same_status Status.error t h = ground arith

abbrev pub in_status : Status → Option Run → Bool
in_status s none = false
in_status s (some run) = same_status run.status s

exists_weaken :
    (r : ℕ) (s : Status) (xs : List Run)
    → exists (is_run r) xs ≡ false
    → exists (is_run_in r s) xs ≡ false
exists_weaken r s xs = exists_mono (is_run_in r s) (is_run r) xs (λ x h. ground arith)

-- With a primary key, the row count of the compare-and-set says whether the run had the status.
pub count-is_run_in :
    (r : ℕ) (s : Status) (xs : List Run)
    → IsKeyed xs
    → count (is_run_in r s) xs ≡ (if in_status s (first (is_run r) xs) then 1 else 0)
count-is_run_in r s [] h = refl
count-is_run_in r s (x ∷ xs) h = elim (Bool-cases (x.id == r)) [
  | inl here ↦
      ground (arith, eq_of_== x.id r here, exists_weaken r s xs, count_of_exists (is_run_in r s) xs)
  | inr there ↦ ground (arith, count-is_run_in r s xs h.1)
]

-- The effect of the compare-and-set on the run that a key leads to.
abbrev pub moved_if : Bool → ℕ → Status → Bool → Option Run → Option Run
moved_if true now to ended o = map_row (move now to ended) o
moved_if false now to ended o = o

change_here :
    (r now : ℕ) (from to : Status) (ended : Bool) (x : Run)
    → (x.id == r) ≡ true
    → map_row (change (is_run_in r from) (move now to ended)) (some x)
      ≡ moved_if (same_status x.status from) now to ended (some x)
change_here r now from to ended x h = elim (Bool-cases (same_status x.status from)) [
  | inl e ↦ rw (h, e) refl
  | inr e ↦ rw (h, e) refl
]

change_elsewhere :
    (r now : ℕ) (from to : Status) (ended : Bool) (x : Run)
    → (x.id == r) ≡ false
    → map_row (change (is_run_in r from) (move now to ended)) (some x) ≡ some x
change_elsewhere r now from to ended x h = rw h refl

find-move :
    (r q now : ℕ) (from to : Status) (ended : Bool) (xs : List Run) (o : Option Run)
    → first (is_run q) xs ≡ o
    → map_row (change (is_run_in r from) (move now to ended)) o
      ≡ moved_if (in_status from (first (is_run r) xs) && q == r) now to ended o
find-move r q now from to ended xs none e = ground arith
find-move r q now from to ended xs (some x) e = elim (Bool-cases (q == r)) [
  | inl same ↦
      ground
        (arith, first_holds (is_run q) xs x, change_here r now from to ended x, eq_of_== q r same)
  | inr other ↦
      ground (
        arith,
        first_holds (is_run q) xs x,
        change_elsewhere r now from to ended x,
        eq_of_== x.id q,
      )
]

and_false : (b c : Bool) → c ≡ false → (b && c) ≡ false
and_false b c h = ground arith

-- Where the index is not met, the compare-and-set is one update.
pub try_transition-eq :
    (db : Db) (now r : ℕ) (from to : Status) (ended : Bool)
    → (is_active to && clashes r db) ≡ false
    → try_transition now r from to ended db ≡ (
      ok (count (is_run_in r from) db.runs == 1),
      record db { runs = update (is_run_in r from) (move now to ended) db.runs },
    )
unfolding try_transition
try_transition-eq db now r from to ended h =
    rw (and_false (exists (is_run_in r from) db.runs) (is_active to && clashes r db) h) refl

one_if : (b : Bool) (n : ℕ) → n ≡ (if b then 1 else 0) → (n == 1) ≡ b
one_if b n h = ground arith

-- The compare-and-set succeeds exactly if the run is in the status `from` at that moment. It then
-- moves this run to `to`, and it changes nothing of any other run; if it fails it changes no run.
-- The condition is that the primary key holds and that the step meets no other active run of the
-- thread.
pub try_transition_lem :
    (db : Db) (now r : ℕ) (from to : Status) (ended : Bool)
    → IsKeyed db.runs
    → (is_active to && clashes r db) ≡ false
    → let (won, db') = try_transition now r from to ended db in
      let was = in_status from (find_run r db) in
      (won ≡ ok was)
      × ((q : ℕ) → find_run q db' ≡ moved_if (was && q == r) now to ended (find_run q db))
unfolding find_run
try_transition_lem db now r from to ended k h = rw (try_transition-eq db now r from to ended h) (
  ap ok (one_if _ _ (count-is_run_in r from db.runs k)),
  λ q.
      first-update (is_run q) (is_run_in r from) (move now to ended) db.runs (λ x. refl)
      ∙ find-move r q now from to ended db.runs (first (is_run q) db.runs) refl,
)
