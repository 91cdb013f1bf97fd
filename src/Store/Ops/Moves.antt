-- ===== src/Store/Ops/Moves.antt =====
-- What a new run and a change of status keep of the laws of the runs.
use agentchatbot_v.Prelude.{
  ℕ, ◌+◌, ◌≤◌, ◌≡◌, refl, inl, inr, Bool, true, false, ◌&&◌, not, Option, none, some, List, [], ◌∷◌,
  ◌==◌, arith, if◌then◌else◌, update, exists, first, count, Bool-cases, count_of_exists, eq_of_==,
}
use agentchatbot_v.Text.{Text}
use agentchatbot_v.Store.Schema.{Status, Run, Db}
use agentchatbot_v.Store.Runs.{is_active, is_run, active_on, move, clashes, open_run}
use agentchatbot_v.Store.Lifecycle.{IsKeyed}
use agentchatbot_v.Store.Ops.Lawful.{IsLawful, update-IsKeyed, update-IsLawful}

pub open_run-IsLawful :
    (r now t : ℕ) (model : Option Text) (db : Db)
    → IsLawful db.runs
    → IsLawful (open_run r now t model db).1.runs
unfolding open_run
open_run-IsLawful r now t model db v = record {
  keyed = ground (arith, v.keyed);
  one_active =
      λ u. ground (arith, v.one_active u, count_of_exists (active_on t) db.runs, eq_of_== t u);
}

-- The other runs that are active on the thread, and the run itself if it is on the thread.
abbrev other_active : ℕ → ℕ → Run → Bool
other_active r t y = not (y.id == r) && active_on t y

abbrev own_row : ℕ → ℕ → Run → Bool
own_row r t y = y.id == r && y.thread_id == t

count-move :
    (now r t : ℕ) (to : Status) (ended : Bool) (q : Run → Bool) (xs : List Run)
    → ((x : Run) → q x ≡ true → (x.id == r) ≡ true)
    → count (active_on t) (update q (move now to ended) xs)
      ≤ count (other_active r t) xs + count (own_row r t) xs
count-move now r t to ended q [] h = omega arith
count-move now r t to ended q (x ∷ xs) h = ground (arith, count-move now r t to ended q xs h, h x)

abbrev own_count : ℕ → Option Run → ℕ
own_count t none = 0
own_count t (some x) = if x.thread_id == t then 1 else 0

own_row_absent :
    (r t : ℕ) (xs : List Run) → exists (is_run r) xs ≡ false → count (own_row r t) xs ≡ 0
own_row_absent r t [] h = refl
own_row_absent r t (x ∷ xs) h = ground (arith, own_row_absent r t xs)

count-own_row :
    (r t : ℕ) (xs : List Run)
    → IsKeyed xs
    → count (own_row r t) xs ≡ own_count t (first (is_run r) xs)
count-own_row r t [] k = refl
count-own_row r t (x ∷ xs) k = elim (Bool-cases (x.id == r)) [
  | inl e ↦ ground (arith, eq_of_== x.id r e, own_row_absent r t xs)
  | inr e ↦ ground (arith, count-own_row r t xs k.1)
]

count-other-le : (r t : ℕ) (xs : List Run) → count (other_active r t) xs ≤ count (active_on t) xs
count-other-le r t [] = omega arith
count-other-le r t (x ∷ xs) = ground (arith, count-other-le r t xs)

-- The run that is found, and no other active run on its thread.
activate_count :
    (r t : ℕ) (db : Db) (o : Option Run)
    → first (is_run r) db.runs ≡ o
    → IsLawful db.runs
    → clashes r db ≡ false
    → count (other_active r t) db.runs + count (own_row r t) db.runs ≤ 1
activate_count r t db none e v h =
    ground (arith, count-own_row r t db.runs v.keyed, count-other-le r t db.runs, v.one_active t)
activate_count r t db (some x) e v h = elim (Bool-cases (x.thread_id == t)) [
  | inl here ↦ ground (
    arith,
    count-own_row r t db.runs v.keyed,
    eq_of_== x.thread_id t here,
    count_of_exists (other_active r x.thread_id) db.runs,
  )
  | inr there ↦
      ground (arith, count-own_row r t db.runs v.keyed, count-other-le r t db.runs, v.one_active t)
]

-- An update of the run `r` alone, where the index is not met.
pub move-IsLawful :
    (now r : ℕ) (to : Status) (ended : Bool) (q : Run → Bool) (db : Db)
    → ((x : Run) → q x ≡ true → (x.id == r) ≡ true)
    → (is_active to && clashes r db) ≡ false
    → IsLawful db.runs
    → IsLawful (update q (move now to ended) db.runs)
move-IsLawful now r to ended q db own h v = elim (Bool-cases (is_active to)) [
  | inl e ↦ record {
    keyed = update-IsKeyed q (move now to ended) db.runs (λ x. refl) v.keyed;
    one_active = λ t. omega (
      arith,
      count-move now r t to ended q db.runs own,
      activate_count r t db (first (is_run r) db.runs) refl v (rw e at h),
    );
  }
  | inr e ↦ update-IsLawful q (move now to ended) db.runs (λ x. refl) (λ t x _ a. ground arith) v
]
