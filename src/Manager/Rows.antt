-- ===== src/Manager/Rows.antt =====
-- The rows of the durable log that a cursor has not seen, in their order (conversation.py, lines
-- 506-521).
use agentchatbot_v.Prelude.{
  ℕ, ◌+◌, ◌<◌, ◌≤◌, ◌==◌, ◌≡◌, refl, ap, ◌∙◌, inl, inr, Bool, false, List, [], ◌∷◌, arith, select,
  count, All, All-sort, leb, sort_by, insert_by, if◌then◌else◌, Bool-cases,
}
use agentchatbot_v.Store.Schema.{EventRow, Db}
use agentchatbot_v.Store.Events.{is_event, is_after, earlier_row}

-- The rows of a run from a cursor on, in the order of their numbers, with no limit.
unfoldable pub unseen_rows : ℕ → ℕ → Db → List EventRow
unfolding sort_by
unseen_rows r cursor db = sort_by earlier_row (select (is_after r cursor) db.events)

-- The primary key of run_events.
abbrev pub IsKeyed : ℕ → List EventRow → Type 0
IsKeyed r rows = (q : ℕ) → count (is_event r q) rows ≤ 1

unfoldable pub later : ℕ → EventRow → Bool
later cursor row = leb cursor row.seq

-- Numbers that grow, from a cursor on.
unfoldable pub Ascends : ℕ → List EventRow → Type 0
Ascends c [] = Unit
Ascends c (row ∷ rows) = (c ≤ row.seq) × Ascends (row.seq + 1) rows

select-insert :
    (c : ℕ) (a : EventRow) (xs : List EventRow)
    → select (later c) (insert_by earlier_row a xs)
      ≡ (if later c a then insert_by earlier_row a (select (later c) xs) else select (later c) xs)
unfolding later insert_by
select-insert c a [] = refl
select-insert c a (x ∷ xs) = ground (arith, select-insert c a xs)

select-sort :
    (c : ℕ) (xs : List EventRow)
    → select (later c) (sort_by earlier_row xs) ≡ sort_by earlier_row (select (later c) xs)
unfolding later sort_by
select-sort c [] = refl
select-sort c (x ∷ xs) =
    select-insert c x (sort_by earlier_row xs) ∙ ground (arith, select-sort c xs)

select-later :
    (r c d : ℕ) (xs : List EventRow)
    → c ≤ d
    → select (later d) (select (is_after r c) xs) ≡ select (is_after r d) xs
unfolding later
select-later r c d [] h = refl
select-later r c d (x ∷ xs) h = ground (arith, select-later r c d xs h)

pub select_all :
    (b c : ℕ) (rows : List EventRow) → c ≤ b → Ascends b rows → select (later c) rows ≡ rows
unfolding later Ascends
select_all b c [] h k = refl
select_all b c (row ∷ rows) h k =
    ground (arith, select_all (row.seq + 1) c rows (ground (arith, k.0)) k.1, k.0)

-- The rows that a later cursor leaves.
pub select_passed :
    (c d : ℕ) (row : EventRow) (rows : List EventRow)
    → row.seq < d
    → select (later d) (row ∷ rows) ≡ select (later d) rows
unfolding later
select_passed c d row rows h = ground arith

-- Different numbers.
Other : EventRow → EventRow → Type 0
Other a row = (row.seq == a.seq) ≡ false

Distinct : List EventRow → Type 0
Distinct [] = Unit
Distinct (row ∷ rows) = All (Other row) rows × Distinct rows

insert-Ascends :
    (c : ℕ) (a : EventRow) (xs : List EventRow)
    → c ≤ a.seq
    → All (Other a) xs
    → Ascends c xs
    → Ascends c (insert_by earlier_row a xs)
unfolding Ascends Other insert_by
insert-Ascends c a [] h k l = (h, tt)
insert-Ascends c a (x ∷ xs) h k l = elim (Bool-cases (earlier_row x a)) [
  | inl e ↦ rw e (l.0, insert-Ascends (x.seq + 1) a xs (ground arith) k.1 l.1)
  | inr e ↦ rw e (h, (ground (arith, k.0), l.1))
]

sort-Ascends :
    (c : ℕ) (xs : List EventRow)
    → All (λ row. c ≤ row.seq) xs
    → Distinct xs
    → Ascends c (sort_by earlier_row xs)
unfolding Ascends Distinct sort_by
sort-Ascends c [] h k = tt
sort-Ascends c (x ∷ xs) h k =
    insert-Ascends c x (sort_by earlier_row xs) h.0 (All-sort (Other x) earlier_row xs k.0)
      (sort-Ascends c xs h.1 k.1)

select-Other :
    (r c : ℕ) (a : EventRow) (xs : List EventRow)
    → count (is_event r a.seq) xs ≤ 0
    → All (Other a) (select (is_after r c) xs)
unfolding Other
select-Other r c a [] h = tt
select-Other r c a (x ∷ xs) h = elim (Bool-cases (is_after r c x)) [
  | inl e ↦ rw e (ground arith, select-Other r c a xs (ground arith))
  | inr e ↦ rw e (select-Other r c a xs (ground arith))
]

select-Distinct :
    (r c : ℕ) (xs : List EventRow) → IsKeyed r xs → Distinct (select (is_after r c) xs)
unfolding Distinct
select-Distinct r c [] h = tt
select-Distinct r c (x ∷ xs) h =
    let rest = select-Distinct r c xs (λ q. ground (arith, h q)) in
    elim (Bool-cases (is_after r c x)) [
      | inl e ↦ rw e (select-Other r c x xs (ground (arith, h x.seq)), rest)
      | inr e ↦ rw e rest
    ]

select_from : (r c : ℕ) (xs : List EventRow) → All (λ row. c ≤ row.seq) (select (is_after r c) xs)
select_from r c [] = tt
select_from r c (x ∷ xs) = elim (Bool-cases (is_after r c x)) [
  | inl e ↦ rw e (ground arith, select_from r c xs)
  | inr e ↦ rw e (select_from r c xs)
]

pub unseen_rows-Ascends : (r c : ℕ) (db : Db) → IsKeyed r db.events → Ascends c (unseen_rows r c db)
unfolding unseen_rows
unseen_rows-Ascends r c db h =
    sort-Ascends c _ (select_from r c db.events) (select-Distinct r c db.events h)

pub unseen_rows-later :
    (r c d : ℕ) (db : Db) → c ≤ d → select (later d) (unseen_rows r c db) ≡ unseen_rows r d db
unfolding unseen_rows
unseen_rows-later r c d db h =
    select-sort d (select (is_after r c) db.events)
    ∙ ap (sort_by earlier_row) (select-later r c d db.events h)
