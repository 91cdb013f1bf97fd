-- ===== src/Prelude/Table.antt =====
-- A table of the database is a list of rows, newest first. The SQL statements of the program are
-- these functions: SELECT ... WHERE, UPDATE ... WHERE, DELETE ... WHERE, EXISTS, and LIMIT 1.
use Prim.Native.Nat.{ℕ, ◌+◌, ◌≤◌}
use mathlib.Core.Path.{◌≡◌, refl}
use mathlib.Core.Bool.{Bool, true, false, ◌||◌}
use mathlib.Core.List.{List, [], ◌∷◌}
use mathlib.Core.Option.{Option, none, some}
use native.Mathlib.Omega.{arith}
use agentchatbot_v.Prelude.Tests.{if◌then◌else◌}
use agentchatbot_v.Prelude.Lists.{length, All}

module _ {ℓ} {A : Type ℓ} where
  abbrev pub select : (A → Bool) → List A → List A
  select p [] = []
  select p (x ∷ xs) = let rest = select p xs in if p x then x ∷ rest else rest

  abbrev pub remove : (A → Bool) → List A → List A
  remove p [] = []
  remove p (x ∷ xs) = let rest = remove p xs in if p x then rest else x ∷ rest

  abbrev pub update : (A → Bool) → (A → A) → List A → List A
  update p f [] = []
  update p f (x ∷ xs) = (if p x then f x else x) ∷ update p f xs

  abbrev pub exists : (A → Bool) → List A → Bool
  exists p [] = false
  exists p (x ∷ xs) = p x || exists p xs

  abbrev pub first : (A → Bool) → List A → Option A
  first p [] = none
  first p (x ∷ xs) = if p x then some x else first p xs

  -- The row count that the driver reports.
  abbrev pub count : (A → Bool) → List A → ℕ
  count p [] = 0
  count p (x ∷ xs) = (if p x then 1 else 0) + count p xs

  -- ORDER BY: insertion sort by a strict order.
  unfoldable pub insert_by : (A → A → Bool) → A → List A → List A
  insert_by lt a [] = a ∷ []
  insert_by lt a (x ∷ xs) = if lt x a then x ∷ insert_by lt a xs else a ∷ x ∷ xs

  unfoldable pub sort_by : (A → A → Bool) → List A → List A
  unfolding insert_by
  sort_by lt [] = []
  sort_by lt (x ∷ xs) = insert_by lt x (sort_by lt xs)

  pub exists-remove : (p : A → Bool) (xs : List A) → exists p (remove p xs) ≡ false
  exists-remove p [] = refl
  exists-remove p (x ∷ xs) = ground (arith, exists-remove p xs)

  pub count-remove : (p : A → Bool) (xs : List A) → length (remove p xs) + count p xs ≡ length xs
  count-remove p [] = omega arith
  count-remove p (x ∷ xs) = ground (arith, count-remove p xs)

  pub All-remove {κ} :
      (P : A → Type κ) (p : A → Bool) (xs : List A) → All P xs → All P (remove p xs)
  All-remove P p [] h = tt
  All-remove P p (x ∷ xs) h = ground (arith, All-remove P p xs h.1)

  -- What an update does to one row.
  abbrev pub change : (A → Bool) → (A → A) → A → A
  change p f x = if p x then f x else x

  abbrev pub map_row {κ} : {B : Type κ} → (A → B) → Option A → Option B
  map_row f none = none
  map_row f (some x) = some (f x)

  -- A test that the update does not change finds the same row, updated.
  pub first-update :
      (k p : A → Bool) (f : A → A) (xs : List A)
      → ((x : A) → k (f x) ≡ k x)
      → first k (update p f xs) ≡ map_row (change p f) (first k xs)
  first-update k p f [] h = refl
  first-update k p f (x ∷ xs) h = ground (arith, first-update k p f xs h, h x)

  pub exists-update :
      (k p : A → Bool) (f : A → A) (xs : List A)
      → ((x : A) → k (f x) ≡ k x)
      → exists k (update p f xs) ≡ exists k xs
  exists-update k p f [] h = refl
  exists-update k p f (x ∷ xs) h = ground (arith, exists-update k p f xs h, h x)

  pub count-le-length : (p : A → Bool) (xs : List A) → count p xs ≤ length xs
  count-le-length p [] = omega arith
  count-le-length p (x ∷ xs) = ground (arith, count-le-length p xs)

  pub count_of_exists : (p : A → Bool) (xs : List A) → exists p xs ≡ false → count p xs ≡ 0
  count_of_exists p [] h = refl
  count_of_exists p (x ∷ xs) h = ground (arith, count_of_exists p xs)

  pub exists_mono :
      (p q : A → Bool) (xs : List A)
      → ((x : A) → p x ≡ true → q x ≡ true)
      → exists q xs ≡ false
      → exists p xs ≡ false
  exists_mono p q [] f h = refl
  exists_mono p q (x ∷ xs) f h = ground (arith, exists_mono p q xs f, f x)

  pub first_of_exists : (p : A → Bool) (xs : List A) → exists p xs ≡ false → first p xs ≡ none
  first_of_exists p [] h = refl
  first_of_exists p (x ∷ xs) h = ground (arith, first_of_exists p xs)

  pub exists_of_first :
      (p : A → Bool) (xs : List A) (x : A) → first p xs ≡ some x → exists p xs ≡ true
  exists_of_first p [] x h = cc
  exists_of_first p (y ∷ xs) x h = ground (arith, exists_of_first p xs x)

  pub first_holds : (p : A → Bool) (xs : List A) (x : A) → first p xs ≡ some x → p x ≡ true
  first_holds p [] x h = cc
  first_holds p (y ∷ xs) x h = ground (arith, first_holds p xs x)

  pub update_of_none :
      (p : A → Bool) (f : A → A) (xs : List A) → exists p xs ≡ false → update p f xs ≡ xs
  update_of_none p f [] h = refl
  update_of_none p f (x ∷ xs) h = ground (arith, update_of_none p f xs)
