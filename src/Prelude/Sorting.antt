-- ===== src/Prelude/Sorting.antt =====
-- What sorting and conditionals keep.
use mathlib.Core.Path.{◌≡◌, refl}
use mathlib.Core.Logic.{inl, inr}
use mathlib.Core.Bool.{Bool, true, false}
use mathlib.Core.List.{List, [], ◌∷◌}
use agentchatbot_v.Prelude.Tests.{if◌then◌else◌, Bool-cases}
use agentchatbot_v.Prelude.Lists.{All}
use agentchatbot_v.Prelude.Table.{insert_by, sort_by}

module _ {A : Type 0} (P : A → Type 0) where
  pub All-insert :
      (lt : A → A → Bool) (a : A) (xs : List A) → P a → All P xs → All P (insert_by lt a xs)
  unfolding insert_by
  All-insert lt a [] h k = (h, tt)
  All-insert lt a (x ∷ xs) h k = elim (Bool-cases (lt x a)) [
    | inl e ↦ rw e (k.0, All-insert lt a xs h k.1)
    | inr e ↦ rw e (h, k)
  ]

  pub All-sort : (lt : A → A → Bool) (xs : List A) → All P xs → All P (sort_by lt xs)
  unfolding sort_by
  All-sort lt [] h = tt
  All-sort lt (x ∷ xs) h = All-insert lt x (sort_by lt xs) h.0 (All-sort lt xs h.1)

-- A conditional keeps what both of its branches have.
pub All_if :
    {A : Type 0} (P : A → Type 0) (b : Bool) (xs ys : List A)
    → (b ≡ true → All P xs)
    → All P ys
    → All P (if b then xs else ys)
All_if P true xs ys f k = f refl
All_if P false xs ys f k = k
