-- ===== src/Store/Ops/Lawful.antt =====
-- What makes the table `runs` lawful, and the updates and deletions that keep it so.
use agentchatbot_v.Prelude.{
  ℕ, ◌+◌, ◌≤◌, ◌≡◌, refl, ap, ◌∙◌, inl, inr, change, Bool, true, false, ◌&&◌, not, List, [], ◌∷◌,
  ◌==◌, arith, update, remove, exists, count, exists-update, Bool-cases, count_of_exists, eq_of_==,
}
use agentchatbot_v.Store.Schema.{Run}
use agentchatbot_v.Store.Runs.{is_run, active_on}
use agentchatbot_v.Store.Lifecycle.{IsKeyed}

-- No two rows of `runs` have one key, and no thread has two active runs.
pub record IsLawful (runs : List Run) : Type 0 where
  pub keyed : IsKeyed runs
  pub one_active : (t : ℕ) → count (active_on t) runs ≤ 1

pub id-change :
    (p : Run → Bool) (f : Run → Run) (x : Run)
    → ((y : Run) → (f y).id ≡ y.id)
    → (change p f x).id ≡ x.id
id-change p f x h = elim (Bool-cases (p x)) [ inl e ↦ rw e (h x) | inr e ↦ rw e refl ]

pub update-IsKeyed :
    (p : Run → Bool) (f : Run → Run) (xs : List Run)
    → ((x : Run) → (f x).id ≡ x.id)
    → IsKeyed xs
    → IsKeyed (update p f xs)
update-IsKeyed p f [] h k = tt
update-IsKeyed p f (x ∷ xs) h k = (
  rw (id-change p f x h)
      (exists-update (is_run x.id) p f xs (λ y. ap (λ (i : ℕ). i == x.id) (h y)) ∙ k.0),
  update-IsKeyed p f xs h k.1,
)

pub count-update-le :
    (p q : Run → Bool) (f : Run → Run) (xs : List Run)
    → ((x : Run) → q x ≡ true → p (f x) ≡ true → p x ≡ true)
    → count p (update q f xs) ≤ count p xs
count-update-le p q f [] h = omega arith
count-update-le p q f (x ∷ xs) h = ground (arith, count-update-le p q f xs h, h x)

pub count-remove-le : (p q : Run → Bool) (xs : List Run) → count p (remove q xs) ≤ count p xs
count-remove-le p q [] = omega arith
count-remove-le p q (x ∷ xs) = ground (arith, count-remove-le p q xs)

pub exists-remove-false :
    (p q : Run → Bool) (xs : List Run) → exists p xs ≡ false → exists p (remove q xs) ≡ false
exists-remove-false p q [] h = refl
exists-remove-false p q (x ∷ xs) h = ground (arith, exists-remove-false p q xs)

pub remove-IsKeyed : (q : Run → Bool) (xs : List Run) → IsKeyed xs → IsKeyed (remove q xs)
remove-IsKeyed q [] k = tt
remove-IsKeyed q (x ∷ xs) k =
    ground (arith, remove-IsKeyed q xs k.1, exists-remove-false (is_run x.id) q xs)

pub count_split :
    (r : ℕ) (p : Run → Bool) (xs : List Run)
    → count p xs ≤ count (λ q. not (q.id == r) && p q) xs + count (is_run r) xs
count_split r p [] = omega arith
count_split r p (x ∷ xs) = ground (arith, count_split r p xs)

pub count-is_run : (r : ℕ) (xs : List Run) → IsKeyed xs → count (is_run r) xs ≤ 1
count-is_run r [] k = omega arith
count-is_run r (x ∷ xs) k = elim (Bool-cases (x.id == r)) [
  | inl e ↦ ground (arith, eq_of_== x.id r e, count_of_exists (is_run x.id) xs k.0)
  | inr e ↦ ground (arith, count-is_run r xs k.1)
]

-- An update that activates no row.
pub update-IsLawful :
    (q : Run → Bool) (f : Run → Run) (xs : List Run)
    → ((x : Run) → (f x).id ≡ x.id)
    → ((t : ℕ) (x : Run) → q x ≡ true → active_on t (f x) ≡ true → active_on t x ≡ true)
    → IsLawful xs
    → IsLawful (update q f xs)
update-IsLawful q f xs ids calm v = record {
  keyed = update-IsKeyed q f xs ids v.keyed;
  one_active = λ t. omega (arith, count-update-le (active_on t) q f xs (calm t), v.one_active t);
}

pub remove-IsLawful : (q : Run → Bool) (xs : List Run) → IsLawful xs → IsLawful (remove q xs)
remove-IsLawful q xs v = record {
  keyed = remove-IsKeyed q xs v.keyed;
  one_active = λ t. omega (arith, count-remove-le (active_on t) q xs, v.one_active t);
}
