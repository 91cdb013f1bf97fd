-- ===== src/Corpus/Windows.antt =====
-- `split_windows` of text.py, which cuts a text into pieces that an embedding model takes.
use agentchatbot_v.Prelude.{
  ℕ, zero, suc, ◌-◌, ◌≤◌, ◌<◌, ◌≡◌, refl, ap, ◌∙◌, Bool, true, false, List, [], ◌∷◌, ◌++◌, arith,
  leb, if◌then◌else◌, length, take, drop, All, Bool-cases, inl, inr,
}
use agentchatbot_v.Text.{Text, strip, is_empty}

-- `max(1, max_chars - overlap)`
abbrev pub step_of : ℕ → ℕ → ℕ
step_of max_chars overlap = if leb 1 (max_chars - overlap) then max_chars - overlap else 1

-- The loop, on what is left of the text from `start`.
unfoldable pub windows_from : ℕ → ℕ → ℕ → Text → List Text
windows_from zero max_chars step rest = []
windows_from (suc fuel) max_chars step [] = []
windows_from (suc fuel) max_chars step (c ∷ s) =
    let later = windows_from fuel max_chars step (drop step (c ∷ s)) in
    take max_chars (c ∷ s) ∷ (if leb (length (c ∷ s)) max_chars then [] else later)

abbrev windows_of : ℕ → ℕ → Text → List Text
windows_of max_chars overlap s =
    if leb (length s) max_chars
    then (if is_empty s then [] else s ∷ [])
    else windows_from (length s) max_chars (step_of max_chars overlap) s

unfoldable pub split_windows : Text → ℕ → ℕ → List Text
unfolding windows_from
split_windows text max_chars overlap = windows_of max_chars overlap (strip text)

-- The text that windows stand for: each but the last counts with its first `step` characters.
unfoldable pub stitch : ℕ → List Text → Text
stitch step [] = []
stitch step (w ∷ []) = w
stitch step (w ∷ v ∷ ws) = take step w ++ stitch step (v ∷ ws)

length-take : (n : ℕ) (s : Text) → length (take n s) ≤ n
length-take zero s = omega arith
length-take (suc n) [] = omega arith
length-take (suc n) (c ∷ s) = omega (arith, length-take n s)

length-drop : (n : ℕ) (s : Text) → 1 ≤ n → length (drop n s) ≤ length s - 1
length-drop zero s h = ground arith
length-drop (suc zero) [] h = omega arith
length-drop (suc zero) (c ∷ s) h = omega arith
length-drop (suc (suc n)) [] h = omega arith
length-drop (suc (suc n)) (c ∷ s) h = omega (arith, length-drop (suc n) s)

take-take : (n m : ℕ) (s : Text) → n ≤ m → take n (take m s) ≡ take n s
take-take zero m s h = refl
take-take (suc n) zero s h = ground arith
take-take (suc n) (suc m) [] h = refl
take-take (suc n) (suc m) (c ∷ s) h = ap (◌∷◌ c) (take-take n m s (omega arith))

take-drop : (n : ℕ) (s : Text) → take n s ++ drop n s ≡ s
take-drop zero s = refl
take-drop (suc n) [] = refl
take-drop (suc n) (c ∷ s) = ap (◌∷◌ c) (take-drop n s)

take_all : (n : ℕ) (s : Text) → length s ≤ n → take n s ≡ s
take_all zero [] h = refl
take_all zero (c ∷ s) h = ground arith
take_all (suc n) [] h = refl
take_all (suc n) (c ∷ s) h = ap (◌∷◌ c) (take_all n s (omega arith))

length-drop_pos : (n : ℕ) (s : Text) → n < length s → 0 < length (drop n s)
length-drop_pos n [] h = ground arith
length-drop_pos zero (c ∷ s) h = omega arith
length-drop_pos (suc n) (c ∷ s) h = length-drop_pos n s (omega arith)

stitch_cons :
    (step : ℕ) (w r : Text) (ws : List Text)
    → stitch step ws ≡ r
    → 0 < length r
    → stitch step (w ∷ ws) ≡ take step w ++ r
unfolding stitch
stitch_cons step w r [] e h = ground arith
stitch_cons step w r (v ∷ ws) e h = ap (λ x. take step w ++ x) e

step_fits : (m o : ℕ) → 1 ≤ m → (1 ≤ step_of m o) × (step_of m o ≤ m)
step_fits m o h = ground arith

windows_from_lem :
    (fuel m step : ℕ) (rest : Text)
    → 1 ≤ step
    → step ≤ m
    → length rest ≤ fuel
    → All (λ w. length w ≤ m) (windows_from fuel m step rest)
      × (stitch step (windows_from fuel m step rest) ≡ rest)
unfolding windows_from stitch
windows_from_lem zero m step [] a b h = (tt, refl)
windows_from_lem zero m step (c ∷ s) a b h = ground arith
windows_from_lem (suc fuel) m step [] a b h = (tt, refl)
windows_from_lem (suc fuel) m step (c ∷ s) a b h =
    let rest = c ∷ s in
    let ih =
      windows_from_lem fuel m step (drop step rest) a b (omega (arith, length-drop step rest a)) in
    elim (Bool-cases (leb (length rest) m)) [
      | inl e ↦ rw e ((length-take m rest, tt), take_all m rest (ground arith))
      | inr e ↦ rw e (
        (length-take m rest, ih.0),
        stitch_cons step (take m rest) (drop step rest) (windows_from fuel m step (drop step rest))
              ih.1 (length-drop_pos step rest (ground arith))
            ∙ (ap (λ x. x ++ drop step rest) (take-take step m rest b) ∙ take-drop step rest),
      )
    ]

by_test :
    (b : Bool) (x y : List Text) (P : List Text → Type 0)
    → (b ≡ true → P x)
    → (b ≡ false → P y)
    → P (if b then x else y)
by_test true x y P f g = f refl
by_test false x y P f g = g refl

whole :
    (m o : ℕ) (s : Text)
    → length s ≤ m
    → All (λ w. length w ≤ m) (if is_empty s then [] else s ∷ [])
      × (stitch (step_of m o) (if is_empty s then [] else s ∷ []) ≡ s)
unfolding stitch
whole m o [] h = (tt, refl)
whole m o (c ∷ s) h = ((h, tt), refl)

-- The windows of a text are no longer than the limit, and they cover the text: taken together, each
-- window but the last with as many characters as the windows are apart, they are the text without
-- the space around it. The condition is that the limit is not zero; the overlap may be any number.
pub split_windows_lem :
    (text : Text) (max_chars overlap : ℕ)
    → 1 ≤ max_chars
    → All (λ w. length w ≤ max_chars) (split_windows text max_chars overlap)
      × (stitch (step_of max_chars overlap) (split_windows text max_chars overlap) ≡ strip text)
unfolding split_windows stitch
split_windows_lem text m o h =
    by_test (leb (length (strip text)) m) (if is_empty (strip text) then [] else strip text ∷ []) _
      (λ ws. All (λ w. length w ≤ m) ws × (stitch (step_of m o) ws ≡ strip text))
      (λ e. whole m o (strip text) (ground arith))
      (λ e.
        windows_from_lem (length (strip text)) m (step_of m o) (strip text) (step_fits m o h).0
          (step_fits m o h).1 (omega arith))
