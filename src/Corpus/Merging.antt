-- ===== src/Corpus/Merging.antt =====
-- The merging of the windows of one article by `_dedup_by_article` of retrieval.py (lines 39-46).
use agentchatbot_v.Prelude.{
  ℕ, ◌+◌, ◌≡◌, refl, ap, ◌∙◌, sym, Bool, true, false, List, [], ◌∷◌, leb, arith, if◌then◌else◌,
  count, exists, insert_by, sort_by, Bool-cases, inl, inr,
}
use agentchatbot_v.Text.{Text, text_eq, eq_of_text_eq}
use agentchatbot_v.Corpus.Retrieval.{Hit, has_uri, keep_best, best_of, ahead, dedup_by_article}

abbrev at_least_one : ℕ → ℕ
at_least_one n = if leb 1 n then n else 1

count-insert_by {ℓ} :
    {A : Type ℓ} (p : A → Bool) (lt : A → A → Bool) (a : A) (xs : List A)
    → count p (insert_by lt a xs) ≡ count p (a ∷ xs)
unfolding insert_by
count-insert_by p lt a [] = refl
count-insert_by p lt a (x ∷ xs) = ground (arith, count-insert_by p lt a xs)

count-sort_by {ℓ} :
    {A : Type ℓ} (p : A → Bool) (lt : A → A → Bool) (xs : List A)
    → count p (sort_by lt xs) ≡ count p xs
unfolding sort_by
count-sort_by p lt [] = refl
count-sort_by p lt (x ∷ xs) =
    count-insert_by p lt x (sort_by lt xs)
    ∙ ap (λ n. (if p x then 1 else 0) + n) (count-sort_by p lt xs)

merged_same :
    (x y : Bool) (n : ℕ)
    → x ≡ y
    → (if y then 1 else 0) + n
      ≡ (if x then at_least_one ((if y then 1 else 0) + n) else (if y then 1 else 0) + n)
merged_same x y n h = ground arith

merged_other :
    (x y : Bool) (n m : ℕ)
    → (x ≡ true → y ≡ false)
    → m ≡ (if x then at_least_one n else n)
    → (if y then 1 else 0) + m
      ≡ (if x then at_least_one ((if y then 1 else 0) + n) else (if y then 1 else 0) + n)
merged_other true true n m h e = ground (arith, h refl)
merged_other true false n m h e = ground arith
merged_other false y n m h e = ground arith

module _ {S : Type 0} (gt : S → S → Bool) (u : Text) where
  either_uri :
      (h b : Hit S)
      → has_uri h.payload.uri b ≡ true
      → has_uri u (if gt h.score b.score then h else b) ≡ has_uri u b
  either_uri h b e = elim (Bool-cases (gt h.score b.score)) [
    | inl g ↦ rw g (ap (λ x. text_eq x u) (sym (eq_of_text_eq b.payload.uri h.payload.uri e)))
    | inr g ↦ rw g refl
  ]

  same_uri : (h b : Hit S) → has_uri h.payload.uri b ≡ true → has_uri u h ≡ has_uri u b
  same_uri h b e = ap (λ x. text_eq x u) (sym (eq_of_text_eq b.payload.uri h.payload.uri e))

  other_uri :
      (h b : Hit S) → has_uri h.payload.uri b ≡ false → has_uri u h ≡ true → has_uri u b ≡ false
  other_uri h b e k = ap (text_eq b.payload.uri) (sym (eq_of_text_eq h.payload.uri u k)) ∙ e

  count-keep_best :
      (h : Hit S) (best : List (Hit S))
      → count (has_uri u) (keep_best gt h best)
        ≡ (if has_uri u h then at_least_one (count (has_uri u) best) else count (has_uri u) best)
  unfolding keep_best
  count-keep_best h [] = ground arith
  count-keep_best h (b ∷ best) = elim (Bool-cases (has_uri h.payload.uri b)) [
    | inl e ↦
        rw (e, either_uri h b e)
          (merged_same (has_uri u h) (has_uri u b) (count (has_uri u) best) (same_uri h b e))
    | inr e ↦ rw e (
        merged_other (has_uri u h) (has_uri u b) (count (has_uri u) best)
          (count (has_uri u) (keep_best gt h best)) (other_uri h b e) (count-keep_best h best))
  ]

  count-best_of :
      (best hits : List (Hit S))
      → count (has_uri u) (best_of gt best hits) ≡ (
          if exists (has_uri u) hits
          then at_least_one (count (has_uri u) best)
          else count (has_uri u) best)
  unfolding best_of
  count-best_of best [] = refl
  count-best_of best (h ∷ hits) =
      ground (arith, count-best_of (keep_best gt h best) hits, count-keep_best h best)

  -- The merging of hits keeps exactly one hit for each article that a hit names, and none for any
  -- other article, whatever the order of the scores.
  pub dedup_by_article_lem :
      (hits : List (Hit S))
      → count (has_uri u) (dedup_by_article gt hits) ≡ (if exists (has_uri u) hits then 1 else 0)
  unfolding dedup_by_article
  dedup_by_article_lem hits =
      count-sort_by (has_uri u) (ahead gt) (best_of gt [] hits) ∙ count-best_of [] hits
