-- ===== src/Corpus/Keys.antt =====
-- The keys of articles and windows differ.
use agentchatbot_v.Prelude.{
  append_nil, append_assoc, ℕ, zero, suc, ◌≡◌, refl, sym, ap, ◌∙◌, true, some, [], ◌∷◌, ◌++◌, arith,
}
use agentchatbot_v.Text.{Text, codes, decimal}
use agentchatbot_v.Json.{pos}
use agentchatbot_v.Corpus.Digits.{decimal_inj, cut, all_digits, starts_other, head_or, tail_of}
use agentchatbot_v.Corpus.Ids.{
  show_int, expression_iri, branch_part, article_segment, article_iri, point_key,
}

-- What follows the number of an article in a key: the branch and the window.
abbrev window_part : ℕ → Text
window_part zero = []
window_part (suc i) = codes "#p" ++ decimal (suc i)

abbrev branch_tail : ℕ → Text
branch_tail zero = []
branch_tail (suc b) = 0xc758 ∷ decimal (suc b)

window_inj : (i j : ℕ) → window_part i ≡ window_part j → i ≡ j
window_inj zero zero q = refl
window_inj zero (suc j) q = ground (arith, ap (head_or 0) q)
window_inj (suc i) zero q = ground (arith, ap (head_or 0) q)
window_inj (suc i) (suc j) q = decimal_inj (suc i) (suc j) (ap (λ s. tail_of (tail_of s)) q)

window_other : (i : ℕ) → starts_other (window_part i) ≡ true
window_other zero = refl
window_other (suc i) = refl

rest_inj :
    (b c i j : ℕ)
    → branch_tail b ++ window_part i ≡ branch_tail c ++ window_part j
    → (b ≡ c) × (i ≡ j)
rest_inj zero zero i j q = (refl, window_inj i j q)
rest_inj zero (suc c) zero j q = ground (arith, ap (head_or 0) q)
rest_inj zero (suc c) (suc i) j q = ground (arith, ap (head_or 0) q)
rest_inj (suc b) zero i zero q = ground (arith, ap (head_or 0) q)
rest_inj (suc b) zero i (suc j) q = ground (arith, ap (head_or 0) q)
rest_inj (suc b) (suc c) i j q =
    let (x, y) =
      cut (decimal (suc b)) (decimal (suc c)) (window_part i) (window_part j) (all_digits (suc b))
        (all_digits (suc c)) (window_other i) (window_other j) (ap tail_of q) in
    (decimal_inj (suc b) (suc c) x, window_inj i j y)

rest_other : (b i : ℕ) → starts_other (codes "조" ++ (branch_tail b ++ window_part i)) ≡ true
rest_other b i = refl

append_cancel : (p s t : Text) → p ++ s ≡ p ++ t → s ≡ t
append_cancel [] s t q = q
append_cancel (c ∷ p) s t q = append_cancel p s t (ap tail_of q)

branch_form : (b : ℕ) → branch_part (some (pos b)) ≡ branch_tail b
unfolding show_int
branch_form zero = refl
branch_form (suc b) = refl

window_form : (iri : Text) (i : ℕ) → point_key iri i ≡ iri ++ window_part i
unfolding point_key
window_form iri zero = sym (append_nil iri)
window_form iri (suc i) = refl

-- A key, from the law and the date on.
abbrev article_tail : ℕ → ℕ → ℕ → Text
article_tail n b i = decimal n ++ (codes "조" ++ (branch_tail b ++ window_part i))

abbrev keyed : Text → Text → Text → Text → Text
keyed e d b w = (e ++ (0x2f ∷ (codes "제" ++ (d ++ (codes "조" ++ b))))) ++ w

shape : (e d b w : Text) → keyed e d b w ≡ (e ++ codes "/제") ++ (d ++ (codes "조" ++ (b ++ w)))
shape e d b w =
    append_assoc e (0x2f ∷ (codes "제" ++ (d ++ (codes "조" ++ b)))) w
    ∙ (ap (λ l. e ++ (codes "/제" ++ l)) (append_assoc d (codes "조" ++ b) w)
        ∙ sym (append_assoc e (codes "/제") (d ++ (codes "조" ++ (b ++ w)))))

key_form :
    (law_id eff_date : Text) (n b i : ℕ)
    → point_key (article_iri law_id eff_date (pos n) (some (pos b))) i
      ≡ (expression_iri law_id eff_date ++ codes "/제") ++ article_tail n b i
unfolding article_iri article_segment show_int
key_form law_id eff_date n b i =
    window_form (article_iri law_id eff_date (pos n) (some (pos b))) i
    ∙ (ap (λ t. keyed (expression_iri law_id eff_date) (decimal n) t (window_part i))
          (branch_form b)
        ∙ shape (expression_iri law_id eff_date) (decimal n) (branch_tail b) (window_part i))

-- Two windows of articles of one version of a law have the same key only if they are the same window
-- of the same article: the number of the article, the number of its branch and the number of the
-- window agree. A branch of number 0 is none.
pub point_key_lem :
    (law_id eff_date : Text) (m n b c i j : ℕ)
    → point_key (article_iri law_id eff_date (pos m) (some (pos b))) i
      ≡ point_key (article_iri law_id eff_date (pos n) (some (pos c))) j
    → (m ≡ n) × (b ≡ c) × (i ≡ j)
point_key_lem law_id eff_date m n b c i j q =
    let tails =
      append_cancel (expression_iri law_id eff_date ++ codes "/제") (article_tail m b i)
        (article_tail n c j)
        (sym (key_form law_id eff_date m b i) ∙ (q ∙ key_form law_id eff_date n c j)) in
    let (x, y) =
      cut (decimal m) (decimal n) (codes "조" ++ (branch_tail b ++ window_part i))
        (codes "조" ++ (branch_tail c ++ window_part j)) (all_digits m) (all_digits n) refl refl
        tails in
    let (u, v) = rest_inj b c i j (ap tail_of y) in (decimal_inj m n x, u, v)
