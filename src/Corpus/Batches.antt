-- ===== src/Corpus/Batches.antt =====
-- The batches of texts that go to the embedding server.
use agentchatbot_v.Prelude.{
  append_nil, append_assoc, ℕ, suc, ◌+◌, ◌≡◌, refl, sym, ap, ap₂, subst, ◌∙◌, Bool, true, false,
  ◌&&◌, ◌||◌, not, Option, none, some, List, [], ◌∷◌, ◌++◌, ◌==◌, arith, ltb, leb, if◌then◌else◌,
  length, map, All, length-append, eq_of_==,
}
use agentchatbot_v.Text.{Text}
use agentchatbot_v.Corpus.Vector.{DenseSparse}
use agentchatbot_v.Corpus.Embedding.{
  checked, to_vector, is_none, flushed, batches, embed_batch, embed_all, embed, char_budget,
}

abbrev pub chars : List Text → ℕ
chars [] = 0
chars (t ∷ ts) = length t + chars ts

abbrev pub concat : List (List Text) → List Text
concat [] = []
concat (b ∷ bs) = b ++ concat bs

abbrev is_single : List Text → Bool
is_single (t ∷ []) = true
is_single _ = false

-- A request keeps to the budget, or it is of one text only, and it is not empty.
abbrev pub fits : ℕ → List Text → Bool
fits budget b = not (is_none b) && (is_single b || leb (chars b) budget)

abbrev pub Fits : ℕ → List Text → Type 0
Fits budget b = fits budget b ≡ true

chars-snoc : (b : List Text) (t : Text) → chars (b ++ t ∷ []) ≡ chars b + length t
chars-snoc [] t = omega arith
chars-snoc (s ∷ b) t = omega (arith, chars-snoc b t)

concat-flushed : (b : List Text) → concat (flushed b) ≡ b
concat-flushed [] = refl
concat-flushed (t ∷ b) = ap (λ l. t ∷ l) (append_nil b)

either :
    (b : Bool) (P : List (List Text) → Type 0) (xs ys : List (List Text))
    → (b ≡ true → P xs)
    → (b ≡ false → P ys)
    → P (elim b as (λ _. List (List Text)) [ true ↦ xs | false ↦ ys ])
either true P xs ys f g = f refl
either false P xs ys f g = g refl

one_more : (n : ℕ) → n + 0 ≡ n
one_more n = omega arith

extended :
    (budget : ℕ) (batch : List Text) (t : Text)
    → not (is_none batch) && ltb budget (chars batch + length t) ≡ false
    → is_none (batch ++ t ∷ []) || fits budget (batch ++ t ∷ []) ≡ true
extended budget [] t e = refl
extended budget (s ∷ batch) t e = ground (arith, chars-snoc (s ∷ batch) t)

concat-batches :
    (budget acc : ℕ) (batch texts : List Text)
    → concat (batches budget batch acc texts) ≡ batch ++ texts
unfolding batches
concat-batches budget acc batch [] = concat-flushed batch ∙ sym (append_nil batch)
concat-batches budget acc batch (t ∷ texts) =
    either (not (is_none batch) && ltb budget (acc + length t))
      (λ bs. concat bs ≡ batch ++ t ∷ texts) (batch ∷ batches budget (t ∷ []) (length t) texts)
      (batches budget (batch ++ t ∷ []) (acc + length t) texts)
      (λ _. ap (λ l. batch ++ l) (concat-batches budget (length t) (t ∷ []) texts))
      (λ _.
        concat-batches budget (acc + length t) (batch ++ t ∷ []) texts
        ∙ append_assoc batch (t ∷ []) texts)

batches_fit :
    (budget : ℕ) (batch texts : List Text)
    → is_none batch || fits budget batch ≡ true
    → All (Fits budget) (batches budget batch (chars batch) texts)
unfolding batches
batches_fit budget [] [] h = tt
batches_fit budget (s ∷ batch) [] h = (h, tt)
batches_fit budget batch (t ∷ texts) h =
    either (not (is_none batch) && ltb budget (chars batch + length t)) (All (Fits budget))
      (batch ∷ batches budget (t ∷ []) (length t) texts)
      (batches budget (batch ++ t ∷ []) (chars batch + length t) texts)
      (λ e. (
        ground (arith, e, h),
        subst (λ n. All (Fits budget) (batches budget (t ∷ []) n texts)) (one_more (length t))
            (batches_fit budget (t ∷ []) texts refl),
      ))
      (λ e.
        subst (λ n. All (Fits budget) (batches budget (batch ++ t ∷ []) n texts))
          (chars-snoc batch t)
          (batches_fit budget (batch ++ t ∷ []) texts (extended budget batch t e)))

-- The requests to the embedding server: put together they are the texts in their order, none is
-- empty, and each has at most the budget of characters or is of one text only.
pub batches_lem :
    (texts : List Text)
    → (concat (batches char_budget [] 0 texts) ≡ texts)
      × All (Fits char_budget) (batches char_budget [] 0 texts)
batches_lem texts = (concat-batches char_budget 0 [] texts, batches_fit char_budget [] texts refl)

length-map : {A B : Type 0} (f : A → B) (xs : List A) → length (map f xs) ≡ length xs
length-map f [] = refl
length-map f (x ∷ xs) = ap suc (length-map f xs)

module _ {D F : Type 0} (post : List Text → Option (List D)) where
  abbrev list_or : Option (List (DenseSparse D F)) → List (DenseSparse D F)
  list_or none = []
  list_or (some vs) = vs

  length-checked :
      (batch : List Text) (o : Option (List D)) (vs : List (DenseSparse D F))
      → checked post batch o ≡ some vs
      → length vs ≡ length batch
  length-checked batch none vs h = ground arith
  length-checked batch (some ds) vs h = go (length ds == length batch) refl h
    where
      go :
          (b : Bool)
          → (length ds == length batch) ≡ b
          → (if b then some (map (to_vector post) ds) else none) ≡ some vs
          → length vs ≡ length batch
      go true e q =
          ap (λ l. length (list_or l)) (sym q)
          ∙ (length-map (to_vector post) ds ∙ eq_of_== (length ds) (length batch) e)
      go false e q = ground arith

  length-embed_batch :
      (batch : List Text) (vs : List (DenseSparse D F))
      → embed_batch post batch ≡ some vs
      → length vs ≡ length batch
  unfolding embed_batch
  length-embed_batch [] vs h = ap (λ o. length (list_or o)) (sym h)
  length-embed_batch (t ∷ batch) vs h = length-checked (t ∷ batch) (post (t ∷ batch)) vs h

  length-embed_all :
      (bs : List (List Text)) (vs : List (DenseSparse D F))
      → embed_all post bs ≡ some vs
      → length vs ≡ length (concat bs)
  unfolding embed_all
  length-embed_all [] vs h = ap (λ o. length (list_or o)) (sym h)
  length-embed_all (b ∷ bs) vs h =
      go (embed_batch post b) (embed_all post bs) (λ us. length-embed_batch b us)
        (λ ws. length-embed_all bs ws) h
    where
      joined :
          List (DenseSparse D F) → Option (List (DenseSparse D F)) → Option (List (DenseSparse D F))
      joined us o = elim o [ none ↦ none | some ws ↦ some (us ++ ws) ]

      go :
          (o p : Option (List (DenseSparse D F)))
          → ((us : List (DenseSparse D F)) → o ≡ some us → length us ≡ length b)
          → ((ws : List (DenseSparse D F)) → p ≡ some ws → length ws ≡ length (concat bs))
          → (elim o as (λ _. Option (List (DenseSparse D F))) [
            | none ↦ none
            | some us ↦ joined us p
          ])
            ≡ some vs
          → length vs ≡ length (b ++ concat bs)
      go none p e f q = ground arith
      go (some us) none e f q = ground arith
      go (some us) (some ws) e f q =
          ap (λ o. length (list_or o)) (sym q)
          ∙ (length-append us ws
              ∙ (ap₂ (λ m n. m + n) (e us refl) (f ws refl) ∙ sym (length-append b (concat bs))))

  -- Where `embed` returns, there are as many vectors as texts, so that the upsert of the chunks with
  -- their vectors does not raise for their number.
  pub length-embed :
      (texts : List Text) (vs : List (DenseSparse D F))
      → embed post texts ≡ some vs
      → length vs ≡ length texts
  unfolding embed
  length-embed texts vs h =
      length-embed_all (batches char_budget [] 0 texts) vs h
      ∙ ap length (concat-batches char_budget 0 [] texts)
