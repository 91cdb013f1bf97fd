-- ===== src/Corpus/Local.antt =====
-- The models that run in the process: embedding_flag.py and reranker_flag.py of
-- legal_infra/src/legal_infra. What the models compute is given; numbers are of any type.
use agentchatbot_v.Prelude.{ℕ, Bool, none, some, List, [], ◌∷◌, map, select, sort_by, take}
use agentchatbot_v.Text.{Text}
use agentchatbot_v.Corpus.Vector.{DenseSparse}
use agentchatbot_v.Corpus.Retrieval.{Hit}

-- `zip`, which stops with the shorter list
unfoldable pub zip : {A B : Type 0} → List A → List B → List (A × B)
zip [] ys = []
zip (x ∷ xs) [] = []
zip (x ∷ xs) (y ∷ ys) = (x, y) ∷ zip xs ys

module _ {D F : Type 0} (is_positive : F → Bool) where
  -- Only the positive weights are kept.
  abbrev to_vector : D × List (ℕ × F) → DenseSparse D F
  to_vector (d, weights) = record {
    dense = d;
    sparse = select (λ (e : ℕ × F). is_positive e.1) weights;
  }

  -- `LocalFlagEmbedding.embed`; `encode` gives the dense vectors and the lexical weights.
  unfoldable pub embed :
      (List Text → List D × List (List (ℕ × F))) → List Text → List (DenseSparse D F)
  unfolding zip
  embed encode [] = []
  embed encode (t ∷ texts) = let out = encode (t ∷ texts) in map to_vector (zip out.0 out.1)

-- `payload.get("text", "")`
abbrev passage : {S : Type 0} → Hit S → Text
passage h = elim h.payload.text [ none ↦ [] | some s ↦ s ]

abbrev with_score : {S : Type 0} → Hit S × S → Hit S
with_score (h, s) = record h { score = s }

module _ {S : Type 0} (greater : S → S → Bool) where
  abbrev better : Hit S × S → Hit S × S → Bool
  better a b = greater a.1 b.1

  -- `LocalFlagReranker.rerank`; `score` gives the model's score for each passage.
  unfoldable pub rerank : (Text → List Text → List S) → Text → List (Hit S) → ℕ → List (Hit S)
  unfolding zip sort_by
  rerank score query [] k = []
  rerank score query (h ∷ hits) k =
      map with_score
        (take k (sort_by better (zip (h ∷ hits) (score query (map passage (h ∷ hits))))))
