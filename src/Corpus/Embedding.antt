-- ===== src/Corpus/Embedding.antt =====
-- `RemoteEmbedding` of legal_infra/src/legal_infra/embedding_remote.py. `post` is the request to the
-- server: the embeddings of the answer, sorted by their index, or `none` for an exception.
use agentchatbot_v.Prelude.{
  ℕ, ◌+◌, Bool, true, false, ◌&&◌, not, Option, none, some, List, [], ◌∷◌, ◌++◌, ◌==◌, ltb,
  if◌then◌else◌, length, map,
}
use agentchatbot_v.Text.{Text}
use agentchatbot_v.Corpus.Vector.{DenseSparse}

abbrev pub char_budget : ℕ
char_budget = 4000

abbrev pub is_none : List Text → Bool
is_none [] = true
is_none (_ ∷ _) = false

abbrev pub flushed : List Text → List (List Text)
flushed [] = []
flushed (t ∷ batch) = (t ∷ batch) ∷ []

-- The requests that `embed` makes: `batch` is the open one and `acc` its number of characters.
unfoldable pub batches : ℕ → List Text → ℕ → List Text → List (List Text)
batches budget batch acc [] = flushed batch
batches budget batch acc (t ∷ texts) = elim (not (is_none batch) && ltb budget (acc + length t)) [
  | true ↦ batch ∷ batches budget (t ∷ []) (length t) texts
  | false ↦ batches budget (batch ++ t ∷ []) (acc + length t) texts
]

module _ {D F : Type 0} (post : List Text → Option (List D)) where
  abbrev pub to_vector : D → DenseSparse D F
  to_vector d = record { dense = d; sparse = [] }

  -- A wrong number of embeddings is an error.
  abbrev pub checked : List Text → Option (List D) → Option (List (DenseSparse D F))
  checked batch none = none
  checked batch (some ds) = if length ds == length batch then some (map to_vector ds) else none

  unfoldable pub embed_batch : List Text → Option (List (DenseSparse D F))
  embed_batch [] = some []
  embed_batch (t ∷ batch) = checked (t ∷ batch) (post (t ∷ batch))

  unfoldable pub embed_all : List (List Text) → Option (List (DenseSparse D F))
  unfolding embed_batch
  embed_all [] = some []
  embed_all (b ∷ bs) = elim (embed_batch b) [
    | none ↦ none
    | some vs ↦ elim (embed_all bs) [ none ↦ none | some ws ↦ some (vs ++ ws) ]
  ]

  unfoldable pub embed : List Text → Option (List (DenseSparse D F))
  unfolding embed_all batches
  embed texts = embed_all (batches char_budget [] 0 texts)
