-- ===== src/Corpus/Pipeline.antt =====
-- `ingest_law` of lawgo_ingest.py (lines 78-110). What the other services answer is an argument; an
-- exception, of a service or of the code, is an error value that ends the ingestion.
use agentchatbot_v.Prelude.{ℕ, Option, none, some, List, [], ◌∷◌, length}
use agentchatbot_v.Text.{Text, codes}
use agentchatbot_v.Json.{ℤ, Json, Fields, get}
use agentchatbot_v.Store.Schema.{Result, ok, err, value_error}
use agentchatbot_v.Corpus.Lawgo.{LawMeta, ArticleRec, parse_law_service}
use agentchatbot_v.Corpus.Ingest.{Triple, iso, resolve_current, build_graph, build_chunks}
use agentchatbot_v.Corpus.Vector.{DenseSparse, Client, ensure_collection, upsert_chunks, supersede}

-- What law.go.kr and the embedding server answer, or raise, during one call: the laws found for the
-- name, the law itself, and the vectors of the chunks.
pub record Answers (D F : Type 0) : Type 0 where
  pub name : Text
  pub laws : Result (List Fields)
  pub payload : Result Fields
  pub vectors : Result (List (DenseSparse D F))

-- The vector store and the graph store.
pub record Stores (S G : Type 0) : Type 0 where
  pub vector : S
  pub graph : G

pub record Loaded : Type 0 where
  pub statute : Text
  pub law_id : Text
  pub eff_date : Text
  pub articles : ℕ
  pub chunks : ℕ
  pub graph_uri : Text

-- A part of an ingestion, on the two stores.
abbrev pub Act : Type 0 → Type 0 → Type 0 → Type 0
Act S G A = Stores S G → Result A × Stores S G

module _ {S G : Type 0} where
  infixl 5 ◌>>=◌ ◌>>◌
  abbrev pub ◌>>=◌ : {A B : Type 0} → Act S G A → (A → Act S G B) → Act S G B
  ◌>>=◌ m f st = let (r, st') = m st in elim r [ ok a ↦ f a st' | err e ↦ (err e, st') ]

  abbrev pub ◌>>◌ : {A B : Type 0} → Act S G A → Act S G B → Act S G B
  m >> k = m >>= λ _. k

  abbrev pub pure : {A : Type 0} → A → Act S G A
  pure a st = (ok a, st)

  abbrev pub answered : {A : Type 0} → Result A → Act S G A
  answered r st = (r, st)

  abbrev pub or_fail : {A : Type 0} → Option A → Act S G A
  or_fail none st = (err value_error, st)
  or_fail (some a) st = (ok a, st)

  abbrev pub on_vector : {A : Type 0} → (S → Result A × S) → Act S G A
  on_vector m st = let (r, s) = m st.vector in (r, record st { vector = s })

  abbrev pub on_graph : {A : Type 0} → (G → Result A × G) → Act S G A
  on_graph m st = let (r, g) = m st.graph in (r, record st { graph = g })

module _ {S G I D F : Type 0} (show : Json → Text) (int_of : Text → Option ℤ) (uuid5 : Text → I)
    (client : Client S I D F) (put_graph : List Triple × Text → G → Result (Unit {0}) × G) where
  abbrev pub summary : LawMeta → List ArticleRec → Loaded
  summary meta arts = record {
    statute = meta.statute;
    law_id = meta.law_id;
    eff_date = iso meta.eff_date;
    articles = length arts;
    chunks = length (build_chunks meta arts);
    graph_uri = (build_graph meta arts).1;
  }

  -- The graph is written before the vectors, and the older versions are demoted at last.
  unfoldable pub load : LawMeta → List ArticleRec → Result (List (DenseSparse D F)) → Act S G Loaded
  unfolding iso build_graph build_chunks ensure_collection upsert_chunks supersede
  load meta arts vectors = do
    on_graph (put_graph (build_graph meta arts))
    on_vector (ensure_collection uuid5 client)
    vs ← answered vectors
    on_vector (upsert_chunks uuid5 client (build_chunks meta arts) vs)
    on_vector (supersede uuid5 client meta.law_id (iso meta.eff_date))
    pure (summary meta arts)

  abbrev pub load_parsed :
      LawMeta × List ArticleRec → Result (List (DenseSparse D F)) → Act S G Loaded
  load_parsed (meta, arts) vectors = load meta arts vectors

  abbrev pub numbered : Option Fields → Option Json
  numbered none = none
  numbered (some found) = get (codes "법령일련번호") found

  -- The law is ambiguous or not there, or its payload is not what is expected: an error as well.
  unfoldable pub ingest_law : Answers D F → Act S G Loaded
  unfolding resolve_current parse_law_service load
  ingest_law a = do
    laws ← answered a.laws
    or_fail (numbered (resolve_current a.name laws))
    payload ← answered a.payload
    parsed ← or_fail (parse_law_service show int_of payload)
    load_parsed parsed a.vectors

  unfoldable pub ingest_all : List (Answers D F) → Stores S G → Stores S G
  unfolding ingest_law
  ingest_all [] st = st
  ingest_all (a ∷ rest) st = ingest_all rest (ingest_law a st).1
