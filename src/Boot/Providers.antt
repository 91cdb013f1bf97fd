-- ===== src/Boot/Providers.antt =====
-- The choice of the stores and models by the environment: legal_infra/src/legal_infra/provider.py.
use agentchatbot_v.Prelude.{◌≡◌, refl, Bool, true, false, Option, none, some, if◌then◌else◌}
use agentchatbot_v.Text.{Text, codes, text_eq}
use agentchatbot_v.Env.{Env, value_or}

pub data Embedding : Type 0 where
  remote : Text → Text → Embedding
  flag : Embedding

pub data Reranker : Type 0 where
  flag_reranker : Reranker

-- `_need_flag`: `none` stands for an ImportError of the constructor, which is raised again with
-- advice.
unfoldable pub need_flag : {A : Type 0} → Option A → Option A
need_flag made = made

-- The constructors of LocalFlagEmbedding and LocalFlagReranker only store their arguments; the
-- models are loaded on first use.
abbrev pub local_embedding : Option Embedding
local_embedding = some flag

abbrev pub local_reranker : Option Reranker
local_reranker = some flag_reranker

abbrev remote_embedding : Env → Embedding
remote_embedding env =
    remote (value_or (codes "http://100.119.61.82:8081/v1") (env (codes "EMBEDDING_URL")))
      (value_or (codes "bge-m3") (env (codes "EMBEDDING_MODEL")))

unfoldable pub build_embedding : Env → Option Embedding
unfolding need_flag
build_embedding env =
    if text_eq (value_or (codes "flag") (env (codes "EMBEDDING_BACKEND"))) (codes "remote")
    then some (remote_embedding env)
    else need_flag local_embedding

-- The arguments of the stores' constructors.
pub record Services : Type 0 where
  pub embedding : Embedding
  pub vector_url : Text
  pub collection : Text
  pub graph_url : Text
  pub dataset : Text
  pub password : Text
  pub reranker : Option Reranker

abbrev chosen : Option Reranker → Option (Option Reranker)
chosen none = none
chosen (some r) = some (some r)

unfoldable pub build_reranker : Env → Option (Option Reranker)
unfolding need_flag
build_reranker env =
    if text_eq (value_or (codes "1") (env (codes "RERANK"))) (codes "0")
    then some none
    else chosen (need_flag local_reranker)

abbrev assembled : Env → Option (Option Reranker) → Option Embedding → Option Services
assembled env none e = none
assembled env (some r) none = none
assembled env (some r) (some e) = some (record {
  embedding = e;
  vector_url = value_or (codes "http://localhost:6333") (env (codes "QDRANT_URL"));
  collection = value_or (codes "law_articles") (env (codes "QDRANT_COLLECTION"));
  graph_url = value_or (codes "http://localhost:3030") (env (codes "FUSEKI_URL"));
  dataset = value_or (codes "law") (env (codes "FUSEKI_DATASET"));
  password = value_or (codes "admin123") (env (codes "FUSEKI_ADMIN_PASSWORD"));
  reranker = r;
})

unfoldable pub build_retrieval_service : Env → Option Services
unfolding build_embedding build_reranker
build_retrieval_service env = assembled env (build_reranker env) (build_embedding env)

-- The advice of `_need_flag` is never given: the assembly succeeds in every environment, also where
-- the packages of the local models are missing.
pub build_retrieval_service_total :
    (env : Env) → (s : Services) × (build_retrieval_service env ≡ some s)
unfolding build_retrieval_service
build_retrieval_service_total env =
    go (text_eq (value_or (codes "1") (env (codes "RERANK"))) (codes "0"))
      (text_eq (value_or (codes "flag") (env (codes "EMBEDDING_BACKEND"))) (codes "remote"))
  where
    both : (b c : Bool) → Option Services
    both b c =
        assembled env (if b then some none else some local_reranker)
          (if c then some (remote_embedding env) else some flag)

    go : (b c : Bool) → (s : Services) × (both b c ≡ some s)
    go true true = (_, refl)
    go true false = (_, refl)
    go false true = (_, refl)
    go false false = (_, refl)
