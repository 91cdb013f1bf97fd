-- ===== src/Corpus/Retrieval.antt =====
-- `RetrievalService.retrieve` and `format_for_llm` of retrieval.py, with the values of schemas.py
-- (lines 40-86). A score is of any type with a test for "greater", the payload of a hit has the
-- fields that are always written, and the names of UUIDs and the quoting of a URL are functions that
-- are given.
use agentchatbot_v.Prelude.{
  ℕ, Bool, Option, none, some, List, [], ◌∷◌, ◌++◌, if◌then◌else◌, sort_by, take, map, length,
}
use agentchatbot_v.Text.{decimal, Text, codes, text_eq, is_empty, join}
use agentchatbot_v.Run.Compose.{distinct}

pub record Payload : Type 0 where
  pub uri : Text
  pub resource_id : Text
  pub statute : Text
  pub article_no : Text
  pub eff_date : Text
  pub text : Option Text
  pub article_text : Option Text

pub record Hit (S : Type 0) : Type 0 where
  pub score : S
  pub payload : Payload

pub record Article (S : Type 0) : Type 0 where
  pub id : Text
  pub kind : Text
  pub title : Text
  pub ref : Text
  pub snippet : Text
  pub url : Text
  pub uri : Text
  pub resource_id : Text
  pub eff_date : Text
  pub score : S
  pub article_text : Text

pub record Relation : Type 0 where
  pub subject : Text
  pub predicate : Text
  pub object : Text

pub record AnswerContext (S : Type 0) : Type 0 where
  pub articles : List (Article S)
  pub relations : List Relation
  pub query : Text

abbrev or_empty : Option Text → Text
or_empty none = []
or_empty (some s) = s

-- `p.get("article_text") or p.get("text", "")`
abbrev full_text : Payload → Text
full_text p =
    if is_empty (or_empty p.article_text) then or_empty p.text else or_empty p.article_text

-- The stores and models that the service is given. `none` stands for an exception of the graph,
-- and for a reranker that is not there; an exception of another one passes through `retrieve`.
pub record Stores (S : Type 0) : Type 0 where
  pub greater : S → S → Bool
  pub search : Text → List (Hit S)
  pub rerank : Option (Text → List (Hit S) → List (Hit S))
  pub expand : List Text → Option (List Relation)
  pub point_id : Text → Text
  pub law_url : Text → Text → Text
  pub resource_iri : Text → Text

abbrev or_none : Option (List Relation) → List Relation
or_none none = []
or_none (some rs) = rs

module _ {S : Type 0} where
  unfoldable pub to_lawref : Stores S → Hit S → Article S
  to_lawref st h = record {
    id = st.point_id h.payload.uri;
    kind = codes "law";
    title = h.payload.statute;
    ref = h.payload.statute ++ (codes " " ++ h.payload.article_no);
    snippet = take 200 (full_text h.payload);
    url = st.law_url h.payload.statute h.payload.article_no;
    uri = h.payload.uri;
    resource_id = h.payload.resource_id;
    eff_date = h.payload.eff_date;
    score = h.score;
    article_text = full_text h.payload;
  }

  abbrev pub has_uri : Text → Hit S → Bool
  has_uri u h = text_eq h.payload.uri u

  -- One round of the loop; `best` is a dictionary by the uri, in the order of insertion.
  unfoldable pub keep_best : (S → S → Bool) → Hit S → List (Hit S) → List (Hit S)
  keep_best gt h [] = h ∷ []
  keep_best gt h (b ∷ best) =
      let rest = keep_best gt h best in
      if has_uri h.payload.uri b then (if gt h.score b.score then h else b) ∷ best else b ∷ rest

  unfoldable pub best_of : (S → S → Bool) → List (Hit S) → List (Hit S) → List (Hit S)
  best_of gt best [] = best
  best_of gt best (h ∷ hs) = best_of gt (keep_best gt h best) hs

  abbrev pub ahead : (S → S → Bool) → Hit S → Hit S → Bool
  ahead gt h b = gt h.score b.score

  -- `_dedup_by_article`; the sort is stable
  unfoldable pub dedup_by_article : (S → S → Bool) → List (Hit S) → List (Hit S)
  unfolding keep_best best_of sort_by
  dedup_by_article gt hits = sort_by (ahead gt) (best_of gt [] hits)

  abbrev reranked : Option (Text → List (Hit S) → List (Hit S)) → Text → List (Hit S) → List (Hit S)
  reranked none query hits = hits
  reranked (some f) query hits = f query hits

  abbrev found : Stores S → Text → ℕ → List (Hit S)
  found st query k =
      take k (dedup_by_article st.greater (reranked st.rerank query (st.search query)))

  abbrev iris : Stores S → List (Hit S) → List Text
  iris st hs = map (λ h. st.resource_iri h.payload.resource_id) hs

  -- `retrieve`; `none` is NotImplementedError. The set of IRIs is handed on in the order of the hits.
  unfoldable pub retrieve : Stores S → Text → Option Text → ℕ → Option (AnswerContext S)
  unfolding to_lawref dedup_by_article distinct
  retrieve st query (some as_of) k = none
  retrieve st query none k = some (record {
    articles = map (to_lawref st) (found st query k);
    relations = or_none (st.expand (distinct (iris st (found st query k))));
    query = query;
  })

  abbrev body_of_article : Article S → Text
  body_of_article a = if is_empty a.article_text then a.snippet else a.article_text

  abbrev block_of : Article S → Text
  block_of a = join [] (
      (0x0a ∷ codes "[id: ")
      ∷ a.id
      ∷ codes "] 《"
      ∷ a.title
      ∷ codes "》 "
      ∷ a.ref
      ∷ codes " (시행 "
      ∷ a.eff_date
      ∷ codes ")"
      ∷ (0x0a ∷ [])
      ∷ body_of_article a
      ∷ [])

  unfoldable pub format_for_llm : AnswerContext S → Text
  unfolding join decimal
  format_for_llm ctx = elim ctx.articles [
    | [] ↦ codes "검색 결과: 근거 조문 없음. 데이터베이스에서 관련 조문을 찾지 못했습니다."
    | a ∷ more ↦ join (0x0a ∷ []) (
        (codes "질의: " ++ ctx.query)
        ∷ (codes "근거 조문 " ++ (decimal (length (a ∷ more)) ++ codes "건:"))
        ∷ map block_of (a ∷ more))
  ]
