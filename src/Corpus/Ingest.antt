-- ===== src/Corpus/Ingest.antt =====
-- db-admin/src/db_admin/pipeline/lawgo_ingest.py: the articles of a law as chunks and as triples.
use agentchatbot_v.Prelude.{
  ℕ, zero, suc, ◌+◌, Bool, true, false, ◌&&◌, Option, none, some, List, [], ◌∷◌, ◌++◌, ◌==◌,
  if◌then◌else◌, length, take, select,
}
use agentchatbot_v.Text.{Text, codes, text_eq, strip, is_empty}
use agentchatbot_v.Json.{Json, Fields, get}
use agentchatbot_v.Corpus.Lawgo.{LawMeta, ArticleRec}
use agentchatbot_v.Corpus.Ids.{resource_iri, expression_iri, article_segment, article_iri}
use agentchatbot_v.Corpus.Windows.{split_windows}

-- `Chunk` of schemas.py
pub record Chunk : Type 0 where
  pub uri : Text
  pub resource_id : Text
  pub statute : Text
  pub article_no : Text
  pub article_key : Text
  pub eff_date : Text
  pub ministry : Json
  pub text : Text
  pub is_current : Bool
  pub seq : ℕ
  pub article_text : Text

abbrev skip : ℕ → Text → Text
skip zero s = s
skip (suc n) [] = []
skip (suc n) (c ∷ s) = skip n s

-- `resolve_current` of lawgo_client.py: the law of exactly this name that is in force, if there is
-- one and no other. A search result is its fields.
abbrev is_text : Text → Option Json → Bool
is_text t (some (Json.text s)) = text_eq s t
is_text t _ = false

abbrev is_exact : Text → Fields → Bool
is_exact name fs =
    is_text name (get (codes "법령명한글") fs) && is_text (codes "현행") (get (codes "현행연혁코드") fs)

abbrev only : List Fields → Option Fields
only (fs ∷ []) = some fs
only _ = none

unfoldable pub resolve_current : Text → List Fields → Option Fields
resolve_current name laws = only (select (is_exact name) laws)

-- `_iso`
abbrev with_dashes : Text → Text
with_dashes s =
    if length s == 8
    then take 4 s ++ (0x2d ∷ (take 2 (skip 4 s) ++ (0x2d ∷ take 2 (skip 6 s))))
    else s

unfoldable pub iso : Text → Text
unfolding strip
iso date = with_dashes (strip date)

-- An RDF term, and the literals with their datatype.
pub data Term : Type 0 where
  uri : Text → Term
  literal : Text → Term
  date : Text → Term

abbrev pub Triple : Type 0
Triple = Text × Text × Term

abbrev rdf_type : Text
rdf_type = codes "http://www.w3.org/1999/02/22-rdf-syntax-ns#type"

abbrev eli : Text → Text
eli s = codes "http://data.europa.eu/eli/ontology#" ++ s

abbrev lo : Text → Text
lo s = codes "https://2026agent.kr/ontology#" ++ s

abbrev law : Text → Text
law s = codes "http://www.aihub.or.kr/kb/law/" ++ s

abbrev title_triples : Text → Text → List Triple
title_triples art [] = []
title_triples art (c ∷ s) = (art, law (codes "articleTitle"), Term.literal (c ∷ s)) ∷ []

unfoldable pub article_triples : LawMeta → List ArticleRec → List Triple
unfolding expression_iri article_iri article_segment
article_triples meta [] = []
article_triples meta (a ∷ arts) =
    let art = article_iri meta.law_id meta.eff_date a.article_no a.branch_no in
    (expression_iri meta.law_id meta.eff_date, lo (codes "hasArticle"), Term.uri art)
    ∷ (art, rdf_type, Term.uri (law (codes "Article")))
    ∷ (art, law (codes "articleName"), Term.literal (article_segment a.article_no a.branch_no))
    ∷ (title_triples art a.title
        ++ ((art, law (codes "fullText"), Term.literal a.text) ∷ article_triples meta arts))

-- `_build_graph`: the triples that are added, and the name of the graph
unfoldable pub build_graph : LawMeta → List ArticleRec → List Triple × Text
unfolding expression_iri iso article_triples
build_graph meta arts =
    let res = resource_iri meta.law_id in
    let expr = expression_iri meta.law_id meta.eff_date in
    (
      (res, rdf_type, Term.uri (eli (codes "LegalResource")))
          ∷ (res, codes "http://purl.org/dc/terms/title", Term.literal meta.statute)
          ∷ (res, lo (codes "lawId"), Term.literal meta.law_id)
          ∷ (expr, rdf_type, Term.uri (eli (codes "LegalExpression")))
          ∷ (expr, eli (codes "realizes"), Term.uri res)
          ∷ (expr, eli (codes "date_publication"), Term.date (iso meta.eff_date))
          ∷ (expr, law (codes "statuteName"), Term.literal meta.statute)
          ∷ article_triples meta arts,
      codes "https://2026agent.kr/law/graph/" ++ (meta.law_id ++ (0x2f ∷ meta.eff_date)),
    )

-- MAX_CHARS and OVERLAP of text.py
abbrev max_chars : ℕ
max_chars = 450

abbrev overlap : ℕ
overlap = 64

-- The windows of an article, numbered from `seq`.
unfoldable pub window_chunks : LawMeta → ArticleRec → ℕ → List Text → List Chunk
unfolding article_iri article_segment iso
window_chunks meta a seq [] = []
window_chunks meta a seq (w ∷ ws) =
    record {
      uri = article_iri meta.law_id meta.eff_date a.article_no a.branch_no;
      resource_id = meta.law_id;
      statute = meta.statute;
      article_no = article_segment a.article_no a.branch_no;
      article_key = a.article_key;
      eff_date = iso meta.eff_date;
      ministry = meta.ministry;
      text = w;
      is_current = true;
      seq = seq;
      article_text = a.text;
    }
    ∷ window_chunks meta a (seq + 1) ws

-- `_build_chunks`
unfoldable pub build_chunks : LawMeta → List ArticleRec → List Chunk
unfolding window_chunks split_windows strip
build_chunks meta [] = []
build_chunks meta (a ∷ arts) =
    let rest = build_chunks meta arts in
    if is_empty (strip a.text)
    then rest
    else window_chunks meta a 0 (split_windows a.text max_chars overlap) ++ rest
