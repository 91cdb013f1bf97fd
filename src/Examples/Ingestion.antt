-- ===== src/Examples/Ingestion.antt =====
-- The theorems on the search index at work: a service that keeps its points in a list.
use agentchatbot_v.Prelude.{
  ℕ, ◌≡◌, refl, Bool, true, Option, none, some, List, [], ◌∷◌, ◌++◌, map, length, All,
}
use agentchatbot_v.Text.{Text, codes}
use agentchatbot_v.Json.{ℤ, pos, Json, nil, cons, Fields, end, field}
use agentchatbot_v.Corpus.Lawgo.{parse_hierarchy}
use agentchatbot_v.Corpus.Ingest.{Triple}
use agentchatbot_v.Corpus.Vector.{DenseSparse, Point, keyword, Filter, Client}
use agentchatbot_v.Corpus.Pipeline.{Answers, Stores, Loaded, ingest_law, ingest_all}
use agentchatbot_v.Store.Schema.{Result, ok, err, db_down}
use agentchatbot_v.Corpus.Demotion.{demote}
use agentchatbot_v.Corpus.Fuseki.{curie_to_iri, every, query_text, expand_query}
use agentchatbot_v.Corpus.Reading.{iris}
use agentchatbot_v.Corpus.Injection.{expand_query_lem}
use agentchatbot_v.Corpus.Hierarchy.{IsDelegated, parse_hierarchy-IsDelegated}
use agentchatbot_v.Corpus.Ids.{article_iri, point_key}
use agentchatbot_v.Corpus.Keys.{point_key_lem}
use agentchatbot_v.Corpus.Embedding.{batches, embed, char_budget}
use agentchatbot_v.Corpus.Batches.{concat, Fits, batches_lem, length-embed}

abbrev Points : Type 0
Points = List (Point ℕ ℕ ℕ)

abbrev demoted_by : Filter → Points → Points
demoted_by flt ps = elim flt.must [
  | [] ↦ ps
  | (k, v) ∷ more ↦ elim flt.must_not [
    | [] ↦ ps
    | (j, u) ∷ rest ↦ elim v [
      | keyword law_id ↦ elim u [ keyword keep ↦ map (demote law_id keep) ps | _ ↦ ps ]
      | _ ↦ ps
    ]
  ]
]

abbrev service : Client Points ℕ ℕ ℕ
service = record {
  collection_exists = λ s. ok true;
  create_collection = λ s. (ok tt, s);
  create_payload_index = λ name s. (ok tt, s);
  upsert = λ ps s. (ok tt, ps ++ s);
  set_payload = λ fields flt s. (ok tt, demoted_by flt s);
  query_points = λ q k flt s. ok [];
}

-- The service while each demotion fails.
abbrev broken : Client Points ℕ ℕ ℕ
broken = record service { set_payload = λ fields flt s. (err db_down, s) }

abbrev no_text : Json → Text
no_text v = []

abbrev one : Text → Option ℤ
one s = some (pos 1)

abbrev unit : Fields
unit = field (codes "조문여부") (Json.text (codes "조문")) (
    field (codes "조문번호") (Json.text (codes "1"))
      (field (codes "조문내용") (Json.text (codes "text")) end))

-- The law 7 "act" with one article, as of a date.
abbrev act : Text → Fields
act date =
    field (codes "법령")
      (Json.object (
        field (codes "기본정보")
          (Json.object (
            field (codes "법령ID") (Json.text (codes "7")) (
              field (codes "법령명_한글") (Json.text (codes "act"))
                (field (codes "시행일자") (Json.text date) end))))
          (field (codes "조문") (Json.object (field (codes "조문단위") (Json.object unit) end)) end)))
      end

abbrev answers : Text → Answers ℕ ℕ
answers date = record {
  name = codes "act";
  laws = ok (
      field (codes "법령명한글") (Json.text (codes "act")) (
        field (codes "현행연혁코드") (Json.text (codes "현행"))
          (field (codes "법령일련번호") (Json.text (codes "1")) end))
      ∷ []);
  payload = ok (act date);
  vectors = ok (record { dense = 0; sparse = [] } ∷ []);
}

abbrev visits : List (Answers ℕ ℕ)
visits = answers (codes "20250101") ∷ answers (codes "20260101") ∷ []

abbrev no_graph : List Triple × Text → ℕ → Result (Unit {0}) × ℕ
no_graph t g = (ok tt, g)

abbrev empty : Stores Points ℕ
empty = record { vector = []; graph = 0 }

abbrev seen_versions : Stores Points ℕ → List (Text × Bool)
seen_versions st = map {B = Text × Bool} (λ p. (p.payload.eff_date, p.payload.is_current)) st.vector

-- What two ingestions leave that broke off after the upsert.
abbrev left_over : Stores Points ℕ
left_over = ingest_all no_text one length broken no_graph visits empty

two_current : seen_versions left_over ≡ (codes "2026-01-01", true) ∷ (codes "2025-01-01", true) ∷ []
unfolding ingest_all
two_current = refl

abbrev newest : Answers ℕ ℕ
newest = answers (codes "20260101")

abbrev after_newest : Stores Points ℕ
after_newest = (ingest_law no_text one length service no_graph newest left_over).1

abbrev loaded : Loaded
loaded = record {
  statute = codes "act";
  law_id = codes "7";
  eff_date = codes "2026-01-01";
  articles = 1;
  chunks = 1;
  graph_uri = codes "https://2026agent.kr/law/graph/7/20260101";
}

abbrev bracketed : Text → Text
bracketed u = (0x3c ∷ u) ++ 0x3e ∷ []

abbrev law_iri : Text
law_iri = codes "http://www.law.go.kr/a"

abbrev delegates : Text
delegates = codes "https://2026agent.kr/ontology#delegatesTo"

expands :
    expand_query bracketed (law_iri ∷ []) (codes "lo:delegatesTo" ∷ []) 20
    ≡ some (query_text bracketed (delegates ∷ []) (law_iri ∷ []) 20)
unfolding expand_query
expands = refl

expand_query_lem_example :
    (ps : List Text) × (every curie_to_iri (codes "lo:delegatesTo" ∷ []) ≡ some ps)
    × (iris none (query_text bracketed (delegates ∷ []) (law_iri ∷ []) 20)
        ≡ some (ps ++ (law_iri ∷ [])))
expand_query_lem_example =
    expand_query_lem bracketed (λ u. refl) (law_iri ∷ []) (codes "lo:delegatesTo" ∷ []) 20
      (query_text bracketed (delegates ∷ []) (law_iri ∷ []) 20) expands

abbrev node : Text → Text → Fields
node id name =
    field (codes "기본정보")
      (Json.object (field (codes "법령ID") (Json.text id) (field (codes "법령명") (Json.text name) end)))
      end

abbrev chart : Fields
chart =
    field (codes "법령체계도")
      (Json.object (
        field (codes "상하위법")
          (Json.array (
            cons (Json.object (node (codes "1") (codes "act")))
              (cons (Json.object (node (codes "2") (codes "decree"))) nil)))
          end))
      end

found :
    parse_hierarchy no_text one chart (codes "act") (codes "1")
    ≡ some ((codes "2", codes "decree") ∷ [])
unfolding parse_hierarchy
found = refl

parse_hierarchy-IsDelegated_example :
    All (IsDelegated (codes "1")) ((codes "2", codes "decree") ∷ [])
parse_hierarchy-IsDelegated_example =
    parse_hierarchy-IsDelegated no_text one chart (codes "act") (codes "1")
      ((codes "2", codes "decree") ∷ []) found

abbrev texts : List Text
texts = codes "a" ∷ codes "b" ∷ []

batches_lem_example :
    (concat (batches char_budget [] 0 texts) ≡ texts)
    × All (Fits char_budget) (batches char_budget [] 0 texts)
batches_lem_example = batches_lem texts

abbrev lengths : List Text → Option (List ℕ)
lengths ts = some (map length ts)

abbrev vectors : List (DenseSparse ℕ ℕ)
vectors = record { dense = 1; sparse = [] } ∷ record { dense = 1; sparse = [] } ∷ []

embedded : embed lengths texts ≡ some vectors
unfolding embed
embedded = refl

length-embed_example : length vectors ≡ length texts
length-embed_example = length-embed lengths texts vectors embedded

abbrev window : Text
window = point_key (article_iri (codes "7") (codes "20260101") (pos 4) (some (pos 2))) 1

point_key_lem_example : (◌≡◌ {A = ℕ} 4 4) × (◌≡◌ {A = ℕ} 2 2) × (◌≡◌ {A = ℕ} 1 1)
point_key_lem_example = point_key_lem (codes "7") (codes "20260101") 4 4 2 2 1 1 (refl {a = window})
