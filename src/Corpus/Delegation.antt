-- ===== src/Corpus/Delegation.antt =====
-- `build_delegation` of db-admin/src/db_admin/pipeline/delegation_build.py.
use agentchatbot_v.Prelude.{ℕ, Option, none, some, List, [], ◌∷◌, ◌++◌, length, map}
use agentchatbot_v.Text.{Text, codes}
use agentchatbot_v.Json.{ℤ, Json, Fields, get}
use agentchatbot_v.Corpus.Lawgo.{parse_hierarchy}
use agentchatbot_v.Corpus.Ids.{resource_iri}
use agentchatbot_v.Corpus.Ingest.{Term, Triple, resolve_current}

pub record Report : Type 0 where
  pub base : Text
  pub base_id : Text
  pub edges : ℕ
  pub children : List Text
  pub graph_uri : Text

abbrev edge : Text → Text × Text → Triple
edge base_id (child, name) = (
  resource_iri child,
  codes "https://2026agent.kr/ontology#delegatesTo",
  Term.uri (resource_iri base_id),
)

abbrev name_of : Text × Text → Text
name_of p = p.1

abbrev pub graph_of : Text → Text
graph_of base_id = codes "https://2026agent.kr/law/graph/delegation/" ++ base_id

module _ {G : Type 0} (show : Json → Text) (int_of : Text → Option ℤ)
    (put_graph : List Triple × Text → G → G) where
  -- The graph of the base is replaced only if there is an edge.
  abbrev pub put_edges : Text → List (Text × Text) → G → G
  put_edges base_id [] g = g
  put_edges base_id (c ∷ cs) g = put_graph (map (edge base_id) (c ∷ cs), graph_of base_id) g

  abbrev report : Text → Text → Option (List (Text × Text)) → G → Option Report × G
  report name base_id none g = (none, g)
  report name base_id (some children) g = (
    some (record {
      base = name;
      base_id = base_id;
      edges = length children;
      children = map name_of children;
      graph_uri = graph_of base_id;
    }),
    put_edges base_id children g,
  )

  abbrev numbered_by : Option Fields → Option Json
  numbered_by none = none
  numbered_by (some fs) = get (codes "법령일련번호") fs

  abbrev text_at : Text → Option Fields → Option Text
  text_at k none = none
  text_at k (some fs) = elim (get k fs) [
    | none ↦ none
    | some v ↦ elim v [ Json.text s ↦ some s | _ ↦ none ]
  ]

  -- What the search gives of the base: its id, where the number is there too.
  abbrev base_of : Option Fields → Option Text
  base_of found = elim (numbered_by found) [ none ↦ none | some mst ↦ text_at (codes "법령ID") found ]

  -- `laws` and `chart` are the answers of law.go.kr, for a law whose id is a text; `none` is an
  -- exception.
  unfoldable pub build_delegation : Text → List Fields → Fields → G → Option Report × G
  unfolding resolve_current parse_hierarchy
  build_delegation name laws chart g = elim (base_of (resolve_current name laws)) [
    | none ↦ (none, g)
    | some base_id ↦ report name base_id (parse_hierarchy show int_of chart name base_id) g
  ]
