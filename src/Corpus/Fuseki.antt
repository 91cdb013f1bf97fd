-- ===== src/Corpus/Fuseki.antt =====
-- legal_infra/src/legal_infra/graph_fuseki.py: the graph store. `n3` is rdflib's `URIRef(u).n3()`,
-- `term_n3` that of a bound value, and `query` the service behind `_query`; the result `none` is the
-- ValueError of a check.
use agentchatbot_v.Prelude.{
  ℕ, Bool, true, false, ◌&&◌, ◌||◌, not, Option, none, some, List, [], ◌∷◌, ◌++◌, ◌==◌,
  if◌then◌else◌, exists, map,
}
use agentchatbot_v.Text.{Text, codes, decimal, text_eq, is_space, join}

-- A character of `_ILLEGAL_IRI`.
unfoldable pub is_illegal : ℕ → Bool
unfolding is_space
is_illegal c =
    is_space c
    || c == 0x3c
    || c == 0x3e
    || c == 0x22
    || c == 0x7b
    || c == 0x7d
    || c == 0x7c
    || c == 0x5c
    || c == 0x5e
    || c == 0x60

-- `s.startswith(p)`
unfoldable pub starts_with : Text → Text → Bool
starts_with [] s = true
starts_with (a ∷ p) [] = false
starts_with (a ∷ p) (b ∷ s) = a == b && starts_with p s

abbrev pub allowed : Text → Bool
allowed s =
    starts_with (codes "https://2026agent.kr/") s
    || starts_with (codes "http://www.aihub.or.kr/kb/law/") s
    || starts_with (codes "http://www.law.go.kr/") s

abbrev pub absolute : Text → Bool
absolute s = starts_with (codes "http://") s || starts_with (codes "https://") s

-- `_validate_iri`
unfoldable pub validate_iri : Text → Option Text
unfolding is_illegal starts_with
validate_iri iri =
    if not (absolute iri)
    then none
    else if exists is_illegal iri
    then none
    else if allowed iri
    then some iri
    else none

-- _PREFIX
unfoldable pub prefix_of : Text → Option Text
prefix_of p =
    if text_eq p (codes "lo")
    then some (codes "https://2026agent.kr/ontology#")
    else if text_eq p (codes "eli")
    then some (codes "http://data.europa.eu/eli/ontology#")
    else if text_eq p (codes "law")
    then some (codes "http://www.aihub.or.kr/kb/law/")
    else if text_eq p (codes "dct")
    then some (codes "http://purl.org/dc/terms/")
    else none

-- `curie.partition(":")`, if there is a colon
abbrev onto : ℕ → Option (Text × Text) → Option (Text × Text)
onto c none = none
onto c (some (a, b)) = some (c ∷ a, b)

unfoldable pub partition : Text → Option (Text × Text)
partition [] = none
partition (c ∷ s) = let rest = partition s in if c == 0x3a then some ([], s) else onto c rest

abbrev legal : Text → Option Text
legal iri = if exists is_illegal iri then none else some iri

abbrev pub joined : Option Text → Text → Option Text
joined none l = none
joined (some base) l = legal (base ++ l)

abbrev pub expanded : Option (Text × Text) → Option Text
expanded none = none
expanded (some (p, l)) = joined (prefix_of p) l

-- `_curie_to_iri`
unfoldable pub curie_to_iri : Text → Option Text
unfolding is_illegal starts_with prefix_of partition
curie_to_iri curie = if starts_with (codes "http") curie then none else expanded (partition curie)

-- All of the checks have to pass.
unfoldable pub every : (Text → Option Text) → List Text → Option (List Text)
every f [] = some []
every f (x ∷ xs) = elim (f x) [
  | none ↦ none
  | some y ↦ elim (every f xs) [ none ↦ none | some ys ↦ some (y ∷ ys) ]
]

module _ (n3 : Text → Text) where
  unfoldable pub values : List Text → Text
  unfolding join
  values us = join (0x20 ∷ []) (map n3 us)

  unfoldable pub query_text : List Text → List Text → ℕ → Text
  unfolding values decimal
  query_text ps us limit =
      codes "SELECT ?s ?p ?o WHERE { VALUES ?p { "
      ++ (values ps
          ++ (codes " } VALUES ?n { "
              ++ (values us
                  ++ (codes
                        " } { { { ?n ?p ?o } UNION { GRAPH ?g1 { ?n ?p ?o } } } BIND(?n AS ?s) } UNION { { { ?s ?p ?n } UNION { GRAPH ?g2 { ?s ?p ?n } } } BIND(?n AS ?o) } } LIMIT "
                      ++ decimal limit))))

  -- The query of `expand`, for arguments that are not empty.
  abbrev pub query_of : Option (List Text) → Option (List Text) → ℕ → Option Text
  query_of (some us) (some ps) limit = some (query_text ps us limit)
  query_of _ _ limit = none

  unfoldable pub expand_query : List Text → List Text → ℕ → Option Text
  unfolding query_text every validate_iri curie_to_iri
  expand_query uris predicates limit =
      query_of (every validate_iri uris) (every curie_to_iri predicates) limit

-- `dict.fromkeys` on the rows: the first of equal rows stays.
abbrev same_row : Text × Text × Text → Text × Text × Text → Bool
same_row (a, b, c) (x, y, z) = text_eq a x && (text_eq b y && text_eq c z)

abbrev has_row : Text × Text × Text → List (Text × Text × Text) → Bool
has_row r [] = false
has_row r (q ∷ qs) = same_row r q || has_row r qs

unfoldable pub distinct_rows :
    List (Text × Text × Text) → List (Text × Text × Text) → List (Text × Text × Text)
distinct_rows seen [] = []
distinct_rows seen (r ∷ rs) =
    if has_row r seen then distinct_rows seen rs else r ∷ distinct_rows (r ∷ seen) rs

unfoldable pub expand :
    (Text → Text)
    → (Text → List (Text × Text × Text))
    → List Text
    → List Text
    → ℕ
    → Option (List (Text × Text × Text))
unfolding expand_query distinct_rows
expand n3 query [] predicates limit = some []
expand n3 query (u ∷ uris) [] limit = some []
expand n3 query (u ∷ uris) (p ∷ predicates) limit =
    elim (expand_query n3 (u ∷ uris) (p ∷ predicates) limit) [
      | none ↦ none
      | some q ↦ some (distinct_rows [] (query q))
    ]
