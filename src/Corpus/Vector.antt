-- ===== src/Corpus/Vector.antt =====
-- legal_infra/src/legal_infra/vector_qdrant.py: the vector store. The client of Qdrant is a
-- parameter; a filter is what the code hands to it.
use agentchatbot_v.Prelude.{
  ℕ, ◌*◌, max, Bool, true, false, Option, none, some, List, [], ◌∷◌, ◌==◌, if◌then◌else◌, map,
  length,
}
use agentchatbot_v.Text.{Text, codes, text_eq}
use agentchatbot_v.Store.Schema.{Result, ok, err, value_error}
use agentchatbot_v.Corpus.Ids.{point_id}
use agentchatbot_v.Corpus.Ingest.{Chunk}

-- `DenseSparse` of schemas.py; no sparse part is an empty one.
pub record DenseSparse (D F : Type 0) : Type 0 where
  pub dense : D
  pub sparse : List (ℕ × F)

-- A point: its payload is the chunk that it was made of.
pub record Point (I D F : Type 0) : Type 0 where
  pub id : I
  pub dense : D
  pub sparse : Option (List ℕ × List F)
  pub payload : Chunk

pub data Value : Type 0 where
  keyword : Text → Value
  flag : Bool → Value

pub record Filter : Type 0 where
  pub must : List (Text × Value)
  pub must_not : List (Text × Value)

pub data Query (D F : Type 0) : Type 0 where
  hybrid : ℕ → D → List ℕ → List F → Query D F
  dense_only : D → Query D F

-- The calls of `QdrantClient`, on the state of the service. Each of them may raise, and a call that
-- raises may have changed the state all the same.
pub record Client (S I D F : Type 0) : Type 0 where
  pub collection_exists : S → Result Bool
  pub create_collection : S → Result (Unit {0}) × S
  pub create_payload_index : Text → S → Result (Unit {0}) × S
  pub upsert : List (Point I D F) → S → Result (Unit {0}) × S
  pub set_payload : List (Text × Value) → Filter → S → Result (Unit {0}) × S
  pub query_points : Query D F → ℕ → Option Filter → S → Result (List (F × Chunk))

pub record Hit (F : Type 0) : Type 0 where
  pub uri : Text
  pub score : F
  pub payload : Chunk

abbrev fst_of : {A B : Type 0} → A × B → A
fst_of p = p.0

abbrev snd_of : {A B : Type 0} → A × B → B
snd_of p = p.1

abbrev text_or : Text → Text → Text
text_or [] t = t
text_or (c ∷ s) t = c ∷ s

abbrev pub payload_of : Chunk → Chunk
payload_of c = record c { article_text = text_or c.article_text c.text }

-- `key.endswith("<=")`
unfoldable pub is_range : Text → Bool
is_range [] = false
is_range (c ∷ s) = let rest = is_range s in if text_eq (c ∷ s) (codes "<=") then true else rest

abbrev exact : List (Text × Value) → List (Text × Value)
exact [] = []
exact ((k, v) ∷ flt) = if is_range k then exact flt else (k, v) ∷ exact flt

abbrev filter_of : List (Text × Value) → Option Filter
filter_of [] = none
filter_of (c ∷ cs) = some (record { must = c ∷ cs; must_not = [] })

-- `_build_filter`; no filter is an empty one.
unfoldable pub build_filter : List (Text × Value) → Option Filter
unfolding is_range
build_filter flt = filter_of (exact flt)

-- The filter of `supersede`: the points of a law that are not of the kept version.
abbrev pub stale_filter : Text → Text → Filter
stale_filter resource_id keep = record {
  must = (codes "resource_id", Value.keyword resource_id) ∷ [];
  must_not = (codes "eff_date", Value.keyword keep) ∷ [];
}

abbrev pub demoted : List (Text × Value)
demoted = (codes "is_current", Value.flag false) ∷ []

module _ {S I D F : Type 0} (uuid5 : Text → I) (client : Client S I D F) where
  abbrev sparse_of : List (ℕ × F) → Option (List ℕ × List F)
  sparse_of [] = none
  sparse_of (e ∷ es) = some (map fst_of (e ∷ es), map snd_of (e ∷ es))

  abbrev pub point : Chunk → DenseSparse D F → Point I D F
  point c v = record {
    id = point_id uuid5 c.uri c.seq;
    dense = v.dense;
    sparse = sparse_of v.sparse;
    payload = payload_of c;
  }

  unfoldable pub points_of : List Chunk → List (DenseSparse D F) → List (Point I D F)
  unfolding point_id
  points_of [] vs = []
  points_of (c ∷ cs) [] = []
  points_of (c ∷ cs) (v ∷ vs) = point c v ∷ points_of cs vs

  unfoldable pub upsert_chunks : List Chunk → List (DenseSparse D F) → S → Result (Unit {0}) × S
  unfolding points_of
  upsert_chunks cs vs s =
      if length cs == length vs then client.upsert (points_of cs vs) s else (err value_error, s)

  -- What a call for an index raises is dropped.
  abbrev pub with_index : Text → S → S
  with_index field s = (client.create_payload_index field s).1

  abbrev pub indexed : S → S
  indexed s = with_index (codes "statute") (
      with_index (codes "resource_id")
        (with_index (codes "eff_date") (with_index (codes "is_current") s)))

  abbrev pub when_made : Result (Unit {0}) × S → Result (Unit {0}) × S
  when_made (ok u, s) = (ok u, indexed s)
  when_made (err e, s) = (err e, s)

  abbrev pub made : Result Bool → S → Result (Unit {0}) × S
  made (err e) s = (err e, s)
  made (ok true) s = (ok tt, s)
  made (ok false) s = client.create_collection s

  unfoldable pub ensure_collection : S → Result (Unit {0}) × S
  ensure_collection s = when_made (made (client.collection_exists s) s)

  unfoldable pub supersede : Text → Text → S → Result (Unit {0}) × S
  supersede resource_id keep s = client.set_payload demoted (stale_filter resource_id keep) s

  abbrev query_of : ℕ → DenseSparse D F → Query D F
  query_of k q = elim q.sparse [
    | [] ↦ Query.dense_only q.dense
    | e ∷ es ↦ Query.hybrid (max (k * 4) 50) q.dense (map fst_of (e ∷ es)) (map snd_of (e ∷ es))
  ]

  abbrev to_hit : F × Chunk → Hit F
  to_hit (score, payload) = record { uri = payload.uri; score = score; payload = payload }

  abbrev hits : Result (List (F × Chunk)) → Result (List (Hit F))
  hits (ok found) = ok (map to_hit found)
  hits (err e) = err e

  unfoldable pub search : DenseSparse D F → ℕ → List (Text × Value) → S → Result (List (Hit F))
  unfolding build_filter
  search q k flt s = hits (client.query_points (query_of k q) k (build_filter flt) s)
