-- ===== src/Corpus/Current.antt =====
-- The versions of a law among the current points of the vector store.
use agentchatbot_v.Prelude.{◌≡◌, true, false, Option, List, [], ◌∷◌, map, All}
use agentchatbot_v.Text.{Text, text_eq}
use agentchatbot_v.Json.{ℤ, Json}
use agentchatbot_v.Store.Schema.{Result, ok}
use agentchatbot_v.Corpus.Lawgo.{LawMeta}
use agentchatbot_v.Corpus.Ingest.{Triple}
use agentchatbot_v.Corpus.Vector.{Point, Client, demoted, stale_filter}
use agentchatbot_v.Corpus.Pipeline.{Answers, Stores, Loaded, ingest_law}
use agentchatbot_v.Corpus.Demotion.{demote, IsVersion}

module _ {S I D F : Type 0} (uuid5 : Text → I) (client : Client S I D F) where
  -- What Qdrant documents of its calls: `points` are the points of the collection. To create the
  -- collection or an index, whether it succeeds or not, takes nothing away and adds nothing; after an
  -- upsert, also one that raises, every point is one of the given ones or was there before;
  -- `set_payload`, where it succeeds, overwrites the named field of the points that the filter
  -- selects. Nothing is said of a `set_payload` that raises.
  module _ (points : S → List (Point I D F))
      (creates : (s : S) → points (client.create_collection s).1 ≡ points s)
      (indexes : (field : Text) (s : S) → points (client.create_payload_index field s).1 ≡ points s)
      (upserts : (P : Point I D F → Type 0) (ps : List (Point I D F)) (s : S)
        → All P ps
        → All P (points s)
        → All P (points (client.upsert ps s).1))
      (demotes : (law_id keep : Text) (s : S)
        → (client.set_payload demoted (stale_filter law_id keep) s).0 ≡ ok tt
        → points (client.set_payload demoted (stale_filter law_id keep) s).1
          ≡ map (demote law_id keep) (points s)) where
    module _ {G : Type 0} (show : Json → Text) (int_of : Text → Option ℤ)
        (put_graph : List Triple × Text → G → Result (Unit {0}) × G) (law_id : Text) where
      -- The current points of the law are of one version.
      abbrev pub HasVersion : Text → Stores S G → Type 0
      HasVersion date st = All (IsVersion law_id date) (points st.vector)

      abbrev pub HasOneVersion : Stores S G → Type 0
      HasOneVersion st = (date : Text) × HasVersion date st

      -- What an ingestion that succeeds has done to the points of `law_id`: if it was of this law, the
      -- current ones are of its date, whatever was there; otherwise a version that they had is kept.
      abbrev Updates : Stores S G → Loaded → Stores S G → Type 0
      Updates st done st' =
          (text_eq done.law_id law_id ≡ true → HasVersion done.eff_date st')
          × (text_eq done.law_id law_id ≡ false
              → (date : Text) → HasVersion date st
              → HasVersion date st')

      -- A version that the points had at `st0` is kept, at once or unless the ingestion is of the law.
      abbrev Same : Stores S G → Stores S G → Type 0
      Same st0 st = (date : Text) → HasVersion date st0 → HasVersion date st

      abbrev Kept : LawMeta → Stores S G → Stores S G → Type 0
      Kept meta st0 st = text_eq meta.law_id law_id ≡ false → Same st0 st

      -- Each of these ingestions succeeds, when it comes to it.
      unfoldable pub Succeed : List (Answers D F) → Stores S G → Type 0
      Succeed [] st = Unit
      Succeed (a ∷ rest) st =
          ((done : Loaded) × ((ingest_law show int_of uuid5 client put_graph a st).0 ≡ ok done))
          × Succeed rest (ingest_law show int_of uuid5 client put_graph a st).1
