-- ===== src/Corpus/Demotion.antt =====
-- What the demotion of older versions does to points, and what the parts of an ingestion ensure.
use agentchatbot_v.Prelude.{
  ℕ, ◌+◌, ◌≡◌, refl, ap, Bool, true, false, ◌&&◌, ◌||◌, not, Option, none, some, List, [], ◌∷◌,
  ◌++◌, arith, if◌then◌else◌, map, All, All-append, All_if,
}
use agentchatbot_v.Text.{Text, text_eq, strip, is_empty}
use agentchatbot_v.Store.Schema.{Result, ok, err}
use agentchatbot_v.Corpus.Lawgo.{LawMeta, ArticleRec}
use agentchatbot_v.Corpus.Windows.{split_windows}
use agentchatbot_v.Corpus.Ingest.{Chunk, window_chunks, build_chunks}
use agentchatbot_v.Corpus.Vector.{Point}
use agentchatbot_v.Corpus.Pipeline.{Stores, Act, or_fail, ◌>>=◌}

-- What `set_payload` does to a point, by the filter of `supersede`.
abbrev pub demote : {I D F : Type 0} → Text → Text → Point I D F → Point I D F
demote law_id keep p =
    if text_eq p.payload.resource_id law_id && not (text_eq p.payload.eff_date keep)
    then record p { payload = record p.payload { is_current = false } }
    else p

unfoldable pub IsOf : Text → Chunk → Type 0
IsOf law_id c = c.resource_id ≡ law_id

window_chunks-IsOf :
    (meta : LawMeta) (a : ArticleRec) (seq : ℕ) (ws : List Text)
    → All (IsOf meta.law_id) (window_chunks meta a seq ws)
unfolding window_chunks IsOf
window_chunks-IsOf meta a seq [] = tt
window_chunks-IsOf meta a seq (w ∷ ws) = (refl, window_chunks-IsOf meta a (seq + 1) ws)

pub build_chunks-IsOf :
    (meta : LawMeta) (arts : List ArticleRec) → All (IsOf meta.law_id) (build_chunks meta arts)
unfolding build_chunks
build_chunks-IsOf meta [] = tt
build_chunks-IsOf meta (a ∷ arts) =
    All_if (IsOf meta.law_id) (is_empty (strip a.text)) (build_chunks meta arts)
      (window_chunks meta a 0 (split_windows a.text 450 64) ++ build_chunks meta arts)
      (λ _. build_chunks-IsOf meta arts)
      (All-append (IsOf meta.law_id) (window_chunks meta a 0 (split_windows a.text 450 64))
        (build_chunks meta arts) (window_chunks-IsOf meta a 0 (split_windows a.text 450 64))
        (build_chunks-IsOf meta arts))

-- A point of the law that is current has this date.
abbrev pub is_version : {I D F : Type 0} → Text → Text → Point I D F → Bool
is_version law_id date p =
    not (text_eq p.payload.resource_id law_id && p.payload.is_current)
    || text_eq p.payload.eff_date date

abbrev pub IsVersion : {I D F : Type 0} → Text → Text → Point I D F → Type 0
IsVersion law_id date p = is_version law_id date p ≡ true

-- What a part of an ingestion ensures when it succeeds.
module _ {S G : Type 0} where
  abbrev pub Rule :
      {A : Type 0} → Act S G A → (Stores S G → Type 0) → (A → Stores S G → Type 0) → Type 0
  Rule {A} m Q R = (st : Stores S G) → Q st → (a : A) → (m st).0 ≡ ok a → R a (m st).1

  pub Rule-bind :
      {A B : Type 0} (m : Act S G A) (f : A → Act S G B) (Q : Stores S G → Type 0)
      (R : A → Stores S G → Type 0) (T : B → Stores S G → Type 0)
      → Rule m Q R
      → ((a : A) → Rule (f a) (R a) T)
      → Rule (m >>= f) Q T
  Rule-bind {A} {B} m f Q R T h k st q b e = go (m st) (h st q) e
    where
      next : Result A × Stores S G → Result B × Stores S G
      next x = elim x.0 as (λ _. Result B × Stores S G) [ ok a ↦ f a x.1 | err c ↦ (err c, x.1) ]

      go :
          (x : Result A × Stores S G)
          → ((a : A) → x.0 ≡ ok a → R a x.1)
          → (next x).0 ≡ ok b
          → T b (next x).1
      go (ok a, st') r p = k a st' (r a refl) b p
      go (err c, st') r p = ground arith

  pub Rule-or_fail :
      {A : Type 0} (o : Option A) (Q : Stores S G → Type 0) → Rule (or_fail o) Q (λ _. Q)
  Rule-or_fail none Q st q a e = q
  Rule-or_fail (some x) Q st q a e = q

pub ok_inj : {A : Type 0} (a b : A) → ok a ≡ ok b → a ≡ b
ok_inj {A} a b e = ap value e
  where
    value : Result A → A
    value (ok x) = x
    value (err c) = a

module _ {I D F : Type 0} where
  pub demote_fresh :
      (law_id keep : Text) (ps : List (Point I D F))
      → All (IsVersion law_id keep) (map (demote law_id keep) ps)
  demote_fresh law_id keep [] = tt
  demote_fresh law_id keep (p ∷ ps) = (one p, demote_fresh law_id keep ps)
    where
      one : (q : Point I D F) → IsVersion law_id keep (demote law_id keep q)
      one q = ground arith

  pub demote_keeps :
      (rid keep law_id date : Text) (ps : List (Point I D F))
      → All (IsVersion law_id date) ps
      → All (IsVersion law_id date) (map (demote rid keep) ps)
  demote_keeps rid keep law_id date [] h = tt
  demote_keeps rid keep law_id date (p ∷ ps) h =
      (one p h.0, demote_keeps rid keep law_id date ps h.1)
    where
      one : (q : Point I D F) → IsVersion law_id date q → IsVersion law_id date (demote rid keep q)
      one q k = ground arith
