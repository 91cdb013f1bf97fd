-- ===== src/Corpus/Lawgo.antt =====
-- legal_core/src/legal_core/lawgo.py: the answers of law.go.kr. `show` is `str` on what is no text,
-- `int_of` is `int` on a text; the result `none` of a function stands for an exception.
use agentchatbot_v.Prelude.{
  Bool, false, ◌&&◌, ◌||◌, not, Option, none, some, List, [], ◌∷◌, ◌++◌, if◌then◌else◌, sort_by,
}
use agentchatbot_v.Text.{Text, codes, text_eq, text_lt, strip, is_empty, join}
use agentchatbot_v.Json.{ℤ, Json, Items, nil, cons, Fields, end, field, get, is_true}

pub record LawMeta : Type 0 where
  pub law_id : Text
  pub statute : Text
  pub eff_date : Text
  pub ministry : Json
  pub promulgation_date : Text

pub record ArticleRec : Type 0 where
  pub article_no : ℤ
  pub branch_no : Option ℤ
  pub article_key : Text
  pub title : Text
  pub text : Text

-- `_as_list` on `d.get(key)`
unfoldable pub as_list : Option Json → Items
as_list none = nil
as_list (some Json.null) = nil
as_list (some (Json.text [])) = nil
as_list (some (Json.array xs)) = xs
as_list (some v) = cons v nil

-- A line of the text, if the value is a text that is not blank.
unfoldable pub line : Option Json → List Text
unfolding strip
line (some (Json.text s)) = if is_empty (strip s) then [] else strip s ∷ []
line _ = []

mok_lines : Items → List Text
unfolding line
mok_lines nil = []
mok_lines (cons (Json.object mok) xs) = line (get (codes "목내용") mok) ++ mok_lines xs
mok_lines (cons _ xs) = mok_lines xs

ho_lines : Items → List Text
unfolding line as_list mok_lines
ho_lines nil = []
ho_lines (cons (Json.object ho) xs) =
    line (get (codes "호내용") ho) ++ (mok_lines (as_list (get (codes "목") ho)) ++ ho_lines xs)
ho_lines (cons _ xs) = ho_lines xs

hang_lines : Items → List Text
unfolding line as_list ho_lines
hang_lines nil = []
hang_lines (cons (Json.object hang) xs) =
    line (get (codes "항내용") hang) ++ (ho_lines (as_list (get (codes "호") hang)) ++ hang_lines xs)
hang_lines (cons _ xs) = hang_lines xs

unfoldable pub flatten_article : Fields → Text
unfolding line as_list hang_lines join
flatten_article unit =
    join (0x0a ∷ []) (line (get (codes "조문내용") unit) ++ hang_lines (as_list (get (codes "항") unit)))

abbrev is_text : Text → Option Json → Bool
is_text t (some (Json.text s)) = text_eq s t
is_text t _ = false

-- `d.get(key, {}).get(...)`: what is no object there has no `get`.
abbrev pub child : Text → Fields → Option Fields
child k fs = elim (get k fs) [
  | none ↦ some end
  | some v ↦ elim v [ Json.object gs ↦ some gs | _ ↦ none ]
]

-- `d[key]` as an object
abbrev object_at : Text → Fields → Option Fields
object_at k fs = elim (get k fs) [
  | none ↦ none
  | some v ↦ elim v [ Json.object gs ↦ some gs | _ ↦ none ]
]

infixl 5 ◌>>=◌
abbrev pub ◌>>=◌ : {A B : Type 0} → Option A → (A → Option B) → Option B
none >>= f = none
some a >>= f = f a

-- The value of a `dict` comes in place of the old one, or last.
unfoldable pub put : {A : Type 0} → Text → A → List (Text × A) → List (Text × A)
put k a [] = (k, a) ∷ []
put k a ((j, b) ∷ es) = let rest = put k a es in if text_eq j k then (j, a) ∷ es else (j, b) ∷ rest

-- The order of pairs of texts.
abbrev pub pair_lt : Text × Text → Text × Text → Bool
pair_lt (a, b) (c, d) = text_lt a c || (text_eq a c && text_lt b d)

module _ (show : Json → Text) (int_of : Text → Option ℤ) where
  abbrev str : Json → Text
  str (Json.text s) = s
  str v = show v

  abbrev str_or_empty : Option Json → Text
  str_or_empty none = []
  str_or_empty (some v) = str v

  -- `str(d.get(key, "")).strip()`
  abbrev pub trimmed_at : Text → Fields → Text
  trimmed_at k fs = strip (str_or_empty (get k fs))

  -- `_branch`
  abbrev branch_of : Text → Option (Option ℤ)
  branch_of b =
      if is_empty b || text_eq b (codes "0")
      then some none
      else elim (int_of b) [ none ↦ none | some n ↦ some (some n) ]

  abbrev article : ℤ → Fields → Option ArticleRec
  article n unit = do
    branch ← branch_of (trimmed_at (codes "조문가지번호") unit)
    some (record {
      article_no = n;
      branch_no = branch;
      article_key = trimmed_at (codes "조문키") unit;
      title = trimmed_at (codes "조문제목") unit;
      text = flatten_article unit;
    })

  abbrev number_of : Fields → Option ℤ
  number_of unit = elim (get (codes "조문번호") unit) [ none ↦ none | some v ↦ int_of (strip (str v)) ]

  -- One unit: nothing, or one article.
  abbrev unit_articles : Fields → Option (List ArticleRec)
  unit_articles unit =
      if is_text (codes "조문") (get (codes "조문여부") unit)
      then elim (number_of unit) [
        | none ↦ some []
        | some n ↦ (do a ← article n unit; some (a ∷ []))
      ]
      else some []

  unfoldable pub articles_of : Items → Option (List ArticleRec)
  unfolding flatten_article strip
  articles_of nil = some []
  articles_of (cons (Json.object unit) xs) = do
    a ← unit_articles unit
    rest ← articles_of xs
    some (a ++ rest)
  articles_of (cons _ xs) = none

  -- The ministry: the content of an object, or the value itself.
  abbrev or_blank : Json → Json
  or_blank v = if is_true v then v else Json.text []

  abbrev ministry_of : Option Json → Json
  ministry_of none = Json.text []
  ministry_of (some (Json.object fs)) = elim (get (codes "content") fs) [
    | none ↦ Json.text []
    | some v ↦ v
  ]
  ministry_of (some v) = or_blank v

  abbrev text_at : Text → Fields → Option Text
  text_at k fs = elim (get k fs) [
    | none ↦ none
    | some v ↦ elim v [ Json.text s ↦ some s | _ ↦ none ]
  ]

  unfoldable pub parse_law_service : Fields → Option (LawMeta × List ArticleRec)
  unfolding articles_of strip
  parse_law_service payload = do
    law ← object_at (codes "법령") payload
    basic ← object_at (codes "기본정보") law
    law_id ← get (codes "법령ID") basic
    statute ← text_at (codes "법령명_한글") basic
    eff_date ← get (codes "시행일자") basic
    units ← child (codes "조문") law
    arts ← articles_of (as_list (get (codes "조문단위") units))
    some (
      record {
        law_id = strip (str law_id);
        statute = strip statute;
        eff_date = strip (str eff_date);
        ministry = ministry_of (get (codes "소관부처") basic);
        promulgation_date = trimmed_at (codes "공포일자") basic;
      },
      arts,
    )

  -- The kind of a law that a node of the tree states.
  abbrev pub kind_of : Option Json → Option Json
  kind_of (some (Json.object fs)) = get (codes "content") fs
  kind_of _ = none

  abbrev pub is_listed : Text → Text → Text → Option Json → Bool
  is_listed base_id lid name kind =
      not (is_empty lid)
      && (not (is_empty name) && (not (text_eq lid base_id) && not (is_text (codes "법률") kind)))

  -- What a node's "기본정보" adds.
  unfoldable pub found_at : Text → Option Json → List (Text × Text) → List (Text × Text)
  unfolding put strip
  found_at base_id (some (Json.object basic)) found =
      let lid = trimmed_at (codes "법령ID") basic in
      let name = trimmed_at (codes "법령명") basic in
      if is_listed base_id lid name (kind_of (get (codes "법종구분") basic))
      then put lid name found
      else found
  found_at base_id _ found = found

  unfoldable mutual
    unfolding found_at

    pub walk : Text → Json → List (Text × Text) → List (Text × Text)
    walk base_id (Json.object fs) found =
        walk_fields base_id fs (found_at base_id (get (codes "기본정보") fs) found)
    walk base_id (Json.array xs) found = walk_items base_id xs found
    walk base_id _ found = found

    pub walk_items : Text → Items → List (Text × Text) → List (Text × Text)
    walk_items base_id nil found = found
    walk_items base_id (cons v xs) found = walk_items base_id xs (walk base_id v found)

    pub walk_fields : Text → Fields → List (Text × Text) → List (Text × Text)
    walk_fields base_id end found = found
    walk_fields base_id (field k v fs) found =
        walk_fields base_id fs (if text_eq k (codes "기본정보") then found else walk base_id v found)

  unfoldable pub parse_hierarchy : Fields → Text → Text → Option (List (Text × Text))
  unfolding walk sort_by text_lt
  parse_hierarchy payload base_name base_id = do
    chart ← child (codes "법령체계도") payload
    some (
        sort_by pair_lt
          (elim (get (codes "상하위법") chart) [ none ↦ [] | some v ↦ walk base_id v [] ]))
