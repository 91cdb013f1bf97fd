-- ===== src/Json.antt =====
-- JSON as `json.loads` gives it: the bodies of requests and the payloads of law.go.kr. An object
-- holds each of its keys once.
use agentchatbot_v.Prelude.{
  ℕ, Bool, true, false, not, Option, none, some, List, [], ◌∷◌, ◌==◌, if◌then◌else◌,
}
use agentchatbot_v.Text.{Text, text_eq, is_empty}

-- A Python `int`; `negsuc n` is -(n + 1).
pub data ℤ : Type 0 where
  pos : ℕ → ℤ
  negsuc : ℕ → ℤ

-- `float` keeps of a number with a fraction only whether it differs from 0, which is all that the
-- code asks.
mutual
  pub data Json : Type 0 where
    null : Json
    bool : Bool → Json
    int : ℤ → Json
    float : Bool → Json
    text : Text → Json
    array : Items → Json
    object : Fields → Json

  pub data Items : Type 0 where
    nil : Items
    cons : Json → Items → Items

  pub data Fields : Type 0 where
    end : Fields
    field : Text → Json → Fields → Fields

-- `d.get(key)`
abbrev pub get : Text → Fields → Option Json
get k end = none
get k (field j v fs) = let rest = get k fs in if text_eq j k then some v else rest

-- `d.get(key)` with `None` for a null and for a missing key.
abbrev not_null : Option Json → Option Json
not_null (some Json.null) = none
not_null o = o

unfoldable pub get_value : Text → Fields → Option Json
get_value k fs = not_null (get k fs)

abbrev is_nil : Items → Bool
is_nil nil = true
is_nil (cons _ _) = false

abbrev is_end : Fields → Bool
is_end end = true
is_end (field _ _ _) = false

-- `bool(v)`
unfoldable pub is_true : Json → Bool
is_true Json.null = false
is_true (Json.bool b) = b
is_true (Json.int (ℤ.pos n)) = not (n == 0)
is_true (Json.int (ℤ.negsuc n)) = true
is_true (Json.float b) = b
is_true (Json.text s) = not (is_empty s)
is_true (Json.array xs) = not (is_nil xs)
is_true (Json.object fs) = not (is_end fs)

-- A list of strings, or `none` if something else is among the items.
unfoldable pub texts_of : Items → Option (List Text)
texts_of nil = some []
texts_of (cons (Json.text s) xs) = elim (texts_of xs) [ none ↦ none | some ts ↦ some (s ∷ ts) ]
texts_of (cons _ xs) = none
