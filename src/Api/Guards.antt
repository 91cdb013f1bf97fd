-- ===== src/Api/Guards.antt =====
-- The checks of app.py on what a request brings: `_reject_nul` and the limits beside it (lines
-- 186-214), and the readings of the body's fields in the handlers.
use agentchatbot_v.Prelude.{
  ℕ, Bool, true, ◌&&◌, ◌||◌, not, Option, none, some, List, ◌==◌, ltb, leb, if◌then◌else◌, exists,
  length,
}
use agentchatbot_v.Text.{Text, strip, is_empty}
use agentchatbot_v.Json.{ℤ, Json, Fields, end, texts_of}
use agentchatbot_v.Store.Threads.{Sent, unset, sent}

abbrev pub max_title : ℕ
max_title = 500

abbrev pub max_setting : ℕ
max_setting = 2000

abbrev pub max_approved : ℕ
max_approved = 100

abbrev pub max_id : ℕ
max_id = 200

abbrev pub max_message : ℕ
max_message = 100_000

-- A code point that a text column cannot hold: NUL, or a lone surrogate, which has no UTF-8.
abbrev pub is_unstorable : ℕ → Bool
is_unstorable c = c == 0 || (leb 0xd800 c && leb c 0xdfff)

-- `_reject_nul` on a string: true if it raises nothing
unfoldable pub is_clean : ℕ → Text → Bool
is_clean max_len s = not (exists is_unstorable s) && leb (length s) max_len

-- `body or {}`
abbrev pub fields_or_empty : Option Fields → Fields
fields_or_empty none = end
fields_or_empty (some fs) = fs

-- An optional string of at most `max_len` characters; `none` is the refusal.
unfoldable pub optional_text : ℕ → Option Json → Option (Option Text)
unfolding is_clean
optional_text max_len none = some none
optional_text max_len (some (Json.text s)) = if is_clean max_len s then some (some s) else none
optional_text max_len (some _) = none

unfoldable pub required_text : ℕ → Option Json → Option Text
unfolding is_clean
required_text max_len (some (Json.text s)) = if is_clean max_len s then some s else none
required_text max_len _ = none

-- The message of a run is not blank either.
unfoldable pub message_of : Option Json → Option Text
unfolding required_text strip
message_of o = elim (required_text max_message o) [
  | none ↦ none
  | some s ↦ if is_empty (strip s) then none else some s
]

-- A bound of the range to summarise: an integer that is not negative, and not a Boolean.
unfoldable pub bound_of : Option Json → Option (Option ℕ)
bound_of none = some none
bound_of (some (Json.int (ℤ.pos n))) = some (some n)
bound_of (some _) = none

-- A setting: kept if the key is missing, cleared by a null.
unfoldable pub setting_of : Option Json → Option Sent
unfolding is_clean
setting_of none = some unset
setting_of (some Json.null) = some (sent none)
setting_of (some (Json.text s)) = if is_clean max_setting s then some (sent (some s)) else none
setting_of (some _) = none

abbrev is_too_long : Text → Bool
is_too_long t = ltb max_id (length t)

abbrev few : List Text → Option (Option (List Text))
few ids = if ltb max_approved (length ids) || exists is_too_long ids then none else some (some ids)

abbrev listed : Option (List Text) → Option (Option (List Text))
listed none = none
listed (some ids) = few ids

-- `approved`: the ids of the selected tool calls, if the field is given
unfoldable pub selection_of : Option Json → Option (Option (List Text))
unfolding texts_of
selection_of none = some none
selection_of (some (Json.array xs)) = listed (texts_of xs)
selection_of (some _) = none

abbrev pub true_or : Option Json → Json
true_or none = Json.bool true
true_or (some v) = v
