-- ===== src/Run/Wire/Reader.antt =====
-- How a client reads an event stream (the EventSource interface of the HTML standard): lines end
-- with LF, CR or both, a blank line dispatches what the fields before it have set.
use agentchatbot_v.Prelude.{Bool, true, false, List, [], ◌∷◌, ◌++◌, ◌==◌, if◌then◌else◌, exists}
use agentchatbot_v.Text.{Text, codes, text_eq}

-- The complete lines of a text, after the part `line` of one; `cr` says that a CR has just ended one.
unfoldable pub lines : Bool → Text → Text → List Text
lines cr line [] = []
lines cr line (c ∷ s) =
    let skipped = lines false line s in
    let ended = line ∷ lines false [] s in
    let returned = line ∷ lines true [] s in
    let more = lines false (line ++ c ∷ []) s in
    if c == 10 then (if cr then skipped else ended) else if c == 13 then returned else more

-- What stands before the first colon, and after it without one space.
unfoldable pub field_name : Text → Text
field_name [] = []
field_name (c ∷ s) = if c == b':' then [] else c ∷ field_name s

unspaced : Text → Text
unspaced [] = []
unspaced (c ∷ s) = if c == b' ' then s else c ∷ s

unfoldable pub field_value : Text → Text
unfolding unspaced
field_value [] = []
field_value (c ∷ s) = let rest = field_value s in if c == b':' then unspaced s else rest

pub record Received : Type 0 where
  pub type : Text
  pub payload : Text
  pub last_id : Text

-- The buffers of the reader.
pub record Buffers : Type 0 where
  pub type : Text
  pub payload : Text
  pub last_id : Text

unfoldable pub set_field : Text → Text → Buffers → Buffers
set_field name value b =
    if text_eq name (codes "event")
    then record b { type = value }
    else if text_eq name (codes "data")
    then record b { payload = b.payload ++ (value ++ 10 ∷ []) }
    else if text_eq name (codes "id")
    then (if exists (λ c. c == 0) value then b else record b { last_id = value })
    else b

abbrev pub without_last : Text → Text
without_last [] = []
without_last (c ∷ []) = []
without_last (c ∷ d ∷ s) = c ∷ without_last (d ∷ s)

abbrev pub or_message : Text → Text
or_message [] = codes "message"
or_message (c ∷ s) = c ∷ s

abbrev pub cleared : Buffers → Buffers
cleared b = record b { type = []; payload = [] }

abbrev dispatched : Text → Buffers → List Received
dispatched [] b = []
dispatched (c ∷ s) b =
    record { type = or_message b.type; payload = without_last (c ∷ s); last_id = b.last_id } ∷ []

unfoldable pub interpret : Buffers → List Text → List Received
unfolding field_name field_value set_field
interpret b [] = []
interpret b ([] ∷ ls) = dispatched b.payload b ++ interpret (cleared b) ls
interpret b ((c ∷ s) ∷ ls) = interpret (set_field (field_name (c ∷ s)) (field_value (c ∷ s)) b) ls

abbrev pub no_buffers : Buffers
no_buffers = record { type = []; payload = []; last_id = [] }

unfoldable pub read_stream : Text → List Received
unfolding lines interpret
read_stream s = interpret no_buffers (lines false [] s)
