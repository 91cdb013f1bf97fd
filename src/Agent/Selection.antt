-- ===== src/Agent/Selection.antt =====
-- The selective approval by `approve_partial` of agent.py (lines 141-164).
use agentchatbot_v.Prelude.{
  ◌<◌, ◌⊎◌, ◌≡◌, Bool, true, false, Option, none, some, List, [], ◌∷◌, length, select, count,
}
use agentchatbot_v.Text.{Text}
use agentchatbot_v.Agent.Checkpoint.{
  LcMessage, Update, remove_one, replace, rebuild, add, is_approved,
}

abbrev pub is_blank_id : Option Text → Bool
is_blank_id none = true
is_blank_id (some []) = true
is_blank_id (some (c ∷ s)) = false

-- What the graph is handed: the pending message with its id and content and exactly the approved
-- calls; its removal, if none is approved; nothing, if all are approved, or if none is and the message
-- has no id to be removed by.
abbrev pub IsSelection : List Text → LcMessage → Option Update → Type 0
IsSelection approved m (some (replace id content calls)) =
    (id ≡ m.id)
    × (content ≡ m.content)
    × (calls ≡ select (is_approved approved) m.tool_calls)
    × (0 < count (is_approved approved) m.tool_calls)
IsSelection approved m (some (remove_one id)) =
    (m.id ≡ some id) × (count (is_approved approved) m.tool_calls ≡ 0)
IsSelection approved m (some (rebuild _)) = ⊥
IsSelection approved m (some (add _)) = ⊥
IsSelection approved m none =
    (count (is_approved approved) m.tool_calls ≡ length m.tool_calls)
    ⊎ ((is_blank_id m.id ≡ true) × (count (is_approved approved) m.tool_calls ≡ 0))
