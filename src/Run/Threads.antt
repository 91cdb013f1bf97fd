-- ===== src/Run/Threads.antt =====
-- `summarize` and `fork` of run_service.py (lines 317-355).
use agentchatbot_v.Prelude.{
  ℕ, Bool, true, ◌&&◌, ◌||◌, not, Option, none, some, List, [], ◌∷◌, ◌++◌, ◌==◌, leb, if◌then◌else◌,
  first, select,
}
use agentchatbot_v.Text.{Text, codes, strip, is_empty, join}
use agentchatbot_v.Store.Schema.{Role, is_user, is_agent, Message, Result}
use agentchatbot_v.Store.Threads.{add_summary}
use agentchatbot_v.Store.Forks.{fork_thread, get_thread_messages}
use agentchatbot_v.Run.World.{Gen, pure, call, ask, ◌>>=◌, ◌>>◌, fresh_id}
use agentchatbot_v.Run.Compose.{title_from}
use agentchatbot_v.Run.Handle.{lift}
use agentchatbot_v.Run.Service.{RunService, title_once}

-- The messages that are summarised.
abbrev is_blank : Option Text → Bool
is_blank none = true
is_blank (some s) = is_empty (strip s)

abbrev from_bound : Option ℕ → ℕ → Bool
from_bound none n = true
from_bound (some a) n = leb a n

abbrev to_bound : Option ℕ → ℕ → Bool
to_bound none n = true
to_bound (some b) n = leb n b

unfoldable pub in_range : Option ℕ → Option ℕ → Message → Bool
in_range from to m =
    (is_user m.role || is_agent m.role)
    && (not (is_blank m.content_md) && (from_bound from m.seq && to_bound to m.seq))

abbrev role_name : Role → Text
role_name Role.user = codes "user"
role_name Role.agent = codes "agent"
role_name Role.tool = codes "tool"

abbrev content_of : Option Text → Text
content_of none = codes "None"
content_of (some s) = s

lines_of : List Message → List Text
lines_of [] = []
lines_of (m ∷ ms) = (role_name m.role ++ (codes ": " ++ content_of m.content_md)) ∷ lines_of ms

last_seq_of : Message → List Message → ℕ
last_seq_of m [] = m.seq
last_seq_of m (q ∷ qs) = last_seq_of q qs

abbrev summarise : RunService → ℕ → List Message → Gen (Option (ℕ × ℕ × ℕ))
summarise svc t [] = pure none
summarise svc t (m ∷ ms) = do
  text ← lift (svc.default_agent.summarize (join (0x0a ∷ []) (lines_of (m ∷ ms))))
  sid ← fresh_id
  call (λ now. add_summary sid t (some m.seq) (some (last_seq_of m ms)) text)
  pure (some (sid, m.seq, last_seq_of m ms))

-- `summarize`; the result is the summary's id and the range that it covers.
unfoldable pub summarize : RunService → ℕ → Option ℕ → Option ℕ → Gen (Option (ℕ × ℕ × ℕ))
unfolding lift lines_of last_seq_of
summarize svc t from to = do
  msgs ← ask (get_thread_messages t)
  summarise svc t (select (in_range from to) msgs)

-- The question that names a fork: the text of the fork point, or the last user message's.
last_question : List Message → Text
last_question [] = []
last_question (m ∷ ms) = elim (last_question ms) [
  | c ∷ s ↦ c ∷ s
  | [] ↦ if is_user m.role && not (is_blank m.content_md) then content_of m.content_md else []
]

abbrev text_at : Option Message → Text
text_at none = []
text_at (some m) = elim m.content_md [ none ↦ [] | some s ↦ s ]

unfoldable pub fork_title : ℕ → List Message → Text
unfolding last_question
fork_title fp msgs =
    let own = text_at (first (λ (m : Message). m.id == fp) msgs) in
    if is_empty (strip own) then last_question msgs else own

abbrev seed : Option (ℕ → List Message → Result (Unit {0})) → ℕ → List Message → Gen (Unit {0})
seed none t msgs = pure tt
seed (some f) t msgs = lift (f t msgs)

unfoldable pub fork : RunService → ℕ → ℕ → Gen ℕ
unfolding lift
fork svc parent fp = do
  tid ← fresh_id
  call (λ now. fork_thread tid now parent fp none)
  msgs ← ask (get_thread_messages tid)
  seed svc.default_agent.fork_state tid msgs
  title_once tid (title_from (fork_title fp msgs))
  pure tid
