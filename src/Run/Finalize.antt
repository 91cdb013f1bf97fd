-- ===== src/Run/Finalize.antt =====
-- `_finalize` of run_service.py (lines 476-525).
use agentchatbot_v.Prelude.{ℕ, true, Option, none, some, List, [], ◌∷◌, ◌++◌, if◌then◌else◌, remove}
use agentchatbot_v.Text.{Text, codes, mem_text, strip, is_empty}
use agentchatbot_v.Store.Schema.{Status, Event, Citation}
use agentchatbot_v.Store.Runs.{try_transition}
use agentchatbot_v.Store.Messages.{answer, commit_agent_answer}
use agentchatbot_v.Store.Forks.{get_thread_citations}
use agentchatbot_v.Run.World.{Gen, pure, call, ask, ◌>>=◌, ◌>>◌, fresh_id, yield, emit}
use agentchatbot_v.Run.Markers.{normalise, find_all}
use agentchatbot_v.Run.Compose.{compose, distinct, no_answer}
use agentchatbot_v.Run.Handle.{Running}

-- The draft, or the notice that there is no answer.
unfoldable pub body_of : Text → Text
unfolding normalise strip
body_of draft = normalise (if is_empty (strip draft) then no_answer else draft)

abbrev pub ids_in : List Citation → List Text
ids_in [] = []
ids_in (c ∷ cs) = c.id ∷ ids_in cs

-- The ids that may be cited: frozen in this run, or cited in the thread before.
abbrev pub valid_ids : Running → List Citation → List Text
valid_ids rs cs = rs.frozen ++ ids_in cs

unfoldable pub forged_in : List Text → List Text → List Text
forged_in valid used = remove (λ c. mem_text c valid) used

abbrev pub forgery_notice : Text
forgery_notice = codes "근거 없는 인용이 감지되어 답변을 보류했습니다."

-- The run goes to error, and only the winner of the transition reports it.
unfoldable pub withhold : List Text → Running → ℕ → Gen (Unit {0})
withhold forged rs t = do
  won ← call (λ now. try_transition now rs.run_id Status.running Status.error true)
  if won then emit (Event.error forgery_notice forged) t else pure tt

abbrev pub announce : Text → List Text → Running → ℕ → Option (ℕ × ℕ) → Gen (Unit {0})
announce final cited rs t none = pure tt
announce final cited rs t (some (mid, seq)) =
    yield (Event.message_completed final cited) seq >> emit (Event.run_done rs.run_id none) t

unfoldable pub publish : Text → List Text → Running → ℕ → Gen (Unit {0})
unfolding call emit
publish final cited rs t = do
  mid ← fresh_id
  res ← call (λ now.
      commit_agent_answer mid now t rs.run_id (answer rs.run_id final cited rs.parent_id rs.model))
  announce final cited rs t res

abbrev pub settle : List Text → Text → Running → ℕ → Gen (Unit {0})
settle [] body rs t =
    publish (compose body (distinct (find_all body)) rs.cited_eff) (distinct (find_all body)) rs t
settle (c ∷ cs) body rs t = withhold (c ∷ cs) rs t

unfoldable pub finalize : Running → ℕ → Gen (Unit {0})
unfolding forged_in
finalize rs t = do
  cites ← ask (get_thread_citations t)
  settle (forged_in (valid_ids rs cites) (find_all (body_of rs.draft))) (body_of rs.draft) rs t
