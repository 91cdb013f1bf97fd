-- ===== src/Agent/Tracing.antt =====
-- Whether and with what a run is traced: agent/src/agent_app/core/observability.py (lines 34-99).
-- `handler` is what the SDK of Langfuse gives, or `none` if it cannot be set up.
use agentchatbot_v.Prelude.{
  ℕ, ◌≤◌, min, arith, Bool, true, false, ◌&&◌, ◌||◌, not, Option, none, some, [], ◌∷◌, ◌==◌,
  if◌then◌else◌,
}
use agentchatbot_v.Text.{Text, codes, is_empty}
use agentchatbot_v.Env.{Env, trimmed}

abbrev begins : Text → Text → Bool
begins [] s = true
begins (a ∷ p) [] = false
begins (a ∷ p) (b ∷ s) = a == b && begins p s

-- `p in s`
unfoldable pub occurs : Text → Text → Bool
occurs p [] = is_empty p
occurs p (c ∷ s) = begins p (c ∷ s) || occurs p s

abbrev is_set : Env → Text → Bool
is_set env name = not (is_empty (trimmed env name))

-- `enabled`
unfoldable pub is_enabled : Env → Bool
unfolding trimmed occurs
is_enabled env =
    is_set env (codes "LANGFUSE_PUBLIC_KEY")
    && (is_set env (codes "LANGFUSE_SECRET_KEY")
        && (is_set env (codes "LANGFUSE_HOST")
            && not (occurs (codes "cloud.langfuse.com") (trimmed env (codes "LANGFUSE_HOST")))))

-- `_handler`
unfoldable pub handler_for : {K : Type 0} → Env → Option K → Option K
unfolding is_enabled
handler_for env handler = if is_enabled env then handler else none

-- The callbacks and the session of a trace.
pub record Trace (K : Type 0) : Type 0 where
  pub callback : K
  pub session_id : Text

abbrev traced : {K : Type 0} → Text → Option K → Option (Trace K)
traced thread_id none = none
traced thread_id (some h) = some (record { callback = h; session_id = thread_id })

unfoldable pub trace_config : {K : Type 0} → Env → Option K → Text → Option (Trace K)
unfolding handler_for
trace_config env handler thread_id = traced thread_id (handler_for env handler)

-- `_FLUSH_JOIN_TIMEOUT`, in milliseconds
abbrev flush_join_timeout : ℕ
flush_join_timeout = 2000

-- `flush`: how long the caller waits for a transmission that takes so many milliseconds. The
-- transmission runs in a thread of its own and goes on after that.
unfoldable pub flush : Env → ℕ → ℕ
unfolding is_enabled
flush env takes = if is_enabled env then min takes flush_join_timeout else 0

-- Tracing keeps a run waiting for two seconds at most, and not at all where it is off.
pub flush_bounds : (env : Env) (takes : ℕ) → flush env takes ≤ flush_join_timeout
unfolding flush
flush_bounds env takes = ground arith
