-- ===== src/Examples/Requests.antt =====
-- The theorems on the HTTP API at work on the sample conversation.
use agentchatbot_v.Prelude.{
  ℕ, arith, ◌≤◌, ◌≡◌, refl, true, false, Option, none, some, List, [], ◌∷◌,
}
use agentchatbot_v.Text.{Text, codes}
use agentchatbot_v.Json.{ℤ, Json, nil, cons, Fields, end, field, get_value, is_true}
use agentchatbot_v.Store.Schema.{Status, ok, Db}
use agentchatbot_v.Store.Runs.{get_active_run, open_run}
use agentchatbot_v.Store.Threads.{thread_exists, next_seq}
use agentchatbot_v.Store.Messages.{get_pending_tool_calls}
use agentchatbot_v.Run.World.{World, ask}
use agentchatbot_v.Run.Chat.{Agent}
use agentchatbot_v.Run.Service.{RunService, scope_of, find_agent, begin_run}
use agentchatbot_v.Store.Events.{append_run_event}
use agentchatbot_v.Manager.Control.{resume_run, start, persist_first}
use agentchatbot_v.Api.Guards.{selection_of, message_of}
use agentchatbot_v.Api.Outcome.{done}
use agentchatbot_v.Api.Limit.{Incoming, request, cut_off, declares_too_much, body_limit}
use agentchatbot_v.Api.Body.{body_bytes, body_limit_bounds, body_limit_transparent}
use agentchatbot_v.Api.Threads.{delete_thread_route}
use agentchatbot_v.Api.Runs.{post_message, approve}
use agentchatbot_v.Api.Deleting.{Settled, delete_thread_route-Settled}
use agentchatbot_v.Api.Selected.{is_rejection}
use agentchatbot_v.Api.Scope.{approve_keeps_selection}
use agentchatbot_v.Api.Accepted.{is_message, is_known, post_message_accepts}
use agentchatbot_v.Examples.Sample.{busy, waiting, with_status, world_of}

abbrev no_number : Text → Option ℤ
no_number s = none

abbrev parts : List Incoming
parts = request (codes "abc") true ∷ request (codes "de") false ∷ []

abbrev delivered : List Incoming
delivered = request (codes "abc") true ∷ cut_off ∷ cut_off ∷ []

cut : body_limit no_number 4 3 [] parts ≡ some delivered
unfolding body_limit
cut = refl

body_limit_bounds_example : body_bytes delivered ≤ 4
body_limit_bounds_example = body_limit_bounds no_number 4 3 [] parts delivered cut

small : body_bytes parts ≤ 5
unfolding body_bytes
small = omega arith

undeclared : declares_too_much no_number 5 [] ≡ false
unfolding declares_too_much
undeclared = refl

body_limit_transparent_example : body_limit no_number 5 3 [] parts ≡ some parts
body_limit_transparent_example = body_limit_transparent no_number 5 3 [] parts undeclared small

-- Every identifier is the thread 1.
abbrev uuid_one : Json → Option ℕ
uuid_one v = some 1

delete_thread_route-Settled_example :
    Settled 1 (world_of busy) (delete_thread_route uuid_one (codes "t") (world_of busy))
delete_thread_route-Settled_example =
    delete_thread_route-Settled uuid_one (codes "t") 1 (world_of busy) refl refl

-- The call "a" of the two that wait is approved.
abbrev selection : Fields
selection = field (codes "approved") (Json.array (cons (Json.text (codes "a")) nil)) end

abbrev asked : Db
asked = waiting

approved :
    approve uuid_one (codes "t") selection (world_of asked)
    ≡ (done (10, true, some (codes "a" ∷ [])), world_of asked)
unfolding approve ask thread_exists selection_of get_value get_active_run get_pending_tool_calls
    resume_run is_true
approved = refl

approve_keeps_selection_example :
    is_rejection (scope_of true (some (codes "a" ∷ [])) (get_pending_tool_calls 10 asked)) ≡ false
approve_keeps_selection_example =
    approve_keeps_selection uuid_one (codes "t") selection (world_of asked) (world_of asked) 10 true
      (codes "a") [] refl approved

abbrev silent : Agent
silent = record {
  stream = λ message t. [];
  resume = λ t. [];
  approve_partial = none;
  reject_pending = none;
  fork_state = none;
  summarize = λ text. ok [];
}

abbrev service : RunService
service = record {
  agents = (codes "m", silent) ∷ [];
  default_model = codes "m";
  default_agent = silent;
}

abbrev question_body : Fields
question_body =
    field (codes "message") (Json.text (codes "?"))
      (field (codes "model") (Json.text (codes "m")) end)

abbrev idle : World
idle = world_of (with_status Status.completed (some 125))

started : post_message uuid_one service (codes "t") question_body idle ≡ (
  done (40, codes "?", some (codes "m")),
  (post_message uuid_one service (codes "t") question_body idle).1,
)
unfolding post_message message_of get_value find_agent ask thread_exists start begin_run open_run
    next_seq persist_first append_run_event
started = refl

post_message_accepts_example :
    (is_message (codes "?") ≡ true) × (is_known service (some (codes "m")) ≡ true)
post_message_accepts_example =
    post_message_accepts uuid_one service (codes "t") question_body idle
      (post_message uuid_one service (codes "t") question_body idle).1 40 (codes "?")
      (some (codes "m")) started
