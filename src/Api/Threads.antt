-- ===== src/Api/Threads.antt =====
-- The handlers of app.py on threads (lines 225-355 and 385-390). `uuid_of` is `uuid.UUID(str(v))`,
-- and `none` its exceptions.
use agentchatbot_v.Prelude.{ℕ, not, Option, none, some, List}
use agentchatbot_v.Text.{Text, codes}
use agentchatbot_v.Json.{Json, Fields, get, get_value}
use agentchatbot_v.Store.Schema.{Thread, Message, Citation, Summary, Failure, key_error, type_error}
use agentchatbot_v.Store.Runs.{has_running_run}
use agentchatbot_v.Store.Threads.{
  create_thread, list_threads, thread_exists, rename_thread, has_fork_children, delete_thread,
  get_summaries,
}
use agentchatbot_v.Store.Forks.{get_thread_messages, get_thread_citations}
use agentchatbot_v.Run.World.{call, ask, fresh_id}
use agentchatbot_v.Run.Service.{RunService}
use agentchatbot_v.Run.Threads.{summarize, fork}
use agentchatbot_v.Api.Outcome.{
  Api, reply, refuse, crash, catch, within, ◌>>=◌, ◌>>◌, must, some_or,
}
use agentchatbot_v.Api.Guards.{max_title, fields_or_empty, optional_text, required_text, bound_of}

-- The default limit of the repository's `list_threads`.
abbrev list_limit : ℕ
list_limit = 100

-- `except KeyError`
abbrev missing_is_404 : Failure → Option ℕ
missing_is_404 key_error = some 404
missing_is_404 _ = none

abbrev any_is_502 : Failure → Option ℕ
any_is_502 e = some 502

-- The driver binds no number to a uuid, although 32 digits make one for `uuid_of`.
abbrev bound_uuid : Json → ℕ → Api ℕ
bound_uuid (Json.int n) u = crash type_error
bound_uuid v u = reply u

module _ (uuid_of : Json → Option ℕ) where
  -- An optional owner: absent, or a UUID.
  abbrev owner_of : Option Json → Api (Option ℕ)
  owner_of none = reply none
  owner_of (some v) = do u ← some_or (uuid_of v) 422; o ← bound_uuid v u; reply (some o)

  -- `if not repo.thread_exists(thread_id)`; the repository asks nothing for what is no UUID
  unfoldable pub existing : Text → Api ℕ
  existing thread = do
    t ← some_or (uuid_of (Json.text thread)) 404
    there ← within (ask (thread_exists (some t)))
    must there 404
    reply t

  abbrev owner_checked : Option Json → Api (Unit {0})
  owner_checked none = reply tt
  owner_checked (some v) = some_or (uuid_of v) 422 >> reply tt

  unfoldable pub post_thread : Option Fields → Api ℕ
  post_thread body = do
    let fs = fields_or_empty body
    owner_checked (get_value (codes "owner_id") fs)
    title ← some_or (optional_text max_title (get_value (codes "title") fs)) 422
    owner ← owner_of (get_value (codes "owner_id") fs)
    tid ← within fresh_id
    within (call (λ now. create_thread tid now title owner))

  unfoldable pub get_threads : Option Text → Api (List Thread)
  get_threads none = within (ask (list_threads none list_limit))
  get_threads (some owner) = do
    o ← some_or (uuid_of (Json.text owner)) 422
    within (ask (list_threads (some o) list_limit))

  unfoldable pub patch_thread : Text → Option Fields → Api (ℕ × Text)
  patch_thread thread body = do
    t ← some_or (uuid_of (Json.text thread)) 404
    title ← some_or (required_text max_title (get (codes "title") (fields_or_empty body))) 422
    found ← within (call (λ now. rename_thread now (some t) title))
    must found 404
    reply (t, title)

  -- The two tests and the delete are three calls, and no transaction joins them.
  unfoldable pub delete_thread_route : Text → Api (Unit {0})
  delete_thread_route thread = do
    t ← some_or (uuid_of (Json.text thread)) 404
    running ← within (ask (has_running_run (some t)))
    must (not running) 409
    forked ← within (ask (has_fork_children (some t)))
    must (not forked) 409
    gone ← within (call (λ now. delete_thread (some t)))
    must gone 404

  unfoldable pub get_messages : Text → Api (List Message)
  unfolding existing
  get_messages thread = do t ← existing thread; within (ask (get_thread_messages t))

  unfoldable pub get_citations : Text → Api (List Citation)
  unfolding existing
  get_citations thread = do t ← existing thread; within (ask (get_thread_citations t))

  unfoldable pub get_thread_summaries : Text → Api (List Summary)
  unfolding existing
  get_thread_summaries thread = do t ← existing thread; within (ask (get_summaries t))

  -- `str(None)` is no UUID, so that a missing field is refused as well.
  abbrev fork_point_of : Option Json → Api ℕ
  fork_point_of none = refuse 422
  fork_point_of (some v) = some_or (uuid_of v) 422

  abbrev bound_point : Option Json → ℕ → Api ℕ
  bound_point none fp = reply fp
  bound_point (some v) fp = bound_uuid v fp

  unfoldable pub fork_thread_route : RunService → Text → Fields → Api ℕ
  unfolding existing
  fork_thread_route svc thread body = do
    let point = get_value (codes "fork_point_message_id") body
    fp ← fork_point_of point
    t ← existing thread
    bound_point point fp
    catch missing_is_404 (fork svc t fp)

  -- The reply is the summary's id and the range that it covers.
  unfoldable pub summarize_route : RunService → Text → Option Fields → Api (ℕ × ℕ × ℕ)
  unfolding existing
  summarize_route svc thread body = do
    t ← existing thread
    let fs = fields_or_empty body
    from ← some_or (bound_of (get_value (codes "from_seq") fs)) 422
    to ← some_or (bound_of (get_value (codes "to_seq") fs)) 422
    made ← catch any_is_502 (summarize svc t from to)
    some_or made 422
