-- ===== src/Store/Schema.antt =====
-- The tables of database/migrations/*.sql as lists of rows, newest row first, and a repository
-- method as a function from the database to a result and the database after it. A UUID is a
-- number; a JSON column holds the value that was dumped into it; time is an argument.
use agentchatbot_v.Prelude.{ℕ, Option, List, Bool, true, false, ◌==◌, if◌then◌else◌}
use agentchatbot_v.Text.{Text}

-- run_status of 0001_conversation_store.sql
pub data Status : Type 0 where
  running awaiting_approval interrupted completed rejected error : Status

abbrev pub status_code : Status → ℕ
status_code Status.running = 0
status_code Status.awaiting_approval = 1
status_code Status.interrupted = 2
status_code Status.completed = 3
status_code Status.rejected = 4
status_code Status.error = 5

abbrev pub same_status : Status → Status → Bool
same_status s t = status_code s == status_code t

-- message_role
pub data Role : Type 0 where
  user agent tool : Role

abbrev pub is_user : Role → Bool
is_user Role.user = true
is_user _ = false

abbrev pub is_agent : Role → Bool
is_agent Role.agent = true
is_agent _ = false

abbrev pub is_tool : Role → Bool
is_tool Role.tool = true
is_tool _ = false

-- The values that approval_state takes.
pub data Approval : Type 0 where
  pending approved rejected : Approval

-- A content block of a chat message: a bare text, an object of type "text", any other object.
pub data Block : Type 0 where
  plain : Text → Block
  typed_text : Text → Block
  opaque : Block

-- What a chat message or a tool holds as its content.
pub data Content : Type 0 where
  str : Text → Content
  blocks : List Block → Content
  other : Content

pub record Thread : Type 0 where
  pub id : ℕ
  pub title : Option Text
  pub owner_id : Option ℕ
  pub forked_from : Option ℕ
  pub fork_point : Option ℕ
  pub last_seq : ℕ
  pub created_at : ℕ
  pub updated_at : ℕ

pub record Run : Type 0 where
  pub id : ℕ
  pub thread_id : ℕ
  pub status : Status
  pub started_at : ℕ
  pub ended_at : Option ℕ
  pub heartbeat_at : ℕ
  pub model : Option Text

pub record Message : Type 0 where
  pub id : ℕ
  pub thread_id : ℕ
  pub run_id : Option ℕ
  pub seq : ℕ
  pub parent_id : Option ℕ
  pub role : Role
  pub content_md : Option Text
  pub tool_name : Option Text
  pub tool_args : Option Text
  pub tool_result : Option Content
  pub approval_state : Option Approval
  pub tool_call_id : Option Text
  pub model : Option Text
  pub created_at : ℕ

pub record Citation : Type 0 where
  pub id : Text
  pub kind : Text
  pub title : Text
  pub ref : Text
  pub snippet : Text
  pub url : Text
  pub article_text : Text
  pub law_uri : Text
  pub resource_id : Text
  pub eff_date : Text

pub record Link : Type 0 where
  pub message_id : ℕ
  pub citation_id : Text

pub record Summary : Type 0 where
  pub id : ℕ
  pub thread_id : ℕ
  pub covers_from_seq : Option ℕ
  pub covers_to_seq : Option ℕ
  pub content_md : Text

pub record Settings : Type 0 where
  pub scope : Text
  pub model : Option Text
  pub server_url : Option Text
  pub theme : Option Text

-- A tool call that waits for approval, as approval.requested lists it.
pub record PendingCall : Type 0 where
  pub id : Option Text
  pub name : Option Text
  pub args : Option Text

-- `_interrupt_detail`: the values of the interrupts, or the reason "approval_required".
pub data Detail : Type 0 where
  one : Text → Detail
  many : List Text → Detail
  required : Detail

-- The SSE events with their data.
pub data Event : Type 0 where
  run_started : ℕ → ℕ → Option Text → Event
  tool_call : Option Text → Option Text → Option Text → Event
  tool_result : Option Text → Content → Bool → Event
  citation_added : Text → Event
  approval_requested : ℕ → List PendingCall → Detail → Event
  message_completed : Text → List Text → Event
  run_done : ℕ → Option Status → Event
  error : Text → List Text → Event

pub record RunEvent : Type 0 where
  pub event : Event
  pub seq : ℕ

pub record EventRow : Type 0 where
  pub thread_id : ℕ
  pub run_id : ℕ
  pub seq : ℕ
  pub event : Event
  pub created_at : ℕ

-- The LangGraph tables checkpoint_writes, checkpoint_blobs and checkpoints hold the thread's key;
-- what else they hold belongs to that library.
pub record Db : Type 0 where
  pub threads : List Thread
  pub runs : List Run
  pub messages : List Message
  pub citations : List Citation
  pub links : List Link
  pub summaries : List Summary
  pub settings : List Settings
  pub events : List EventRow
  pub checkpoint_writes : List ℕ
  pub checkpoint_blobs : List ℕ
  pub checkpoints : List ℕ

-- The exceptions that cross a method: ActiveRunExists, KeyError, the driver's errors, ValueError,
-- TypeError and whatever the agent raises.
pub data Failure : Type 0 where
  active_run_exists key_error unique_violation fk_violation : Failure
  db_down value_error type_error agent_error : Failure

pub data Result {ℓ} (A : Type ℓ) : Type ℓ where
  ok : A → Result A
  err : Failure → Result A

abbrev pub Action : Type 0 → Type 0
Action A = Db → Result A × Db

module _ {A : Type 0} where
  abbrev pub pure : A → Action A
  pure a db = (ok a, db)

  abbrev pub raise : Failure → Action A
  raise e db = (err e, db)

  -- A read.
  abbrev pub gets : (Db → A) → Action A
  gets f db = (ok (f db), db)

infixl 5 ◌>>=◌ ◌>>◌
abbrev pub ◌>>=◌ : {A B : Type 0} → Action A → (A → Action B) → Action B
◌>>=◌ m f db = let (r, db') = m db in elim r [ ok a ↦ f a db' | err e ↦ (err e, db') ]

abbrev pub ◌>>◌ : {A B : Type 0} → Action A → Action B → Action B
m >> k = m >>= λ _. k

abbrev pub raise_if : Bool → Failure → Action (Unit {0})
raise_if c e db = (if c then err e else ok tt, db)

abbrev pub modify : (Db → Db) → Action (Unit {0})
modify f db = (ok tt, f db)

-- `with conn.transaction()`: what was written before an exception is taken back.
abbrev pub rolled_back : {A : Type 0} → Db → Result A × Db → Result A × Db
rolled_back db (ok a, db') = (ok a, db')
rolled_back db (err e, _) = (err e, db)

abbrev pub transaction : {A : Type 0} → Action A → Action A
transaction m db = rolled_back db (m db)
