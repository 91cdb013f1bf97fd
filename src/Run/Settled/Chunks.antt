-- ===== src/Run/Settled/Chunks.antt =====
-- The handling of the agent's messages leaves the runs alone.
use agentchatbot_v.Prelude.{
  ℕ, ◌≡◌, refl, ◌∙◌, Bool, true, false, Option, none, some, List, [], ◌∷◌, arith, if◌then◌else◌,
}
use agentchatbot_v.Text.{Text, mem_text}
use agentchatbot_v.Store.Schema.{PendingCall, Event, Db, Action, Result, ok, err}
use agentchatbot_v.Store.Ops.Frames.{
  runs-next_seq, runs-add_message, runs-set_tool_result, runs-freeze_citation,
}
use agentchatbot_v.Run.World.{World, Gen, pure, call, ◌>>=◌, fresh_id, yield, emit}
use agentchatbot_v.Run.Emissions.Quiet.{shown}
use agentchatbot_v.Run.Alone.{Keeps, Keeps-call, Keeps-emit}
use agentchatbot_v.Run.Chat.{
  LawRef, ChatMessage, Node, messages, no_dict, truncate_tool_result, articles_of, freeze_payload,
}
use agentchatbot_v.Run.Handle.{
  Running, tool_cell, froze, lift, handle_calls, handle_refs, store_result, handle_result,
  take_draft, handle_message, handle_messages, handle_chunk,
}

-- A condition on the value of a call that succeeds.
abbrev pub OnOk : {A : Type 0} → (A → Type 0) → Result A → Type 0
OnOk Q (ok a) = Q a
OnOk Q (err e) = Unit

-- With no other instance about, an outcome `x` of a call at `w` leaves the runs as they were, and a
-- value meets `Q`.
pub record Kept {A : Type 0} (Q : A → Type 0) (w : World) (x : Result A × World) : Type 0 where
  pub still : x.1.turns ≡ []
  pub runs_eq : x.1.db.runs ≡ w.db.runs
  pub meets : OnOk Q x.0

abbrev pub Ensures : {A : Type 0} → (A → Type 0) → Gen A → Type 0
Ensures Q m = (w : World) → w.turns ≡ [] → Kept Q w (m w)

abbrev pub KeepsRuns : {A : Type 0} → Gen A → Type 0
KeepsRuns = Ensures (λ _. Unit)

-- The state of the run goes on with the same run.
abbrev pub SameRun : Running → Running → Type 0
SameRun rs rs' = rs'.run_id ≡ rs.run_id

pub Ensures-bind :
    {A C : Type 0} (P : A → Type 0) (Q : C → Type 0) (m : Gen A) (f : A → Gen C)
    → Ensures P m
    → ((a : A) → P a → Ensures Q (f a))
    → Ensures Q (m >>= f)
Ensures-bind {A} {C} P Q m f k l w h = go (m w) (k w h)
  where
    next : Result A × World → Result C × World
    next x = elim x.0 as (λ _. Result C × World) [ ok a ↦ f a x.1 | err e ↦ (err e, x.1) ]

    go : (x : Result A × World) → Kept P w x → Kept Q w (next x)
    go (ok a, w') g =
        let r = l a g.meets w' g.still in
        record { still = r.still; runs_eq = r.runs_eq ∙ g.runs_eq; meets = r.meets }
    go (err e, w') g = record { still = g.still; runs_eq = g.runs_eq; meets = tt }

pub KeepsRuns-bind :
    {A C : Type 0} (Q : C → Type 0) (m : Gen A) (f : A → Gen C)
    → KeepsRuns m
    → ((a : A) → Ensures Q (f a))
    → Ensures Q (m >>= f)
KeepsRuns-bind Q m f k l = Ensures-bind (λ _. Unit) Q m f k (λ a _. l a)

any_value : {A : Type 0} (r : Result A) → OnOk (λ _. Unit) r
any_value (ok a) = tt
any_value (err e) = tt

to_KeepsRuns : {A : Type 0} (m : Gen A) → Keeps (λ db. db.runs) m → KeepsRuns m
to_KeepsRuns m k w h = record { still = (k w h).0; runs_eq = (k w h).1; meets = any_value (m w).0 }

pub KeepsRuns-call :
    {A : Type 0} (m : ℕ → Action A)
    → ((now : ℕ) (db : Db) → (m now db).1.runs ≡ db.runs)
    → KeepsRuns (call m)
KeepsRuns-call m k = to_KeepsRuns (call m) (Keeps-call (λ db. db.runs) m k)

pub KeepsRuns-emit : (e : Event) (t : ℕ) → KeepsRuns (emit e t)
KeepsRuns-emit e t =
    to_KeepsRuns (emit e t) (Keeps-emit (λ db. db.runs) e t (λ now db. runs-next_seq now t db))

pub Ensures-pure : {A : Type 0} (Q : A → Type 0) (a : A) → Q a → Ensures Q (pure a)
Ensures-pure Q a q w h = record { still = h; runs_eq = refl; meets = q }

KeepsRuns-fresh_id : KeepsRuns fresh_id
KeepsRuns-fresh_id w h = record { still = h; runs_eq = refl; meets = tt }

pub KeepsRuns-yield : (e : Event) (seq : ℕ) → KeepsRuns (yield e seq)
KeepsRuns-yield e seq w h = record { still = h; runs_eq = refl; meets = tt }

KeepsRuns-lift : {A : Type 0} (r : Result A) → KeepsRuns (lift r)
unfolding lift
KeepsRuns-lift r w h = record { still = h; runs_eq = refl; meets = any_value r }

pub Ensures-if :
    {A : Type 0} (Q : A → Type 0) (b : Bool) (m n : Gen A)
    → Ensures Q m
    → Ensures Q n
    → Ensures Q (if b then m else n)
Ensures-if Q true m n k l = k
Ensures-if Q false m n k l = l

KeepsRuns-calls : (cs : List PendingCall) (rs : Running) (t : ℕ) → KeepsRuns (handle_calls cs rs t)
unfolding handle_calls
KeepsRuns-calls [] rs t = Ensures-pure _ tt tt
KeepsRuns-calls (c ∷ cs) rs t = KeepsRuns-bind _ _ _ KeepsRuns-fresh_id λ mid.
    KeepsRuns-bind _ _ _ (KeepsRuns-call _ λ now. runs-add_message mid now t (tool_cell rs c))
      λ at. KeepsRuns-bind _ _ _ (KeepsRuns-yield _ at.1) (λ _. KeepsRuns-calls cs rs t)

SameRun-refs :
    (refs : List LawRef) (rs : Running) (t : ℕ) → Ensures (SameRun rs) (handle_refs refs rs t)
unfolding handle_refs
SameRun-refs [] rs t = Ensures-pure (SameRun rs) rs refl
SameRun-refs (r ∷ refs) rs t =
    Ensures-if (SameRun rs) (mem_text r.id rs.frozen) _ _ (SameRun-refs refs rs t) (
      KeepsRuns-bind _ _ _ (KeepsRuns-call _ λ now. runs-freeze_citation (freeze_payload r))
        λ _. KeepsRuns-bind _ _ _ (KeepsRuns-emit _ t) (λ _. SameRun-refs refs (froze r rs) t))

KeepsRuns-store :
    (rs : Running) (id : Option Text) (msg : ChatMessage) → KeepsRuns (store_result rs id msg)
KeepsRuns-store rs none msg = Ensures-pure _ tt tt
KeepsRuns-store rs (some []) msg = Ensures-pure _ tt tt
KeepsRuns-store rs (some (c ∷ cs)) msg =
    KeepsRuns-call _
      λ now. runs-set_tool_result rs.run_id (c ∷ cs) (truncate_tool_result msg.content)

SameRun-result :
    (msg : ChatMessage) (rs : Running) (t : ℕ) → Ensures (SameRun rs) (handle_result msg rs t)
unfolding handle_result
SameRun-result msg rs t = KeepsRuns-bind _ _ _ (KeepsRuns-call _ λ now. runs-next_seq now t) λ seq.
    KeepsRuns-bind _ _ _ (KeepsRuns-store rs msg.tool_call_id msg) λ _.
      KeepsRuns-bind _ _ _ (KeepsRuns-yield (shown msg) seq) λ _.
        KeepsRuns-bind _ _ _ (KeepsRuns-lift (articles_of msg.artifact))
          (λ refs. SameRun-refs refs rs t)

take_draft_run : (msg : ChatMessage) (rs : Running) → SameRun rs (take_draft msg rs)
unfolding take_draft
take_draft_run msg rs = ground arith

SameRun-message :
    (msg : ChatMessage) (rs : Running) (t : ℕ) → Ensures (SameRun rs) (handle_message msg rs t)
unfolding handle_message
SameRun-message msg rs t = KeepsRuns-bind _ _ _ (KeepsRuns-calls msg.tool_calls rs t) λ _.
    Ensures-if (SameRun rs) msg.is_tool_message _ _ (SameRun-result msg rs t)
      (Ensures-pure (SameRun rs) (take_draft msg rs) (take_draft_run msg rs))

onward :
    (rs rs' : Running) (m : Gen Running)
    → SameRun rs rs'
    → Ensures (SameRun rs') m
    → Ensures (SameRun rs) m
onward rs rs' m same k w h = record {
  still = (k w h).still;
  runs_eq = (k w h).runs_eq;
  meets = go (m w).0 (k w h).meets;
}
  where
    go : (r : Result Running) → OnOk (SameRun rs') r → OnOk (SameRun rs) r
    go (ok q) g = g ∙ same
    go (err e) g = tt

SameRun-messages :
    (ms : List ChatMessage) (rs : Running) (t : ℕ) → Ensures (SameRun rs) (handle_messages ms rs t)
unfolding handle_messages
SameRun-messages [] rs t = Ensures-pure (SameRun rs) rs refl
SameRun-messages (m ∷ ms) rs t =
    Ensures-bind _ _ _ _ (SameRun-message m rs t)
      (λ rs' same. onward rs rs' (handle_messages ms rs' t) same (SameRun-messages ms rs' t))

pub SameRun-chunk :
    (nodes : List Node) (rs : Running) (t : ℕ) → Ensures (SameRun rs) (handle_chunk nodes rs t)
unfolding handle_chunk
SameRun-chunk [] rs t = Ensures-pure (SameRun rs) rs refl
SameRun-chunk (messages ms ∷ nodes) rs t =
    Ensures-bind _ _ _ _ (SameRun-messages ms rs t)
      (λ rs' same. onward rs rs' (handle_chunk nodes rs' t) same (SameRun-chunk nodes rs' t))
SameRun-chunk (no_dict ∷ nodes) rs t = SameRun-chunk nodes rs t
