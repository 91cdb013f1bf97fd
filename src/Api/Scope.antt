-- ===== src/Api/Scope.antt =====
-- What the route of approvals hands on to the run service.
use agentchatbot_v.Prelude.{
  ℕ, ◌≡◌, sym, ap, subst, ◌∙◌, Bool, true, false, not, Option, some, List, [], ◌∷◌, arith,
  if◌then◌else◌, exists, select,
}
use agentchatbot_v.Text.{Text, codes}
use agentchatbot_v.Json.{Json, Fields, get, get_value, is_true}
use agentchatbot_v.Store.Schema.{Status, same_status, PendingCall, ok}
use agentchatbot_v.Store.Runs.{get_active_run}
use agentchatbot_v.Store.Messages.{get_pending_tool_calls}
use agentchatbot_v.Run.World.{World, ask}
use agentchatbot_v.Run.Service.{waits_for, scope_of}
use agentchatbot_v.Manager.Control.{resume_run}
use agentchatbot_v.Api.Outcome.{done, Api, reply, catch, within, ◌>>=◌, must, some_or}
use agentchatbot_v.Api.Guards.{selection_of, true_or}
use agentchatbot_v.Api.Threads.{existing}
use agentchatbot_v.Api.Runs.{
  approve, approve_checked, selection_check, selects, is_stale, value_is_409,
}
use agentchatbot_v.Api.Invert.{
  bind_done, bind_value, must_done, some_or_done, within-ask, done_inj, catch_done,
}
use agentchatbot_v.Api.Selected.{is_rejection, existing_alone, resume_run_lem, selects_alone}

-- The check asks for the active run and goes on with `selects`.
checked_alone :
    (t : ℕ) (c : Text) (cs : List Text) (w v : World) (x : Unit {0})
    → w.turns ≡ []
    → selection_check t (some (c ∷ cs)) w ≡ (done x, v)
    → selects t (c ∷ cs) (get_active_run t w.db) w ≡ (done x, v)
unfolding selection_check
checked_alone t c cs w v x h e =
    sym (
      bind_value (within (ask (get_active_run t))) (selects t (c ∷ cs)) w w (get_active_run t w.db)
        (within-ask (get_active_run t) w h))
    ∙ e

selection_check_alone :
    (t : ℕ) (c : Text) (cs : List Text) (w v : World) (x : Unit {0})
    → w.turns ≡ []
    → selection_check t (some (c ∷ cs)) w ≡ (done x, v)
    → v ≡ w
selection_check_alone t c cs w v x h e =
    selects_alone t (c ∷ cs) (get_active_run t w.db) w v x h (checked_alone t c cs w v x h e)

selection_check_lem :
    (t r : ℕ) (s : Status) (c : Text) (cs : List Text) (w v : World) (x : Unit {0})
    → w.turns ≡ []
    → get_active_run t w.db ≡ some (r, s)
    → same_status s Status.awaiting_approval ≡ true
    → selection_check t (some (c ∷ cs)) w ≡ (done x, v)
    → (v ≡ w) × (exists (waits_for (get_pending_tool_calls r w.db)) (c ∷ cs) ≡ true)
selection_check_lem t r s c cs w v x h a b e =
    let checked : selects t (c ∷ cs) (some (r, s)) w ≡ (done x, v) =
      ap (λ o. selects t (c ∷ cs) o w) (sym a) ∙ checked_alone t c cs w v x h e in
    let tested = must_done (not (is_stale (c ∷ cs) (get_pending_tool_calls r w.db))) 422 w v x (
      sym (
        bind_value (within (ask (get_pending_tool_calls r)))
          (λ pending. must (not (is_stale (c ∷ cs) pending)) 422) w w
          (get_pending_tool_calls r w.db) (within-ask (get_pending_tool_calls r) w h))
      ∙ (sym (ap (λ z. (if z then selected else reply tt) w) b) ∙ checked)) in
    (tested.1, ground (arith, tested.0))
  where
    selected : Api (Unit {0})
    selected = within (ask (get_pending_tool_calls r)) >>= λ pending.
        must (not (is_stale (c ∷ cs) pending)) 422

selected_some :
    (p : Text → Bool) (ids : List Text)
    → exists p ids ≡ true
    → is_rejection (some (select p ids)) ≡ false
selected_some p [] e = ground arith
selected_some p (c ∷ cs) e = ground (arith, selected_some p cs)

selected_scope :
    (approval : Bool) (ids : List Text) (pending : List PendingCall)
    → exists (waits_for pending) ids ≡ true
    → is_rejection (scope_of approval (some ids) pending) ≡ false
unfolding scope_of
selected_scope true ids pending e = selected_some (waits_for pending) ids e
selected_scope false ids pending e = selected_some (waits_for pending) ids e

approve_checked_lem :
    (t : ℕ) (given : Bool) (ids : Option (List Text)) (w v : World) (r : ℕ) (approval : Bool)
    (c : Text) (cs : List Text)
    → w.turns ≡ []
    → approve_checked t given ids w ≡ (done (r, approval, some (c ∷ cs)), v)
    → is_rejection (scope_of approval (some (c ∷ cs)) (get_pending_tool_calls r w.db)) ≡ false
unfolding approve_checked
approve_checked_lem t given ids w v r approval c cs h e =
    let (x, u, p, q) =
      bind_done (selection_check t ids) resumed w v (r, approval, some (c ∷ cs)) e in
    let (k, u1, p1, q1) =
      bind_done (catch value_is_409 (resume_run t)) (λ k. reply (k, given, ids)) u v
        (r, approval, some (c ∷ cs)) q in
    let same = done_inj (k, given, ids) (r, approval, some (c ∷ cs)) (ap (λ y. y.0) q1) in
    let picked : selection_check t (some (c ∷ cs)) w ≡ (done x, u) =
      subst (λ o. selection_check t o w ≡ (done x, u)) (ap (λ y. y.2) same) p in
    let here = selection_check_alone t c cs w u x h picked in
    let resumes : resume_run t w ≡ (ok k, u1) =
      subst (λ y. resume_run t y ≡ (ok k, u1)) here
        (catch_done value_is_409 (resume_run t) u u1 k p1) in
    let (s, active, waits) = resume_run_lem t k w u1 h resumes in
    let chosen = selection_check_lem t k s c cs w u x h active waits picked in
    selected_scope approval (c ∷ cs) (get_pending_tool_calls r w.db) (
      subst (λ n. exists (waits_for (get_pending_tool_calls n w.db)) (c ∷ cs) ≡ true)
        (ap (λ y. y.0) same) chosen.1)
  where
    resumed : Unit {0} → Api (ℕ × Bool × Option (List Text))
    resumed _ = catch value_is_409 (resume_run t) >>= λ k. reply (k, given, ids)

-- A request that selects some of the waiting tool calls is never turned into a rejection of all: if
-- the route accepts it, the scope that `resume` computes for the run is not the empty selection. The
-- condition is that no other instance acts and no call fails meanwhile.
pub approve_keeps_selection :
    (uuid_of : Json → Option ℕ) (thread : Text) (body : Fields) (w v : World) (r : ℕ)
    (approval : Bool) (c : Text) (cs : List Text)
    → w.turns ≡ []
    → approve uuid_of thread body w ≡ (done (r, approval, some (c ∷ cs)), v)
    → is_rejection (scope_of approval (some (c ∷ cs)) (get_pending_tool_calls r w.db)) ≡ false
unfolding approve approve_checked
approve_keeps_selection uuid_of thread body w v r approval c cs h e =
    let (t, u, p, q) =
      bind_done (existing uuid_of thread) known w v (r, approval, some (c ∷ cs)) e in
    let (ids, u1, p1, q1) =
      bind_done (some_or (selection_of (get_value (codes "approved") body)) 422)
        (approve_checked t (is_true (true_or (get (codes "approve") body)))) u v
        (r, approval, some (c ∷ cs)) q in
    let here : u1 ≡ w =
      (some_or_done (selection_of (get_value (codes "approved") body)) 422 u u1 ids p1).1
      ∙ existing_alone uuid_of thread w u t h p in
    approve_checked_lem t (is_true (true_or (get (codes "approve") body))) ids w v r approval c cs h
      (subst
        (λ y.
          approve_checked t (is_true (true_or (get (codes "approve") body))) ids y
          ≡ (done (r, approval, some (c ∷ cs)), v))
        here q1)
  where
    known : ℕ → Api (ℕ × Bool × Option (List Text))
    known t = some_or (selection_of (get_value (codes "approved") body)) 422 >>= λ ids.
        approve_checked t (is_true (true_or (get (codes "approve") body))) ids
