-- ===== src/Api/Selected.antt =====
-- The checks of the route of approvals while no other instance acts.
use agentchatbot_v.Prelude.{
  ℕ, ◌≡◌, refl, sym, ap, ◌∙◌, Bool, true, false, not, Option, none, some, List, [], arith,
  if◌then◌else◌,
}
use agentchatbot_v.Text.{Text}
use agentchatbot_v.Json.{Json}
use agentchatbot_v.Store.Schema.{Status, same_status, Result, ok, err, value_error}
use agentchatbot_v.Store.Runs.{get_active_run}
use agentchatbot_v.Store.Threads.{thread_exists}
use agentchatbot_v.Store.Messages.{get_pending_tool_calls}
use agentchatbot_v.Run.World.{World, pure, raise, ask}
use agentchatbot_v.Run.Alone.{ask_alone, bind_alone}
use agentchatbot_v.Manager.Control.{resume_run, waiting_run}
use agentchatbot_v.Api.Outcome.{done, Api, reply, within, ◌>>=◌, ◌>>◌, must, some_or}
use agentchatbot_v.Api.Threads.{existing}
use agentchatbot_v.Api.Runs.{selects, is_stale}
use agentchatbot_v.Api.Invert.{bind_done, bind_value, must_done, some_or_done, within-ask}

-- The scope for which `resume` rejects every call and ends the run.
abbrev pub is_rejection : Option (List Text) → Bool
is_rejection (some []) = true
is_rejection _ = false

abbrev is_ok : {A : Type 0} → Result A → Bool
is_ok (ok a) = true
is_ok (err e) = false

abbrev ok_or : {A : Type 0} → A → Result A → A
ok_or a (ok b) = b
ok_or a (err e) = a

pub existing_alone :
    (uuid_of : Json → Option ℕ) (thread : Text) (w v : World) (t : ℕ)
    → w.turns ≡ []
    → existing uuid_of thread w ≡ (done t, v)
    → v ≡ w
unfolding existing
existing_alone uuid_of thread w v t h e =
    let (s, u, p, q) = bind_done (some_or (uuid_of (Json.text thread)) 404) known w v t e in
    let (b, u', p', q') =
      bind_done (within (ask (thread_exists (some s)))) (λ b. must b 404 >> reply s) u v t q in
    let (_, u2, p2, q2) = bind_done (must b 404) (λ _. reply s) u' v t q' in
    let at_start : u ≡ w = (some_or_done (uuid_of (Json.text thread)) 404 w u s p).1 in
    sym (ap (λ y. y.1) q2)
    ∙ ((must_done b 404 u' u2 _ p2).1
        ∙ (sym (
              ap (λ y. y.1)
                (sym (within-ask (thread_exists (some s)) u (ap (λ z. z.turns) at_start ∙ h)) ∙ p'))
            ∙ at_start))
  where
    known : ℕ → Api ℕ
    known s = within (ask (thread_exists (some s))) >>= λ b. must b 404 >> reply s

pub resume_run_lem :
    (t r : ℕ) (w v : World)
    → w.turns ≡ []
    → resume_run t w ≡ (ok r, v)
    → (s : Status) × (get_active_run t w.db ≡ some (r, s))
      × (same_status s Status.awaiting_approval ≡ true)
unfolding resume_run
resume_run_lem t r w v h e = go (get_active_run t w.db) (
    sym (
      bind_alone (ask (get_active_run t)) waiting_run w w (get_active_run t w.db)
        (ask_alone (get_active_run t) w h))
    ∙ e)
  where
    go :
        (o : Option (ℕ × Status))
        → waiting_run o w ≡ (ok r, v)
        → (s : Status) × (o ≡ some (r, s)) × (same_status s Status.awaiting_approval ≡ true)
    go none q = ground (arith, ap (λ y. ok_or r y.0) q)
    go (some (k, s)) q = waits (same_status s Status.awaiting_approval) refl q
      where
        at : ℕ → Status → Option (ℕ × Status)
        at n s' = some (n, s')

        waits :
            (b : Bool)
            → same_status s Status.awaiting_approval ≡ b
            → (if b then pure k else raise value_error) w ≡ (ok r, v)
            → (s' : Status) × (at k s ≡ at r s') × (same_status s' Status.awaiting_approval ≡ true)
        waits true y q = (s, ap (λ z. at (ok_or r z.0) s) q, y)
        waits false n q = ground (arith, ap (λ z. is_ok z.0) q)

pub selects_alone :
    (t : ℕ) (ids : List Text) (o : Option (ℕ × Status)) (w v : World) (x : Unit {0})
    → w.turns ≡ []
    → selects t ids o w ≡ (done x, v)
    → v ≡ w
selects_alone t ids none w v x h e = sym (ap (λ y. y.1) e)
selects_alone t ids (some (r, s)) w v x h e = go (same_status s Status.awaiting_approval) e
  where
    go :
        (b : Bool)
        → (if b
              then (within (ask (get_pending_tool_calls r)) >>= λ pending.
                  must (not (is_stale ids pending)) 422)
              else reply tt)
            w
          ≡ (done x, v)
        → v ≡ w
    go true q =
        (must_done (not (is_stale ids (get_pending_tool_calls r w.db))) 422 w v x (
          sym (
            bind_value (within (ask (get_pending_tool_calls r)))
              (λ pending. must (not (is_stale ids pending)) 422) w w (get_pending_tool_calls r w.db)
              (within-ask (get_pending_tool_calls r) w h))
          ∙ q)).1
    go false q = sym (ap (λ y. y.1) q)
