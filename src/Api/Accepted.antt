-- ===== src/Api/Accepted.antt =====
-- What is known of a request that a handler of app.py lets through.
use agentchatbot_v.Prelude.{
  ℕ, ◌≡◌, refl, ap, subst, ◌∙◌, Bool, true, ◌&&◌, not, Option, none, some, arith, if◌then◌else◌,
}
use agentchatbot_v.Text.{Text, codes, strip, is_empty}
use agentchatbot_v.Json.{Json, Fields, get_value}
use agentchatbot_v.Store.Threads.{get_settings}
use agentchatbot_v.Run.World.{World, ask}
use agentchatbot_v.Run.Service.{RunService}
use agentchatbot_v.Manager.Control.{start}
use agentchatbot_v.Api.Outcome.{done, Api, reply, catch, within, ◌>>=◌, must, some_or}
use agentchatbot_v.Api.Guards.{is_clean, max_message, message_of, required_text}
use agentchatbot_v.Api.Threads.{existing}
use agentchatbot_v.Api.Runs.{
  active_is_409, start_run, post_message, model_for, is_available, known, saved_in, named_model,
}
use agentchatbot_v.Api.Invert.{bind_done, must_done, some_or_done, done_inj, is_done}

-- A text that a run may start with.
abbrev pub is_message : Text → Bool
is_message s = is_clean max_message s && not (is_empty (strip s))

abbrev pub is_known : RunService → Option Text → Bool
is_known svc none = true
is_known svc (some m) = is_available svc m

required_text_lem :
    (n : ℕ) (o : Option Json) (s : Text) → required_text n o ≡ some s → is_clean n s ≡ true
unfolding required_text
required_text_lem n none s e = ground arith
required_text_lem n (some Json.null) s e = ground arith
required_text_lem n (some (Json.bool b)) s e = ground arith
required_text_lem n (some (Json.int i)) s e = ground arith
required_text_lem n (some (Json.float b)) s e = ground arith
required_text_lem n (some (Json.array xs)) s e = ground arith
required_text_lem n (some (Json.object fs)) s e = ground arith
required_text_lem n (some (Json.text t)) s e = ground arith

message_of_lem : (o : Option Json) (s : Text) → message_of o ≡ some s → is_message s ≡ true
unfolding message_of
message_of_lem o s e = go (required_text max_message o) (required_text_lem max_message o) e
  where
    go :
        (x : Option Text)
        → ((t : Text) → x ≡ some t → is_clean max_message t ≡ true)
        → (elim x [ none ↦ none | some t ↦ if is_empty (strip t) then none else some t ]) ≡ some s
        → is_message s ≡ true
    go none k q = ground arith
    go (some t) k q = ground (arith, k t refl)

known-is_known : (svc : RunService) (o : Option Text) → is_known svc (known svc o) ≡ true
known-is_known svc none = refl
known-is_known svc (some m) = ground arith

named-is_known :
    (svc : RunService) (j : Json) (w v : World) (model : Option Text)
    → named_model svc j w ≡ (done model, v)
    → is_known svc model ≡ true
named-is_known svc (Json.text m) w v model e =
    let (_, u, p, q) =
      bind_done (must (is_available svc m) 422) (λ _. reply (some m)) w v model e in
    subst (λ k. is_known svc k ≡ true) (done_inj _ _ (ap (λ x. x.0) q))
      (must_done (is_available svc m) 422 w u _ p).0
named-is_known svc j w v model e = ground (arith, ap (λ x. is_done x.0) e)

model_for_known :
    (svc : RunService) (o : Option Json) (w v : World) (model : Option Text)
    → model_for svc o w ≡ (done model, v)
    → is_known svc model ≡ true
unfolding model_for
model_for_known svc none w v model e =
    let (row, u, p, q) =
      bind_done (within (ask (get_settings (codes "global"))))
        (λ row. reply (known svc (saved_in row))) w v model e in
    subst (λ m. is_known svc m ≡ true) (done_inj _ _ (ap (λ x. x.0) q))
      (known-is_known svc (saved_in row))
model_for_known svc (some j) w v model e = named-is_known svc j w v model e

start_run_lem :
    (uuid_of : Json → Option ℕ) (svc : RunService) (thread m : Text) (k : Option Text) (w v : World)
    (x : ℕ × Text × Option Text)
    → start_run uuid_of svc thread m k w ≡ (done x, v)
    → (m ≡ x.1) × (k ≡ x.2)
unfolding start_run
start_run_lem uuid_of svc thread m k w v x e =
    let (t, u, p, q) = bind_done (existing uuid_of thread) started w v x e in
    let (r, u', p', q') =
      bind_done (catch active_is_409 (start svc t k)) (λ r. reply (r, m, k)) u v x q in
    let same = done_inj (r, m, k) x (ap (λ y. y.0) q') in (ap (λ y. y.1) same, ap (λ y. y.2) same)
  where
    started : ℕ → Api (ℕ × Text × Option Text)
    started t = catch active_is_409 (start svc t k) >>= λ r. reply (r, m, k)

-- Whatever the other instances do meanwhile: a run that `post_message` starts has a message without
-- NUL and surrogates, of at most 100,000 characters, not all of them white space, and a model of the
-- registry, if any.
pub post_message_accepts :
    (uuid_of : Json → Option ℕ) (svc : RunService) (thread : Text) (body : Fields) (w v : World)
    (r : ℕ) (message : Text) (model : Option Text)
    → post_message uuid_of svc thread body w ≡ (done (r, message, model), v)
    → (is_message message ≡ true) × (is_known svc model ≡ true)
unfolding post_message
post_message_accepts uuid_of svc thread body w v r message model e =
    let (m, u, p, q) =
      bind_done (some_or (message_of (get_value (codes "message") body)) 422) with_message w v
        (r, message, model) e in
    let (k, u', p', q') =
      bind_done (model_for svc (get_value (codes "model") body)) (start_run uuid_of svc thread m) u
        v (r, message, model) q in
    let (m≡, k≡) = start_run_lem uuid_of svc thread m k u' v (r, message, model) q' in
    (
      message_of_lem (get_value (codes "message") body) message
          ((some_or_done _ 422 w u m p).0 ∙ ap some m≡),
      subst (λ o. is_known svc o ≡ true) k≡
          (model_for_known svc (get_value (codes "model") body) u u' k p'),
    )
  where
    with_message : Text → Api (ℕ × Text × Option Text)
    with_message m =
        model_for svc (get_value (codes "model") body) >>= λ k. start_run uuid_of svc thread m k
