-- ===== src/Run/Emissions/Endings.antt =====
-- The events of the branches that end a drive.
use agentchatbot_v.Prelude.{ℕ, refl, Option, none, some, List, [], ◌∷◌, ◌++◌, All-append}
use agentchatbot_v.Text.{Text}
use agentchatbot_v.Store.Schema.{Event, RunEvent, Result, ok, err}
use agentchatbot_v.Run.World.{Gen, ◌>>=◌, emit, yield}
use agentchatbot_v.Run.Chat.{interrupt_detail}
use agentchatbot_v.Store.Messages.{get_pending_tool_calls}
use agentchatbot_v.Run.Handle.{Running}
use agentchatbot_v.Run.Finalize.{withhold, announce, publish, settle, finalize}
use agentchatbot_v.Run.Drive.{stop_cancelled, pause, fail_run}
use agentchatbot_v.Run.Emissions.{
  IsQuiet, EndsOnce, Emits, Quietly, IsSteady, EndsOnce-bind, EndsOnce-emit, EndsOnce_of_Quietly,
  EndsOnce_of_quiet, Emits-bind, Emits-if, Emits-mono, Quietly-call, Quietly-ask, Quietly-fresh_id,
  Quietly-yield, Quietly-pure, IsSteady-EndsOnce,
}

abbrev Ending : {A : Type 0} → Gen A → Type 0
Ending m = Emits (λ _ es. EndsOnce es) m

Ending-withhold : (forged : List Text) (rs : Running) (t : ℕ) → Ending (withhold forged rs t)
unfolding withhold
Ending-withhold forged rs t =
    EndsOnce-bind _ _ (Quietly-call _)
      λ won. Emits-if _ won _ _ (EndsOnce-emit _ t) (EndsOnce_of_Quietly _ (Quietly-pure tt))

Ending-announce :
    (final : Text) (cited : List Text) (rs : Running) (t : ℕ) (res : Option (ℕ × ℕ))
    → Ending (announce final cited rs t res)
Ending-announce final cited rs t none = EndsOnce_of_Quietly _ (Quietly-pure tt)
Ending-announce final cited rs t (some (mid, seq)) =
    EndsOnce-bind _ _ (Quietly-yield _ seq refl)
      (λ _. EndsOnce-emit (Event.run_done rs.run_id none) t)

Ending-publish :
    (final : Text) (cited : List Text) (rs : Running) (t : ℕ) → Ending (publish final cited rs t)
unfolding publish
Ending-publish final cited rs t =
    EndsOnce-bind _ _ Quietly-fresh_id
      λ mid. EndsOnce-bind _ _ (Quietly-call _) (λ res. Ending-announce final cited rs t res)

Ending-settle :
    (forged : List Text) (body : Text) (rs : Running) (t : ℕ) → Ending (settle forged body rs t)
Ending-settle [] body rs t = Ending-publish _ _ rs t
Ending-settle (c ∷ cs) body rs t = Ending-withhold (c ∷ cs) rs t

pub Ending-finalize : (rs : Running) (t : ℕ) → Emits (λ _ es. EndsOnce es) (finalize rs t)
unfolding finalize
Ending-finalize rs t = EndsOnce-bind _ _ (Quietly-ask _) (λ cites. Ending-settle _ _ rs t)

pub Ending-fail_run : (r t : ℕ) → Ending (fail_run r t)
unfolding fail_run
Ending-fail_run r t = EndsOnce-bind _ _ (Quietly-call _) λ won.
    Emits-if _ won _ _ (EndsOnce-bind _ _ (Quietly-call _) (λ _. EndsOnce-emit _ t))
      (EndsOnce_of_Quietly _ (Quietly-pure tt))

-- The ending is the last thing that succeeds: an outcome that is an exception has been quiet.
abbrev pub Last : {A : Type 0} → Result A → List RunEvent → Type 0
Last (ok _) es = EndsOnce es
Last (err _) es = IsQuiet es

IsSteady-Last : {A : Type 0} → IsSteady {A = A} Last
IsSteady-Last {A} = record { after_quiet = go; on_error = λ e xs h. h }
  where
    go : (r : Result A) (xs ys : List RunEvent) → IsQuiet xs → Last r ys → Last r (xs ++ ys)
    go (ok a) xs ys h k = IsSteady-EndsOnce.after_quiet (ok a) xs ys h k
    go (err e) xs ys h k = All-append _ xs ys h k

Last-yield : (e : Event) (seq : ℕ) → Emits Last (yield e seq)
Last-yield e seq w = record {
  events = record { event = e; seq = seq } ∷ [];
  out_eq = refl;
  meets = tt;
}

Last-emit : (e : Event) (t : ℕ) → Emits Last (emit e t)
unfolding emit
Last-emit e t =
    Emits-bind _ _ (λ seq. yield e seq) IsSteady-Last (Quietly-call _) (λ seq. Last-yield e seq)

Last-bind :
    {A B : Type 0} (m : Gen A) (f : A → Gen B)
    → Quietly m
    → ((a : A) → Emits Last (f a))
    → Emits Last (m >>= f)
Last-bind m f = Emits-bind _ m f IsSteady-Last

Last-of_Quietly : {A : Type 0} (m : Gen A) → Quietly m → Emits Last m
Last-of_Quietly {A} m = Emits-mono _ _ m go
  where
    go : (r : Result A) (es : List RunEvent) → IsQuiet es → Last r es
    go (ok a) es h = EndsOnce_of_quiet es h
    go (err e) es h = h

pub Last-stop_cancelled : (r t : ℕ) → Emits Last (stop_cancelled r t)
unfolding stop_cancelled
Last-stop_cancelled r t = Last-bind _ _ (Quietly-call _) λ _.
    Last-bind _ _ (Quietly-call _)
      λ won. Emits-if _ won _ _ (Last-emit _ t) (Last-of_Quietly _ (Quietly-pure tt))

pub Last-pause : (r t : ℕ) (is : List (Option Text)) → Emits Last (pause r t is)
unfolding pause
Last-pause r t is = Last-bind _ _ (Quietly-call _) λ _. Last-bind _ _ (Quietly-call _) λ _.
    Last-bind _ _ (Quietly-ask (get_pending_tool_calls r))
      λ tools. Last-emit (Event.approval_requested r tools (interrupt_detail is)) t
