-- ===== src/Run/Emissions.antt =====
-- What a generator yields, as a postcondition of its outcome: one rule for each way to build one.
pub mod Quiet
pub mod Endings
pub mod Terminal
use agentchatbot_v.Prelude.{
  ℕ, ◌≡◌, refl, ap, ◌∙◌, sym, Bool, true, false, ◌||◌, List, [], ◌∷◌, ◌++◌, All, All-append, Option,
  none, some, if◌then◌else◌,
}
use agentchatbot_v.Store.Threads.{next_seq}
use mathlib.Core.List.{append-nil, append_assoc}
use agentchatbot_v.Store.Schema.{Event, RunEvent, Db, Action, Result, ok, err, Failure}
use agentchatbot_v.Run.World.{
  World, Gen, pure, raise, call, ask, ◌>>=◌, ◌>>◌, fresh_id, yield, emit, others, outage, Turn,
  take_turn,
}
use agentchatbot_v.Manager.Pump.{is_terminal, is_approval}

-- The events after which a generator yields nothing more: a terminal event, or the request for an
-- approval.
abbrev pub is_ending : RunEvent → Bool
is_ending e = is_terminal e.event || is_approval e.event

abbrev pub IsQuiet : List RunEvent → Type 0
IsQuiet = All (λ e. is_ending e ≡ false)

-- No event but the last is an ending.
abbrev pub EndsOnce : List RunEvent → Type 0
EndsOnce [] = Unit
EndsOnce (e ∷ []) = Unit
EndsOnce (e ∷ f ∷ es) = (is_ending e ≡ false) × EndsOnce (f ∷ es)

-- The outcome `x` of a call at `w` has yielded events that meet `Q`.
pub record Said {A : Type 0} (Q : Result A → List RunEvent → Type 0) (w : World)
    (x : Result A × World) : Type 0 where
  pub events : List RunEvent
  pub out_eq : x.1.out ≡ w.out ++ events
  pub meets : Q x.0 events

abbrev pub Emits : {A : Type 0} → (Result A → List RunEvent → Type 0) → Gen A → Type 0
Emits Q m = (w : World) → Said Q w (m w)

abbrev pub Quietly : {A : Type 0} → Gen A → Type 0
Quietly m = Emits (λ _ es. IsQuiet es) m

-- A postcondition that quiet events in front do not disturb.
pub record IsSteady {A : Type 0} (Q : Result A → List RunEvent → Type 0) : Type 0 where
  pub after_quiet : (r : Result A) (xs ys : List RunEvent) → IsQuiet xs → Q r ys → Q r (xs ++ ys)
  pub on_error : (e : Failure) (xs : List RunEvent) → IsQuiet xs → Q (err e) xs

pub nothing :
    {A : Type 0} (Q : Result A → List RunEvent → Type 0) (r : Result A) (w w' : World)
    → w'.out ≡ w.out
    → Q r []
    → Said Q w (r, w')
nothing Q r w w' e h = record { events = []; out_eq = e ∙ sym (append-nil w.out); meets = h }

pub Emits-bind :
    {A B : Type 0} (Q : Result B → List RunEvent → Type 0) (m : Gen A) (f : A → Gen B)
    → IsSteady Q
    → Quietly m
    → ((a : A) → Emits Q (f a))
    → Emits Q (m >>= f)
Emits-bind {A} {B} Q m f s qm qf w = go (m w) (qm w)
  where
    next : Result A × World → Result B × World
    next x = elim x.0 as (λ _. Result B × World) [ ok a ↦ f a x.1 | err e ↦ (err e, x.1) ]

    go : (x : Result A × World) → Said (λ _ es. IsQuiet es) w x → Said Q w (next x)
    go (err e, w') h = record {
      events = h.events;
      out_eq = h.out_eq;
      meets = s.on_error e h.events h.meets;
    }
    go (ok a, w') h =
        let g = qf a w' in
        record {
          events = h.events ++ g.events;
          out_eq =
              g.out_eq ∙ (ap (λ o. o ++ g.events) h.out_eq ∙ append_assoc w.out h.events g.events);
          meets = s.after_quiet (f a w').0 h.events g.events h.meets g.meets;
        }

pub IsSteady-IsQuiet : {A : Type 0} → IsSteady {A = A} (λ _ es. IsQuiet es)
IsSteady-IsQuiet = record {
  after_quiet = λ r xs ys h k. All-append _ xs ys h k;
  on_error = λ e xs h. h;
}

quiet-EndsOnce : (xs ys : List RunEvent) → IsQuiet xs → EndsOnce ys → EndsOnce (xs ++ ys)
quiet-EndsOnce [] ys h k = k
quiet-EndsOnce (x ∷ []) [] h k = tt
quiet-EndsOnce (x ∷ []) (y ∷ ys) h k = (h.0, k)
quiet-EndsOnce (x ∷ z ∷ xs) ys h k = (h.0, quiet-EndsOnce (z ∷ xs) ys h.1 k)

pub EndsOnce_of_quiet : (xs : List RunEvent) → IsQuiet xs → EndsOnce xs
EndsOnce_of_quiet [] h = tt
EndsOnce_of_quiet (x ∷ []) h = tt
EndsOnce_of_quiet (x ∷ y ∷ xs) h = (h.0, EndsOnce_of_quiet (y ∷ xs) h.1)

pub IsSteady-EndsOnce : {A : Type 0} → IsSteady {A = A} (λ _ es. EndsOnce es)
IsSteady-EndsOnce = record {
  after_quiet = λ r xs ys h k. quiet-EndsOnce xs ys h k;
  on_error = λ e xs h. EndsOnce_of_quiet xs h;
}

pub Emits-mono :
    {A : Type 0} (P Q : Result A → List RunEvent → Type 0) (m : Gen A)
    → ((r : Result A) (es : List RunEvent) → P r es → Q r es)
    → Emits P m
    → Emits Q m
Emits-mono P Q m h k w = record {
  events = (k w).events;
  out_eq = (k w).out_eq;
  meets = h (m w).0 (k w).events (k w).meets;
}

pub Quietly-pure : {A : Type 0} (a : A) → Quietly (pure a)
Quietly-pure a w = nothing _ (ok a) w w refl tt

pub Quietly-raise : {A : Type 0} (e : Failure) → Quietly (raise {A = A} e)
Quietly-raise e w = nothing _ (err e) w w refl tt

take_turn-out :
    {A : Type 0} (ts : List Turn) (m : ℕ → Action A) (w : World) → (take_turn ts m w).1.out ≡ w.out
take_turn-out [] m w = refl
take_turn-out (outage ∷ ts) m w = refl
take_turn-out (others f ∷ ts) m w = refl

pub Quietly-call : {A : Type 0} (m : ℕ → Action A) → Quietly (call m)
unfolding call
Quietly-call m w =
    nothing _ (take_turn w.turns m w).0 w (take_turn w.turns m w).1 (take_turn-out w.turns m w) tt

pub Quietly-ask : {A : Type 0} (f : Db → A) → Quietly (ask f)
unfolding ask
Quietly-ask f = Quietly-call (λ now db. (ok (f db), db))

pub Quietly-fresh_id : Quietly fresh_id
Quietly-fresh_id w = nothing _ (ok w.next_id) w (fresh_id w).1 refl tt

-- One event.
abbrev pub Just : Event → List RunEvent → Type 0
Just e [] = ⊥
Just e (x ∷ []) = x.event ≡ e
Just e (x ∷ y ∷ ys) = ⊥

pub Quietly-yield :
    (e : Event) (seq : ℕ) → (is_terminal e || is_approval e) ≡ false → Quietly (yield e seq)
Quietly-yield e seq h w = record {
  events = record { event = e; seq = seq } ∷ [];
  out_eq = refl;
  meets = (h, tt);
}

pub EndsOnce-yield : (e : Event) (seq : ℕ) → Emits (λ _ es. EndsOnce es) (yield e seq)
EndsOnce-yield e seq w = record {
  events = record { event = e; seq = seq } ∷ [];
  out_eq = refl;
  meets = tt;
}

pub Quietly-emit :
    (e : Event) (t : ℕ) → (is_terminal e || is_approval e) ≡ false → Quietly (emit e t)
unfolding emit
Quietly-emit e t h =
    Emits-bind _ (call (λ now. next_seq now t)) (λ seq. yield e seq) IsSteady-IsQuiet
      (Quietly-call (λ now. next_seq now t)) (λ seq. Quietly-yield e seq h)

pub EndsOnce-emit : (e : Event) (t : ℕ) → Emits (λ _ es. EndsOnce es) (emit e t)
unfolding emit
EndsOnce-emit e t =
    Emits-bind _ (call (λ now. next_seq now t)) (λ seq. yield e seq) IsSteady-EndsOnce
      (Quietly-call (λ now. next_seq now t)) (λ seq. EndsOnce-yield e seq)

pub Emits-if :
    {A : Type 0} (Q : Result A → List RunEvent → Type 0) (b : Bool) (m n : Gen A)
    → Emits Q m
    → Emits Q n
    → Emits Q (if b then m else n)
Emits-if Q true m n hm hn = hm
Emits-if Q false m n hm hn = hn

pub Quietly-bind :
    {A B : Type 0} (m : Gen A) (f : A → Gen B)
    → Quietly m
    → ((a : A) → Quietly (f a))
    → Quietly (m >>= f)
Quietly-bind m f = Emits-bind _ m f IsSteady-IsQuiet

pub EndsOnce-bind :
    {A B : Type 0} (m : Gen A) (f : A → Gen B)
    → Quietly m
    → ((a : A) → Emits (λ _ es. EndsOnce es) (f a))
    → Emits (λ _ es. EndsOnce es) (m >>= f)
EndsOnce-bind m f = Emits-bind _ m f IsSteady-EndsOnce

pub EndsOnce_of_Quietly : {A : Type 0} (m : Gen A) → Quietly m → Emits (λ _ es. EndsOnce es) m
EndsOnce_of_Quietly m = Emits-mono _ _ m (λ r es h. EndsOnce_of_quiet es h)

pub ruleset quiet_rules = (
  Quietly-pure, Quietly-raise, Quietly-call, Quietly-ask, Quietly-fresh_id, Quietly-yield,
  Quietly-emit, Quietly-bind, Emits-if,
)
