-- ===== src/Run/Emissions/Terminal.antt =====
-- A drive ends once: `_drive` and `_finalize`.
use agentchatbot_v.Prelude.{
  ℕ, ◌≡◌, refl, ap, ◌∙◌, Bool, true, false, Option, none, some, List, [], ◌∷◌, ◌++◌, All-append,
  arith, Bool-cases, inl, inr,
}
use mathlib.Core.List.{append_assoc}
use agentchatbot_v.Store.Schema.{RunEvent, Result, ok, err, agent_error}
use agentchatbot_v.Run.World.{World, Gen, pure, ◌>>=◌, ◌>>◌, request_cancel}
use agentchatbot_v.Run.Chat.{Chunk, interrupt, updates, Item, chunk, crash, Round}
use agentchatbot_v.Run.Handle.{Running}
use agentchatbot_v.Run.Drive.{
  heed, handle_item, cancel_or_handle, round_of, loop, after_loop, drive,
}
use agentchatbot_v.Run.Emissions.{
  IsQuiet, EndsOnce, Said, Emits, Quietly, IsSteady, Emits-bind, nothing, IsSteady-EndsOnce,
}
use agentchatbot_v.Run.Emissions.Quiet.{Quietly-handle_chunk}
use agentchatbot_v.Run.Emissions.Endings.{
  Ending-finalize, Ending-fail_run, Last, Last-stop_cancelled, Last-pause,
}

-- In the loop: an ending was yielded only if the generator is over.
abbrev Loops : Result (Option Running) → List RunEvent → Type 0
Loops (ok none) es = EndsOnce es
Loops (ok (some _)) es = IsQuiet es
Loops (err _) es = IsQuiet es

IsSteady-Loops : IsSteady Loops
IsSteady-Loops = record { after_quiet = go; on_error = λ e xs h. h }
  where
    go :
        (r : Result (Option Running)) (xs ys : List RunEvent)
        → IsQuiet xs
        → Loops r ys
        → Loops r (xs ++ ys)
    go (ok none) xs ys h k = IsSteady-EndsOnce.after_quiet (ok tt) xs ys h k
    go (ok (some rs)) xs ys h k = All-append _ xs ys h k
    go (err e) xs ys h k = All-append _ xs ys h k

Loops-bind :
    {A : Type 0} (m : Gen A) (f : A → Gen (Option Running))
    → Quietly m
    → ((a : A) → Emits Loops (f a))
    → Emits Loops (m >>= f)
Loops-bind m f = Emits-bind _ m f IsSteady-Loops

-- The generator is over.
Loops-over : (m : Gen (Unit {0})) → Emits Last m → Emits Loops (m >> pure none)
Loops-over m h w = go (m w) (h w)
  where
    next : Result (Unit {0}) × World → Result (Option Running) × World
    next x = elim x.0 as (λ _. Result (Option Running) × World) [
      | ok a ↦ (ok none, x.1)
      | err e ↦ (err e, x.1)
    ]

    go : (x : Result (Unit {0}) × World) → Said Last w x → Said Loops w (next x)
    go (ok a, w') k = record { events = k.events; out_eq = k.out_eq; meets = k.meets }
    go (err e, w') k = record { events = k.events; out_eq = k.out_eq; meets = k.meets }

Loops-handle_item : (c : Chunk) (rs : Running) (t : ℕ) → Emits Loops (handle_item c rs t)
unfolding handle_item
Loops-handle_item (interrupt is) rs t = Loops-over _ (Last-pause rs.run_id t is)
Loops-handle_item (updates nodes) rs t =
    Loops-bind _ _ (Quietly-handle_chunk nodes rs t)
      λ rs'. λ w. nothing Loops (ok (some rs')) w w refl tt

Loops-cancel_or_handle :
    (b : Bool) (c : Chunk) (rs : Running) (t : ℕ) → Emits Loops (cancel_or_handle b c rs t)
Loops-cancel_or_handle true c rs t = Loops-over _ (Last-stop_cancelled rs.run_id t)
Loops-cancel_or_handle false c rs t = Loops-handle_item c rs t

request_cancel-out : (r : ℕ) (w : World) → (request_cancel r w).1.out ≡ w.out
unfolding request_cancel
request_cancel-out r w = ground arith

Quietly-heed : (round : Round) (r : ℕ) → Quietly (heed round r)
Quietly-heed round r w = elim (Bool-cases round.cancel) [
  | inl e ↦ rw e (nothing _ _ w _ (request_cancel-out r w) tt)
  | inr e ↦ rw e (nothing _ _ w w refl tt)
]

Loops-round_of :
    (item : Item) (round : Round) (rs : Running) (t : ℕ) → Emits Loops (round_of item round rs t)
unfolding round_of
Loops-round_of crash round rs t = λ w. nothing Loops (err agent_error) w w refl tt
Loops-round_of (chunk c) round rs t =
    Loops-bind _ _ (Quietly-heed round rs.run_id) (λ b. Loops-cancel_or_handle b c rs t)

-- After one round: over, or on with the rest.
Loops-next :
    (m : Gen (Option Running)) (f : Running → Gen (Option Running))
    → Emits Loops m
    → ((rs : Running) → Emits Loops (f rs))
    → Emits Loops (m >>= λ next. elim next [ none ↦ pure none | some rs' ↦ f rs' ])
Loops-next m f h g w = go (m w) (h w)
  where
    next : Result (Option Running) × World → Result (Option Running) × World
    next x = elim x.0 as (λ _. Result (Option Running) × World) [
      | ok o ↦ (elim o as (λ _. Gen (Option Running)) [ none ↦ pure none | some rs' ↦ f rs' ]) x.1
      | err e ↦ (err e, x.1)
    ]

    go : (x : Result (Option Running) × World) → Said Loops w x → Said Loops w (next x)
    go (ok none, w') k = k
    go (ok (some rs), w') k =
        let j = g rs w' in
        record {
          events = k.events ++ j.events;
          out_eq =
              j.out_eq ∙ (ap (λ o. o ++ j.events) k.out_eq ∙ append_assoc w.out k.events j.events);
          meets = IsSteady-Loops.after_quiet (f rs w').0 k.events j.events k.meets j.meets;
        }
    go (err e, w') k = k

Loops-loop : (rounds : List Round) (rs : Running) (t : ℕ) → Emits Loops (loop rounds rs t)
unfolding loop
Loops-loop [] rs t = λ w. nothing Loops (ok (some rs)) w w refl tt
Loops-loop (round ∷ rounds) rs t =
    Loops-next (round_of round.item round rs t) (λ rs'. loop rounds rs' t)
      (Loops-round_of round.item round rs t) (λ rs'. Loops-loop rounds rs' t)

then_end :
    {m : Gen (Unit {0})} (w w' : World)
    → Emits (λ _ es. EndsOnce es) m
    → (es : List RunEvent) → w'.out ≡ w.out ++ es
    → IsQuiet es
    → Said (λ _ fs. EndsOnce fs) w (m w')
then_end {m} w w' h es e q =
    let j = h w' in
    record {
      events = es ++ j.events;
      out_eq = j.out_eq ∙ (ap (λ o. o ++ j.events) e ∙ append_assoc w.out es j.events);
      meets = IsSteady-EndsOnce.after_quiet (m w').0 es j.events q j.meets;
    }

ended :
    (rs : Running) (t : ℕ) (w : World) (x : Result (Option Running) × World)
    → Said Loops w x
    → Said {A = Unit {0}} (λ _ es. EndsOnce es) w (after_loop rs t x.0 x.1)
ended rs t w (ok none, w') k = record { events = k.events; out_eq = k.out_eq; meets = k.meets }
ended rs t w (ok (some rs'), w') k = then_end w w' (Ending-finalize rs' t) k.events k.out_eq k.meets
ended rs t w (err e, w') k = then_end w w' (Ending-fail_run rs.run_id t) k.events k.out_eq k.meets

-- Whatever the agent streams, whatever the other instances do between the calls and whichever calls
-- of the repository fail, a drive yields at most one ending event (run.done, error or
-- approval.requested), and yields nothing after it.
pub drive_ends_once :
    (rounds : List Round) (rs : Running) (t : ℕ) (w : World)
    → (es : List RunEvent) × ((drive rounds rs t w).1.out ≡ w.out ++ es) × EndsOnce es
unfolding drive
drive_ends_once rounds rs t w =
    let s = ended rs t w (loop rounds rs t w) (Loops-loop rounds rs t w) in
    (s.events, s.out_eq, s.meets)
