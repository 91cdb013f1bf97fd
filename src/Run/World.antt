-- ===== src/Run/World.antt =====
-- A generator of the run service as a function on the world: it calls the repository, yields
-- events and may raise. Every repository call first gives the floor to the other instances: the
-- schedule `turns` says what they did to the database meanwhile, or that the call failed.
use agentchatbot_v.Prelude.{
  ℕ, ◌+◌, Bool, true, false, Option, none, some, List, [], ◌∷◌, ◌++◌, ◌==◌, if◌then◌else◌,
}
use agentchatbot_v.Store.Schema.{Event, RunEvent, Db, Action, Result, ok, err, Failure, db_down}
use agentchatbot_v.Store.Threads.{next_seq}

pub data Turn : Type 0 where
  others : (Db → Db) → Turn
  outage : Turn

-- `cancels` is `RunService._cancels` and `active` is `RunManager._active`; `out` is what was
-- yielded so far; `next_id` is the next value of uuid4, which never gives an identifier twice.
pub record World : Type 0 where
  pub db : Db
  pub turns : List Turn
  pub cancels : List (ℕ × Bool)
  pub active : List ℕ
  pub out : List RunEvent
  pub now : ℕ
  pub next_id : ℕ

abbrev pub Gen : Type 0 → Type 0
Gen A = World → Result A × World

module _ {A : Type 0} where
  abbrev pub pure : A → Gen A
  pure a w = (ok a, w)

  abbrev pub raise : Failure → Gen A
  raise e w = (err e, w)

  abbrev pub perform : Action A → Gen A
  perform m w = let (r, db') = m w.db in (r, record w { db = db' })

  abbrev pub take_turn : List Turn → (ℕ → Action A) → Gen A
  take_turn [] m w = perform (m w.now) w
  take_turn (outage ∷ ts) m w = (err db_down, record w { turns = ts })
  take_turn (others f ∷ ts) m w = perform (m w.now) (record w { db = f w.db; turns = ts })

  -- One repository call. `outage` stands for a lost connection or an exhausted pool.
  unfoldable pub call : (ℕ → Action A) → Gen A
  call m w = take_turn w.turns m w

  -- A repository call that only reads.
  unfoldable pub ask : (Db → A) → Gen A
  unfolding call
  ask f = call (λ now db. (ok (f db), db))

  -- `try: ... except Exception`, with the outcome as a value
  abbrev pub attempt : Gen A → Gen (Result A)
  attempt m w = let (r, w') = m w in (ok r, w')

  -- `finally`
  abbrev pub ensure : Gen A → (World → World) → Gen A
  ensure m f w = let (r, w') = m w in (r, f w')

infixl 5 ◌>>=◌ ◌>>◌
abbrev pub ◌>>=◌ : {A B : Type 0} → Gen A → (A → Gen B) → Gen B
◌>>=◌ m f w = let (r, w') = m w in elim r [ ok a ↦ f a w' | err e ↦ (err e, w') ]

abbrev pub ◌>>◌ : {A B : Type 0} → Gen A → Gen B → Gen B
m >> k = m >>= λ _. k

abbrev pub fresh_id : Gen ℕ
fresh_id w = (ok w.next_id, record w { next_id = w.next_id + 1 })

abbrev pub yield : Event → ℕ → Gen (Unit {0})
yield e seq w = (ok tt, record w { out = w.out ++ record { event = e; seq = seq } ∷ [] })

-- `_emit`
unfoldable pub emit : Event → ℕ → Gen (Unit {0})
unfolding call
emit e t = do seq ← call (λ now. next_seq now t); yield e seq

-- The flags of `_cancels`.
unfoldable pub flag : ℕ → List (ℕ × Bool) → Option Bool
flag r [] = none
flag r ((q, b) ∷ fs) = if q == r then some b else flag r fs

unfoldable pub pop_flag : ℕ → List (ℕ × Bool) → List (ℕ × Bool)
pop_flag r [] = []
pop_flag r ((q, b) ∷ fs) = let rest = pop_flag r fs in if q == r then rest else (q, b) ∷ rest

set_flag : ℕ → List (ℕ × Bool) → List (ℕ × Bool)
set_flag r [] = []
set_flag r ((q, b) ∷ fs) = (q, (if q == r then true else b)) ∷ set_flag r fs

-- `request_cancel`
unfoldable pub request_cancel : ℕ → Gen Bool
unfolding flag set_flag
request_cancel r w = elim (flag r w.cancels) [
  | none ↦ (ok false, w)
  | some b ↦ (ok true, record w { cancels = set_flag r w.cancels })
]

-- `cancel is not None and cancel.is_set()`
unfoldable pub is_cancelled : ℕ → World → Bool
unfolding flag
is_cancelled r w = elim (flag r w.cancels) [ none ↦ false | some b ↦ b ]
