-- ===== src/Api/Limit.antt =====
-- `_BodySizeLimitMiddleware` of app.py (lines 112-162). The text of a Content-Length header is read
-- by Python's `int`, which is a parameter.
use agentchatbot_v.Prelude.{
  ℕ, zero, suc, ◌+◌, Bool, true, false, Option, none, some, List, [], ◌∷◌, ltb, if◌then◌else◌,
  length,
}
use agentchatbot_v.Text.{Text, codes, text_eq}
use agentchatbot_v.Json.{ℤ}

-- What `receive` gives: a part of the body, or another message.
pub data Incoming : Type 0 where
  request : Text → Bool → Incoming
  disconnect : Incoming

-- `total` and `stopped`
pub record Meter : Type 0 where
  pub total : ℕ
  pub stopped : Bool

abbrev pub cut_off : Incoming
cut_off = request [] false

abbrev pub metered : ℕ → Incoming → Meter → Incoming × Meter
metered max_bytes disconnect m = (disconnect, m)
metered max_bytes (request body more) m =
    let total = m.total + length body in
    if ltb max_bytes total
    then (cut_off, record { total = total; stopped = true })
    else (request body more, record { total = total; stopped = m.stopped })

-- The calls of `limited_receive` that the application makes, with what it gets. Once stopped, the
-- server is not asked any more. A call that finds no message from the client waits.
unfoldable pub limited : ℕ → ℕ → Meter → List Incoming → List Incoming
limited zero max_bytes m ins = []
limited (suc calls) max_bytes m ins = elim m.stopped [
  | true ↦ cut_off ∷ limited calls max_bytes m ins
  | false ↦ elim ins [
    | [] ↦ []
    | i ∷ more ↦ let (out, m') = metered max_bytes i m in out ∷ limited calls max_bytes m' more
  ]
]

abbrev pub fresh : Meter
fresh = record { total = 0; stopped = false }

-- Python's `int` on the header's text.
module _ (int_of : Text → Option ℤ) where
  abbrev exceeds : ℕ → Option ℤ → Bool
  exceeds max_bytes (some (ℤ.pos n)) = ltb max_bytes n
  exceeds max_bytes _ = false

  -- The first Content-Length header decides, and an unreadable one decides nothing.
  unfoldable pub declares_too_much : ℕ → List (Text × Text) → Bool
  declares_too_much max_bytes [] = false
  declares_too_much max_bytes ((k, v) ∷ headers) =
      let rest = declares_too_much max_bytes headers in
      if text_eq k (codes "content-length") then exceeds max_bytes (int_of v) else rest

  -- The body as the application sees it in `calls` calls; `none` is the reply 413, for which the
  -- application is not called.
  unfoldable pub body_limit : ℕ → ℕ → List (Text × Text) → List Incoming → Option (List Incoming)
  unfolding limited declares_too_much
  body_limit max_bytes calls headers ins =
      if declares_too_much max_bytes headers then none else some (limited calls max_bytes fresh ins)
