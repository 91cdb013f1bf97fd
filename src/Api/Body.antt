-- ===== src/Api/Body.antt =====
-- What the limit on request bodies lets through.
use agentchatbot_v.Prelude.{
  ℕ, zero, suc, ◌+◌, ◌≤◌, ◌≡◌, refl, ap, subst, Bool, true, false, Option, none, some, List, [],
  ◌∷◌, arith, ltb, if◌then◌else◌, length, take, Bool-cases, inl, inr,
}
use agentchatbot_v.Text.{Text}
use agentchatbot_v.Json.{ℤ}
use agentchatbot_v.Api.Limit.{
  Incoming, request, disconnect, limited, fresh, declares_too_much, body_limit,
}

-- The bytes of body in a sequence of messages.
unfoldable pub body_bytes : List Incoming → ℕ
body_bytes [] = 0
body_bytes (request body more ∷ ins) = length body + body_bytes ins
body_bytes (disconnect ∷ ins) = body_bytes ins

abbrev given : Option (List Incoming) → List Incoming
given none = []
given (some out) = out

stopped_bytes :
    (calls max_bytes total : ℕ) (ins : List Incoming)
    → body_bytes (limited calls max_bytes (record { total = total; stopped = true }) ins) ≡ 0
unfolding limited body_bytes
stopped_bytes zero max_bytes total ins = refl
stopped_bytes (suc calls) max_bytes total ins =
    omega (arith, stopped_bytes calls max_bytes total ins)

metered_bytes :
    (calls max_bytes total : ℕ) (body : Text) (more : Bool) (ins : List Incoming)
    → total ≤ max_bytes
    → (total + length body ≤ max_bytes
        → total
            + length body
            + body_bytes (
                limited calls max_bytes
                  (record { total = total + length body; stopped = false })
                  ins)
          ≤ max_bytes)
    → total
        + body_bytes (
            limited
              (suc calls)
              max_bytes
              (record { total = total; stopped = false })
              (request body more ∷ ins))
      ≤ max_bytes
unfolding limited body_bytes
metered_bytes calls max_bytes total body more ins h k =
    elim (Bool-cases (ltb max_bytes (total + length body))) [
      | inl over ↦ rw (over, stopped_bytes calls max_bytes (total + length body) ins) (omega arith)
      | inr fits ↦ rw fits (omega (arith, k (ground (arith, fits))))
    ]

limited_bytes :
    (calls max_bytes total : ℕ) (ins : List Incoming)
    → total ≤ max_bytes
    → total + body_bytes (limited calls max_bytes (record { total = total; stopped = false }) ins)
      ≤ max_bytes
unfolding limited body_bytes
limited_bytes zero max_bytes total ins h = omega arith
limited_bytes (suc calls) max_bytes total [] h = omega arith
limited_bytes (suc calls) max_bytes total (disconnect ∷ ins) h =
    limited_bytes calls max_bytes total ins h
limited_bytes (suc calls) max_bytes total (request body more ∷ ins) h =
    metered_bytes calls max_bytes total body more ins h
      (limited_bytes calls max_bytes (total + length body) ins)

-- Whatever the headers say and however the body is cut into messages, the application gets at most
-- `max_bytes` bytes of it in any number of calls, the message that crosses the limit not included.
pub body_limit_bounds :
    (int_of : Text → Option ℤ) (max_bytes calls : ℕ) (headers : List (Text × Text))
    (ins out : List Incoming)
    → body_limit int_of max_bytes calls headers ins ≡ some out
    → body_bytes out ≤ max_bytes
unfolding body_limit body_bytes
body_limit_bounds int_of max_bytes calls headers ins out e =
    go (declares_too_much int_of max_bytes headers) e
  where
    go :
        (over : Bool)
        → (if over then none else some (limited calls max_bytes fresh ins)) ≡ some out
        → body_bytes out ≤ max_bytes
    go true q = ground arith
    go false q =
        subst (λ o. body_bytes (given o) ≤ max_bytes) q
          (omega (arith, limited_bytes calls max_bytes 0 ins (omega arith)))

passes :
    (calls max_bytes total : ℕ) (ins : List Incoming)
    → total + body_bytes ins ≤ max_bytes
    → limited calls max_bytes (record { total = total; stopped = false }) ins ≡ take calls ins
unfolding limited body_bytes
passes zero max_bytes total ins h = refl
passes (suc calls) max_bytes total [] h = refl
passes (suc calls) max_bytes total (disconnect ∷ ins) h =
    ap (λ l. disconnect ∷ l) (passes calls max_bytes total ins h)
passes (suc calls) max_bytes total (request body more ∷ ins) h = rw fits (
    ap (λ l. request body more ∷ l)
      (passes calls max_bytes (total + length body) ins (omega arith)))
  where
    fits : ltb max_bytes (total + length body) ≡ false
    fits = ground arith

-- A body that keeps to the limit, under a header that does, reaches the application as it was sent.
pub body_limit_transparent :
    (int_of : Text → Option ℤ) (max_bytes calls : ℕ) (headers : List (Text × Text))
    (ins : List Incoming)
    → declares_too_much int_of max_bytes headers ≡ false
    → body_bytes ins ≤ max_bytes
    → body_limit int_of max_bytes calls headers ins ≡ some (take calls ins)
unfolding body_limit
body_limit_transparent int_of max_bytes calls headers ins d h =
    rw (d, passes calls max_bytes 0 ins (omega arith)) refl
