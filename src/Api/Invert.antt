-- ===== src/Api/Invert.antt =====
-- What a handler's success says of its parts.
use agentchatbot_v.Prelude.{
  ℕ, ◌≡◌, refl, sym, ap, ap₂, Bool, true, false, Option, none, some, [], arith,
}
use agentchatbot_v.Store.Schema.{Db, Result, ok, err, Failure}
use agentchatbot_v.Run.World.{World, Gen, ask}
use agentchatbot_v.Run.Alone.{ask_alone}
use agentchatbot_v.Api.Outcome.{
  Outcome, done, refused, crashed, Api, catch, within, outcome_of, ◌>>=◌, must, some_or,
}

abbrev pub is_done : {A : Type 0} → Outcome A → Bool
is_done (done a) = true
is_done (refused s) = false
is_done (crashed e) = false

abbrev done_or : {A : Type 0} → A → Outcome A → A
done_or a (done b) = b
done_or a (refused s) = a
done_or a (crashed e) = a

pub done_inj : {A : Type 0} (a b : A) → done a ≡ done b → a ≡ b
done_inj a b e = ap (done_or a) e

-- The first part succeeded, and the rest did on its result.
pub bind_done :
    {A B : Type 0} (m : Api A) (f : A → Api B) (w w' : World) (b : B)
    → (m >>= f) w ≡ (done b, w')
    → (a : A) × (v : World) × (m w ≡ (done a, v)) × (f a v ≡ (done b, w'))
bind_done {A} {B} m f w w' b e = go (m w) refl e
  where
    go :
        (x : Outcome A × World)
        → m w ≡ x
        → (elim x.0 as (λ _. Outcome B × World) [
          | done a ↦ f a x.1
          | refused s ↦ (refused s, x.1)
          | crashed c ↦ (crashed c, x.1)
        ])
          ≡ (done b, w')
        → (a : A) × (v : World) × (m w ≡ (done a, v)) × (f a v ≡ (done b, w'))
    go (done a, v) p q = (a, v, p, q)
    go (refused s, v) p q = ground (arith, ap (λ x. is_done x.0) q)
    go (crashed c, v) p q = ground (arith, ap (λ x. is_done x.0) q)

pub must_done :
    (test : Bool) (s : ℕ) (w v : World) (u : Unit {0})
    → must test s w ≡ (done u, v)
    → (test ≡ true) × (v ≡ w)
must_done true s w v u e = (refl, sym (ap (λ x. x.1) e))
must_done false s w v u e = ground (arith, ap (λ x. is_done x.0) e)

pub some_or_done :
    {A : Type 0} (o : Option A) (s : ℕ) (w v : World) (a : A)
    → some_or o s w ≡ (done a, v)
    → (o ≡ some a) × (v ≡ w)
some_or_done none s w v a e = ground (arith, ap (λ x. is_done x.0) e)
some_or_done (some b) s w v a e = (ap some (done_inj b a (ap (λ x. x.0) e)), sym (ap (λ x. x.1) e))

-- A read while no other instance acts.
pub within-ask :
    {A : Type 0} (f : Db → A) (w : World) → w.turns ≡ [] → within (ask f) w ≡ (done (f w.db), w)
within-ask f w h = rw (ask_alone f w h) refl

abbrev pub follow : {A B : Type 0} → (A → Api B) → Outcome A × World → Outcome B × World
follow {A} {B} f x = elim x.0 as (λ _. Outcome B × World) [
  | done a ↦ f a x.1
  | refused s ↦ (refused s, x.1)
  | crashed c ↦ (crashed c, x.1)
]

pub bind_value :
    {A B : Type 0} (m : Api A) (f : A → Api B) (w v : World) (a : A)
    → m w ≡ (done a, v)
    → (m >>= f) w ≡ f a v
bind_value m f w v a e = ap (follow f) e

pub bind_refused :
    {A B : Type 0} (m : Api A) (f : A → Api B) (w v : World) (s : ℕ)
    → m w ≡ (refused s, v)
    → (m >>= f) w ≡ (refused s, v)
bind_refused m f w v s e = ap (follow f) e

outcome_done :
    {A : Type 0} (status : Failure → Option ℕ) (x : Result A) (a : A)
    → outcome_of status x ≡ done a
    → x ≡ ok a
outcome_done status (ok b) a e = ap ok (done_inj b a e)
outcome_done status (err c) a e = ground (arith, ap is_done e)

pub catch_done :
    {A : Type 0} (status : Failure → Option ℕ) (m : Gen A) (w v : World) (a : A)
    → catch status m w ≡ (done a, v)
    → m w ≡ (ok a, v)
catch_done {A} status m w v a e =
    ap₂ pair (outcome_done status (m w).0 a (ap (λ y. y.0) e)) (ap (λ y. y.1) e)
  where
    pair : Result A → World → Result A × World
    pair c z = (c, z)
