-- ===== src/Corpus/Reading.antt =====
-- A reader for the IRIs of a query to the graph store.
use Prim.Native.Nat.{◌/◌, ◌%◌}
use native.Mathlib.Nat.{mod-lt}
use agentchatbot_v.Prelude.{
  append_nil, ℕ, zero, suc, ◌+◌, ◌≡◌, refl, sym, ap, ◌∙◌, Bool, true, false, ◌||◌, ◌&&◌, Option,
  none, some, List, [], ◌∷◌, ◌++◌, ◌==◌, arith, ltb, ◌<◌, if◌then◌else◌, exists, inl, inr,
  Bool-cases,
}
use agentchatbot_v.Text.{Text, decimal_from}

abbrev pub is_white : ℕ → Bool
is_white c = c == 0x20 || (ltb 8 c && ltb c 14)

-- The characters that the rule IRIREF of SPARQL bars between `<` and `>`: `<`, `"`, `{`, `}`, `|`,
-- `^`, a back quote, the backslash, whose escapes can stand for any other, and white space. Other
-- control characters, which the rule bars as well, end nothing; this reader lets them stand.
abbrev pub is_barred : ℕ → Bool
is_barred c =
    c == 0x3c
    || c == 0x22
    || c == 0x7b
    || c == 0x7d
    || c == 0x7c
    || c == 0x5e
    || c == 0x60
    || c == 0x5c
    || is_white c

-- What opens an IRI or a string, or escapes, outside of an IRI.
abbrev pub is_quoting : ℕ → Bool
is_quoting c = c == 0x22 || c == 0x27 || c == 0x5c

abbrev pub is_special : ℕ → Bool
is_special c = c == 0x3c || is_quoting c

abbrev pub is_closing : ℕ → Bool
is_closing c = c == 0x3e || is_barred c

abbrev pub prefixed : List Text → Option (List Text) → Option (List Text)
prefixed us none = none
prefixed us (some vs) = some (us ++ vs)

-- A reader of SPARQL for the IRIs of a query without strings: each stands between `<` and `>`. It
-- refuses a text that is not of that form.
unfoldable pub iris : Option Text → Text → Option (List Text)
iris none [] = some []
iris (some u) [] = none
iris none (c ∷ s) =
    if c == 0x3c then iris (some []) s else if is_quoting c then none else iris none s
iris (some u) (c ∷ s) =
    if c == 0x3e
    then prefixed (u ∷ []) (iris none s)
    else if is_barred c
    then none
    else iris (some (u ++ c ∷ [])) s

pub prefixed_cons :
    (u : Text) (us : List Text) (o : Option (List Text))
    → prefixed (u ∷ []) (prefixed us o) ≡ prefixed (u ∷ us) o
prefixed_cons u us none = refl
prefixed_cons u us (some vs) = refl

pub prefixed_none : (o : Option (List Text)) → prefixed [] o ≡ o
prefixed_none none = refl
prefixed_none (some vs) = refl

pub snoc_cons : (u : Text) (c : ℕ) (s : Text) → (u ++ c ∷ []) ++ s ≡ u ++ c ∷ s
snoc_cons [] c s = refl
snoc_cons (d ∷ u) c s = ap (λ l. d ∷ l) (snoc_cons u c s)

-- Plain text brings no IRI.
pub iris_skip : (s t : Text) → exists is_special s ≡ false → iris none (s ++ t) ≡ iris none t
unfolding iris
iris_skip [] t h = refl
iris_skip (c ∷ s) t h = elim (Bool-cases (c == 0x3c)) [
  | inl e ↦ ground arith
  | inr e ↦
      let calm : is_quoting c ≡ false = ground arith in rw (e, calm) (iris_skip s t (ground arith))
]

pub iris_plain : (s : Text) → exists is_special s ≡ false → iris none s ≡ some []
unfolding iris
iris_plain s h = ap (iris none) (sym (append_nil s)) ∙ iris_skip s [] h

pub iris_inside :
    (acc u t : Text)
    → exists is_closing u ≡ false
    → iris (some acc) (u ++ 0x3e ∷ t) ≡ prefixed ((acc ++ u) ∷ []) (iris none t)
unfolding iris
iris_inside acc [] t h = ap (λ l. prefixed (l ∷ []) (iris none t)) (sym (append_nil acc))
iris_inside acc (c ∷ u) t h = elim (Bool-cases (c == 0x3e)) [
  | inl e ↦ ground arith
  | inr e ↦
      let calm : is_barred c ≡ false = ground arith in
      rw (e, calm)
        (iris_inside (acc ++ c ∷ []) u t (ground arith)
          ∙ ap (λ l. prefixed (l ∷ []) (iris none t)) (snoc_cons acc c u))
]

digit_plain : (n : ℕ) → is_special (48 + n % 10) ≡ false
digit_plain n = let h : n % 10 < 10 = mod-lt n {m = 10} (omega arith) in ground (arith, h)

either :
    (b : Bool) (s t : Text)
    → exists is_special s ≡ false
    → exists is_special t ≡ false
    → exists is_special (if b then s else t) ≡ false
either true s t h k = h
either false s t h k = k

pub decimal_plain :
    (fuel n : ℕ) (acc : Text)
    → exists is_special acc ≡ false
    → exists is_special (decimal_from fuel n acc) ≡ false
unfolding decimal_from
decimal_plain zero n acc h = h
decimal_plain (suc fuel) n acc h =
    either (ltb n 10) ((48 + n % 10) ∷ acc) (decimal_from fuel (n / 10) ((48 + n % 10) ∷ acc))
      (ground (arith, digit_plain n, h))
      (decimal_plain fuel (n / 10) ((48 + n % 10) ∷ acc) (ground (arith, digit_plain n, h)))
