-- ===== src/Corpus/Digits.antt =====
-- The decimal digits of a number, and where they end in a text.
use Prim.Native.Nat.{◌/◌, ◌%◌, ◌-◌, ◌*◌}
use native.Mathlib.Nat.{mod-lt}
use agentchatbot_v.Prelude.{
  ℕ, zero, suc, ◌+◌, ◌<◌, ◌≤◌, ◌≡◌, refl, sym, ap, ◌∙◌, Bool, true, false, ◌&&◌, not, [], ◌∷◌, ◌++◌,
  arith, ltb, leb, if◌then◌else◌, exists,
}
use agentchatbot_v.Text.{Text, decimal_from, decimal}

-- The number that digits spell, after those that spelt `v`.
abbrev value : ℕ → Text → ℕ
value v [] = v
value v (c ∷ s) = value (v * 10 + (c - 48)) s

value_step : (n : ℕ) (acc : Text) → value (n / 10) ((48 + n % 10) ∷ acc) ≡ value n acc
value_step n acc = ap (λ v. value v acc) (omega arith)

value_small : (n : ℕ) (acc : Text) → n < 10 → value 0 ((48 + n % 10) ∷ acc) ≡ value n acc
value_small n acc h = ap (λ v. value v acc) (omega arith)

fewer : (n fuel : ℕ) → 10 ≤ n → n < suc fuel → n / 10 < fuel
fewer n fuel a b = omega arith

pub value-decimal_from :
    (fuel n : ℕ) (acc : Text) → n < fuel → value 0 (decimal_from fuel n acc) ≡ value n acc
unfolding decimal_from
value-decimal_from zero n acc h = ground arith
value-decimal_from (suc fuel) n acc h =
    go (ltb n 10) refl (λ k. value-decimal_from fuel (n / 10) ((48 + n % 10) ∷ acc) k)
  where
    go :
        (b : Bool)
        → ltb n 10 ≡ b
        → (n / 10 < fuel
            → value 0 (decimal_from fuel (n / 10) ((48 + n % 10) ∷ acc))
              ≡ value (n / 10) ((48 + n % 10) ∷ acc))
        → value 0
            (if b then (48 + n % 10) ∷ acc else decimal_from fuel (n / 10) ((48 + n % 10) ∷ acc))
          ≡ value n acc
    go true e k = value_small n acc (ground (arith, e))
    go false e k = k (small e) ∙ value_step n acc
      where
        small : ltb n 10 ≡ false → n / 10 < fuel
        small e = fewer n fuel (ground (arith, e)) h

pub decimal_inj : (m n : ℕ) → decimal m ≡ decimal n → m ≡ n
unfolding decimal
decimal_inj m n e =
    sym (value-decimal_from (suc m) m [] (omega arith))
    ∙ (ap (value 0) e ∙ value-decimal_from (suc n) n [] (omega arith))

abbrev pub is_digit : ℕ → Bool
is_digit c = leb 48 c && leb c 57

abbrev pub is_other : ℕ → Bool
is_other c = not (is_digit c)

abbrev pub starts_other : Text → Bool
starts_other [] = true
starts_other (c ∷ s) = is_other c

abbrev pub head_or : ℕ → Text → ℕ
head_or x [] = x
head_or x (y ∷ s) = y

abbrev pub tail_of : Text → Text
tail_of [] = []
tail_of (y ∷ s) = s

pub head_eq : (x y : ℕ) (s t : Text) → x ∷ s ≡ y ∷ t → x ≡ y
head_eq x y s t q = ap (head_or 0) q

pub tail_eq : (x y : ℕ) (s t : Text) → x ∷ s ≡ y ∷ t → s ≡ t
tail_eq x y s t q = ap tail_of q

pub cons_eq : (x y : ℕ) (s t : Text) → x ≡ y → s ≡ t → x ∷ s ≡ y ∷ t
cons_eq x y s t a b = ap (λ z. z ∷ s) a ∙ ap (λ z. y ∷ z) b

-- Digits end where the text goes on with something else.
pub cut :
    (d e r s : Text)
    → exists is_other d ≡ false
    → exists is_other e ≡ false
    → starts_other r ≡ true
    → starts_other s ≡ true
    → d ++ r ≡ e ++ s
    → (d ≡ e) × (r ≡ s)
cut [] [] r s h k a b q = (refl, q)
cut [] (y ∷ e) [] s h k a b q = ground arith
cut [] (y ∷ e) (x ∷ r) s h k a b q = ground (arith, a, k, head_eq x y r (e ++ s) q)
cut (x ∷ d) [] r [] h k a b q = ground arith
cut (x ∷ d) [] r (y ∷ s) h k a b q = ground (arith, b, h, head_eq x y (d ++ r) s q)
cut (x ∷ d) (y ∷ e) r s h k a b q =
    let rest =
      cut d e r s (ground (arith, h)) (ground (arith, k)) a b (tail_eq x y (d ++ r) (e ++ s) q) in
    (cons_eq x y d e (head_eq x y (d ++ r) (e ++ s) q) rest.0, rest.1)

either :
    (b : Bool) (s t : Text)
    → exists is_other s ≡ false
    → exists is_other t ≡ false
    → exists is_other (if b then s else t) ≡ false
either true s t h k = h
either false s t h k = k

digit_is : (n : ℕ) → is_digit (48 + n % 10) ≡ true
digit_is n = let h : n % 10 < 10 = mod-lt n {m = 10} (omega arith) in ground (arith, h)

decimal_digits :
    (fuel n : ℕ) (acc : Text)
    → exists is_other acc ≡ false
    → exists is_other (decimal_from fuel n acc) ≡ false
unfolding decimal_from
decimal_digits zero n acc h = h
decimal_digits (suc fuel) n acc h =
    either (ltb n 10) ((48 + n % 10) ∷ acc) (decimal_from fuel (n / 10) ((48 + n % 10) ∷ acc))
      (ground (arith, digit_is n, h))
      (decimal_digits fuel (n / 10) ((48 + n % 10) ∷ acc) (ground (arith, digit_is n, h)))

pub all_digits : (n : ℕ) → exists is_other (decimal n) ≡ false
unfolding decimal
all_digits n = decimal_digits (suc n) n [] refl
