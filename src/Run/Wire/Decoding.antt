-- ===== src/Run/Wire/Decoding.antt =====
-- What `json.dumps` writes is read as the tokens of the value.
use Prim.Native.Nat.{◌/◌, ◌%◌}
use agentchatbot_v.Prelude.{
  ℕ, ◌+◌, ◌*◌, ◌<◌, ◌≡◌, refl, sym, ap, ◌∙◌, inl, inr, Bool, true, false, ◌||◌, [], ◌∷◌, ◌++◌, ◌==◌,
  ltb, arith, exists, append_assoc, append_nil, Bool-cases, eq_of_==,
}
use agentchatbot_v.Text.{Text, codes, is_empty}
use agentchatbot_v.Run.Wire.{escape, escaped, quoted, hex, is_break}
use agentchatbot_v.Run.Wire.Tokens.{Token, Place, lex, is_mark, ends_atom, hex_value}

hex_read : (d : ℕ) → d < 16 → hex_value (hex d) ≡ d
hex_read d h = ground arith

halves : (c : ℕ) → (0 + c / 16) * 16 + c % 16 ≡ c
halves c = omega arith

code_read :
    (c : ℕ) → ltb c 32 ≡ true → (0 + hex_value (hex (c / 16))) * 16 + hex_value (hex (c % 16)) ≡ c
code_read c h =
    let high : hex_value (hex (c / 16)) ≡ c / 16 = hex_read (c / 16) (ground arith) in
    let low : hex_value (hex (c % 16)) ≡ c % 16 = hex_read (c % 16) (omega arith) in
    rw (high, low) (halves c)

plain_read :
    (u : Text) (c : ℕ) (t : Text)
    → (c == 34) ≡ false
    → (c == 92) ≡ false
    → lex (Place.in_string u) (c ∷ t) ≡ lex (Place.in_string (u ++ c ∷ [])) t
unfolding lex
plain_read u c t h k = rw (h, k) refl

escape_read :
    (u : Text) (c : ℕ) (t : Text)
    → lex (Place.in_string u) (escape c ++ t) ≡ lex (Place.in_string (u ++ c ∷ [])) t
unfolding lex escape
escape_read u c t = elim (Bool-cases (c == 34)) [
  | inl e34 ↦ rw (eq_of_== c 34 e34) refl
  | inr e34 ↦ elim (Bool-cases (c == 92)) [
    | inl e92 ↦ rw (eq_of_== c 92 e92) refl
    | inr e92 ↦ elim (Bool-cases (c == 10)) [
      | inl e10 ↦ rw (eq_of_== c 10 e10) refl
      | inr e10 ↦ elim (Bool-cases (c == 13)) [
        | inl e13 ↦ rw (eq_of_== c 13 e13) refl
        | inr e13 ↦ elim (Bool-cases (c == 9)) [
          | inl e9 ↦ rw (eq_of_== c 9 e9) refl
          | inr e9 ↦ elim (Bool-cases (c == 8)) [
            | inl e8 ↦ rw (eq_of_== c 8 e8) refl
            | inr e8 ↦ elim (Bool-cases (c == 12)) [
              | inl e12 ↦ rw (eq_of_== c 12 e12) refl
              | inr e12 ↦ elim (Bool-cases (ltb c 32)) [
                | inl h ↦
                    rw (e34, e92, e10, e13, e9, e8, e12, h)
                      (ap (λ d. lex (Place.in_string (u ++ d ∷ [])) t) (code_read c h))
                | inr h ↦ rw (e34, e92, e10, e13, e9, e8, e12, h) (plain_read u c t e34 e92)
              ]
            ]
          ]
        ]
      ]
    ]
  ]
]

string_read :
    (u s t : Text)
    → lex (Place.in_string u) (escaped s ++ b'"' ∷ t) ≡ Token.string (u ++ s) ∷ lex Place.between t
unfolding lex escaped
string_read u [] t = ap (λ v. Token.string v ∷ lex Place.between t) (sym (append_nil u))
string_read u (c ∷ s) t =
    ap (lex (Place.in_string u)) (append_assoc (escape c) (escaped s) (b'"' ∷ t))
    ∙ escape_read u c (escaped s ++ b'"' ∷ t)
    ∙ string_read (u ++ c ∷ []) s t
    ∙ ap (λ v. Token.string v ∷ lex Place.between t) (append_assoc u (c ∷ []) s)

pub quoted_read :
    (s t : Text) → lex Place.between (quoted s ++ t) ≡ Token.string s ∷ lex Place.between t
unfolding lex quoted
quoted_read s t =
    ap (lex (Place.in_string [])) (append_assoc (escaped s) (codes "\"") t) ∙ string_read [] s t

-- A character that cannot stand in an atom, or in a line.
abbrev pub is_foreign : ℕ → Bool
is_foreign c = ends_atom c || c == b'"' || is_break c

-- A text that is read as one atom, on one line.
pub record IsAtom (s : Text) : Type 0 where
  pub plain : exists is_foreign s ≡ false
  pub filled : is_empty s ≡ false

-- What follows an atom ends it.
abbrev pub Ends : Text → Type 0
Ends [] = ⊥
Ends (c ∷ s) = (ends_atom c ≡ true) × ((c == b'"') ≡ false)

ended :
    (u : Text) (c : ℕ) (t : Text)
    → ends_atom c ≡ true
    → (c == b'"') ≡ false
    → lex (Place.in_atom u) (c ∷ t) ≡ Token.atom u ∷ lex Place.between (c ∷ t)
unfolding lex
ended u c t h k = elim (Bool-cases (c == b' ')) [
  | inl e ↦ rw (e, k) refl
  | inr e ↦ let m : is_mark c ≡ true = ground arith in rw (e, k, m) refl
]

one_more :
    (u : Text) (d : ℕ) (t : Text)
    → ends_atom d ≡ false
    → lex (Place.in_atom u) (d ∷ t) ≡ lex (Place.in_atom (u ++ d ∷ [])) t
unfolding lex
one_more u d t h = rw h refl

started :
    (d : ℕ) (t : Text)
    → (d == b'"') ≡ false
    → ends_atom d ≡ false
    → lex Place.between (d ∷ t) ≡ lex (Place.in_atom (d ∷ [])) t
unfolding lex
started d t h k =
    let blank : (d == b' ') ≡ false = ground arith in
    let unmarked : is_mark d ≡ false = ground arith in rw (h, blank, unmarked) refl

rest_read :
    (u s : Text) (c : ℕ) (t : Text)
    → exists is_foreign s ≡ false
    → ends_atom c ≡ true
    → (c == b'"') ≡ false
    → lex (Place.in_atom u) (s ++ c ∷ t) ≡ Token.atom (u ++ s) ∷ lex Place.between (c ∷ t)
rest_read u [] c t f h k =
    ended u c t h k ∙ ap (λ v. Token.atom v ∷ lex Place.between (c ∷ t)) (sym (append_nil u))
rest_read u (d ∷ s) c t f h k =
    one_more u d (s ++ c ∷ t) (ground (arith, f))
    ∙ rest_read (u ++ d ∷ []) s c t (ground (arith, f)) h k
    ∙ ap (λ v. Token.atom v ∷ lex Place.between (c ∷ t)) (append_assoc u (d ∷ []) s)

pub atom_read :
    (s t : Text)
    → IsAtom s
    → Ends t
    → lex Place.between (s ++ t) ≡ Token.atom s ∷ lex Place.between t
atom_read s [] a h = elim h [ ]
atom_read [] (c ∷ t) a h = ground (arith, a.filled)
atom_read (d ∷ s) (c ∷ t) a h =
    started d (s ++ c ∷ t) (ground (arith, a.plain)) (ground (arith, a.plain))
    ∙ rest_read (d ∷ []) s c t (ground (arith, a.plain)) h.0 h.1
