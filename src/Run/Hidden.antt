-- ===== src/Run/Hidden.antt =====
-- Citation markers that are hidden from the check of `_finalize` by an invisible character, which
-- `_compose` removes only after the check.
use agentchatbot_v.Prelude.{
  ℕ, zero, suc, ◌+◌, ◌<◌, ◌≡◌, refl, ap, ap₂, ◌∙◌, sym, subst, ◌≢◌, false, none, some, List, [],
  ◌∷◌, ◌++◌, map, reverse, ◌==◌, arith, All, length,
}
use mathlib.Core.List.{append_assoc, reverse-append, reverse-reverse, map-append}
use agentchatbot_v.Text.{Text, strip, lstrip}
use agentchatbot_v.Run.Markers.{
  match_cite, before_bracket, from_bracket, closes, letter, Piece, lit, cite, scan_from, scan,
  normalise, normal_pieces, ids_of, find_all,
}
use agentchatbot_v.Run.Compose.{
  drop_zero_width, is_authority, strip_authority, clean, compose, disclaimer, distinct,
}
use agentchatbot_v.Run.Finalize.{body_of, forged_in}

-- An ASCII character that is no bracket, as in the text of a UUID.
pub record IsPlain (c : ℕ) : Type 0 where
  pub ascii : c < 128
  pub not_open : c ≢ b'['
  pub not_close : c ≢ b']'

-- `[[ci<ZWSP>te:id]]`
unfoldable pub hidden_marker : Text → Text
hidden_marker id =
    b'[' ∷ b'[' ∷ b'c' ∷ b'i' ∷ 0x200b ∷ b't' ∷ b'e' ∷ b':' ∷ (id ++ b']' ∷ b']' ∷ [])

no_match : (c : ℕ) (s : Text) → IsPlain c → match_cite (c ∷ s) ≡ none
unfolding match_cite letter
no_match c s p = let e : (c == b'[') ≡ false = ground arith in rw (e, match_cite) refl

scan_plain :
    (id rest : Text)
    → All IsPlain id
    → scan_from zero (id ++ rest) ≡ map lit id ++ scan_from zero rest
unfolding scan_from
scan_plain [] rest h = refl
scan_plain (c ∷ id) rest h =
    rw (no_match c (id ++ rest) h.0, scan_from) (ap (◌∷◌ (lit c)) (scan_plain id rest h.1))

scan_hidden : (id : Text) → All IsPlain id → scan (hidden_marker id) ≡ map lit (hidden_marker id)
unfolding scan hidden_marker
scan_hidden id h =
    ap
      (λ (ps : List Piece).
        lit b'['
        ∷ lit b'['
        ∷ lit b'c'
        ∷ lit b'i'
        ∷ lit 0x200b
        ∷ lit b't'
        ∷ lit b'e'
        ∷ lit b':'
        ∷ ps)
      (scan_plain id (b']' ∷ b']' ∷ []) h ∙ sym (map-append lit id (b']' ∷ b']' ∷ [])))

ids_of_lits : (s : Text) → ids_of (map lit s) ≡ []
unfolding ids_of
ids_of_lits [] = refl
ids_of_lits (c ∷ s) = ids_of_lits s

text_of_lits : (s : Text) → normal_pieces (map lit s) ≡ s
unfolding normal_pieces
text_of_lits [] = refl
text_of_lits (c ∷ s) = ap (◌∷◌ c) (text_of_lits s)

normalise-hidden : (id : Text) → All IsPlain id → normalise (hidden_marker id) ≡ hidden_marker id
unfolding normalise
normalise-hidden id h = ap normal_pieces (scan_hidden id h) ∙ text_of_lits (hidden_marker id)

find_all-hidden : (id : Text) → All IsPlain id → find_all (hidden_marker id) ≡ []
unfolding find_all
find_all-hidden id h = ap ids_of (scan_hidden id h) ∙ ids_of_lits (hidden_marker id)

-- A text between brackets has no space to strip.
strip_bracketed : (s : Text) → strip (b'[' ∷ (s ++ b']' ∷ [])) ≡ b'[' ∷ (s ++ b']' ∷ [])
unfolding strip
strip_bracketed s =
    ap (λ x. reverse (lstrip x)) turned
    ∙ (ap reverse (sym turned) ∙ reverse-reverse (b'[' ∷ (s ++ b']' ∷ [])))
  where
    turned : reverse (b'[' ∷ (s ++ b']' ∷ [])) ≡ b']' ∷ reverse (b'[' ∷ s)
    turned = reverse-append (b'[' ∷ s) (b']' ∷ [])

strip_closed : (s : Text) → strip (b'[' ∷ (s ++ b']' ∷ b']' ∷ [])) ≡ b'[' ∷ (s ++ b']' ∷ b']' ∷ [])
strip_closed s =
    subst (λ x. strip (b'[' ∷ x) ≡ b'[' ∷ x) (append_assoc s (b']' ∷ []) (b']' ∷ []))
      (strip_bracketed (s ++ b']' ∷ []))

-- The check sees no citation in the draft.
pub body_of-hidden : (id : Text) → All IsPlain id → body_of (hidden_marker id) ≡ hidden_marker id
unfolding body_of hidden_marker
body_of-hidden id h =
    rw (strip_closed (b'[' ∷ b'c' ∷ b'i' ∷ 0x200b ∷ b't' ∷ b'e' ∷ b':' ∷ id), body_of)
      (normalise-hidden id h)

remove_plain :
    (id rest : Text) → All IsPlain id → drop_zero_width (id ++ rest) ≡ id ++ drop_zero_width rest
unfolding drop_zero_width
remove_plain [] rest h = refl
remove_plain (c ∷ id) rest h = ground (arith, remove_plain id rest h.1)

authority_plain : (c : ℕ) (s : Text) → c < 128 → is_authority (c ∷ s) ≡ false
unfolding is_authority
authority_plain c s h = ground arith

strip_authority_plain :
    (id rest : Text)
    → All IsPlain id
    → strip_authority false (id ++ rest) ≡ id ++ strip_authority false rest
unfolding strip_authority
strip_authority_plain [] rest h = refl
strip_authority_plain (c ∷ id) rest h =
    rw (authority_plain c (id ++ rest) h.0.ascii, strip_authority)
      (ap (◌∷◌ c) (strip_authority_plain id rest h.1))

shown : Text → Text
shown id = b'[' ∷ b'[' ∷ b'c' ∷ b'i' ∷ b't' ∷ b'e' ∷ b':' ∷ (id ++ b']' ∷ b']' ∷ [])

clean-hidden : (id : Text) → All IsPlain id → clean (hidden_marker id) ≡ shown id
unfolding clean hidden_marker shown
clean-hidden id h =
    ap (λ x. strip (strip_authority false (b'[' ∷ b'[' ∷ b'c' ∷ b'i' ∷ b't' ∷ b'e' ∷ b':' ∷ x)))
      (remove_plain id (b']' ∷ b']' ∷ []) h)
    ∙ (ap (λ x. strip (b'[' ∷ b'[' ∷ b'c' ∷ b'i' ∷ b't' ∷ b'e' ∷ b':' ∷ x))
          (strip_authority_plain id (b']' ∷ b']' ∷ []) h)
        ∙ strip_closed (b'[' ∷ b'c' ∷ b'i' ∷ b't' ∷ b'e' ∷ b':' ∷ id))

-- The published text of such a draft, for whatever citations the run has frozen.
compose-hidden :
    (id : Text) (eff : List (Text × Text))
    → All IsPlain id
    → compose (hidden_marker id) [] eff ≡ shown id ++ (0x0a ∷ 0x0a ∷ disclaimer)
unfolding compose distinct shown
compose-hidden id eff h = rw (clean-hidden id h) refl

before_plain : (id rest : Text) → All IsPlain id → before_bracket (id ++ b']' ∷ rest) ≡ id
unfolding before_bracket
before_plain [] rest h = refl
before_plain (c ∷ id) rest h = ground (arith, before_plain id rest h.1, h.0.not_close)

from_plain : (id rest : Text) → All IsPlain id → from_bracket (id ++ b']' ∷ rest) ≡ b']' ∷ rest
unfolding from_bracket
from_plain [] rest h = refl
from_plain (c ∷ id) rest h = ground (arith, from_plain id rest h.1, h.0.not_close)

skip_text : (id s : Text) (n : ℕ) → scan_from (length id + n) (id ++ s) ≡ scan_from n s
unfolding scan_from
skip_text [] s n = ap (λ k. scan_from k s) (omega arith)
skip_text (c ∷ id) s n =
    let e : length (c ∷ id) + n ≡ suc (length id + n) = omega arith in rw e (skip_text id s n)

match_shown :
    (c : ℕ) (id tail : Text)
    → All IsPlain (c ∷ id)
    → match_cite (b'[' ∷ b'[' ∷ b'c' ∷ b'i' ∷ b't' ∷ b'e' ∷ b':' ∷ (c ∷ id ++ b']' ∷ b']' ∷ tail))
      ≡ some (c ∷ id)
unfolding match_cite closes
match_shown c id tail h =
    rw (before_plain (c ∷ id) (b']' ∷ tail) h, from_plain (c ∷ id) (b']' ∷ tail) h) refl

scan_shown :
    (c : ℕ) (id tail : Text)
    → All IsPlain (c ∷ id)
    → scan_from 0 (b'[' ∷ b'[' ∷ b'c' ∷ b'i' ∷ b't' ∷ b'e' ∷ b':' ∷ (c ∷ id ++ b']' ∷ b']' ∷ tail))
      ≡ cite (c ∷ id) ∷ scan_from 0 tail
unfolding scan_from
scan_shown c id tail h =
    let e : length (c ∷ id) + 8 ≡ suc (suc (suc (suc (suc (suc (length (c ∷ id) + 2)))))) =
      omega arith in
    rw (match_shown c id tail h, scan_from)
      (ap (◌∷◌ (cite (c ∷ id))) (rw e (skip_text (c ∷ id) (b']' ∷ b']' ∷ tail) 2)))

abbrev ending : Text
ending = 0x0a ∷ 0x0a ∷ disclaimer

no_marker_in_ending : find_all ending ≡ []
unfolding find_all
no_marker_in_ending = refl

find_all-shown :
    (c : ℕ) (id : Text) → All IsPlain (c ∷ id) → find_all (shown (c ∷ id) ++ ending) ≡ (c ∷ id) ∷ []
unfolding find_all shown
find_all-shown c id h =
    ap (λ x. ids_of (scan_from 0 (b'[' ∷ b'[' ∷ b'c' ∷ b'i' ∷ b't' ∷ b'e' ∷ b':' ∷ x)))
      (append_assoc (c ∷ id) (b']' ∷ b']' ∷ []) ending)
    ∙ (ap ids_of (scan_shown c id ending h) ∙ ap (◌∷◌ (c ∷ id)) no_marker_in_ending)

-- The citation check of `_finalize` can be passed by. A draft whose only citation marker holds an
-- invisible character (a zero width space within the word "cite") cites nothing for the check, so
-- that no forgery is found, whatever ids are valid. The published text, from which the invisible
-- characters are removed after the check, holds the marker of that id. The id is any text of one or
-- more ASCII characters other than brackets.
pub hidden_marker_published :
    (c : ℕ) (id : Text) (valid : List Text) (eff : List (Text × Text))
    → All IsPlain (c ∷ id)
    → let body = body_of (hidden_marker (c ∷ id)) in
      (forged_in valid (find_all body) ≡ [])
      × (find_all (compose body (distinct (find_all body)) eff) ≡ (c ∷ id) ∷ [])
unfolding forged_in distinct
hidden_marker_published c id valid eff h = (
  ap (forged_in valid) unseen,
  ap₂ (λ b f. find_all (compose b (distinct f) eff)) (body_of-hidden (c ∷ id) h) unseen
      ∙ (ap find_all (compose-hidden (c ∷ id) eff h) ∙ find_all-shown c id h),
)
  where
    unseen : find_all (body_of (hidden_marker (c ∷ id))) ≡ []
    unseen = ap find_all (body_of-hidden (c ∷ id) h) ∙ find_all-hidden (c ∷ id) h
