-- ===== src/Run/Markers.antt =====
-- The citation markers of run_service.py: the pattern _CITE (line 36), its `findall` and its `sub`.
use agentchatbot_v.Prelude.{
  ℕ, zero, suc, ◌+◌, Bool, false, ◌&&◌, ◌||◌, not, Option, none, some, List, [], ◌∷◌, ◌++◌, ◌==◌,
  if◌then◌else◌, length, ◌≡◌, refl,
}
use agentchatbot_v.Text.{Text, codes, strip}

-- `[[cite:` under re.IGNORECASE; the letter i also matches its dotted and dotless forms.
unfoldable pub letter : ℕ → ℕ → Bool
letter p c = c == p || (leb_letter p && c + 32 == p) || (p == b'i' && (c == 0x130 || c == 0x131))
  where
    leb_letter : ℕ → Bool
    leb_letter p = not (p == b'[') && not (p == b':')

abbrev pub prefix : Text
prefix = codes "[[cite:"

unfoldable pub after_prefix : Text → Text → Option Text
unfolding letter
after_prefix [] s = some s
after_prefix (p ∷ ps) [] = none
after_prefix (p ∷ ps) (c ∷ s) = let rest = after_prefix ps s in if letter p c then rest else none

-- `[^\]]+` takes all up to the first closing bracket.
unfoldable pub before_bracket : Text → Text
before_bracket [] = []
before_bracket (c ∷ s) = let rest = before_bracket s in if c == b']' then [] else c ∷ rest

unfoldable pub from_bracket : Text → Text
from_bracket [] = []
from_bracket (c ∷ s) = let rest = from_bracket s in if c == b']' then c ∷ s else rest

unfoldable pub closes : Text → Bool
closes (a ∷ b ∷ s) = a == b']' && b == b']'
closes _ = false

abbrev pub captured : Text → Text → Option Text
captured [] rest = none
captured (c ∷ cs) rest = if closes rest then some (c ∷ cs) else none

-- The text that the pattern captures where it matches at the start.
unfoldable pub match_cite : Text → Option Text
unfolding after_prefix before_bracket from_bracket closes
match_cite s = elim (after_prefix prefix s) [
  | none ↦ none
  | some rest ↦ captured (before_bracket rest) (from_bracket rest)
]

pub data Piece : Type 0 where
  lit : ℕ → Piece
  cite : Text → Piece

-- The scan from left to right; `skip` characters belong to the match before. A match is nine
-- characters longer than what it captures.
unfoldable pub scan_from : ℕ → Text → List Piece
scan_from skip [] = []
scan_from (suc skip) (c ∷ s) = scan_from skip s
scan_from zero (c ∷ s) = elim (match_cite (c ∷ s)) [
  | none ↦ lit c ∷ scan_from zero s
  | some id ↦ cite id ∷ scan_from (length id + 8) s
]

unfoldable pub scan : Text → List Piece
unfolding scan_from match_cite
scan = scan_from zero

abbrev pub normal_piece : Piece → Text
normal_piece (lit c) = c ∷ []
normal_piece (cite id) = codes "[[cite:" ++ (strip id ++ codes "]]")

unfoldable pub normal_pieces : List Piece → Text
unfolding strip
normal_pieces [] = []
normal_pieces (p ∷ ps) = normal_piece p ++ normal_pieces ps

-- `_CITE.sub(lambda m: f"[[cite:{m.group(1).strip()}]]", body)`
unfoldable pub normalise : Text → Text
unfolding scan normal_pieces
normalise s = normal_pieces (scan s)

unfoldable pub ids_of : List Piece → List Text
ids_of [] = []
ids_of (lit c ∷ ps) = ids_of ps
ids_of (cite id ∷ ps) = id ∷ ids_of ps

-- `_CITE.findall(body)`
unfoldable pub find_all : Text → List Text
unfolding scan ids_of
find_all s = ids_of (scan s)

find_all_mixed :
    find_all (codes "a [[CITE: x ]] b [[cite:y]] [[cite:]] [c]]") ≡ codes " x " ∷ codes "y" ∷ []
unfolding find_all
find_all_mixed = refl

normalise_mixed : normalise (codes "a [[CITE: x ]] b") ≡ codes "a [[cite:x]] b"
unfolding normalise
normalise_mixed = refl
