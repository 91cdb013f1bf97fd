-- ===== src/Run/Wire/Tokens.antt =====
-- How a client reads the JSON text of an event (RFC 8259): the tokens of a text, with the escapes of a
-- string resolved, and the tokens that a value stands for.
use agentchatbot_v.Prelude.{
  ℕ, suc, ◌+◌, ◌-◌, ◌*◌, Bool, true, false, ◌||◌, List, [], ◌∷◌, ◌++◌, ◌==◌, ltb, if◌then◌else◌,
}
use agentchatbot_v.Text.{Text, codes, decimal}
use agentchatbot_v.Json.{ℤ}
use agentchatbot_v.Run.Wire.{Value, Values, Entries}

-- A token: one of the marks `{ } [ ] : ,`, a string, or an atom, that is a number or a name.
pub data Token : Type 0 where
  mark : ℕ → Token
  string : Text → Token
  atom : Text → Token

abbrev pub is_mark : ℕ → Bool
is_mark c = c == b'{' || c == b'}' || c == b'[' || c == b']' || c == b':' || c == b','

abbrev pub ends_atom : ℕ → Bool
ends_atom c = c == b' ' || is_mark c

-- Where the reader stands: between tokens, in an atom, in a string, after a backslash there, or in the
-- digits of `\u`, with their value so far and how many are still to come.
pub data Place : Type 0 where
  between : Place
  in_atom : Text → Place
  in_string : Text → Place
  escaping : Text → Place
  in_code : Text → ℕ → ℕ → Place

abbrev pub hex_value : ℕ → ℕ
hex_value c = if ltb c 58 then c - 48 else c - 87

abbrev pub unescape : ℕ → ℕ
unescape c =
    if c == b'n'
    then 10
    else if c == b'r'
    then 13
    else if c == b't'
    then 9
    else if c == b'b'
    then 8
    else if c == b'f'
    then 12
    else c

unfoldable pub lex : Place → Text → List Token
lex (Place.in_atom u) [] = Token.atom u ∷ []
lex _ [] = []
lex Place.between (c ∷ s) =
    if c == b'"'
    then lex (Place.in_string []) s
    else if c == b' '
    then lex Place.between s
    else if is_mark c
    then Token.mark c ∷ lex Place.between s
    else lex (Place.in_atom (c ∷ [])) s
lex (Place.in_atom u) (c ∷ s) =
    if ends_atom c
    then Token.atom u
      ∷ (if c == b' ' then lex Place.between s else Token.mark c ∷ lex Place.between s)
    else lex (Place.in_atom (u ++ c ∷ [])) s
lex (Place.in_string u) (c ∷ s) =
    if c == b'"'
    then Token.string u ∷ lex Place.between s
    else if c == b'\\'
    then lex (Place.escaping u) s
    else lex (Place.in_string (u ++ c ∷ [])) s
lex (Place.escaping u) (c ∷ s) =
    if c == b'u'
    then lex (Place.in_code u 0 4) s
    else lex (Place.in_string (u ++ unescape c ∷ [])) s
lex (Place.in_code u v n) (c ∷ s) =
    if n == 1
    then lex (Place.in_string (u ++ (v * 16 + hex_value c) ∷ [])) s
    else lex (Place.in_code u (v * 16 + hex_value c) (n - 1)) s

-- The names and the numerals of JSON.
abbrev pub name_of : Bool → Text
name_of true = codes "true"
name_of false = codes "false"

abbrev pub numeral : ℤ → Text
numeral (ℤ.pos n) = decimal n
numeral (ℤ.negsuc n) = b'-' ∷ decimal (suc n)

abbrev pub colon : Token
colon = Token.mark b':'

abbrev pub list_comma : List Token
list_comma = Token.mark b',' ∷ []

module _ {F : Type 0} where
  abbrev pub between_values : Values F → List Token
  between_values Values.nil = []
  between_values (Values.cons v vs) = list_comma

  abbrev pub between_entries : Entries F → List Token
  between_entries Entries.end = []
  between_entries (Entries.entry k v es) = list_comma

-- The tokens that a value stands for; a float is the atom of its `repr`.
module _ {F : Type 0} (repr : F → Text) where
  unfoldable mutual
    pub tokens : Value F → List Token
    tokens Value.null = Token.atom (codes "null") ∷ []
    tokens (Value.bool b) = Token.atom (name_of b) ∷ []
    tokens (Value.int i) = Token.atom (numeral i) ∷ []
    tokens (Value.float x) = Token.atom (repr x) ∷ []
    tokens (Value.text s) = Token.string s ∷ []
    tokens (Value.array vs) = Token.mark b'[' ∷ (tokens_of_values vs ++ Token.mark b']' ∷ [])
    tokens (Value.object es) = Token.mark b'{' ∷ (tokens_of_entries es ++ Token.mark b'}' ∷ [])

    pub tokens_of_values : Values F → List Token
    tokens_of_values Values.nil = []
    tokens_of_values (Values.cons v vs) = tokens v ++ (between_values vs ++ tokens_of_values vs)

    pub tokens_of_entries : Entries F → List Token
    tokens_of_entries Entries.end = []
    tokens_of_entries (Entries.entry k v es) =
        Token.string k ∷ colon ∷ (tokens v ++ (between_entries es ++ tokens_of_entries es))

  -- The entries of `{**data, "seq": n}`, where the data have no such key.
  unfoldable pub numbered_entries : ℕ → Entries F → List Token
  numbered_entries n Entries.end = Token.string (codes "seq") ∷ colon ∷ Token.atom (decimal n) ∷ []
  numbered_entries n (Entries.entry k v es) =
      Token.string k ∷ colon ∷ (tokens v ++ (list_comma ++ numbered_entries n es))
