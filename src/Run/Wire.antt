-- ===== src/Run/Wire.antt =====
-- `sse_wire` of run_service.py (lines 100-118), on the data of an event as the dict that it is
-- there, and `json.dumps` with `ensure_ascii=False` on it. Floats are an abstract type with their
-- `repr`.
pub mod Reader
pub mod Flat
pub mod Tokens
pub mod Decoding
pub mod Meaning
pub mod Framing
use Prim.Native.Nat.{◌/◌, ◌%◌}
use agentchatbot_v.Prelude.{
  ℕ, suc, ◌+◌, ◌≡◌, refl, Bool, true, false, ◌||◌, List, [], ◌∷◌, ◌++◌, ◌==◌, ltb, if◌then◌else◌,
  remove,
}
use agentchatbot_v.Text.{Text, codes, text_eq, decimal}
use agentchatbot_v.Json.{ℤ}

mutual
  pub data Value (F : Type 0) : Type 0 where
    null : Value F
    bool : Bool → Value F
    int : ℤ → Value F
    float : F → Value F
    text : Text → Value F
    array : Values F → Value F
    object : Entries F → Value F

  pub data Values (F : Type 0) : Type 0 where
    nil : Values F
    cons : Value F → Values F → Values F

  pub data Entries (F : Type 0) : Type 0 where
    end : Entries F
    entry : Text → Value F → Entries F → Entries F

-- The digits of `\u00xx`, in lower case.
abbrev hex : ℕ → ℕ
hex d = if ltb d 10 then 48 + d else 87 + d

unfoldable pub escape : ℕ → Text
escape c =
    if c == b'"'
    then codes "\\\""
    else if c == b'\\'
    then codes "\\\\"
    else if c == 10
    then codes "\\n"
    else if c == 13
    then codes "\\r"
    else if c == 9
    then codes "\\t"
    else if c == 8
    then codes "\\b"
    else if c == 12
    then codes "\\f"
    else if ltb c 32
    then codes "\\u00" ++ (hex (c / 16) ∷ hex (c % 16) ∷ [])
    else c ∷ []

unfoldable pub escaped : Text → Text
unfolding escape
escaped [] = []
escaped (c ∷ s) = escape c ++ escaped s

unfoldable pub quoted : Text → Text
unfolding escaped
quoted s = b'"' ∷ (escaped s ++ codes "\"")

abbrev int_text : ℤ → Text
int_text (ℤ.pos n) = decimal n
int_text (ℤ.negsuc n) = b'-' ∷ decimal (suc n)

abbrev bool_text : Bool → Text
bool_text true = codes "true"
bool_text false = codes "false"

module _ {F : Type 0} where
  abbrev comma : Values F → Text
  comma Values.nil = []
  comma (Values.cons _ _) = codes ", "

  abbrev comma_after : Entries F → Text
  comma_after Entries.end = []
  comma_after (Entries.entry _ _ _) = codes ", "

  -- `{**d, key: v}`: an old key keeps its place.
  unfoldable pub put : Text → Value F → Entries F → Entries F
  put k v Entries.end = Entries.entry k v Entries.end
  put k v (Entries.entry j u es) =
      let rest = put k v es in if text_eq j k then Entries.entry j v es else Entries.entry j u rest

-- `json.dumps(v, ensure_ascii=False)`, with its default separators
module _ {F : Type 0} (repr : F → Text) where
  unfoldable mutual
    unfolding quoted

    pub dumps : Value F → Text
    dumps Value.null = codes "null"
    dumps (Value.bool b) = bool_text b
    dumps (Value.int i) = int_text i
    dumps (Value.float x) = repr x
    dumps (Value.text s) = quoted s
    dumps (Value.array vs) = b'[' ∷ (dump_values vs ++ codes "]")
    dumps (Value.object es) = b'{' ∷ (dump_entries es ++ codes "}")

    pub dump_values : Values F → Text
    dump_values Values.nil = []
    dump_values (Values.cons v vs) = dumps v ++ (comma vs ++ dump_values vs)

    pub dump_entries : Entries F → Text
    dump_entries Entries.end = []
    dump_entries (Entries.entry k v es) =
        quoted k ++ (codes ": " ++ (dumps v ++ (comma_after es ++ dump_entries es)))

-- RunEvent, with the data as a dict
pub record SseEvent (F : Type 0) : Type 0 where
  pub event : Text
  pub data_of : Entries F
  pub seq : ℕ

abbrev pub is_break : ℕ → Bool
is_break c = c == 10 || c == 13

module _ {F : Type 0} (repr : F → Text) where
  unfoldable pub payload : SseEvent F → Text
  unfolding put
  payload ev = dumps repr (Value.object (put (codes "seq") (Value.int (ℤ.pos ev.seq)) ev.data_of))

  unfoldable pub sse_wire : SseEvent F → Text
  unfolding payload
  sse_wire ev =
      codes "id: "
      ++ (decimal ev.seq
          ++ (10
              ∷ (codes "event: "
                  ++ (remove is_break ev.event
                      ++ (10 ∷ (codes "data: " ++ (payload ev ++ (10 ∷ 10 ∷ []))))))))
