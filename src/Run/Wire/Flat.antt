-- ===== src/Run/Wire/Flat.antt =====
-- What `json.dumps` writes has no line break in it, and what the other fields of a frame have not.
use Prim.Native.Nat.{◌/◌, ◌%◌}
use agentchatbot_v.Prelude.{ℕ, suc, ◌≡◌, refl, Bool, true, false, [], ◌∷◌, ◌++◌, arith, exists}
use agentchatbot_v.Text.{Text, codes, decimal}
use agentchatbot_v.Json.{ℤ}
use agentchatbot_v.Corpus.Digits.{is_other, all_digits}
use agentchatbot_v.Run.Wire.{
  Value, Values, Entries, escape, escaped, quoted, hex, int_text, bool_text, comma, comma_after,
  dumps, dump_values, dump_entries, is_break,
}

abbrev pub IsFlat : Text → Type 0
IsFlat s = exists is_break s ≡ false

pub IsFlat-append : (s t : Text) → IsFlat s → IsFlat t → IsFlat (s ++ t)
IsFlat-append [] t h k = k
IsFlat-append (c ∷ s) t h k = ground (arith, IsFlat-append s t)

hex-ne-break : (d : ℕ) → is_break (hex d) ≡ false
hex-ne-break d = ground arith

escape-IsFlat : (c : ℕ) → IsFlat (escape c)
unfolding escape
escape-IsFlat c = ground (arith, hex-ne-break (c / 16), hex-ne-break (c % 16))

quoted-IsFlat : (s : Text) → IsFlat (quoted s)
unfolding quoted
quoted-IsFlat s = IsFlat-append (escaped s) (codes "\"") (go s) refl
  where
    go : (s : Text) → IsFlat (escaped s)
    go [] = refl
    go (c ∷ s) = IsFlat-append (escape c) (escaped s) (escape-IsFlat c) (go s)

digits-IsFlat : (s : Text) → exists is_other s ≡ false → IsFlat s
digits-IsFlat [] h = refl
digits-IsFlat (c ∷ s) h = ground (arith, digits-IsFlat s)

pub decimal-IsFlat : (n : ℕ) → IsFlat (decimal n)
decimal-IsFlat n = digits-IsFlat (decimal n) (all_digits n)

int_text-IsFlat : (i : ℤ) → IsFlat (int_text i)
int_text-IsFlat (ℤ.pos n) = decimal-IsFlat n
int_text-IsFlat (ℤ.negsuc n) = decimal-IsFlat (suc n)

bool_text-IsFlat : (b : Bool) → IsFlat (bool_text b)
bool_text-IsFlat true = refl
bool_text-IsFlat false = refl

module _ {F : Type 0} where
  comma-IsFlat : (vs : Values F) → IsFlat (comma vs)
  comma-IsFlat Values.nil = refl
  comma-IsFlat (Values.cons _ _) = refl

  comma_after-IsFlat : (es : Entries F) → IsFlat (comma_after es)
  comma_after-IsFlat Entries.end = refl
  comma_after-IsFlat (Entries.entry _ _ _) = refl

module _ {F : Type 0} (repr : F → Text) (flat : (x : F) → IsFlat (repr x)) where
  mutual
    unfolding dumps dump_values dump_entries

    pub dumps-IsFlat : (v : Value F) → IsFlat (dumps repr v)
    dumps-IsFlat Value.null = refl
    dumps-IsFlat (Value.bool b) = bool_text-IsFlat b
    dumps-IsFlat (Value.int i) = int_text-IsFlat i
    dumps-IsFlat (Value.float x) = flat x
    dumps-IsFlat (Value.text s) = quoted-IsFlat s
    dumps-IsFlat (Value.array vs) =
        IsFlat-append (dump_values repr vs) (codes "]") (dump_values-IsFlat vs) refl
    dumps-IsFlat (Value.object es) =
        IsFlat-append (dump_entries repr es) (codes "}") (dump_entries-IsFlat es) refl

    dump_values-IsFlat : (vs : Values F) → IsFlat (dump_values repr vs)
    dump_values-IsFlat Values.nil = refl
    dump_values-IsFlat (Values.cons v vs) =
        IsFlat-append (dumps repr v) (comma vs ++ dump_values repr vs) (dumps-IsFlat v)
          (IsFlat-append (comma vs) (dump_values repr vs) (comma-IsFlat vs) (dump_values-IsFlat vs))

    dump_entries-IsFlat : (es : Entries F) → IsFlat (dump_entries repr es)
    dump_entries-IsFlat Entries.end = refl
    dump_entries-IsFlat (Entries.entry k v es) = IsFlat-append (quoted k) _ (quoted-IsFlat k) (
        IsFlat-append (codes ": ") (dumps repr v ++ (comma_after es ++ dump_entries repr es)) refl (
          IsFlat-append (dumps repr v) (comma_after es ++ dump_entries repr es) (dumps-IsFlat v) (
            IsFlat-append (comma_after es) (dump_entries repr es) (comma_after-IsFlat es)
              (dump_entries-IsFlat es))))
