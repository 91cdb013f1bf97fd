-- ===== src/Run/Wire/Meaning.antt =====
-- The JSON text of a value is read as the tokens of the value, whatever follows it.
use Prim.Native.Nat.{◌/◌, ◌%◌}
use agentchatbot_v.Prelude.{
  ℕ, zero, suc, ◌+◌, ◌≡◌, refl, sym, ap, ◌∙◌, Bool, true, false, ◌||◌, List, [], ◌∷◌, ◌++◌, ltb,
  arith, exists_mono, append_assoc, Bool-cases, inl, inr, if◌then◌else◌,
}
use agentchatbot_v.Text.{Text, codes, decimal, decimal_from, is_empty, text_eq}
use agentchatbot_v.Json.{ℤ}
use agentchatbot_v.Corpus.Digits.{is_other, all_digits}
use agentchatbot_v.Run.Wire.{
  Value, Values, Entries, dumps, dump_values, dump_entries, quoted, put, comma, comma_after,
  int_text, is_break, payload, SseEvent,
}
use agentchatbot_v.Run.Wire.Flat.{IsFlat}
use agentchatbot_v.Run.Wire.Tokens.{
  Token, Place, lex, tokens, tokens_of_values, tokens_of_entries, between_values, between_entries,
  numbered_entries, colon, list_comma,
}
use agentchatbot_v.Run.Wire.Decoding.{is_foreign, IsAtom, Ends, quoted_read, atom_read}

filled_from : (fuel n : ℕ) (c : ℕ) (acc : Text) → is_empty (decimal_from fuel n (c ∷ acc)) ≡ false
unfolding decimal_from
filled_from zero n c acc = refl
filled_from (suc fuel) n c acc = go (ltb n 10) (filled_from fuel (n / 10) (48 + n % 10) (c ∷ acc))
  where
    go :
        (b : Bool)
        → is_empty (decimal_from fuel (n / 10) ((48 + n % 10) ∷ c ∷ acc)) ≡ false
        → is_empty (
            if b
            then (48 + n % 10) ∷ c ∷ acc
            else decimal_from fuel (n / 10) ((48 + n % 10) ∷ c ∷ acc))
          ≡ false
    go true h = refl
    go false h = h

filled_decimal : (n : ℕ) → is_empty (decimal n) ≡ false
unfolding decimal decimal_from
filled_decimal n = go (ltb n 10) (filled_from n (n / 10) (48 + n % 10) [])
  where
    go :
        (b : Bool)
        → is_empty (decimal_from n (n / 10) ((48 + n % 10) ∷ [])) ≡ false
        → is_empty (if b then (48 + n % 10) ∷ [] else decimal_from n (n / 10) ((48 + n % 10) ∷ []))
          ≡ false
    go true h = refl
    go false h = h

pub decimal-IsAtom : (n : ℕ) → IsAtom (decimal n)
decimal-IsAtom n = record {
  plain = exists_mono is_foreign is_other (decimal n) (λ c h. ground arith) (all_digits n);
  filled = filled_decimal n;
}

int_text-IsAtom : (i : ℤ) → IsAtom (int_text i)
int_text-IsAtom (ℤ.pos n) = decimal-IsAtom n
int_text-IsAtom (ℤ.negsuc n) = record { plain = (decimal-IsAtom (suc n)).plain; filled = refl }

pub IsAtom-IsFlat : (s : Text) → IsAtom s → IsFlat s
IsAtom-IsFlat s h = exists_mono is_break is_foreign s (λ c k. ground arith) h.plain

unfoldable pub has_key : {F : Type 0} → Text → Entries F → Bool
has_key k Entries.end = false
has_key k (Entries.entry j v es) = text_eq j k || has_key k es

module _ {F : Type 0} (repr : F → Text) (atoms : (x : F) → IsAtom (repr x)) where
  values_end : (vs : Values F) (t : Text) → Ends (comma vs ++ (dump_values repr vs ++ b']' ∷ t))
  unfolding dump_values
  values_end Values.nil t = (refl, refl)
  values_end (Values.cons v vs) t = (refl, refl)

  entries_end :
      (es : Entries F) (t : Text) → Ends (comma_after es ++ (dump_entries repr es ++ b'}' ∷ t))
  unfolding dump_entries
  entries_end Entries.end t = (refl, refl)
  entries_end (Entries.entry k v es) t = (refl, refl)

  comma_read :
      (vs : Values F) (t : Text)
      → lex Place.between (comma vs ++ t) ≡ between_values vs ++ lex Place.between t
  unfolding lex
  comma_read Values.nil t = refl
  comma_read (Values.cons v vs) t = refl

  comma_after_read :
      (es : Entries F) (t : Text)
      → lex Place.between (comma_after es ++ t) ≡ between_entries es ++ lex Place.between t
  unfolding lex
  comma_after_read Entries.end t = refl
  comma_after_read (Entries.entry k v es) t = refl

  close_read :
      (c : ℕ) (t : Text) (ks : List Token)
      → lex Place.between (c ∷ t) ≡ Token.mark c ∷ lex Place.between t
      → ks ++ lex Place.between (c ∷ t) ≡ (ks ++ Token.mark c ∷ []) ++ lex Place.between t
  close_read c t ks h =
      ap (λ l. ks ++ l) h ∙ sym (append_assoc ks (Token.mark c ∷ []) (lex Place.between t))

  mutual
    unfolding lex dumps dump_values dump_entries tokens tokens_of_values tokens_of_entries

    pub value_read :
        (v : Value F) (t : Text)
        → Ends t
        → lex Place.between (dumps repr v ++ t) ≡ tokens repr v ++ lex Place.between t
    value_read Value.null t h =
        atom_read (codes "null") t (record { plain = refl; filled = refl }) h
    value_read (Value.bool true) t h =
        atom_read (codes "true") t (record { plain = refl; filled = refl }) h
    value_read (Value.bool false) t h =
        atom_read (codes "false") t (record { plain = refl; filled = refl }) h
    value_read (Value.int (ℤ.pos n)) t h = atom_read (decimal n) t (decimal-IsAtom n) h
    value_read (Value.int (ℤ.negsuc n)) t h =
        atom_read (b'-' ∷ decimal (suc n)) t (int_text-IsAtom (ℤ.negsuc n)) h
    value_read (Value.float x) t h = atom_read (repr x) t (atoms x) h
    value_read (Value.text s) t h = quoted_read s t
    value_read (Value.array vs) t h =
        ap (λ l. Token.mark b'[' ∷ l)
          (ap (lex Place.between) (append_assoc (dump_values repr vs) (codes "]") t)
            ∙ values_read vs t
            ∙ close_read b']' t (tokens_of_values repr vs) refl)
    value_read (Value.object es) t h =
        ap (λ l. Token.mark b'{' ∷ l)
          (ap (lex Place.between) (append_assoc (dump_entries repr es) (codes "}") t)
            ∙ entries_read es t
            ∙ close_read b'}' t (tokens_of_entries repr es) refl)

    values_read :
        (vs : Values F) (t : Text)
        → lex Place.between (dump_values repr vs ++ b']' ∷ t)
          ≡ tokens_of_values repr vs ++ lex Place.between (b']' ∷ t)
    values_read Values.nil t = refl
    values_read (Values.cons v vs) t =
        ap (lex Place.between) (
          append_assoc (dumps repr v) (comma vs ++ dump_values repr vs) (b']' ∷ t)
          ∙ ap (λ l. dumps repr v ++ l) (append_assoc (comma vs) (dump_values repr vs) (b']' ∷ t)))
        ∙ value_read v (comma vs ++ (dump_values repr vs ++ b']' ∷ t)) (values_end vs t)
        ∙ ap (λ l. tokens repr v ++ l)
            (comma_read vs (dump_values repr vs ++ b']' ∷ t)
              ∙ ap (λ l. between_values vs ++ l) (values_read vs t)
              ∙ sym (
                  append_assoc (between_values vs) (tokens_of_values repr vs)
                    (lex Place.between (b']' ∷ t))))
        ∙ sym (
            append_assoc (tokens repr v) (between_values vs ++ tokens_of_values repr vs)
              (lex Place.between (b']' ∷ t)))

    entries_read :
        (es : Entries F) (t : Text)
        → lex Place.between (dump_entries repr es ++ b'}' ∷ t)
          ≡ tokens_of_entries repr es ++ lex Place.between (b'}' ∷ t)
    entries_read Entries.end t = refl
    entries_read (Entries.entry k v es) t =
        ap (lex Place.between) (
          append_assoc (quoted k)
            (codes ": " ++ (dumps repr v ++ (comma_after es ++ dump_entries repr es))) (b'}' ∷ t)
          ∙ ap (λ l. quoted k ++ (b':' ∷ b' ' ∷ l))
              (append_assoc (dumps repr v) (comma_after es ++ dump_entries repr es) (b'}' ∷ t)
                ∙ ap (λ l. dumps repr v ++ l)
                    (append_assoc (comma_after es) (dump_entries repr es) (b'}' ∷ t))))
        ∙ quoted_read k
            (b':' ∷ b' ' ∷ (dumps repr v ++ (comma_after es ++ (dump_entries repr es ++ b'}' ∷ t))))
        ∙ ap (λ l. Token.string k ∷ colon ∷ l)
            (value_read v (comma_after es ++ (dump_entries repr es ++ b'}' ∷ t)) (entries_end es t)
              ∙ ap (λ l. tokens repr v ++ l)
                  (comma_after_read es (dump_entries repr es ++ b'}' ∷ t)
                    ∙ ap (λ l. between_entries es ++ l) (entries_read es t)
                    ∙ sym (
                        append_assoc (between_entries es) (tokens_of_entries repr es)
                          (lex Place.between (b'}' ∷ t))))
              ∙ sym (
                  append_assoc (tokens repr v) (between_entries es ++ tokens_of_entries repr es)
                    (lex Place.between (b'}' ∷ t))))

  put_seq :
      (n : ℕ) (es : Entries F)
      → has_key (codes "seq") es ≡ false
      → tokens_of_entries repr (put (codes "seq") (Value.int (ℤ.pos n)) es)
        ≡ numbered_entries repr n es
  unfolding put has_key numbered_entries tokens tokens_of_entries
  put_seq n Entries.end h = refl
  put_seq n (Entries.entry k v es) h = rw (other k es h) (
      ap (λ l. Token.string k ∷ colon ∷ (tokens repr v ++ l))
        (between_put n es ∙ ap (λ l. list_comma ++ l) (put_seq n es (ground (arith, h)))))
    where
      other :
          (k : Text) (es : Entries F)
          → (text_eq k (codes "seq") || has_key (codes "seq") es) ≡ false
          → text_eq k (codes "seq") ≡ false
      other k es h = ground arith

      between_put :
          (n : ℕ) (es : Entries F)
          → between_entries (put (codes "seq") (Value.int (ℤ.pos n)) es)
              ++ tokens_of_entries repr (put (codes "seq") (Value.int (ℤ.pos n)) es)
            ≡ list_comma ++ tokens_of_entries repr (put (codes "seq") (Value.int (ℤ.pos n)) es)
      between_put n Entries.end = refl
      between_put n (Entries.entry j u es) = elim (Bool-cases (text_eq j (codes "seq"))) [
        | inl e ↦ rw e refl
        | inr e ↦ rw e refl
      ]

  -- The data of an event, with its number.
  pub payload_read :
      (ev : SseEvent F)
      → has_key (codes "seq") ev.data_of ≡ false
      → lex Place.between (payload repr ev)
        ≡ Token.mark b'{' ∷ (numbered_entries repr ev.seq ev.data_of ++ Token.mark b'}' ∷ [])
  unfolding lex payload dumps
  payload_read ev h =
      ap (λ l. Token.mark b'{' ∷ l)
        (entries_read (put (codes "seq") (Value.int (ℤ.pos ev.seq)) ev.data_of) []
          ∙ ap (λ l. l ++ Token.mark b'}' ∷ []) (put_seq ev.seq ev.data_of h))
