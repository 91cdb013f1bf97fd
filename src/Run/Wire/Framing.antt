-- ===== src/Run/Wire/Framing.antt =====
-- The frames of `sse_wire`, one after another as the stream route sends them, and their reader.
use agentchatbot_v.Prelude.{
  ℕ, ◌≡◌, refl, sym, ap, ap₂, All, ◌∙◌, false, List, [], ◌∷◌, ◌++◌, map, arith, ◌==◌, exists,
  exists-remove, remove, append_assoc, append_nil,
}
use agentchatbot_v.Text.{Text, codes, decimal}
use agentchatbot_v.Json.{ℤ}
use agentchatbot_v.Corpus.Digits.{is_other, all_digits}
use agentchatbot_v.Run.Wire.{SseEvent, Value, payload, sse_wire, is_break, dumps, dump_entries, put}
use agentchatbot_v.Run.Wire.Reader.{
  lines, Received, Buffers, interpret, or_message, without_last, read_stream,
}
use agentchatbot_v.Run.Wire.Tokens.{Token, Place, lex, numbered_entries}
use agentchatbot_v.Run.Wire.Decoding.{IsAtom}
use agentchatbot_v.Run.Wire.Meaning.{IsAtom-IsFlat, has_key, payload_read}
use agentchatbot_v.Run.Wire.Flat.{IsFlat, IsFlat-append, decimal-IsFlat, dumps-IsFlat}

lines-flat :
    (line a rest : Text)
    → IsFlat a
    → lines false line (a ++ (10 ∷ rest)) ≡ (line ++ a) ∷ lines false [] rest
unfolding lines
lines-flat line [] rest h = ap (λ l. l ∷ lines false [] rest) (sym (append_nil line))
lines-flat line (c ∷ a) rest h =
    ground (arith, lines-flat (line ++ c ∷ []) a rest, append_assoc line (c ∷ []) a)

without_last-append : (s : Text) (c : ℕ) → without_last (s ++ c ∷ []) ≡ s
without_last-append [] c = refl
without_last-append (a ∷ []) c = refl
without_last-append (a ∷ b ∷ s) c = ap (λ l. a ∷ l) (without_last-append (b ∷ s) c)

no_zero : (s : Text) → exists is_other s ≡ false → exists (λ c. c == 0) s ≡ false
no_zero [] h = refl
no_zero (c ∷ s) h = ground (arith, no_zero s)

-- What the frame of an event carries: its name without line breaks, or "message" if nothing is left.
abbrev framed : {F : Type 0} → (F → Text) → SseEvent F → Received
framed repr ev = record {
  type = or_message (remove is_break ev.event);
  payload = payload repr ev;
  last_id = decimal ev.seq;
}

-- An event as the client has it after it has read the JSON text.
pub record Decoded : Type 0 where
  pub type : Text
  pub content : List Token
  pub last_id : Text

abbrev pub decode : Received → Decoded
decode r = record { type = r.type; content = lex Place.between r.payload; last_id = r.last_id }

-- What the client should have of an event.
abbrev pub received : {F : Type 0} → (F → Text) → SseEvent F → Decoded
received repr ev = record {
  type = or_message (remove is_break ev.event);
  content = Token.mark b'{' ∷ (numbered_entries repr ev.seq ev.data_of ++ Token.mark b'}' ∷ []);
  last_id = decimal ev.seq;
}

-- The buffers of a reader that has just dispatched.
abbrev waiting : Text → Buffers
waiting last = record { type = []; payload = []; last_id = last }

interpret_frame :
    (last id name body : Text) (ls : List Text)
    → exists (λ c. c == 0) id ≡ false
    → interpret (waiting last) (
        (codes "id: " ++ id)
        ∷ (codes "event: " ++ name)
        ∷ (codes "data: " ++ (b'{' ∷ body))
        ∷ []
        ∷ ls)
      ≡ record { type = or_message name; payload = b'{' ∷ body; last_id = id }
        ∷ interpret (waiting id) ls
unfolding interpret
interpret_frame last id name body ls z = rw (z, without_last-append (b'{' ∷ body) 10) refl

module _ {F : Type 0} (repr : F → Text) where
  unfoldable pub frames : List (SseEvent F) → Text
  unfolding sse_wire
  frames [] = []
  frames (ev ∷ evs) = sse_wire repr ev ++ frames evs

  split_frame :
      (ev : SseEvent F) (rest : Text)
      → sse_wire repr ev ++ rest
        ≡ (codes "id: " ++ decimal ev.seq)
          ++ (10
              ∷ ((codes "event: " ++ remove is_break ev.event)
                  ++ (10 ∷ ((codes "data: " ++ payload repr ev) ++ (10 ∷ 10 ∷ rest)))))
  unfolding sse_wire
  split_frame ev rest = simp (append_assoc)

  -- The data of an event without the brace in front.
  abbrev body_text : SseEvent F → Text
  unfolding payload dumps
  body_text ev =
      dump_entries repr (put (codes "seq") (Value.int (ℤ.pos ev.seq)) ev.data_of) ++ codes "}"

  module _ (atoms : (x : F) → IsAtom (repr x)) where
    lines_of_frame :
        (ev : SseEvent F) (rest : Text)
        → lines false [] (
            (codes "id: " ++ decimal ev.seq)
            ++ (10
                ∷ ((codes "event: " ++ remove is_break ev.event)
                    ++ (10 ∷ ((codes "data: " ++ payload repr ev) ++ (10 ∷ 10 ∷ rest))))))
          ≡ (codes "id: " ++ decimal ev.seq)
            ∷ (codes "event: " ++ remove is_break ev.event)
            ∷ (codes "data: " ++ payload repr ev)
            ∷ []
            ∷ lines false [] rest
    lines_of_frame ev rest =
        lines-flat [] (codes "id: " ++ decimal ev.seq) _
          (IsFlat-append (codes "id: ") (decimal ev.seq) refl (decimal-IsFlat ev.seq))
        ∙ ap (λ l. (codes "id: " ++ decimal ev.seq) ∷ l)
            (lines-flat [] (codes "event: " ++ remove is_break ev.event) _ (
                IsFlat-append (codes "event: ") (remove is_break ev.event) refl
                  (exists-remove is_break ev.event))
              ∙ ap (λ l. (codes "event: " ++ remove is_break ev.event) ∷ l)
                  (lines-flat [] (codes "data: " ++ payload repr ev) (10 ∷ rest)
                      (IsFlat-append (codes "data: ") (payload repr ev) refl (payload-IsFlat ev))
                    ∙ ap (λ l. (codes "data: " ++ payload repr ev) ∷ l)
                        (lines-flat [] [] rest refl)))
      where
        payload-IsFlat : (ev : SseEvent F) → IsFlat (payload repr ev)
        payload-IsFlat ev =
            unfold payload in dumps-IsFlat repr (λ x. IsAtom-IsFlat (repr x) (atoms x)) _

    interpret-frames :
        (last : Text) (evs : List (SseEvent F))
        → interpret (waiting last) (lines false [] (frames evs)) ≡ map (framed repr) evs
    unfolding frames interpret dumps
    interpret-frames last [] = unfold lines in refl
    interpret-frames last (ev ∷ evs) =
        ap (λ s. interpret (waiting last) (lines false [] s)) (split_frame ev (frames evs))
        ∙ (ap (interpret (waiting last)) (lines_of_frame ev (frames evs))
            ∙ (interpret_frame last (decimal ev.seq) (remove is_break ev.event) (body_text ev)
                  (lines false [] (frames evs)) (no_zero (decimal ev.seq) (all_digits ev.seq))
                ∙ ap (λ l. framed repr ev ∷ l) (interpret-frames (decimal ev.seq) evs)))

    payloads_read :
        (evs : List (SseEvent F))
        → All (λ ev. has_key (codes "seq") ev.data_of ≡ false) evs
        → map decode (map (framed repr) evs) ≡ map (received repr) evs
    payloads_read [] h = refl
    payloads_read (ev ∷ evs) h =
        ap₂
          (λ content rest.
            record {
              type = or_message (remove is_break ev.event);
              content = content;
              last_id = decimal ev.seq;
            }
            ∷ rest)
          (payload_read repr atoms ev h.0) (payloads_read evs h.1)

    -- A client that reads the frames of any events, one after another, and the JSON text in each, gets
    -- exactly these events in their order: the name without line breaks, the seq as the id, and all the
    -- data, key by key and value by value, with every string as it was, and the seq after them. The
    -- conditions are that no data have a key "seq", and that the `repr` of a float is one atom: not
    -- empty, with no space, line break, quote or mark of JSON in it.
    pub read_stream-frames :
        (evs : List (SseEvent F))
        → All (λ ev. has_key (codes "seq") ev.data_of ≡ false) evs
        → map decode (read_stream (frames evs)) ≡ map (received repr) evs
    unfolding read_stream
    read_stream-frames evs h = ap (map decode) (interpret-frames [] evs) ∙ payloads_read evs h
