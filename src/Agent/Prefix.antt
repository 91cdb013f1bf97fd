-- ===== src/Agent/Prefix.antt =====
-- What is left of a checkpoint after `clear_interrupted_tools` of agent.py (lines 97-139).
use agentchatbot_v.Prelude.{
  ℕ, suc, ◌+◌, ◌≡◌, refl, sym, subst, ◌⊎◌, inl, inr, Bool, true, false, Option, none, some, List,
  [], ◌∷◌, leb, arith, if◌then◌else◌, first, take, Bool-cases, Option-cases,
}
use agentchatbot_v.Store.Schema.{Content}
use agentchatbot_v.Agent.Checkpoint.{
  LcMessage, Turn, question, answer, Update, remove_one, replace, rebuild, add, has_calls, is_human,
  is_answer, cut_from, turns_of, anchored, clear_interrupted_tools,
}

abbrev pub ends_answered : List Turn → Bool
ends_answered [] = false
ends_answered (question c ∷ []) = false
ends_answered (answer c ∷ []) = true
ends_answered (t ∷ u ∷ ts) = ends_answered (u ∷ ts)

-- The number of messages up to the last answer.
last_cut : List LcMessage → ℕ
last_cut [] = 0
last_cut (m ∷ ms) =
    let rest = last_cut ms in if leb 1 rest then suc rest else if is_answer m then 1 else 0

cut_from-last_cut :
    (i cut : ℕ) (ms : List LcMessage)
    → cut_from i cut ms ≡ (if leb 1 (last_cut ms) then i + last_cut ms else cut)
unfolding cut_from last_cut
cut_from-last_cut i cut [] = refl
cut_from-last_cut i cut (m ∷ ms) =
    ground (arith, cut_from-last_cut (i + 1) (if is_answer m then i + 1 else cut) ms)

ends_cons : (t : Turn) (ts : List Turn) → ends_answered ts ≡ true → ends_answered (t ∷ ts) ≡ true
ends_cons t [] h = ground arith
ends_cons (question c) (u ∷ ts) h = h
ends_cons (answer c) (u ∷ ts) h = h

ends_turns :
    (m : LcMessage) (ms : List LcMessage)
    → ends_answered (turns_of ms) ≡ true
    → ends_answered (turns_of (m ∷ ms)) ≡ true
unfolding turns_of
ends_turns m ms h = elim (Bool-cases (is_human m)) [
  | inl e ↦ rw e (ends_cons (question m.content) (turns_of ms) h)
  | inr e ↦ elim (Bool-cases (is_answer m)) [
    | inl a ↦ rw (e, a) (ends_cons (answer m.content) (turns_of ms) h)
    | inr a ↦ rw (e, a) h
  ]
]

ends_one : (m : LcMessage) → is_answer m ≡ true → ends_answered (turns_of (m ∷ [])) ≡ true
unfolding turns_of
ends_one m h = ground arith

ends-last_cut :
    (ms : List LcMessage)
    → leb 1 (last_cut ms) ≡ true
    → ends_answered (turns_of (take (last_cut ms) ms)) ≡ true
unfolding last_cut
ends-last_cut [] h = ground arith
ends-last_cut (m ∷ ms) h = elim (Bool-cases (leb 1 (last_cut ms))) [
  | inl e ↦ rw e (ends_turns m (take (last_cut ms) ms) (ends-last_cut ms e))
  | inr e ↦ elim (Bool-cases (is_answer m)) [
    | inl a ↦ rw (e, a) (ends_one m a)
    | inr a ↦ ground arith
  ]
]

-- The update leaves a conversation that ends with an answer, or one question; no update is made
-- only where no message has tool calls or no message is a question.
abbrev pub Cleaned : List LcMessage → Option Update → Type 0
Cleaned msgs none = (first has_calls msgs ≡ none) ⊎ (first is_human msgs ≡ none)
Cleaned msgs (some (rebuild ts)) =
    (ends_answered ts ≡ true) ⊎ ((c : Content) × (ts ≡ question c ∷ []))
Cleaned msgs (some (remove_one _)) = false ≡ true
Cleaned msgs (some (replace _ _ _)) = false ≡ true
Cleaned msgs (some (add _)) = false ≡ true

anchored-Cleaned :
    (msgs : List LcMessage) (o : Option LcMessage) (ts : List Turn)
    → first is_human msgs ≡ o
    → (ts ≡ []) ⊎ (ends_answered ts ≡ true)
    → Cleaned msgs (anchored o ts)
anchored-Cleaned msgs none [] e h = inr e
anchored-Cleaned msgs (some m) [] e h = inr (m.content, refl)
anchored-Cleaned msgs o (t ∷ ts) e (inl k) = ground arith
anchored-Cleaned msgs none (t ∷ ts) e (inr k) = inl k
anchored-Cleaned msgs (some m) (t ∷ ts) e (inr k) = inl k

cut_eq : (ms : List LcMessage) → cut_from 0 0 ms ≡ (if leb 1 (last_cut ms) then last_cut ms else 0)
cut_eq ms = ground (arith, cut_from-last_cut 0 0 ms)

kept :
    (msgs : List LcMessage) (b : Bool)
    → leb 1 (last_cut msgs) ≡ b
    → let ts = turns_of (take (if b then last_cut msgs else 0) msgs) in
      (ts ≡ []) ⊎ (ends_answered ts ≡ true)
unfolding turns_of
kept msgs true e = inr (ends-last_cut msgs e)
kept msgs false e = inl refl

-- The clean-up of an interrupted run rebuilds the checkpoint as a conversation of questions and
-- answers without tool calls that ends with an answer, or as one question alone; it leaves the
-- checkpoint as it is only if no message of it has tool calls or no message is a question.
pub clear_interrupted_tools_lem :
    (msgs : List LcMessage) → Cleaned msgs (clear_interrupted_tools msgs)
unfolding clear_interrupted_tools
clear_interrupted_tools_lem msgs = elim (Option-cases (first has_calls msgs)) [
  | inl e ↦ rw e (inl e)
  | inr (m, e) ↦ rw e (
      anchored-Cleaned msgs (first is_human msgs) (turns_of (take (cut_from 0 0 msgs) msgs)) refl (
        subst (λ n. (turns_of (take n msgs) ≡ []) ⊎ (ends_answered (turns_of (take n msgs)) ≡ true))
          (sym (cut_eq msgs)) (kept msgs (leb 1 (last_cut msgs)) refl)))
]
