-- ===== src/Run/Compose.antt =====
-- `_compose` and `_title_from` of run_service.py (lines 38-60 and 527-542).
use agentchatbot_v.Prelude.{
  ℕ, Bool, true, false, ◌&&◌, ◌||◌, Option, none, some, List, [], ◌∷◌, ◌++◌, ◌==◌, ltb, leb,
  if◌then◌else◌, remove, sort_by, length, take, is_some, ◌≡◌, refl,
}
use agentchatbot_v.Text.{Text, codes, text_eq, text_lt, mem_text, strip, join, is_empty}

abbrev pub disclaimer : Text
disclaimer = codes "※ 본 답변은 법률자문이 아니며, 정확한 판단은 전문가 확인이 필요합니다."

abbrev pub no_answer : Text
no_answer = codes "요청하신 내용에 대한 근거를 찾지 못해 답변을 생성하지 못했습니다. 질문을 구체화해 다시 시도해 주세요."

-- _ZERO_WIDTH
abbrev pub is_zero_width : ℕ → Bool
is_zero_width c = c == 0x200b || c == 0x200c || c == 0x200d || c == 0x2060 || c == 0xfeff

unfoldable pub drop_zero_width : Text → Text
drop_zero_width s = remove is_zero_width s

-- _AUTH_WS: space, tab, ideographic space
abbrev is_auth_space : ℕ → Bool
is_auth_space c = c == 0x20 || c == 0x09 || c == 0x3000

skip_auth_space : Text → Text
skip_auth_space [] = []
skip_auth_space (c ∷ s) = let rest = skip_auth_space s in if is_auth_space c then rest else c ∷ s

after_word : Text → Text → Option Text
after_word [] s = some s
after_word (p ∷ ps) [] = none
after_word (p ∷ ps) (c ∷ s) = let rest = after_word ps s in if p == c then rest else none

-- Words with spaces of _AUTH_WS between them.
after_words : List Text → Text → Option Text
unfolding after_word skip_auth_space
after_words [] s = some s
after_words (p ∷ ps) s = elim (after_word p s) [
  | none ↦ none
  | some rest ↦ after_words ps (skip_auth_space rest)
]

abbrev starts_with_colon : Text → Bool
starts_with_colon [] = false
starts_with_colon (c ∷ s) = c == 0x3a || c == 0xff1a

abbrev version_words : List Text
version_words = (0x2696 ∷ 0xfe0f ∷ []) ∷ codes "기준" ∷ codes "시행일자" ∷ []

abbrev disclaimer_words : List Text
disclaimer_words = codes "※" ∷ codes "본" ∷ codes "답변은" ∷ codes "법률자문" ∷ []

-- Whether _AUTHORITY_LINE matches here; it then takes the rest of the line.
unfoldable pub is_authority : Text → Bool
unfolding after_words
is_authority s =
    is_some (after_words disclaimer_words s)
    || elim (after_words version_words s) [ none ↦ false | some rest ↦ starts_with_colon rest ]

-- `_AUTHORITY_LINE.sub("", s)`; the flag says that the characters up to the next newline are taken.
unfoldable pub strip_authority : Bool → Text → Text
unfolding is_authority
strip_authority taken [] = []
strip_authority true (c ∷ s) = elim (c == 0x0a) [
  | true ↦ c ∷ strip_authority false s
  | false ↦ strip_authority true s
]
strip_authority false (c ∷ s) = elim (is_authority (c ∷ s)) [
  | true ↦ strip_authority true s
  | false ↦ c ∷ strip_authority false s
]

-- `list(dict.fromkeys(xs))`: the first occurrences, in order; `seen` holds those before.
unfoldable pub distinct_from : List Text → List Text → List Text
distinct_from seen [] = []
distinct_from seen (t ∷ ts) = elim (mem_text t seen) [
  | true ↦ distinct_from seen ts
  | false ↦ t ∷ distinct_from (t ∷ seen) ts
]

unfoldable pub distinct : List Text → List Text
unfolding distinct_from
distinct = distinct_from []

unfoldable pub dict_get : Text → List (Text × Text) → Option Text
dict_get k [] = none
dict_get k ((j, v) ∷ d) = if text_eq j k then some v else dict_get k d

-- `{rs.cited_eff[c] for c in cited if c in rs.cited_eff}`
unfoldable pub eff_of : List (Text × Text) → List Text → List Text
unfolding dict_get
eff_of eff [] = []
eff_of eff (c ∷ cs) = elim (dict_get c eff) [
  | none ↦ eff_of eff cs
  | some date ↦ date ∷ eff_of eff cs
]

abbrev header : List Text → Text
header [] = []
header (d ∷ ds) = 0x2696 ∷ 0xfe0f ∷ codes " 기준 시행일자: " ++ join (codes ", ") (d ∷ ds)

-- The draft without invisible characters and without the lines that only the server may write.
unfoldable pub clean : Text → Text
unfolding drop_zero_width strip_authority strip
clean body = strip (strip_authority false (drop_zero_width body))

abbrev or_no_answer : Text → Text
or_no_answer [] = no_answer
or_no_answer (c ∷ s) = c ∷ s

unfoldable pub compose : Text → List Text → List (Text × Text) → Text
unfolding clean eff_of distinct text_lt sort_by join
compose body cited eff = join (0x0a ∷ 0x0a ∷ []) (
    remove is_empty (
      header (sort_by text_lt (distinct (eff_of eff cited)))
      ∷ or_no_answer (clean body)
      ∷ disclaimer
      ∷ []))

-- The line boundaries of `str.splitlines`.
abbrev is_line_end : ℕ → Bool
is_line_end c =
    (leb 0x0a c && leb c 0x0d)
    || (leb 0x1c c && leb c 0x1e)
    || c == 0x85
    || c == 0x2028
    || c == 0x2029

split_lines : Text → Text → List Text
split_lines line [] = line ∷ []
split_lines line (c ∷ s) = elim (is_line_end c) [
  | true ↦ line ∷ split_lines [] s
  | false ↦ split_lines (line ++ c ∷ []) s
]

-- `next((ln.strip() for ln in lines if ln.strip()), "")`
first_text : List Text → Text
unfolding strip
first_text [] = []
first_text (l ∷ ls) = elim (strip l) [ [] ↦ first_text ls | c ∷ s ↦ c ∷ s ]

-- `_title_from`
unfoldable pub title_from : Text → Text
unfolding first_text split_lines
title_from s =
    let line = first_text (split_lines [] s) in
    if ltb 60 (length line) then take 60 line ++ codes "…" else line

title_skips_blank :
    title_from (0x0a ∷ 0x20 ∷ 0x0a ∷ codes " hi there" ++ (0x0d ∷ codes "x")) ≡ codes "hi there"
unfolding title_from
title_skips_blank = refl

compose_strips :
    compose
      (codes "답 [[cite:a]]" ++ (0x0a ∷ 0x2696 ∷ 0xfe0f ∷ codes "기준 시행일자: 1999"))
      (codes "a" ∷ [])
      ((codes "a", codes "2024") ∷ [])
    ≡ 0x2696 ∷ 0xfe0f ∷ codes " 기준 시행일자: 2024"
      ++ (0x0a ∷ 0x0a ∷ codes "답 [[cite:a]]" ++ (0x0a ∷ 0x0a ∷ disclaimer))
unfolding compose
compose_strips = refl
