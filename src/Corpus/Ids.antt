-- ===== src/Corpus/Ids.antt =====
-- legal_core/src/legal_core/ids.py: the identifiers of laws, articles and points. `uuid5` is
-- `str(uuid.uuid5(NS, key))`.
use agentchatbot_v.Prelude.{
  ℕ, zero, suc, ◌+◌, ◌≡◌, refl, Option, none, some, [], ◌∷◌, ◌++◌, ◌==◌, if◌then◌else◌,
}
use agentchatbot_v.Text.{Text, codes, decimal}
use agentchatbot_v.Json.{ℤ, pos, negsuc}

-- `str(n)`
unfoldable pub show_int : ℤ → Text
unfolding decimal
show_int (ℤ.pos n) = decimal n
show_int (ℤ.negsuc n) = 0x2d ∷ decimal (n + 1)

abbrev base : Text
base = codes "https://2026agent.kr/law"

abbrev pub resource_iri : Text → Text
resource_iri law_id = base ++ (codes "/법령/" ++ law_id)

-- `eff_date.replace('-', '')`
unfoldable pub without_dashes : Text → Text
without_dashes [] = []
without_dashes (c ∷ s) = let rest = without_dashes s in if c == 0x2d then rest else c ∷ rest

unfoldable pub expression_iri : Text → Text → Text
unfolding without_dashes
expression_iri law_id eff_date = resource_iri law_id ++ (0x2f ∷ without_dashes eff_date)

-- A branch number of 0 is none.
abbrev pub branch_part : Option ℤ → Text
branch_part none = []
branch_part (some (ℤ.pos zero)) = []
branch_part (some (ℤ.pos (suc n))) = codes "의" ++ show_int (pos (suc n))
branch_part (some (ℤ.negsuc n)) = codes "의" ++ show_int (negsuc n)

unfoldable pub article_segment : ℤ → Option ℤ → Text
unfolding show_int
article_segment n branch = codes "제" ++ (show_int n ++ (codes "조" ++ branch_part branch))

unfoldable pub article_iri : Text → Text → ℤ → Option ℤ → Text
unfolding expression_iri article_segment
article_iri law_id eff_date n branch =
    expression_iri law_id eff_date ++ (0x2f ∷ article_segment n branch)

unfoldable pub point_key : Text → ℕ → Text
unfolding decimal
point_key iri zero = iri
point_key iri (suc n) = iri ++ (codes "#p" ++ decimal (suc n))

unfoldable pub point_id : {I : Type 0} → (Text → I) → Text → ℕ → I
unfolding point_key
point_id uuid5 iri seq = uuid5 (point_key iri seq)

decimal_2026 : decimal 2026 ≡ codes "2026"
unfolding decimal
decimal_2026 = refl

branch_article : article_segment (pos 4) (some (pos 2)) ≡ codes "제4조의2"
unfolding article_segment
branch_article = refl
