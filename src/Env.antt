-- ===== src/Env.antt =====
-- The environment variables, and the readings of them that several files share (app.py lines
-- 164-176, config.py lines 100-103).
use agentchatbot_v.Prelude.{ℕ, Option, none, some, List, [], ◌∷◌, ◌==◌, if◌then◌else◌}
use agentchatbot_v.Text.{Text, strip, is_empty}

-- `os.environ`: the value of a variable, if it is set.
abbrev pub Env : Type 0
Env = Text → Option Text

-- `os.environ.get(name, default)` on what the variable holds.
abbrev pub value_or : Text → Option Text → Text
value_or d none = d
value_or d (some v) = v

-- `os.environ.get(name, "").strip()`
unfoldable pub trimmed : Env → Text → Text
unfolding strip
trimmed env name = strip (value_or [] (env name))

-- `text or default`
abbrev pub default_if_empty : Text → Text → Text
default_if_empty d [] = d
default_if_empty d (c ∷ s) = c ∷ s

-- `text.split(",")`
abbrev onto_first : ℕ → List Text → List Text
onto_first c [] = (c ∷ []) ∷ []
onto_first c (p ∷ ps) = (c ∷ p) ∷ ps

unfoldable pub split_commas : Text → List Text
split_commas [] = [] ∷ []
split_commas (c ∷ s) =
    let rest = split_commas s in if c == 0x2c then [] ∷ rest else onto_first c rest

-- `[p.strip() for p in parts if p.strip()]`
unfoldable pub stripped : List Text → List Text
unfolding strip
stripped [] = []
stripped (p ∷ ps) = let rest = stripped ps in if is_empty (strip p) then rest else strip p ∷ rest
