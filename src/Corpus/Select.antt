-- ===== src/Corpus/Select.antt =====
-- `FusekiGraph.select` (graph_fuseki.py, lines 98-104): the names in a template are replaced by the
-- texts of the terms that are bound to them, one binding after the other. `n3` writes a term.
use agentchatbot_v.Prelude.{
  ℕ, zero, suc, ◌-◌, ◌≡◌, refl, Bool, true, false, ◌&&◌, List, [], ◌∷◌, ◌++◌, ◌==◌, if◌then◌else◌,
  length,
}
use agentchatbot_v.Text.{Text, codes}

-- A value that is an IRI, a literal of rdflib, or any other, which becomes a literal.
pub data Bound : Type 0 where
  iri : Text → Bound
  literal : Text → Bound
  other : Text → Bound

pub data Term : Type 0 where
  iri : Text → Term
  literal : Text → Term

abbrev term_of : Bound → Term
term_of (Bound.iri s) = Term.iri s
term_of (Bound.literal s) = Term.literal s
term_of (Bound.other s) = Term.literal s

abbrev begins_with : Text → Text → Bool
begins_with [] s = true
begins_with (a ∷ p) [] = false
begins_with (a ∷ p) (b ∷ s) = a == b && begins_with p s

-- `s.replace(old, new)` for an `old` that is not empty; `skip` characters of the last find are left.
unfoldable pub replace_from : Text → Text → ℕ → Text → Text
replace_from old new skip [] = []
replace_from old new (suc skip) (c ∷ s) = replace_from old new skip s
replace_from old new zero (c ∷ s) =
    let found = new ++ replace_from old new (length old - 1) s in
    let kept = c ∷ replace_from old new zero s in if begins_with old (c ∷ s) then found else kept

unfoldable pub replace : Text → Text → Text → Text
unfolding replace_from
replace old new s = replace_from old new zero s

unfoldable pub bind_all : (Term → Text) → List (Text × Bound) → Text → Text
unfolding replace
bind_all n3 [] q = q
bind_all n3 ((name, v) ∷ rest) q = bind_all n3 rest (replace (b'$' ∷ name) (n3 (term_of v)) q)

-- `select`, on what the server answers to a query
unfoldable pub select : {A : Type 0} → (Term → Text) → (Text → A) → Text → List (Text × Bound) → A
unfolding bind_all
select n3 query template bindings = query (bind_all n3 bindings template)

-- A literal between quotes, as `n3` writes one that has nothing to escape.
abbrev quoted : Term → Text
quoted (Term.iri s) = b'<' ∷ (s ++ codes ">")
quoted (Term.literal s) = b'"' ∷ (s ++ codes "\"")

-- A value that spells the name of a later binding is opened by it: the quotes of the second value
-- stand within those of the first, so that its text ends the literal.
pub select_opens_literal :
    bind_all quoted
      ((codes "a", Bound.other (codes "$b")) ∷ (codes "b", Bound.other (codes "x")) ∷ [])
      (codes "FILTER(?t = $a)")
    ≡ codes "FILTER(?t = \"\"x\"\")"
unfolding bind_all
select_opens_literal = refl
