-- ===== src/Corpus/Injection.antt =====
-- What the text of a query to the graph store can contain.
use agentchatbot_v.Prelude.{
  append_nil, ℕ, suc, ◌≡◌, refl, sym, ap, ap₂, subst, ◌∙◌, Bool, true, false, not, Option, none,
  some, List, [], ◌∷◌, ◌++◌, arith, if◌then◌else◌, exists, exists_mono, All,
}
use agentchatbot_v.Text.{Text, codes, decimal, is_space}
use agentchatbot_v.Corpus.Reading.{
  iris, is_closing, is_white, prefixed, prefixed_cons, prefixed_none, snoc_cons, iris_skip,
  iris_plain, iris_inside, decimal_plain,
}
use agentchatbot_v.Corpus.Fuseki.{
  is_illegal, starts_with, validate_iri, absolute, allowed, curie_to_iri, partition, prefix_of,
  joined, expanded, every, values, query_of, query_text, expand_query,
}

-- What a check lets through has no character that ends an IRI.
IsPlain : Text → Type 0
IsPlain u = exists is_closing u ≡ false

abbrev some_or : Text → Option Text → Text
some_or u none = u
some_or u (some v) = v

white_is_space : (c : ℕ) → is_white c ≡ true → is_space c ≡ true
unfolding is_space
white_is_space c h = ground arith

closing_is_illegal : (c : ℕ) → is_closing c ≡ true → is_illegal c ≡ true
unfolding is_illegal
closing_is_illegal c h = ground (arith, white_is_space c)

legal-IsPlain : (u : Text) → exists is_illegal u ≡ false → IsPlain u
unfolding IsPlain
legal-IsPlain u h = exists_mono is_closing is_illegal u closing_is_illegal h

validated : (u v : Text) → validate_iri u ≡ some v → (u ≡ v) × (IsPlain v)
unfolding validate_iri
validated u v h = by_absolute (absolute u) h
  where
    by_allowed :
        (b : Bool)
        → exists is_illegal u ≡ false
        → (if b then some u else none) ≡ some v
        → (u ≡ v) × (IsPlain v)
    by_allowed true e q = (ap (some_or u) q, subst IsPlain (ap (some_or u) q) (legal-IsPlain u e))
    by_allowed false e q = ground arith

    by_legal :
        (b : Bool)
        → exists is_illegal u ≡ b
        → (if b then none else if allowed u then some u else none) ≡ some v
        → (u ≡ v) × (IsPlain v)
    by_legal true e q = ground arith
    by_legal false e q = by_allowed (allowed u) e q

    by_absolute :
        (b : Bool)
        → (if not b
            then none
            else if exists is_illegal u
            then none
            else if allowed u
            then some u
            else none)
          ≡ some v
        → (u ≡ v) × (IsPlain v)
    by_absolute true q = by_legal (exists is_illegal u) refl q
    by_absolute false q = ground arith

expanded-IsPlain : (p v : Text) → curie_to_iri p ≡ some v → IsPlain v
unfolding curie_to_iri
expanded-IsPlain p v h = go (starts_with (codes "http") p) h
  where
    by_legal :
        (b : Bool) (u : Text)
        → exists is_illegal u ≡ b
        → (if b then none else some u) ≡ some v
        → IsPlain v
    by_legal true u e q = ground arith
    by_legal false u e q = subst IsPlain (ap (some_or u) q) (legal-IsPlain u e)

    by_prefix : (o : Option Text) (l : Text) → joined o l ≡ some v → IsPlain v
    by_prefix none l q = ground arith
    by_prefix (some base) l q = by_legal (exists is_illegal (base ++ l)) (base ++ l) refl q

    by_parts : (o : Option (Text × Text)) → expanded o ≡ some v → IsPlain v
    by_parts none q = ground arith
    by_parts (some (a, l)) q = by_prefix (prefix_of a) l q

    go : (b : Bool) → (if b then none else expanded (partition p)) ≡ some v → IsPlain v
    go true q = ground arith
    go false q = by_parts (partition p) q

assoc_close : (u s t : Text) → ((u ++ 0x3e ∷ []) ++ s) ++ t ≡ u ++ 0x3e ∷ (s ++ t)
assoc_close [] s t = refl
assoc_close (c ∷ u) s t = ap (λ l. c ∷ l) (assoc_close u s t)

bracketed :
    (u s t : Text)
    → IsPlain u
    → iris none ((((0x3c ∷ u) ++ 0x3e ∷ []) ++ s) ++ t) ≡ prefixed (u ∷ []) (iris none (s ++ t))
unfolding iris IsPlain
bracketed u s t h = ap (iris (some [])) (assoc_close u s t) ∙ iris_inside [] u (s ++ t) h

bracketed_last :
    (u t : Text)
    → IsPlain u
    → iris none (((0x3c ∷ u) ++ 0x3e ∷ []) ++ t) ≡ prefixed (u ∷ []) (iris none t)
unfolding iris IsPlain
bracketed_last u t h = ap (iris (some [])) (snoc_cons u 0x3e t) ∙ iris_inside [] u t h

abbrev list_or : Option (List Text) → List Text
list_or none = []
list_or (some l) = l

-- What a list of checks says of its parts.
every_cons :
    (f : Text → Option Text) (x : Text) (xs vs : List Text)
    → every f (x ∷ xs) ≡ some vs
    → (y : Text) × (ys : List Text) × (f x ≡ some y) × (every f xs ≡ some ys) × (y ∷ ys ≡ vs)
unfolding every
every_cons f x xs vs h = go (f x) (every f xs) refl refl h
  where
    go :
        (o : Option Text) (p : Option (List Text))
        → f x ≡ o
        → every f xs ≡ p
        → (elim o as (λ _. Option (List Text)) [
          | none ↦ none
          | some y ↦ elim p as (λ _. Option (List Text)) [ none ↦ none | some ys ↦ some (y ∷ ys) ]
        ])
          ≡ some vs
        → (y : Text) × (ys : List Text) × (f x ≡ some y) × (every f xs ≡ some ys) × (y ∷ ys ≡ vs)
    go none p a b q = ground arith
    go (some y) none a b q = ground arith
    go (some y) (some ys) a b q = (y, ys, a, b, ap list_or q)

every_validated : (us vs : List Text) → every validate_iri us ≡ some vs → (us ≡ vs) × All IsPlain vs
unfolding every
every_validated [] vs h = (ap list_or h, subst (All IsPlain) (ap list_or h) tt)
every_validated (u ∷ us) vs h =
    let (y, ys, p, q, e) = every_cons validate_iri u us vs h in
    let (same, plain) = validated u y p in
    let (rest, plains) = every_validated us ys q in
    (ap₂ (λ a l. a ∷ l) same rest ∙ e, subst (All IsPlain) e (plain, plains))

every_expanded : (ps vs : List Text) → every curie_to_iri ps ≡ some vs → All IsPlain vs
unfolding every
every_expanded [] vs h = subst (All IsPlain) (ap list_or h) tt
every_expanded (p ∷ ps) vs h =
    let (y, ys, q, r, e) = every_cons curie_to_iri p ps vs h in
    subst (All IsPlain) e (expanded-IsPlain p y q, every_expanded ps ys r)

module _ (n3 : Text → Text) (brackets : (u : Text) → n3 u ≡ (0x3c ∷ u) ++ 0x3e ∷ []) where
  values_read :
      (us : List Text) (t : Text)
      → All IsPlain us
      → iris none (values n3 us ++ t) ≡ prefixed us (iris none t)
  unfolding values
  values_read [] t h = sym (prefixed_none (iris none t))
  values_read (u ∷ []) t h = ap (λ l. iris none (l ++ t)) (brackets u) ∙ bracketed_last u t h.0
  values_read (u ∷ v ∷ us) t h =
      ap (λ l. iris none ((l ++ 0x20 ∷ values n3 (v ∷ us)) ++ t)) (brackets u)
      ∙ (bracketed u (0x20 ∷ values n3 (v ∷ us)) t h.0
          ∙ (ap (prefixed (u ∷ []))
                (iris_skip (0x20 ∷ []) (values n3 (v ∷ us) ++ t) refl ∙ values_read (v ∷ us) t h.1)
              ∙ prefixed_cons u (v ∷ us) (iris none t)))

  query_read :
      (ps us : List Text) (limit : ℕ)
      → All IsPlain ps
      → All IsPlain us
      → iris none (query_text n3 ps us limit) ≡ some (ps ++ us)
  unfolding query_text iris decimal
  query_read ps us limit h k =
      values_read ps _ h
      ∙ ap (prefixed ps) (
          values_read us _ k
          ∙ (ap (prefixed us) (iris_plain (decimal limit) (decimal_plain (suc limit) limit [] refl))
              ∙ ap some (append_nil us)))

  -- Whatever the arguments of `expand` are: if the checks let them through, the IRIs that a reader
  -- finds in the text of the query are those of the predicates followed by the given ones. The reader
  -- refuses a quote or a backslash anywhere, and between `<` and `>` what IRIREF of SPARQL bars, control
  -- characters other than white space excepted; so no argument ends its IRI or escapes from it. The condition is that rdflib writes an IRI between `<` and `>`.
  pub expand_query_lem :
      (uris predicates : List Text) (limit : ℕ) (q : Text)
      → expand_query n3 uris predicates limit ≡ some q
      → (ps : List Text) × (every curie_to_iri predicates ≡ some ps)
        × (iris none q ≡ some (ps ++ uris))
  unfolding expand_query
  expand_query_lem uris predicates limit q h =
      go (every validate_iri uris) (every curie_to_iri predicates) refl refl h
    where
      go :
          (o p : Option (List Text))
          → every validate_iri uris ≡ o
          → every curie_to_iri predicates ≡ p
          → query_of n3 o p limit ≡ some q
          → (ps : List Text) × (every curie_to_iri predicates ≡ some ps)
            × (iris none q ≡ some (ps ++ uris))
      go none p a b z = ground arith
      go (some us) none a b z = ground arith
      go (some us) (some ps) a b z =
          let (same, plain) = every_validated uris us a in
          (
            ps,
            b,
            ap (iris none) (ap (some_or q) (sym z))
                ∙ (query_read ps us limit (every_expanded predicates ps b) plain
                    ∙ ap (λ l. some (ps ++ l)) (sym same)),
          )
