-- ===== src/Corpus/Hierarchy.antt =====
-- What `parse_hierarchy` takes from the tree of laws.
use agentchatbot_v.Prelude.{
  ◌≡◌, sym, subst, Bool, true, ◌&&◌, not, Option, none, some, List, [], ◌∷◌, arith, All, All_if,
  All-sort, sort_by,
}
use agentchatbot_v.Text.{Text, codes, text_eq, eq_of_text_eq, is_empty}
use agentchatbot_v.Json.{ℤ, Json, Items, nil, cons, Fields, end, field, get}
use agentchatbot_v.Corpus.Lawgo.{
  put, found_at, is_listed, trimmed_at, walk, walk_items, walk_fields, parse_hierarchy, pair_lt,
  ◌>>=◌, child, kind_of,
}

-- An entry of the result: an id that is not the base's, and a name.
abbrev pub is_delegated : Text → Text × Text → Bool
is_delegated base_id (lid, name) =
    not (is_empty lid) && (not (is_empty name) && not (text_eq lid base_id))

abbrev pub IsDelegated : Text → Text × Text → Type 0
IsDelegated base_id p = is_delegated base_id p ≡ true

put-IsDelegated :
    (base_id k v : Text) (es : List (Text × Text))
    → IsDelegated base_id (k, v)
    → All (IsDelegated base_id) es
    → All (IsDelegated base_id) (put k v es)
unfolding put
put-IsDelegated base_id k v [] h a = (h, tt)
put-IsDelegated base_id k v ((j, u) ∷ es) h a =
    All_if (IsDelegated base_id) (text_eq j k) ((j, v) ∷ es) ((j, u) ∷ put k v es)
      (λ e. (subst (λ i. IsDelegated base_id (i, v)) (sym (eq_of_text_eq j k e)) h, a.1))
      (a.0, put-IsDelegated base_id k v es h a.1)

module _ (show : Json → Text) (int_of : Text → Option ℤ) where
  listed-IsDelegated :
      (base_id lid name : Text) (kind : Option Json)
      → is_listed show int_of base_id lid name kind ≡ true
      → IsDelegated base_id (lid, name)
  listed-IsDelegated base_id lid name kind e = ground arith

  found-IsDelegated :
      (base_id : Text) (o : Option Json) (found : List (Text × Text))
      → All (IsDelegated base_id) found
      → All (IsDelegated base_id) (found_at show int_of base_id o found)
  unfolding found_at
  found-IsDelegated base_id none found a = a
  found-IsDelegated base_id (some Json.null) found a = a
  found-IsDelegated base_id (some (Json.bool b)) found a = a
  found-IsDelegated base_id (some (Json.int n)) found a = a
  found-IsDelegated base_id (some (Json.float b)) found a = a
  found-IsDelegated base_id (some (Json.text s)) found a = a
  found-IsDelegated base_id (some (Json.array xs)) found a = a
  found-IsDelegated base_id (some (Json.object basic)) found a =
      All_if (IsDelegated base_id) (is_listed show int_of base_id lid name kind)
        (put lid name found) found (λ e. put-IsDelegated base_id lid name found (listed e) a) a
    where
      lid : Text
      lid = trimmed_at show int_of (codes "법령ID") basic

      name : Text
      name = trimmed_at show int_of (codes "법령명") basic

      kind : Option Json
      kind = kind_of show int_of (get (codes "법종구분") basic)

      listed : is_listed show int_of base_id lid name kind ≡ true → IsDelegated base_id (lid, name)
      listed e = listed-IsDelegated base_id lid name kind e

  mutual
    unfolding walk

    walk-IsDelegated :
        (base_id : Text) (v : Json) (found : List (Text × Text))
        → All (IsDelegated base_id) found
        → All (IsDelegated base_id) (walk show int_of base_id v found)
    walk-IsDelegated base_id (Json.object fs) found a =
        walk_fields-IsDelegated base_id fs _
          (found-IsDelegated base_id (get (codes "기본정보") fs) found a)
    walk-IsDelegated base_id (Json.array xs) found a = walk_items-IsDelegated base_id xs found a
    walk-IsDelegated base_id v found a = a

    walk_items-IsDelegated :
        (base_id : Text) (xs : Items) (found : List (Text × Text))
        → All (IsDelegated base_id) found
        → All (IsDelegated base_id) (walk_items show int_of base_id xs found)
    walk_items-IsDelegated base_id nil found a = a
    walk_items-IsDelegated base_id (cons v xs) found a =
        walk_items-IsDelegated base_id xs _ (walk-IsDelegated base_id v found a)

    walk_fields-IsDelegated :
        (base_id : Text) (fs : Fields) (found : List (Text × Text))
        → All (IsDelegated base_id) found
        → All (IsDelegated base_id) (walk_fields show int_of base_id fs found)
    walk_fields-IsDelegated base_id end found a = a
    walk_fields-IsDelegated base_id (field k v fs) found a = walk_fields-IsDelegated base_id fs _ (
        All_if (IsDelegated base_id) (text_eq k (codes "기본정보")) found
          (walk show int_of base_id v found) (λ _. a) (walk-IsDelegated base_id v found a))

  -- Every law that `parse_hierarchy` finds has an id, which is not the base's, and a name.
  pub parse_hierarchy-IsDelegated :
      (payload : Fields) (base_name base_id : Text) (found : List (Text × Text))
      → parse_hierarchy show int_of payload base_name base_id ≡ some found
      → All (IsDelegated base_id) found
  unfolding parse_hierarchy
  parse_hierarchy-IsDelegated payload base_name base_id found e =
      go (child (codes "법령체계도") payload) e
    where
      tree : Option Json → List (Text × Text)
      tree o = elim o [ none ↦ [] | some v ↦ walk show int_of base_id v [] ]

      tree_delegated : (o : Option Json) → All (IsDelegated base_id) (sort_by pair_lt (tree o))
      tree_delegated none = All-sort (IsDelegated base_id) pair_lt [] tt
      tree_delegated (some v) =
          All-sort (IsDelegated base_id) pair_lt _ (walk-IsDelegated base_id v [] tt)

      result : Option (List (Text × Text)) → List (Text × Text)
      result none = []
      result (some l) = l

      go :
          (o : Option Fields)
          → (o >>= λ chart. some (sort_by pair_lt (tree (get (codes "상하위법") chart)))) ≡ some found
          → All (IsDelegated base_id) found
      go none q = ground arith
      go (some chart) q =
          subst (λ l. All (IsDelegated base_id) (result l)) q
            (tree_delegated (get (codes "상하위법") chart))
