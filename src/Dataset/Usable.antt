-- ===== src/Dataset/Usable.antt =====
-- What the check of an existing dataset has seen (src/pg_perf_bench/init_policy.py).
use pg_perf_bench.Prelude.{Bool, true, false, ◌≡◌, refl, ap, ◌∙◌, some, String, List, [], ◌∷◌, All}
use pg_perf_bench.Effects.{Result, ok, err}
use pg_perf_bench.Dataset.Existing.{
  Catalog, Validation, after, read_all, check_invalid, check_relations, check_access, check_schemas,
  validate_existing_dataset,
}

-- A step that is followed by a success has succeeded.
pub after-ok :
    {A B : Type 0} (r : Result A) (f : A → Result B) {b : B}
    → after r f ≡ ok b
    → (a : A) × (r ≡ ok a) × (f a ≡ ok b)
after-ok (ok a) f h = (a, refl, h)
after-ok (err e) f h = cc

module _ (catalog : Catalog) where
  -- The schema may be used, has a relation, all of them can be read, and no index is invalid.
  abbrev pub IsUsable : String → Type 0
  IsUsable schema =
      (catalog.is_accessible schema ≡ ok true)
      × ((t : String) × (ts : List String) × (catalog.relations schema ≡ ok (t ∷ ts))
          × All (λ u. catalog.read schema u ≡ ok tt) (t ∷ ts))
      × (catalog.invalid_indexes schema ≡ ok [])

  read_all-ok :
      (schema : String) (ts : List String)
      → read_all catalog schema ts ≡ ok tt
      → All (λ u. catalog.read schema u ≡ ok tt) ts
  unfolding read_all
  read_all-ok schema [] h = tt
  read_all-ok schema (t ∷ ts) h =
      let (_, first, rest) = after-ok (catalog.read schema t) _ h in
      (first, read_all-ok schema ts rest)

  check_invalid-ok :
      (names : List (String × String)) (bad : List String) {found : List (String × String)}
      → check_invalid catalog names bad ≡ ok found
      → bad ≡ []
  unfolding check_invalid
  check_invalid-ok names [] h = refl
  check_invalid-ok names (b ∷ bs) h = cc

  check_relations-ok :
      (schema : String) (ts : List String) {found : List (String × String)}
      → catalog.is_accessible schema ≡ ok true
      → catalog.relations schema ≡ ok ts
      → check_relations catalog schema ts ≡ ok found
      → IsUsable schema
  unfolding check_relations
  check_relations-ok schema [] accessible listed h = cc
  check_relations-ok schema (t ∷ ts) accessible listed h =
      let (_, readable, rest) = after-ok (read_all catalog schema (t ∷ ts)) _ h in
      let (bad, invalid, none_bad) = after-ok (catalog.invalid_indexes schema) _ rest in
      (
        accessible,
        (t, ts, listed, read_all-ok schema (t ∷ ts) readable),
        invalid ∙ ap ok (check_invalid-ok _ bad none_bad),
      )

  check_access-ok :
      (schema : String) (b : Bool) {found : List (String × String)}
      → catalog.is_accessible schema ≡ ok b
      → check_access catalog schema b ≡ ok found
      → IsUsable schema
  unfolding check_access
  check_access-ok schema false q h = cc
  check_access-ok schema true q h =
      let (ts, listed, rest) = after-ok (catalog.relations schema) _ h in
      check_relations-ok schema ts q listed rest

  check_schemas-ok :
      (schemas : List String) {found : List (String × String)}
      → check_schemas catalog schemas ≡ ok found
      → All IsUsable schemas
  unfolding check_schemas
  check_schemas-ok [] h = tt
  check_schemas-ok (s ∷ ss) h =
      let (names, first, rest) =
        after-ok (after (catalog.is_accessible s) (check_access catalog s)) _ h in
      let (b, accessible, access) = after-ok (catalog.is_accessible s) _ first in
      let (_, others, _) = after-ok (check_schemas catalog ss) _ rest in
      (check_access-ok s b accessible access, check_schemas-ok ss others)

  -- A validation that returns for a load plan has found every schema of the plan accessible, with
  -- relations that can all be read and without an invalid index.
  pub validate_existing_dataset-IsUsable :
      (schemas : List String) (builtin : Bool) {v : Validation}
      → validate_existing_dataset catalog (some schemas) builtin ≡ ok v
      → All IsUsable schemas
  unfolding validate_existing_dataset
  validate_existing_dataset-IsUsable schemas builtin h =
      let (_, checked, _) = after-ok (check_schemas catalog schemas) _ h in
      check_schemas-ok schemas checked
