-- ===== src/Dataset/Existing.antt =====
-- `validate_existing_dataset` (src/pg_perf_bench/init_policy.py). The queries only read, so the
-- catalog that answers them is a fixed one.
use pg_perf_bench.Prelude.{Bool, true, false, Option, none, some, String, List, [], ◌∷◌, ◌++◌, map}
use pg_perf_bench.Effects.{Exc, Result, ok, err}

-- What the server answers: whether a schema is there and may be used, its relations, whether the
-- columns of a relation can be read, and its invalid indexes.
pub record Catalog : Type 0 where
  pub is_accessible : String → Result Bool
  pub relations : String → Result (List String)
  pub read : (schema relation : String) → Result (Unit {0})
  pub invalid_indexes : String → Result (List String)

pub data Scope : Type 0 where
  builtin_tables connection_only structure : Scope

-- `relations` are the pairs of schema and name that `qualified_name` prints.
pub record Validation : Type 0 where
  pub scope : Scope
  pub relations : List (String × String)

-- The rest, after a result.
abbrev pub after {ℓ κ} : {A : Type ℓ} {B : Type κ} → Result A → (A → Result B) → Result B
after (ok a) f = f a
after (err e) f = err e

module _ (catalog : Catalog) where
  unfoldable pub read_all : String → List String → Result (Unit {0})
  read_all schema [] = ok tt
  read_all schema (t ∷ ts) = after (catalog.read schema t) (λ _. read_all schema ts)

  -- The tests of one schema that follow the first.
  unfoldable pub check_invalid :
      (names : List (String × String)) → List String → Result (List (String × String))
  check_invalid names [] = ok names
  check_invalid names (_ ∷ _) = err Exc.configuration

  unfoldable pub check_relations : String → List String → Result (List (String × String))
  unfolding read_all check_invalid
  check_relations schema [] = err Exc.configuration
  check_relations schema (t ∷ ts) = after (read_all schema (t ∷ ts)) (λ _.
      after (catalog.invalid_indexes schema) (check_invalid (map (λ u. (schema, u)) (t ∷ ts))))

  unfoldable pub check_access : String → Bool → Result (List (String × String))
  unfolding check_relations
  check_access schema false = err Exc.configuration
  check_access schema true = after (catalog.relations schema) (check_relations schema)

  unfoldable pub check_schemas : List String → Result (List (String × String))
  unfolding check_access
  check_schemas [] = ok []
  check_schemas (s ∷ ss) =
      after (after (catalog.is_accessible s) (check_access s))
        (λ names. after (check_schemas ss) (λ rest. ok (names ++ rest)))

  abbrev pub pgbench_tables : List String
  pgbench_tables =
      "pgbench_accounts" ∷ "pgbench_branches" ∷ "pgbench_tellers" ∷ "pgbench_history" ∷ []

  -- `plan` are the schemas of the load plan, if there is one.
  unfoldable pub validate_existing_dataset :
      (plan : Option (List String)) (builtin : Bool) → Result Validation
  unfolding check_schemas
  validate_existing_dataset (some schemas) builtin =
      after (check_schemas schemas) (λ names. ok (record { scope = structure; relations = names }))
  validate_existing_dataset none true =
      after (read_all "public" pgbench_tables)
        (λ _. ok (record { scope = builtin_tables; relations = [] }))
  validate_existing_dataset none false = ok (record { scope = connection_only; relations = [] })
