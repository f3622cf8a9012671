-- ===== src/Database/Names.antt =====
-- Quoted identifiers, protected databases and the schemas that may be reset
-- (src/pg_perf_bench/db_operations/db.py).
use Prim.Native.String.{len}
use pg_perf_bench.Prelude.{
  ℕ, ltb, ◌==◌, Bool, true, false, ◌||◌, String, List, [], ◌∷◌, ◌++◌, str_eq, any, elem, codes,
  lower, lower_in, if◌then◌else◌,
}

-- `quote_ident`, on the code points of the name: double every `"`, and enclose in two more.
unfoldable pub doubled : List ℕ → List ℕ
doubled [] = []
doubled (c ∷ s) = let rest = doubled s in if c == b'"' then c ∷ c ∷ rest else c ∷ rest

unfoldable pub quote_ident : List ℕ → List ℕ
unfolding doubled
quote_ident value = b'"' ∷ (doubled value ++ (b'"' ∷ []))

abbrev pub protected_databases : List String
protected_databases = "postgres" ∷ "template0" ∷ "template1" ∷ []

-- `PROTECTED_DATABASES` holds the name, whatever its case.
unfoldable pub is_protected : String → Bool
is_protected database = lower_in database protected_databases

unfoldable pub starts_pg : List ℕ → Bool
starts_pg (p ∷ g ∷ u ∷ _) = if p == b'p' then (if g == b'g' then u == b'_' else false) else false
starts_pg _ = false

-- A name that `validate_reset_schemas` refuses. PostgreSQL truncates identifiers past 63 bytes.
unfoldable pub is_system_schema : String → Bool
unfolding starts_pg
is_system_schema schema =
    str_eq schema ""
    || any (λ c. c == 0) (codes schema)
    || ltb 63 (len schema)
    || lower_in schema ("public" ∷ "information_schema" ∷ [])
    || starts_pg (lower schema)

-- `len(set(names)) != len(names)`
unfoldable pub has_duplicate : List String → Bool
has_duplicate [] = false
has_duplicate (s ∷ ss) = elem s ss || has_duplicate ss

-- `validate_reset_schemas` accepts.
unfoldable pub is_resettable : List String → Bool
unfolding is_system_schema has_duplicate
is_resettable [] = false
is_resettable (s ∷ ss) =
    if any is_system_schema (s ∷ ss)
    then false
    else (if has_duplicate (s ∷ ss) then false else true)
