-- ===== src/Clients/Tools.antt =====
-- `installed_client_tools`, `select_latest_client_tool`, `select_local_clients` and
-- `server_major_from_version_num` (src/pg_perf_bench/client_tools.py). What a file answers to
-- `--version`, the candidates that are found, the sibling of a path and the order of paths as texts
-- are parameters.
use pg_perf_bench.Prelude.{
  ℕ, ◌/◌, ◌==◌, ltb, Bool, ◌&&◌, ◌||◌, Option, none, some, String, List, [], ◌∷◌, any, str_eq,
  if◌then◌else◌,
}
use pg_perf_bench.Effects.{Exc, Result, ok, err}
use pg_perf_bench.Dataset.{winner}

-- `ClientTool`, whose version is the major and the minor number.
pub record ClientTool : Type 0 where
  pub path : String
  pub major : ℕ
  pub minor : ℕ

-- `self.version < other.version`
abbrev pub is_older : ClientTool → ClientTool → Bool
is_older a b = ltb a.major b.major || a.major == b.major && ltb a.minor b.minor

-- What the host answers.
pub record Outside : Type 0 where
  pub inspect_client_tool : (name path : String) → Result ClientTool
  pub candidate_paths : String → List String
  pub sibling : (path name : String) → Option String
  pub path_less : String → String → Bool

abbrev pub supported_majors : List ℕ
supported_majors = 10 ∷ 11 ∷ 12 ∷ 13 ∷ 14 ∷ 15 ∷ 16 ∷ 17 ∷ 18 ∷ []

unfoldable pub server_major_from_version_num : ℕ → Result ℕ
server_major_from_version_num version_num =
    let major = version_num / 10000 in
    if any (λ m. m == major) supported_majors then ok major else err Exc.configuration

module _ (outside : Outside) where
  -- The order of `(item.version, str(item.path))`.
  unfoldable pub sorts_before : ClientTool → ClientTool → Bool
  sorts_before a b =
      is_older a b || a.major == b.major && (a.minor == b.minor && outside.path_less a.path b.path)

  -- `inspected[tool.path] = tool`: of two tools at one path, the later one stays.
  abbrev pub add_tool : ClientTool → Result (List ClientTool) → Result (List ClientTool)
  add_tool tool (ok later) =
      ok (if any (λ t. str_eq t.path tool.path) later then later else tool ∷ later)
  add_tool tool (err e) = err e

  -- A candidate that is refused by a `ConfigurationError` is left out.
  abbrev pub after_candidate :
      Result ClientTool → Result (List ClientTool) → Result (List ClientTool)
  after_candidate (ok tool) rest = add_tool tool rest
  after_candidate (err Exc.configuration) rest = rest
  after_candidate (err e) rest = err e

  -- `installed_client_tools`, before it is sorted.
  unfoldable pub inspected : String → List String → Result (List ClientTool)
  inspected name [] = ok []
  inspected name (p ∷ ps) =
      let rest = inspected name ps in after_candidate (outside.inspect_client_tool name p) rest

  unfoldable pub installed_client_tools : String → Result (List ClientTool)
  unfolding inspected
  installed_client_tools name = inspected name (outside.candidate_paths name)

  abbrev pub keyed : List ClientTool → List (ClientTool × Unit {0})
  keyed [] = []
  keyed (t ∷ ts) = (t, tt) ∷ keyed ts

  -- `installed[-1]`, the last of the sorted tools, is the largest of them.
  unfoldable pub newest : List ClientTool → Option ClientTool
  unfolding sorts_before
  newest tools = elim (winner sorts_before (keyed tools)) [
    | none ↦ none
    | some best ↦ some (best.0)
  ]

  unfoldable pub not_older : (latest selected : ClientTool) → Result ClientTool
  not_older latest selected =
      if is_older selected latest then err Exc.configuration else ok selected

  abbrev pub after_inspection : ClientTool → Result ClientTool → Result ClientTool
  after_inspection latest (ok selected) = not_older latest selected
  after_inspection latest (err e) = err e

  unfoldable pub select_from :
      (name : String) → (requested : Option String) → Option ClientTool → Result ClientTool
  unfolding not_older
  select_from name requested none = err Exc.configuration
  select_from name none (some latest) = ok latest
  select_from name (some path) (some latest) =
      after_inspection latest (outside.inspect_client_tool name path)

  abbrev pub select_installed :
      (name : String) → (requested : Option String) → Result (List ClientTool) → Result ClientTool
  select_installed name requested (ok tools) = select_from name requested (newest tools)
  select_installed name requested (err e) = err e

  unfoldable pub select_latest_client_tool :
      String → (requested : Option String) → Result ClientTool
  unfolding installed_client_tools newest select_from
  select_latest_client_tool name requested =
      select_installed name requested (installed_client_tools name)

  unfoldable pub select_psql : ClientTool → (psql_path : Option String) → Result ClientTool
  unfolding select_latest_client_tool
  select_psql pgbench (some path) = select_latest_client_tool "psql" (some path)
  select_psql pgbench none = elim (outside.sibling pgbench.path "psql") [
    | some path ↦ outside.inspect_client_tool "psql" path
    | none ↦ select_latest_client_tool "psql" none
  ]

  abbrev pub same_major : ClientTool → Result ClientTool → Result (ClientTool × ClientTool)
  same_major pgbench (ok psql) =
      if psql.major == pgbench.major then ok (pgbench, psql) else err Exc.configuration
  same_major pgbench (err e) = err e

  abbrev pub with_psql :
      (psql_path : Option String) → Result ClientTool → Result (ClientTool × ClientTool)
  with_psql psql_path (ok pgbench) = same_major pgbench (select_psql pgbench psql_path)
  with_psql psql_path (err e) = err e

  unfoldable pub select_local_clients :
      (pgbench_path psql_path : Option String) → Result (ClientTool × ClientTool)
  unfolding select_psql
  select_local_clients pgbench_path psql_path =
      with_psql psql_path (select_latest_client_tool "pgbench" pgbench_path)
