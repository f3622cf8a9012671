-- ===== src/Loader/Prepare.antt =====
-- `prepare_database` (src/pg_perf_bench/initialization.py): the phases of a load, as the statements
-- that it has executed, newest first, which are the state. A server answers by those statements.
use pg_perf_bench.Prelude.{
  ℕ, ltb, Bool, true, false, ◌||◌, Option, none, some, String, List, [], ◌∷◌, str_eq, if◌then◌else◌,
}
use pg_perf_bench.Effects.{Exc, M, Result, ok, err, pure, gets, raise_if, when, ◌>>=◌, ◌>>◌}

-- A phase of tasks, for `run_tasks`.
pub data TaskPhase : Type 0 where
  data_tasks index_tasks constraint_tasks : TaskPhase

pub data Sql : Type 0 where
  schema set_search_path prepare after_data finalize : Sql
  list_tables list_stored list_relations count_indexes count_foreign_keys : Sql
  set_unlogged : (table : String) → Sql
  set_logged : (table : String) → Sql
  tasks : TaskPhase → (workers : ℕ) → Sql
  vacuum : (table : String) → Sql
  analyze : List String → Sql

-- What the server says: the exception with which it refuses a statement, the tables and relations of
-- the plan's schemas, the numbers of indexes and foreign keys.
pub record Server : Type 0 where
  pub refuses : List Sql → Sql → Option Exc
  pub tables : List Sql → List String
  pub stored : List Sql → List String
  pub relations : List Sql → List String
  pub indexes : List Sql → ℕ
  pub foreign_keys : List Sql → ℕ

-- Which texts of the plan are blank, and what the options ask for.
pub record Phases : Type 0 where
  pub has_schema : Bool
  pub has_prepare : Bool
  pub has_after_data : Bool
  pub has_finalize : Bool
  pub table_mode : String
  pub workers : ℕ

abbrev pub Log : Type 0
Log = List Sql

abbrev pub refusal : Option Exc → Result (Unit {0})
refusal none = ok tt
refusal (some e) = err e

abbrev pub qualified : List String → Bool
qualified [] = false
qualified (t ∷ ts) = true

module _ (server : Server) where
  -- Every statement that is attempted is noted.
  unfoldable pub execute : Sql → M Log (Unit {0})
  execute sql w =
      (refusal (server.refuses w.self sql), record { trace = w.trace; self = sql ∷ w.self })

  unfoldable pub fetch : {A : Type 0} → Sql → (Log → A) → M Log A
  unfolding execute
  fetch sql rows = do found ← gets rows; execute sql; pure found

  module _ (p : Phases) where
    -- `'SET UNLOGGED' if options.table_mode == 'unlogged' else 'SET LOGGED'`
    unfoldable pub set_mode : List String → M Log (Unit {0})
    set_mode [] = pure tt
    set_mode (t ∷ ts) = do
      if str_eq p.table_mode "unlogged"
          then execute (Sql.set_unlogged t)
          else execute (Sql.set_logged t)
      set_mode ts

    unfoldable pub log_tables : List String → M Log (Unit {0})
    log_tables [] = pure tt
    log_tables (t ∷ ts) = do execute (Sql.set_logged t); log_tables ts

    unfoldable pub vacuum_tables : List String → M Log (Unit {0})
    vacuum_tables [] = pure tt
    vacuum_tables (t ∷ ts) = do execute (Sql.vacuum t); vacuum_tables ts

    -- The schema has neither indexes nor foreign keys before the data is loaded.
    unfoldable pub create_schema : M Log (List String)
    unfolding fetch
    create_schema = do
      when p.has_schema (execute Sql.schema)
      execute Sql.set_search_path
      tables ← fetch Sql.list_tables server.tables
      indexes ← fetch Sql.count_indexes server.indexes
      foreign_keys ← fetch Sql.count_foreign_keys server.foreign_keys
      raise_if (ltb 0 indexes || ltb 0 foreign_keys) Exc.configuration
      pure tables

    unfoldable pub load_tables : List String → M Log (Unit {0})
    unfolding set_mode log_tables
    load_tables tables = do
      set_mode tables
      when p.has_prepare (execute Sql.prepare)
      execute (Sql.tasks TaskPhase.data_tasks p.workers)
      when p.has_after_data (execute Sql.after_data)
      when (str_eq p.table_mode "unlogged") (log_tables tables)

    -- Constraints are added one at a time.
    unfoldable pub complete_schema : M Log (Unit {0})
    unfolding fetch vacuum_tables
    complete_schema = do
      execute (Sql.tasks TaskPhase.index_tasks p.workers)
      execute (Sql.tasks TaskPhase.constraint_tasks 1)
      when p.has_finalize (execute Sql.finalize)
      stored ← fetch Sql.list_stored server.stored
      vacuum_tables stored
      relations ← fetch Sql.list_relations server.relations
      when (qualified relations) (execute (Sql.analyze relations))

    -- `prepare_database`, within its loader connection, on a plan that is valid
    unfoldable pub prepare_database : M Log (Unit {0})
    unfolding create_schema load_tables complete_schema
    prepare_database = do tables ← create_schema; load_tables tables; complete_schema
