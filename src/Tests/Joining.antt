-- ===== src/Tests/Joining.antt =====
-- A task of the catalog, two reports that are joined, and a quoted name.
use pg_perf_bench.Prelude.{false, ◌≡◌, refl, String, none, some, List, [], ◌∷◌, All, codes}
use pg_perf_bench.Effects.{ok}
use pg_perf_bench.Fallible.{◌>>=◌, ◌>>◌}
use pg_perf_bench.Json.{Value, Items, Fields, find, get_or}
use pg_perf_bench.Json.Equality.{value_eq}
use pg_perf_bench.Database.{quote_ident}
use pg_perf_bench.Database.Quoting.{read_ident, read_ident-quote_ident}
use pg_perf_bench.Join.Catalog.{
  load_join_task, normalize_join_task_id, validate_join_task, item_flaws, joined_flaws,
}
use pg_perf_bench.Join.Tasks.{IsPlain, IsTask, load_join_task-IsTask}
use pg_perf_bench.Join.Compare.{
  compare_data, mismatch, walk, value_at_path, Step, parse_json_in_order, label_of, compare_items,
  compare_steps, compare_reports, compared_steps,
}
use pg_perf_bench.Join.Agree.{HasSame, IsAligned, compare_data-value_eq, compare_reports-Agree}
use pg_perf_bench.Workloads.Profile.{has_duplicates}

abbrev fields_of : List (String × Value) → Fields
fields_of [] = Fields.end
fields_of ((k, v) ∷ rest) = Fields.field k v (fields_of rest)

abbrev texts : List String → Items
texts [] = Items.empty
texts (s ∷ ss) = Items.entry (Value.text s) (texts ss)

read_ident-quote_ident_example : read_ident (quote_ident (codes "a\"b")) ≡ some (codes "a\"b")
read_ident-quote_ident_example = read_ident-quote_ident (codes "a\"b")

abbrev task : Value
task = Value.object (
    fields_of (
      ("schema_version", Value.text "pg_perf_bench/join-task-v1")
      ∷ ("id", Value.text "optimize-db-config")
      ∷ ("title", Value.text "Configurations")
      ∷ ("purpose", Value.text "Compare them")
      ∷ ("controlled_dimensions", Value.array (texts ("host" ∷ [])))
      ∷ ("variable_dimensions", Value.array (texts ("settings" ∷ [])))
      ∷ ("items", Value.array (texts ("sections.system.reports.cpu.data" ∷ [])))
      ∷ []))

load_join_task-IsTask_example :
    (id : String) × (normalize_join_task_id "task_compare_dbs_on_single_host.json" ≡ ok id)
    × IsPlain id
    × IsTask id task
unfolding load_join_task normalize_join_task_id validate_join_task item_flaws joined_flaws ◌>>=◌
    has_duplicates get_or
load_join_task-IsTask_example =
    load_join_task-IsTask (λ id. ok task) "task_compare_dbs_on_single_host.json" task refl

compare_data-value_eq_example :
    compare_data (Value.array (texts ("a" ∷ "b" ∷ []))) (Value.array (texts ("a" ∷ []))) ≡ false
unfolding value_eq
compare_data-value_eq_example =
    compare_data-value_eq (Value.array (texts ("a" ∷ "b" ∷ []))) (Value.array (texts ("a" ∷ [])))
      (refl, (refl, tt))

abbrev report_with : (name memory : String) → Value
report_with name memory = Value.object (
    fields_of (
      ("report_name", Value.text name)
      ∷ (
        "sections",
        Value.object (
            fields_of (
              (
                "system",
                Value.object (
                    fields_of (
                      (
                        "reports",
                        Value.object (
                            fields_of (
                              (
                                "cpu",
                                Value.object (
                                    fields_of (
                                      ("shell_command_file", Value.text "cpu.sh")
                                      ∷ ("data", Value.text "8 cores")
                                      ∷ [])),
                              )
                              ∷ (
                                "memory",
                                Value.object (
                                    fields_of (
                                      ("header", Value.text "Memory")
                                      ∷ ("shell_command_file", Value.text "memory.sh")
                                      ∷ ("data", Value.text memory)
                                      ∷ [])),
                              )
                              ∷ [])),
                      )
                      ∷ [])),
              )
              ∷ [])),
      )
      ∷ []))

abbrev first_report : Value
first_report = report_with "first" "16 GB"

abbrev second_report : Value
second_report = report_with "second" "32 GB"

abbrev required : List String
required = "sections.system.reports.cpu.data" ∷ []

compare_reports-Agree_example :
    All (HasSame first_report second_report) required
    × ((left right : List Step) × (parse_json_in_order first_report ≡ ok left)
        × (parse_json_in_order second_report ≡ ok right)
        × IsAligned (compared_steps left) (compared_steps right))
unfolding compare_reports parse_json_in_order mismatch label_of compare_items value_at_path walk
    compare_data compare_steps ◌>>=◌ ◌>>◌ get_or find
compare_reports-Agree_example =
    compare_reports-Agree (λ v. "") first_report second_report required none none (Value.text "a")
      (Value.text "b") refl
