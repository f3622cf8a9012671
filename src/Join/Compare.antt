-- ===== src/Join/Compare.antt =====
-- `compare_data`, `_value_at_path` and `compare_reports` (src/pg_perf_bench/join.py), with the steps of
-- `parse_json_in_order` (src/pg_perf_bench/report/processing.py). The reports are values, so the copies
-- that the source makes of them are the values themselves. A `ValueError` is a `runtime` exception
-- here, a `KeyError` or `AttributeError` an `external` one.
use pg_perf_bench.Prelude.{
  ℕ, ◌+◌, ◌==◌, Bool, true, false, not, ◌||◌, String, Option, none, some, List, [], ◌∷◌, ◌++◌,
  length, elem, str_eq, joined, split, if◌then◌else◌,
}
use pg_perf_bench.Effects.{Exc, Result, ok, err}
use pg_perf_bench.Fallible.{◌>>=◌, ◌>>◌}
use pg_perf_bench.Json.{
  Value, Items, Fields, find, has, get, get_or, put, append, is_text, is_truthy, or_else,
}
use pg_perf_bench.Json.Equality.{value_eq}
use pg_perf_bench.Config.Workload.{item}

abbrev pub length_items : Items → ℕ
length_items Items.empty = 0
length_items (Items.entry x xs) = length_items xs + 1

-- The loop over the rows; the lists are of one length.
unfoldable pub rows_equal : Items → Items → Bool
unfolding value_eq
rows_equal (Items.entry r rs) (Items.entry c cs) =
    let rest = rows_equal rs cs in if not (value_eq r c) then false else rest
rows_equal _ _ = true

unfoldable pub compare_data : Value → Value → Bool
unfolding rows_equal
compare_data (Value.text s) (Value.text t) = str_eq s t
compare_data (Value.array xs) (Value.array ys) =
    if not (length_items xs == length_items ys) then false else rows_equal xs ys
compare_data a b = value_eq a b

-- `if b: raise ValueError(…)`
unfoldable pub mismatch : Bool → Result (Unit {0})
mismatch true = err Exc.runtime
mismatch false = ok tt

abbrev pub component : String → Value → Result Value
component name (Value.object fields) = elim (find name fields) [
  | none ↦ err Exc.runtime
  | some v ↦ ok v
]
component name _ = err Exc.runtime

unfoldable pub walk : List String → Value → Result Value
walk [] value = ok value
walk (name ∷ names) value = do inner ← component name value; walk names inner

-- `_value_at_path`
unfoldable pub value_at_path : Value → (path : String) → Result Value
unfolding walk
value_at_path report path = walk (split b'.' path) report

-- A step: a report of a section that a command fills.
pub record Step : Type 0 where
  pub section : String
  pub report : String
  pub fields : Fields

unfoldable pub is_command : Fields → Bool
is_command fields =
    has "shell_command_file" fields || has "sql_command_file" fields || has "python_command" fields

unfoldable pub report_steps : (section : String) → Fields → List Step
unfolding is_command
report_steps section Fields.end = []
report_steps section (Fields.field name (Value.object fields) rest) =
    let others = report_steps section rest in
    if is_command fields
    then record { section = section; report = name; fields = fields } ∷ others
    else others
report_steps section (Fields.field name _ rest) = report_steps section rest

-- `section_obj.get('reports', {})`, where it is a `dict`.
abbrev pub reports_of : Value → Fields
reports_of (Value.object section) = elim (get_or (Value.object Fields.end) "reports" section) [
  | Value.object reports ↦ reports
  | _ ↦ Fields.end
]
reports_of _ = Fields.end

unfoldable pub section_steps : Fields → List Step
unfolding report_steps
section_steps Fields.end = []
section_steps (Fields.field name section rest) =
    report_steps name (reports_of section) ++ section_steps rest

abbrev pub steps_of : Value → List Step
steps_of (Value.object sections) = section_steps sections
steps_of _ = []

-- `parse_json_in_order`
unfoldable pub parse_json_in_order : Value → Result (List Step)
unfolding section_steps
parse_json_in_order (Value.object report) = ok (steps_of (get "sections" report))
parse_json_in_order _ = err Exc.runtime

abbrev pub separate_sections : List String
separate_sections = "result" ∷ "replication" ∷ "storage" ∷ []

abbrev pub compared_steps : List Step → List Step
compared_steps [] = []
compared_steps (s ∷ ss) =
    let rest = compared_steps ss in if elem s.section separate_sections then rest else s ∷ rest

-- `report.get('report_name', 'Unnamed')`, unless a label is given.
unfoldable pub label_of : Value → Value → Result Value
unfolding get_or
label_of label (Value.object report) =
    ok (or_else label (get_or (Value.text "Unnamed") "report_name" report))
label_of label _ = err Exc.external

-- The first loop: the items that have to be equal.
unfoldable pub compare_items : (reference comparison : Value) → List String → Result (Unit {0})
unfolding compare_data value_at_path mismatch
compare_items reference comparison [] = ok tt
compare_items reference comparison (path ∷ paths) = do
  left ← value_at_path reference path
  right ← value_at_path comparison path
  mismatch (not (compare_data left right))
  compare_items reference comparison paths

-- `fields[name] = f(fields[name])`, with a `KeyError` where there is none.
unfoldable pub change : String → (Value → Result Value) → Value → Result Value
unfolding put item
change name f (Value.object fields) = do
  old ← item name (Value.object fields)
  new ← f old
  ok (Value.object (put name new fields))
change name f _ = err Exc.external

abbrev pub pair : Value → Value → Value
pair a b = Value.array (Items.entry a (Items.entry b Items.empty))

abbrev pub appended : Value → Value → Result Value
appended entry (Value.array items) = ok (Value.array (append items (Items.entry entry Items.empty)))
appended entry _ = err Exc.external

module _ (to_text : Value → String) where
  -- A first difference makes the item a table of the two values.
  unfoldable pub start_diff : (reference comparison left right : Value) → Fields → Fields
  unfolding put get_or
  start_diff reference comparison left right target =
      let shown =
        put "data"
          (Value.array
            (Items.entry (pair reference left) (Items.entry (pair comparison right) Items.empty)))
          target in
      let marked = put "join_comparison" (Value.flag true) shown in
      let header = joined (to_text (get_or (Value.text "") "header" target)) " | Diff" in
      let headed = put "header" (Value.text header) marked in
      if is_text "table" (get "item_type" target)
      then headed
      else put "theader" (pair (Value.text "report") (Value.text "value"))
          (put "item_type" (Value.text "table") headed)

  abbrev pub diff_if : Bool → (reference comparison left right : Value) → Fields → Result Value
  diff_if true reference comparison left right target =
      change "data" (appended (pair comparison right)) (Value.object target)
  diff_if false reference comparison left right target =
      ok (Value.object (start_diff reference comparison left right target))

  abbrev pub note_difference : (reference comparison left right : Value) → Value → Result Value
  note_difference reference comparison left right (Value.object target) =
      diff_if (is_truthy (get "join_comparison" target)) reference comparison left right target
  note_difference reference comparison left right _ = err Exc.external

  unfoldable pub change_target :
      (reference comparison left right : Value) → Step → Value → Result Value
  unfolding change start_diff
  change_target reference comparison left right step = change "sections" (
      change step.section
        (change "reports" (change step.report (note_difference reference comparison left right))))

  abbrev pub data_path : Step → String
  data_path step =
      joined "sections." (joined step.section (joined ".reports." (joined step.report ".data")))

  -- A difference: an error where the item is a required one, and noted in the target if there is one.
  abbrev pub on_difference :
      (same required : Bool) (reference comparison left right : Value)
      → Step
      → Option Value
      → Result (Option Value)
  on_difference true required reference comparison left right step target = ok target
  on_difference false true reference comparison left right step target = err Exc.runtime
  on_difference false false reference comparison left right step none = ok none
  on_difference false false reference comparison left right step (some target) = do
    changed ← change_target reference comparison left right step target
    ok (some changed)

  -- The second loop, over the steps of both reports.
  unfoldable pub compare_steps :
      (reference comparison : Value) (items : List String)
      → List Step
      → List Step
      → Option Value
      → Result (Option Value)
  unfolding compare_data change_target mismatch
  compare_steps reference comparison items (s ∷ ss) (t ∷ ts) target = do
    mismatch (not (str_eq s.section t.section) || not (str_eq s.report t.report))
    let left = get "data" s.fields
    let right = get "data" t.fields
    next ←
        on_difference (compare_data left right) (elem (data_path s) items) reference comparison left
          right s target
    compare_steps reference comparison items ss ts next
  compare_steps reference comparison items _ _ target = ok target

  -- `compare_reports`, with the target as it is afterwards.
  unfoldable pub compare_reports :
      (reference comparison : Value) (items : List String) (target : Option Value)
      (reference_label comparison_label : Value)
      → Result (Option Value)
  compare_reports reference comparison items target reference_label comparison_label = do
    left ← parse_json_in_order reference
    right ← parse_json_in_order comparison
    mismatch (not (length (compared_steps left) == length (compared_steps right)))
    name ← label_of reference_label reference
    other ← label_of comparison_label comparison
    compare_items reference comparison items
    compare_steps name other items (compared_steps left) (compared_steps right) target
