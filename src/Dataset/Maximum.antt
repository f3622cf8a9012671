-- ===== src/Dataset/Maximum.antt =====
-- `maximum_tps` (src/pg_perf_bench/benchmark.py) and `_maximum_tps` (src/pg_perf_bench/join.py). A TPS is
-- compared as a float: the order of the numbers is a parameter.
use pg_perf_bench.Prelude.{Bool, Option, none, some, List, [], ◌∷◌, if◌then◌else◌}
use pg_perf_bench.Json.{Value, Fields, get, get_or, is_text}

-- `isinstance(value, (int, float)) and not isinstance(value, bool)`
abbrev pub number_in : Value → Option Value
number_in (Value.integer i) = some (Value.integer i)
number_in (Value.real x) = some (Value.real x)
number_in _ = none

abbrev pub metrics_tps : Value → Option Value
metrics_tps (Value.object metrics) = number_in (get "tps" metrics)
metrics_tps _ = none

-- The TPS of a run, if its metrics are a dictionary with a number there.
unfoldable pub tps_of : Fields → Option Value
unfolding get_or
tps_of run = metrics_tps (get "metrics" run)

-- `run.get('status', 'completed') == 'completed'`
unfoldable pub is_completed : Fields → Bool
unfolding get_or
is_completed run = is_text "completed" (get_or (Value.text "completed") "status" run)

abbrev pub add_run : Fields → Option Value → List (Value × Fields) → List (Value × Fields)
add_run run none rest = rest
add_run run (some n) rest = (n, run) ∷ rest

-- The candidates of `maximum_tps`, with their TPS.
unfoldable pub candidates : List Fields → List (Value × Fields)
unfolding is_completed tps_of
candidates [] = []
candidates (run ∷ runs) =
    let rest = candidates runs in if is_completed run then add_run run (tps_of run) rest else rest

-- Those of `_maximum_tps`, whatever their status.
unfoldable pub measured : List Value → List (Value × Fields)
unfolding tps_of
measured [] = []
measured (Value.object run ∷ runs) = add_run run (tps_of run) (measured runs)
measured (_ ∷ runs) = measured runs

-- What is handed on of the winner.
unfoldable pub maximum_of : Value × Fields → Fields
unfolding get_or
maximum_of (n, run) = Fields.field "tps" n (
    Fields.field "iteration" (get "iteration" run)
      (Fields.field "metrics" (get "metrics" run) Fields.end))

abbrev pub handed_on : Option (Value × Fields) → Option Fields
handed_on none = none
handed_on (some c) = some (maximum_of c)

module _ {N R : Type 0} (is_less : N → N → Bool) where
  -- Python's `max` with a key: the first of the largest.
  abbrev pub better : (N × R) → (N × R) → N × R
  better b x = if is_less (b.0) (x.0) then x else b

  unfoldable pub best_of : (N × R) → List (N × R) → N × R
  best_of b [] = b
  best_of b (x ∷ xs) = best_of (better b x) xs

  unfoldable pub winner : List (N × R) → Option (N × R)
  unfolding best_of
  winner [] = none
  winner (x ∷ xs) = some (best_of x xs)

module _ (is_less : Value → Value → Bool) where
  -- `BenchmarkRunner.maximum_tps`
  unfoldable pub maximum_tps : List Fields → Option Fields
  unfolding candidates winner maximum_of
  maximum_tps runs = handed_on (winner is_less (candidates runs))

  -- `ReportJoiner._maximum_tps`: the maximum that a report has, or that of its runs.
  unfoldable pub report_maximum_tps : (recorded : Value) → (runs : List Value) → Option Fields
  unfolding measured winner maximum_of
  report_maximum_tps (Value.object maximum) runs = some maximum
  report_maximum_tps _ runs = handed_on (winner is_less (measured runs))
