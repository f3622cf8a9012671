-- ===== src/Tests/Loading.antt =====
-- A load of two tasks, of which the second waits for the first.
use pg_perf_bench.Prelude.{◌≡◌, refl, none, some, List, [], ◌∷◌, map, All, arith, true, false}
use pg_perf_bench.Loader.{LoadTask, TaskState, start_state, Pool, take, finish_batch}
use pg_perf_bench.Loader.Sound.{jobs_of, is_used_up}
use pg_perf_bench.Loader.Workers.{Reaches, Removed, IsLoaded, take-IsLoaded}
use pg_perf_bench.Loader.Ends.{take-ends}

abbrev customers : LoadTask
customers = record {
  name = "customers";
  is_blank = false;
  count = none;
  max_rows_per_key = 1;
  depends_on = [];
}

abbrev orders : LoadTask
orders = record {
  name = "orders";
  is_blank = false;
  count = some 10;
  max_rows_per_key = 1;
  depends_on = "customers" ∷ [];
}

abbrev tasks : List LoadTask
tasks = customers ∷ orders ∷ []

abbrev at_start : Pool
at_start = record { states = map start_state tasks; finished = []; cursor = 0 }

abbrev customers_run : TaskState
customers_run = record (start_state customers) { submitted = true; outstanding = 1 }

abbrev first_taken : Pool
first_taken = record { states = customers_run ∷ start_state orders ∷ []; finished = []; cursor = 1 }

abbrev first_committed : Pool
first_committed = record {
  states =
      record customers_run { outstanding = 0; completed = true; rows = 5; batches = 1 }
      ∷ start_state orders
      ∷ [];
  finished = "customers" ∷ [];
  cursor = 1;
}

abbrev orders_run : TaskState
orders_run = record (start_state orders) { next_key = 11; outstanding = 1 }

abbrev second_taken : Pool
second_taken = record first_committed {
  states =
      record customers_run { outstanding = 0; completed = true; rows = 5; batches = 1 }
      ∷ orders_run
      ∷ [];
  cursor = 0;
}

first_step : Reaches 1000 tasks (0 ∷ []) first_taken
unfolding take
first_step =
    Reaches.took {p = at_start} {p' = first_taken} {s = customers_run} 3 0 none Reaches.begin refl

second_step : Reaches 1000 tasks [] first_committed
unfolding finish_batch
second_step =
    Reaches.committed {p = first_taken} {s = customers_run} 0 5 first_step refl Removed.this_job

take-IsLoaded_example : All (IsLoaded (1 ∷ []) second_taken.states) orders.depends_on
unfolding take
take-IsLoaded_example =
    take-IsLoaded 1000 3 1 tasks [] first_committed second_taken orders_run (some (1, 10))
      second_step refl

abbrev all_done : Pool
all_done = record first_committed {
  states =
      record customers_run { outstanding = 0; completed = true; rows = 5; batches = 1 }
      ∷ record orders_run { outstanding = 0; batches = 1; rows = 10; completed = true }
      ∷ [];
  finished = "orders" ∷ "customers" ∷ [];
  cursor = 0;
}

third_step : Reaches 1000 tasks (1 ∷ []) second_taken
unfolding take
third_step =
    Reaches.took {p = first_committed} {p' = second_taken} {s = orders_run} 3 1 (some (1, 10))
      second_step refl

last_step : Reaches 1000 tasks [] all_done
unfolding finish_batch
last_step =
    Reaches.committed {p = second_taken} {s = orders_run} 1 10 third_step refl Removed.this_job

abbrev orders_done : TaskState
orders_done = record orders_run { outstanding = 0; batches = 1; rows = 10; completed = true }

take-ends_example :
    (orders_done.completed ≡ true) × (jobs_of 1 [] ≡ 0) × (is_used_up orders_done ≡ true)
unfolding take
take-ends_example =
    take-ends 1 1000 tasks [] all_done all_done last_step (omega arith) refl 1 orders_done refl
