-- ===== src/Settings/Replicas.antt =====
-- `wait_for_replicas`, `initialize_database` and `close_initialization_settings`
-- (src/pg_perf_bench/initialization_settings.py). A `Counter` is the list of its keys with their
-- repetitions. The wait polls with fuel: a round sleeps 200 ms, so one round for each 200 ms of the
-- timeout, and two, are enough.
use pg_perf_bench.Prelude.{
  ℕ, zero, suc, ◌+◌, ◌/◌, ltb, Bool, true, false, String, none, some, List, [], ◌∷◌, ◌++◌, length,
  if◌then◌else◌,
}
use pg_perf_bench.Effects.{
  Exc, Identity, Call, Statement, Env, M, pure, raise, gets, modify, raise_if, when, ◌>>=◌, ◌>>◌,
  try_finally, call,
}
use pg_perf_bench.Settings.Session.{Settings, LoadOptions, ConnectionType, create, text_of}
use pg_perf_bench.Settings.Identity.{texts_eq}
use pg_perf_bench.Settings.Lock.{control}
use pg_perf_bench.Settings.Fsync.{number_of, disable, restore}
use pg_perf_bench.Settings.Open.{replica_keys, open_settings, close}

abbrev pub Keys : Type 0
Keys = List (List String)

-- One occurrence less.
unfoldable pub drop_key : List String → Keys → Keys
drop_key k [] = []
drop_key k (x ∷ xs) = if texts_eq k x then xs else x ∷ drop_key k xs

-- `Counter` difference, union, and `all(have[key] >= count for key, count in need.items())`.
unfoldable pub minus : Keys → Keys → Keys
unfolding drop_key
minus xs [] = xs
minus xs (y ∷ ys) = minus (drop_key y xs) ys

unfoldable pub union : Keys → Keys → Keys
unfolding minus
union xs ys = xs ++ minus ys xs

unfoldable pub covers : (have need : Keys) → Bool
unfolding minus
covers have need = elim (minus need have) [ [] ↦ true | _ ∷ _ ↦ false ]

pub record Barrier : Type 0 where
  pub target_lsn : String
  pub replicas : ℕ

module _ (env : Env) (digest : Identity → String) where
  unfoldable pub await_replicas :
      (rounds : ℕ) (target : String) (deadline : ℕ) (required : Keys) → M Settings (Unit {0})
  unfolding covers
  await_replicas zero target deadline required = raise Exc.stalled
  await_replicas (suc rounds) target deadline required =
      let again = await_replicas rounds target deadline required in
      do
        caught_up ← replica_keys env digest (some target)
        if covers caught_up required then pure tt else (do
          now ← call env Call.monotonic
          raise_if (ltb deadline (number_of now)) Exc.runtime
          call env (Call.sleep 200)
          again)

  -- `wait_for_replicas`; with nothing required there is no wait.
  unfoldable pub wait_for_replicas : M Settings Barrier
  unfolding await_replicas union
  wait_for_replicas = do
    target ← control env Statement.wal_insert_lsn
    now ← replica_keys env digest none
    s ← gets (λ s. s)
    let required = union s.replicas now
    started ← call env Call.monotonic
    when (ltb 0 (length required)) (
        await_replicas (s.options.timeout / 200 + 2) (text_of target)
          (number_of started + s.options.timeout) required)
    call env Call.monotonic
    pure (record { target_lsn = text_of target; replicas = length required })

  -- The `try` of `initialize_database`. `prepare_database` gives what it gathers.
  unfoldable pub load_data :
      {E : Type 0} (prepare_database : M Settings E) (required : Keys)
      → M Settings (E × Barrier × String)
  unfolding wait_for_replicas
  load_data prepare_database required = do
    modify (λ s. record s { replicas = union s.replicas required })
    disable env
    evidence ← prepare_database
    call env Call.monotonic
    restore env
    call env Call.monotonic
    barrier ← wait_for_replicas
    after ← control env Statement.show_fsync
    pure (evidence, barrier, text_of after)

  -- `close_initialization_settings`: a cancellation waits for the cleanup, whose own exception comes
  -- first.
  unfoldable pub close_initialization_settings : (is_cancelled : Bool) → M Settings (Unit {0})
  close_initialization_settings is_cancelled = do
    close env digest
    raise_if is_cancelled Exc.cancelled

  module _ {E : Type 0} (prepare_database : M Settings E) where
    -- `initialize_database` with settings of its own.
    unfoldable pub initialize_database_alone :
        (o : LoadOptions) (kind : ConnectionType) (has_connection : Bool) (required : Keys)
        → M Settings (E × Barrier × String)
    unfolding load_data
    initialize_database_alone o kind has_connection required = do
      modify (λ _. create o kind has_connection "postgres")
      open_settings env digest false
      try_finally (load_data prepare_database required) (close env digest)

    -- `initialize_database`; with settings handed over, their owner closes them.
    unfoldable pub initialize_database :
        (owns_settings : Bool) (o : LoadOptions) (kind : ConnectionType) (has_connection : Bool)
        (required : Keys)
        → M Settings (E × Barrier × String)
    unfolding initialize_database_alone load_data
    initialize_database true o kind has_connection required =
        initialize_database_alone o kind has_connection required
    initialize_database false o kind has_connection required = load_data prepare_database required
