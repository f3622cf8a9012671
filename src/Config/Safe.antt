-- ===== src/Config/Safe.antt =====
-- A benchmark whose configuration is accepted (src/pg_perf_bench/config.py).
use pg_perf_bench.Prelude.{
  Float, is_positive, exceeds_zero, exceeds_thousandths, Bool, true, false, not, ◌&&◌, ◌≡◌, Option,
  none, some, All, lower_in,
}
use mathlib.Core.Path.{subst}
use pg_perf_bench.Effects.{ok}
use pg_perf_bench.Database.{protected_databases}
use pg_perf_bench.Fallible.{reject, bind-ok, then-ok, reject-ok, reject-then, ok-injective}
use pg_perf_bench.Json.{Value, Fields, is_text}
use pg_perf_bench.Config.Checks.{Outside, positive_float}
use pg_perf_bench.Config.Host.{DatabaseConfig}
use pg_perf_bench.Config.Workload.{Selection, check_target}
use pg_perf_bench.Config.Build.{
  Choices, Programs, policy_of, choices_of, programs_of, workload_from, WorkMode, WorkloadConfig,
  limited_timeout, bounded_timeout, statement_timeout_of, workload_of, workload_if,
}
use pg_perf_bench.Config.Accepted.{
  Needs, PolicyHolds, ResetHolds, FsyncHolds, check_policy-ok, check_reset-ok, check_fast_if-ok,
  iterations_of-ok, positive_int-ok, positive_float-ok,
}

-- A timeout is positive and at most 2147483.647 seconds.
abbrev pub IsBounded : Option Float → Type 0
IsBounded none = Unit
IsBounded (some x) = (exceeds_zero x ≡ true) × (exceeds_thousandths x 2147483647 ≡ false)

-- The database is not a protected one and may be reset, unless nothing is initialized; the caches are
-- dropped only where every iteration initializes; a reset of schemas is a fast load that keeps
-- fsync, and so is a fast load of a managed server; the numbers are positive and the timeout is
-- bounded.
pub record IsSafeWorkload (database : DatabaseConfig) (workload : WorkloadConfig) : Type 0 where
  pub unprotected : lower_in database.database protected_databases ≡ false
  pub permitted : Needs (not (is_text "skip" workload.init_policy)) workload.allow_database_reset
  pub caches : Needs workload.drop_os_caches (is_text "each-iteration" workload.init_policy)
  pub measured : All (λ n. is_positive n ≡ true) workload.iterations
  pub schemas_load :
      Needs
        (is_text "schema" workload.reset_mode && not (is_text "skip" workload.init_policy))
        (is_text "fast" workload.init_mode)
  pub schemas_keep :
      Needs
        (is_text "schema" workload.reset_mode && not (is_text "skip" workload.init_policy))
        (is_text "keep" workload.init_fsync)
  pub managed_keeps :
      Needs
        (is_text "fast" workload.init_mode
          && (not (is_text "skip" workload.init_policy) && workload.managed))
        (not (is_text "off" workload.init_fsync))
  pub workers : is_positive workload.init_workers ≡ true
  pub batch_rows : is_positive workload.init_batch_rows ≡ true
  pub timeout : IsBounded workload.statement_timeout_seconds

-- The database and the workload of a configuration belong together.
abbrev pub IsSafeRun : Option DatabaseConfig → Option WorkloadConfig → Type 0
IsSafeRun database none = Unit
IsSafeRun none (some w) = ⊥
IsSafeRun (some d) (some w) = IsSafeWorkload d w

record IsSafeChoice (managed : Bool) (database : DatabaseConfig) (values : Fields) (c : Choices)
    : Type 0 where
  pub unprotected : lower_in database.database protected_databases ≡ false
  pub policy : PolicyHolds (policy_of values) values
  pub measured : All (λ n. is_positive n ≡ true) c.iterations
  pub schemas : ResetHolds c.reset_mode c.init_mode (policy_of values) values
  pub managed_keeps : FsyncHolds c.init_mode (policy_of values) managed values

module _ (outside : Outside) where
  limited_timeout-ok :
      (value : Value) (o : Option Float) → limited_timeout outside value ≡ ok o → IsBounded o
  unfolding limited_timeout
  limited_timeout-ok value o h =
      let (x, read, rest) = bind-ok (positive_float outside value) _ h in
      let (limit, last) = then-ok (reject (exceeds_thousandths x 2147483647)) _ rest in
      subst IsBounded (ok-injective last)
        ((positive_float-ok outside value x read).1, reject-ok _ limit)

  bounded_timeout-ok :
      (value : Value) (o : Option Float) → bounded_timeout outside value ≡ ok o → IsBounded o
  bounded_timeout-ok Value.null o h = subst IsBounded (ok-injective h) tt
  bounded_timeout-ok value o h = limited_timeout-ok value o h

  statement_timeout_of-ok :
      (profile : Option Value) (values : Fields) (o : Option Float)
      → statement_timeout_of outside profile values ≡ ok o
      → IsBounded o
  unfolding statement_timeout_of
  statement_timeout_of-ok profile values o h =
      let (value, _, rest) = bind-ok _ _ h in bounded_timeout-ok value o rest

  choices_of-IsSafe :
      (managed : Bool) (database : DatabaseConfig) (values : Fields) (c : Choices)
      → choices_of outside managed database values ≡ ok c
      → IsSafeChoice managed database values c
  unfolding choices_of check_target
  choices_of-IsSafe managed database values c h =
      let (policy, h1) = then-ok _ _ h in
      let (target, h2) = reject-then _ _ h1 in
      let (iterations, listed, h3) = bind-ok _ _ h2 in
      let (_, _, h4) = bind-ok _ _ h3 in
      let (_, h5) = then-ok _ _ h4 in
      let (_, _, h6) = bind-ok _ _ h5 in
      let (plan, _, h7) = bind-ok _ _ h6 in
      let (fast, h8) = then-ok _ _ h7 in
      let (reset, h9) = then-ok _ _ h8 in
      let (_, _, h10) = bind-ok _ _ h9 in
      let (_, last) = then-ok _ _ h10 in
      subst (IsSafeChoice managed database values) (ok-injective last) (record {
        unprotected = target;
        policy = check_policy-ok _ _ policy;
        measured = iterations_of-ok outside values iterations listed;
        schemas = check_reset-ok _ _ _ _ reset;
        managed_keeps = check_fast_if-ok outside _ _ _ _ _ _ fast;
      })

  workload_from-IsSafe :
      (managed : Bool) (info : Value) (database : DatabaseConfig) (values : Fields) (c : Choices)
      (programs : Programs) (w : WorkloadConfig)
      → IsSafeChoice managed database values c
      → IsBounded programs.timeout
      → workload_from outside managed info c programs values ≡ ok w
      → IsSafeWorkload database w
  unfolding workload_from
  workload_from-IsSafe managed info database values c programs w safe bounded h =
      let (workers, positive, h1) = bind-ok _ _ h in
      let (rows, full, h2) = bind-ok _ _ h1 in
      let (_, _, h3) = bind-ok _ _ h2 in
      let (_, _, h4) = bind-ok _ _ h3 in
      let (_, _, h5) = bind-ok _ _ h4 in
      let (_, _, last) = bind-ok _ _ h5 in
      subst (IsSafeWorkload database) (ok-injective last) (record {
        unprotected = safe.unprotected;
        permitted = safe.policy.1;
        caches = safe.policy.0;
        measured = safe.measured;
        schemas_load = safe.schemas.0;
        schemas_keep = safe.schemas.1;
        managed_keeps = safe.managed_keeps;
        workers = positive_int-ok outside _ workers positive;
        batch_rows = positive_int-ok outside _ rows full;
        timeout = bounded;
      })

  programs_of-IsBounded :
      (selection : Selection) (values : Fields) (programs : Programs)
      → programs_of outside selection values ≡ ok programs
      → IsBounded programs.timeout
  unfolding programs_of
  programs_of-IsBounded selection values programs h =
      let (_, _, h1) = bind-ok _ _ h in
      let (_, _, h2) = bind-ok _ _ h1 in
      let (timeout, timed, last) = bind-ok _ _ h2 in
      subst (λ p. IsBounded p.timeout) (ok-injective last)
        (statement_timeout_of-ok selection.profile values timeout timed)

  workload_of-IsSafe :
      (managed : Bool) (info : Value) (database : DatabaseConfig) (values : Fields)
      (w : WorkloadConfig)
      → workload_of outside managed info database values ≡ ok w
      → IsSafeWorkload database w
  unfolding workload_of
  workload_of-IsSafe managed info database values w h =
      let (c, chosen, h1) = bind-ok _ _ h in
      let (programs, found, h2) = bind-ok _ _ h1 in
      workload_from-IsSafe managed info database values c programs w
        (choices_of-IsSafe managed database values c chosen)
        (programs_of-IsBounded c.selection values programs found) h2

  pub workload_if-IsSafe :
      (mode : WorkMode) (managed : Bool) (info : Value) (database : Option DatabaseConfig)
      (values : Fields) (o : Option WorkloadConfig)
      → workload_if outside mode managed info database values ≡ ok o
      → IsSafeRun database o
  workload_if-IsSafe WorkMode.benchmark managed info none values o h = cc
  workload_if-IsSafe WorkMode.benchmark managed info (some d) values o h =
      let (w, built, last) = bind-ok _ _ h in
      subst (IsSafeRun (some d)) (ok-injective last)
        (workload_of-IsSafe managed info d values w built)
  workload_if-IsSafe WorkMode.join managed info database values o h =
      subst (IsSafeRun database) (ok-injective h) tt
  workload_if-IsSafe WorkMode.collect_sys_info managed info database values o h =
      subst (IsSafeRun database) (ok-injective h) tt
  workload_if-IsSafe WorkMode.collect_db_info managed info database values o h =
      subst (IsSafeRun database) (ok-injective h) tt
  workload_if-IsSafe WorkMode.collect_all_info managed info database values o h =
      subst (IsSafeRun database) (ok-injective h) tt
