-- ===== src/Workloads/Loaded.antt =====
-- What a profile that is loaded provides (src/pg_perf_bench/workloads.py).
use pg_perf_bench.Prelude.{
  Bool, true, false, not, String, some, List, [], ◌∷◌, ◌++◌, ◌≡◌, refl, ap, All, str_eq, str_eq_iff,
  elem, all, ◌∙◌, if◌then◌else◌,
}
use mathlib.Core.Path.{subst}
use pg_perf_bench.Effects.{Exc, Result, ok, err}
use pg_perf_bench.Dataset.{after}
use pg_perf_bench.Dataset.Usable.{after-ok}
use pg_perf_bench.Json.{Value, Fields, get}
use pg_perf_bench.Workloads.Profile.{
  Flaw, flaw_if, flatten, is_hashable, is_safe_path, is_blank_text, is_duration, all_paths,
  unsafe_paths, files_flaws, benchmark_flaws, id_flaws, accept_profile, profile_flaws,
  validate_workload_profile, load_workload_profile,
}

both_empty : {A : Type 0} (xs ys : List A) → xs ++ ys ≡ [] → (xs ≡ []) × (ys ≡ [])
both_empty [] ys h = (refl, h)
both_empty (x ∷ xs) ys h = cc

no_flaw : (b : Bool) (f : Flaw) → flaw_if b f ≡ [] → b ≡ false
no_flaw true f h = cc
no_flaw false f h = refl

is_so : (b : Bool) → not b ≡ false → b ≡ true
is_so true h = refl
is_so false h = cc

id_flaws-ok :
    (expected : String) (v : Value) → id_flaws (some expected) v ≡ [] → v ≡ Value.text expected
id_flaws-ok expected (Value.text s) h = named (str_eq s "") h
  where
    named :
        (b : Bool)
        → (if b then Flaw.bad_id ∷ [] else flaw_if (not (str_eq s expected)) Flaw.other_id) ≡ []
        → Value.text s ≡ Value.text expected
    named true k = cc
    named false k = ap Value.text ((str_eq_iff s expected).0 (is_so _ (no_flaw _ _ k)))
id_flaws-ok expected Value.null h = cc
id_flaws-ok expected (Value.flag b) h = cc
id_flaws-ok expected (Value.integer i) h = cc
id_flaws-ok expected (Value.real x) h = cc
id_flaws-ok expected (Value.array items) h = cc
id_flaws-ok expected (Value.object fields) h = cc

-- The benchmark object names a workload command and a positive duration.
abbrev pub HasBenchmark : Value → Type 0
HasBenchmark (Value.object benchmark) =
    (is_blank_text (get "workload_command" benchmark) ≡ false)
    × (is_duration (get "default_duration_seconds" benchmark) ≡ true)
HasBenchmark _ = ⊥

not_blank : (b : Bool) (f : Flaw) → flaw_if (not b) f ≡ [] → b ≡ true
not_blank b f h = is_so b (no_flaw _ f h)

ok-injective : {A : Type 0} {a b : A} → ok a ≡ ok b → a ≡ b
ok-injective q = cc

-- No test has a message.
none_of : (parts : List (List Flaw)) → flatten parts ≡ [] → All (λ fs. fs ≡ []) parts
unfolding flatten
none_of [] h = tt
none_of (fs ∷ rest) h =
    let (here, later) = both_empty fs (flatten rest) h in (here, none_of rest later)

hashable :
    (b : Bool) (flaws : List Flaw) → (if b then ok flaws else err Exc.external) ≡ ok [] → flaws ≡ []
hashable true flaws h = ok-injective h
hashable false flaws h = cc

benchmark_flaws-ok :
    (initialization benchmark : Value)
    → benchmark_flaws initialization benchmark ≡ []
    → HasBenchmark benchmark
unfolding benchmark_flaws
benchmark_flaws-ok initialization (Value.object benchmark) h =
    let (_, (command, (duration, _))) = none_of _ h in
    (
      no_flaw _ (Flaw.benchmark_field "workload_command") command,
      not_blank _ Flaw.duration duration,
    )
benchmark_flaws-ok initialization _ h = cc

module _ (str_of : Value → String) where
  -- No asset of the profile lies outside its directory.
  abbrev pub HasSafeFiles : Value → Type 0
  HasSafeFiles (Value.object files) = All (λ v. is_safe_path (str_of v) ≡ true) (all_paths files)
  HasSafeFiles _ = ⊥

  abbrev pub IsProfile : String → Value → Type 0
  IsProfile id (Value.object profile) =
      (get "id" profile ≡ Value.text id)
      × HasSafeFiles (get "files" profile)
      × HasBenchmark (get "benchmark" profile)
  IsProfile id _ = ⊥

  unsafe_paths-ok :
      (vs : List Value) → unsafe_paths str_of vs ≡ [] → All (λ v. is_safe_path (str_of v) ≡ true) vs
  unfolding unsafe_paths
  unsafe_paths-ok [] h = tt
  unsafe_paths-ok (v ∷ vs) h =
      let (here, rest) = both_empty (flaw_if _ Flaw.unsafe) _ h in
      (is_so _ (no_flaw _ _ here), unsafe_paths-ok vs rest)

  files_flaws-ok : (files : Value) → files_flaws str_of files ≡ ok [] → HasSafeFiles files
  unfolding files_flaws
  files_flaws-ok (Value.object files) h =
      let (_, (_, (_, (_, (safe, _))))) =
        none_of _ (hashable (all is_hashable (all_paths files)) _ h) in
      unsafe_paths-ok (all_paths files) safe
  files_flaws-ok _ h = cc

  profile_flaws-ok :
      (id : String) (profile : Fields)
      → profile_flaws str_of (some id) profile ≡ ok []
      → IsProfile id (Value.object profile)
  unfolding profile_flaws
  profile_flaws-ok id profile h =
      let (of_files, files, rest) = after-ok (files_flaws str_of (get "files" profile)) _ h in
      let (_, (named, (_, (_, (no_files, (_, (bench, _))))))) = none_of _ (ok-injective rest) in
      (
        id_flaws-ok id _ named,
        files_flaws-ok (get "files" profile) (files ∙ ap ok no_files),
        benchmark_flaws-ok (get "initialization" profile) (get "benchmark" profile) bench,
      )

  validate-ok :
      (id : String) (profile : Value)
      → validate_workload_profile str_of (some id) profile ≡ ok []
      → IsProfile id profile
  unfolding validate_workload_profile
  validate-ok id (Value.object profile) h = profile_flaws-ok id profile h
  validate-ok id _ h = cc

  accept-ok :
      (profile : Value) (flaws : List Flaw) {v : Value}
      → accept_profile str_of profile flaws ≡ ok v
      → (flaws ≡ []) × (profile ≡ v)
  unfolding accept_profile
  accept-ok profile [] h = (refl, ok-injective h)
  accept-ok profile (f ∷ fs) h = cc

  -- A profile that is loaded has the name it was asked for, no asset of it lies outside its directory,
  -- and it names a workload command and a positive duration.
  pub load_workload_profile-IsProfile :
      (bundled : List String) (read : String → Result Value) (id : String) (profile : Value)
      → load_workload_profile str_of bundled read id ≡ ok profile
      → IsProfile id profile
  unfolding load_workload_profile
  load_workload_profile-IsProfile bundled read id profile h = known (elem id bundled) h
    where
      known :
          (b : Bool)
          → (if b
              then after (read id) (λ v.
                after (validate_workload_profile str_of (some id) v) (accept_profile str_of v))
              else err Exc.external)
            ≡ ok profile
          → IsProfile id profile
      known true k =
          let (v, _, checked) = after-ok (read id) _ k in
          let (flaws, none_found, accepted) =
            after-ok (validate_workload_profile str_of (some id) v) _ checked in
          let (empty, same) = accept-ok v flaws accepted in
          subst (IsProfile id) same (validate-ok id v (none_found ∙ ap ok empty))
      known false k = cc
