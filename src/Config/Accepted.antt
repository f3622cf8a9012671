-- ===== src/Config/Accepted.antt =====
-- What the checks have established when a configuration is accepted (src/pg_perf_bench/config.py).
use pg_perf_bench.Prelude.{
  ℤ, Float, is_positive, is_finite, exceeds_zero, Bool, true, false, not, ◌&&◌, ◌||◌, ◌≡◌, refl,
  List, [], ◌∷◌, All,
}
use mathlib.Core.Path.{subst}
use pg_perf_bench.Effects.{ok}
use pg_perf_bench.Fallible.{reject, bind-ok, then-ok, reject-ok, reject-then, ok-injective}
use pg_perf_bench.Json.{Value, Fields, get, is_text, is_truthy}
use pg_perf_bench.Config.Checks.{Outside, parsed, positive_int, positive_float}
use pg_perf_bench.Config.Workload.{check_policy, iterations_of, positive_ints, elements}
use pg_perf_bench.Config.Initialization.{check_reset, check_fast, check_fast_if, init_fsync}

-- `b` holds only where `c` does.
abbrev pub Needs : Bool → Bool → Type 0
Needs b c = (b && not c) ≡ false

is_so : (b : Bool) → not b ≡ false → b ≡ true
is_so true h = refl
is_so false h = cc

module _ (outside : Outside) where
  pub positive_int-ok :
      (value : Value) (n : ℤ) → positive_int outside value ≡ ok n → is_positive n ≡ true
  unfolding positive_int
  positive_int-ok value n h =
      let (m, _, rest) = bind-ok (parsed (outside.read_int value)) _ h in
      let (positive, last) = reject-then (not (is_positive m)) _ rest in
      subst (λ k. is_positive k ≡ true) (ok-injective last) (is_so _ positive)

  positive_ints-ok :
      (vs : List Value) (ns : List ℤ)
      → positive_ints outside vs ≡ ok ns
      → All (λ n. is_positive n ≡ true) ns
  unfolding positive_ints
  positive_ints-ok [] ns h = subst (All (λ n. is_positive n ≡ true)) (ok-injective h) tt
  positive_ints-ok (v ∷ vs) ns h =
      let (m, here, rest) = bind-ok (positive_int outside v) _ h in
      let (ms, there, last) = bind-ok (positive_ints outside vs) _ rest in
      subst (All (λ n. is_positive n ≡ true)) (ok-injective last)
        (positive_int-ok v m here, positive_ints-ok vs ms there)

  pub iterations_of-ok :
      (values : Fields) (ns : List ℤ)
      → iterations_of outside values ≡ ok ns
      → All (λ n. is_positive n ≡ true) ns
  unfolding iterations_of
  iterations_of-ok values ns h =
      let (_, given) = then-ok (reject _) _ h in
      let (raw, _, rest) = bind-ok (elements _) _ given in positive_ints-ok raw ns rest

-- What `check_policy` leaves.
abbrev pub PolicyHolds : Value → Fields → Type 0
PolicyHolds policy values =
    Needs (is_truthy (get "drop_os_caches" values)) (is_text "each-iteration" policy)
    × Needs (not (is_text "skip" policy)) (is_truthy (get "allow_database_reset" values))

flip : (a b : Bool) → (not a && b) ≡ false → Needs b a
flip true true h = refl
flip true false h = refl
flip false true h = h
flip false false h = refl

pub check_policy-ok :
    (policy : Value) (values : Fields)
    → check_policy policy values ≡ ok tt
    → PolicyHolds policy values
unfolding check_policy
check_policy-ok policy values h =
    let (_, a) = then-ok (reject _) _ h in
    let (_, b) = then-ok (reject _) _ a in
    let (_, c) = then-ok (reject _) _ b in
    let (_, d) = then-ok (reject _) _ c in
    let (caches, reset) = then-ok (reject _) _ d in
    (flip _ _ (reject-ok _ caches), reject-ok _ reset)

-- What `check_reset` leaves: a reset of schemas is a fast load that keeps fsync.
abbrev pub ResetHolds : (reset mode policy : Value) → Fields → Type 0
ResetHolds reset mode policy values =
    Needs (is_text "schema" reset && not (is_text "skip" policy)) (is_text "fast" mode)
    × Needs (is_text "schema" reset && not (is_text "skip" policy))
        (is_text "keep" (init_fsync values))

pub check_reset-ok :
    (reset mode policy : Value) (values : Fields)
    → check_reset reset mode policy values ≡ ok tt
    → ResetHolds reset mode policy values
unfolding check_reset
check_reset-ok reset mode policy values h =
    let (_, a) = then-ok (reject _) _ h in
    let (fast, b) = then-ok (reject _) _ a in
    let (keep, _) = then-ok (reject _) _ b in (reject-ok _ fast, reject-ok _ keep)

-- A fast load of a managed server keeps fsync.
abbrev pub FsyncHolds : (mode policy : Value) (managed : Bool) → Fields → Type 0
FsyncHolds mode policy managed values =
    Needs (is_text "fast" mode && (not (is_text "skip" policy) && managed))
      (not (is_text "off" (init_fsync values)))

module _ (outside : Outside) where
  check_fast-ok :
      (path plan policy : Value) (managed : Bool) (values : Fields)
      → check_fast outside path plan policy managed values ≡ ok tt
      → (not (is_text "skip" policy) && managed && is_text "off" (init_fsync values)) ≡ false
  unfolding check_fast
  check_fast-ok path plan policy managed values h =
      let (_, a) = then-ok (reject _) _ h in
      let (_, b) = then-ok (reject _) _ a in
      let (_, _, c) = bind-ok _ _ b in
      let (_, _, d) = bind-ok _ _ c in
      let (_, _, e) = bind-ok _ _ d in let (_, f) = then-ok (reject _) _ e in reject-ok _ f

  regroup :
      (fast a b c : Bool) → (fast ≡ true → (a && b && c) ≡ false) → Needs (fast && (a && b)) (not c)
  regroup false a b c h = refl
  regroup true false b c h = refl
  regroup true true false c h = refl
  regroup true true true true h = h refl
  regroup true true true false h = refl

  pub check_fast_if-ok :
      (fast : Bool) (path plan policy : Value) (managed : Bool) (values : Fields)
      → check_fast_if outside fast path plan policy managed values ≡ ok tt
      → Needs
          (fast && (not (is_text "skip" policy) && managed))
          (not (is_text "off" (init_fsync values)))
  check_fast_if-ok false path plan policy managed values h = refl
  check_fast_if-ok true path plan policy managed values h =
      regroup true (not (is_text "skip" policy)) managed (is_text "off" (init_fsync values))
        (λ _. check_fast-ok path plan policy managed values h)

  pub positive_float-ok :
      (value : Value) (x : Float)
      → positive_float outside value ≡ ok x
      → (is_finite x ≡ true) × (exceeds_zero x ≡ true)
  unfolding positive_float
  positive_float-ok value x h =
      let (y, _, rest) = bind-ok (parsed (outside.read_float value)) _ h in
      let (checked, last) = reject-then (not (is_finite y) || not (exceeds_zero y)) _ rest in
      subst (λ z. (is_finite z ≡ true) × (exceeds_zero z ≡ true)) (ok-injective last)
        (both (is_finite y) (exceeds_zero y) checked)
    where
      both : (a b : Bool) → (not a || not b) ≡ false → (a ≡ true) × (b ≡ true)
      both true true k = (refl, refl)
      both true false k = cc
      both false b k = cc
