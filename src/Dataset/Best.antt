-- ===== src/Dataset/Best.antt =====
-- The winning point (src/pg_perf_bench/benchmark.py).
use pg_perf_bench.Prelude.{
  Bool, true, false, ◌≡◌, refl, ◌∙◌, ap, sym, ◌⊎◌, inl, inr, Option, none, some, List, [], ◌∷◌, All,
  Bool-cases, if◌then◌else◌,
}
use mathlib.Core.Path.{subst}
use pg_perf_bench.Json.{Value, Fields, get, get_or, is_text}
use pg_perf_bench.Dataset.Maximum.{
  number_in, metrics_tps, tps_of, is_completed, add_run, candidates, maximum_of, handed_on, better,
  best_of, winner, maximum_tps,
}

abbrev pub IsAmong : {A : Type 0} → A → List A → Type 0
IsAmong x [] = ⊥
IsAmong x (y ∷ ys) = (x ≡ y) ⊎ IsAmong x ys

-- A run that is completed, or has no status, and whose metrics have that TPS, an integer or a float.
pub record IsCompletedRun (run : Fields) (n : Value) : Type 0 where
  pub metrics : Fields
  pub has_metrics : get "metrics" run ≡ Value.object metrics
  pub has_status : is_text "completed" (get_or (Value.text "completed") "status" run) ≡ true
  pub has_tps : number_in (get "tps" metrics) ≡ some n

tps_of-metrics :
    (value n : Value)
    → metrics_tps value ≡ some n
    → (metrics : Fields) × (value ≡ Value.object metrics) × (number_in (get "tps" metrics) ≡ some n)
tps_of-metrics (Value.object metrics) n h = (metrics, refl, h)
tps_of-metrics Value.null n h = cc
tps_of-metrics (Value.flag b) n h = cc
tps_of-metrics (Value.integer i) n h = cc
tps_of-metrics (Value.real x) n h = cc
tps_of-metrics (Value.text s) n h = cc
tps_of-metrics (Value.array xs) n h = cc

-- A candidate is one of the runs, and a completed one; and each of those is a candidate.
abbrev IsOneOf : List Fields → Value × Fields → Type 0
IsOneOf runs c = IsAmong (c.1) runs × IsCompletedRun (c.1) (c.0)

later :
    (run : Fields) (runs : List Fields) (c : Value × Fields)
    → IsOneOf runs c
    → IsOneOf (run ∷ runs) c
later run runs c (among, completed) = (inr among, completed)

head-IsOneOf :
    (run : Fields) (runs : List Fields) (n : Value)
    → is_completed run ≡ true
    → tps_of run ≡ some n
    → IsOneOf (run ∷ runs) (n, run)
unfolding is_completed tps_of
head-IsOneOf run runs n done tps =
    let (metrics, has, number) = tps_of-metrics (get "metrics" run) n tps in
    (inl refl, record { metrics = metrics; has_metrics = has; has_status = done; has_tps = number })

chosen-IsOneOf :
    (run : Fields) (runs : List Fields) (c : Value × Fields) (b : Bool) (o : Option Value)
    → is_completed run ≡ b
    → tps_of run ≡ o
    → (IsAmong c (candidates runs) → IsOneOf runs c)
    → IsAmong c (if b then add_run run o (candidates runs) else candidates runs)
    → IsOneOf (run ∷ runs) c
chosen-IsOneOf run runs c false o done q rest h = later run runs c (rest h)
chosen-IsOneOf run runs c true none done q rest h = later run runs c (rest h)
chosen-IsOneOf run runs c true (some n) done q rest (inl same) =
    subst (IsOneOf (run ∷ runs)) (sym same) (head-IsOneOf run runs n done q)
chosen-IsOneOf run runs c true (some n) done q rest (inr h) = later run runs c (rest h)

candidates-AreOneOf :
    (runs : List Fields) (c : Value × Fields) → IsAmong c (candidates runs) → IsOneOf runs c
unfolding candidates
candidates-AreOneOf [] c h = elim h [ ]
candidates-AreOneOf (run ∷ runs) c h =
    chosen-IsOneOf run runs c (is_completed run) (tps_of run) refl refl (candidates-AreOneOf runs c)
      h

tps_of-completed : (run : Fields) (n : Value) → IsCompletedRun run n → tps_of run ≡ some n
unfolding tps_of
tps_of-completed run n v = ap metrics_tps v.has_metrics ∙ v.has_tps

is_completed-completed : (run : Fields) (n : Value) → IsCompletedRun run n → is_completed run ≡ true
unfolding is_completed
is_completed-completed run n v = v.has_status

completed-IsAmong :
    (runs : List Fields) (run : Fields) (n : Value)
    → IsAmong run runs
    → IsCompletedRun run n
    → IsAmong (n, run) (candidates runs)
unfolding candidates
completed-IsAmong [] run n h v = elim h [ ]
completed-IsAmong (first ∷ runs) run n (inl same) v =
    subst
      (λ r.
        IsAmong (n, run)
          (if is_completed r then add_run r (tps_of r) (candidates runs) else candidates runs))
      same (rw (is_completed-completed run n v, tps_of-completed run n v) (inl refl))
completed-IsAmong (first ∷ runs) run n (inr later') v =
    below (is_completed first) (tps_of first) (completed-IsAmong runs run n later' v)
  where
    below :
        (b : Bool) (o : Option Value)
        → IsAmong (n, run) (candidates runs)
        → IsAmong (n, run) (if b then add_run first o (candidates runs) else candidates runs)
    below false o h = h
    below true none h = h
    below true (some m) h = inr h

All-at : {A : Type 0} (P : A → Type 0) (xs : List A) (x : A) → All P xs → IsAmong x xs → P x
All-at P [] x hs k = elim k [ ]
All-at P (y ∷ ys) x (h, hs) (inl same) = subst P (sym same) h
All-at P (y ∷ ys) x (h, hs) (inr k) = All-at P ys x hs k

module _ {N R : Type 0} (is_less : N → N → Bool) where
  better-either : (b x : N × R) → (better is_less b x ≡ b) ⊎ (better is_less b x ≡ x)
  better-either b x = elim (Bool-cases (is_less (b.0) (x.0))) [
    | inl less ↦ inr (rw less refl)
    | inr other ↦ inl (rw other refl)
  ]

  one_of :
      {y c b x : N × R} (xs : List (N × R))
      → (c ≡ b) ⊎ (c ≡ x)
      → IsAmong y (c ∷ xs)
      → IsAmong y (b ∷ x ∷ xs)
  one_of xs (inl q) (inl h) = inl (h ∙ q)
  one_of xs (inr q) (inl h) = inr (inl (h ∙ q))
  one_of xs e (inr h) = inr (inr h)

  best_of-IsAmong : (b : N × R) (xs : List (N × R)) → IsAmong (best_of is_less b xs) (b ∷ xs)
  unfolding best_of
  best_of-IsAmong b [] = inl refl
  best_of-IsAmong b (x ∷ xs) =
      one_of xs (better-either b x) (best_of-IsAmong (better is_less b x) xs)

  module _ (irreflexive : (a : N) → is_less a a ≡ false)
      (transitive : (a b c : N)
        → is_less a b ≡ true
        → is_less b c ≡ true
        → is_less a c ≡ true) where
    better-above :
        (b y : N × R) (x : N) → is_less (b.0) x ≡ false → is_less ((better is_less b y).0) x ≡ false
    better-above b y x low = elim (Bool-cases (is_less (b.0) (y.0))) [
      | inl less ↦ rw less (elim (Bool-cases (is_less (y.0) x)) [
        | inl more ↦ (let above = transitive (b.0) (y.0) x less more in cc)
        | inr done ↦ done
      ])
      | inr other ↦ rw other low
    ]

    better-last : (b y : N × R) → is_less ((better is_less b y).0) (y.0) ≡ false
    better-last b y = elim (Bool-cases (is_less (b.0) (y.0))) [
      | inl less ↦ rw less (irreflexive (y.0))
      | inr other ↦ rw other other
    ]

    -- Nothing that the current best is not below is above the final one.
    best_of-above :
        (x : N) (b : N × R) (xs : List (N × R))
        → is_less (b.0) x ≡ false
        → is_less ((best_of is_less b xs).0) x ≡ false
    unfolding best_of
    best_of-above x b [] h = h
    best_of-above x b (y ∷ ys) h = best_of-above x (better is_less b y) ys (better-above b y x h)

    best_of-IsLargest :
        (b : N × R) (xs : List (N × R))
        → All (λ x. is_less ((best_of is_less b xs).0) (x.0) ≡ false) xs
    unfolding best_of
    best_of-IsLargest b [] = tt
    best_of-IsLargest b (y ∷ ys) = (
      best_of-above (y.0) (better is_less b y) ys (better-last b y),
      best_of-IsLargest (better is_less b y) ys,
    )

    pub winner-IsLargest :
        (xs : List (N × R)) {best : N × R}
        → winner is_less xs ≡ some best
        → IsAmong best xs × All (λ x. is_less (best.0) (x.0) ≡ false) xs
    unfolding winner
    winner-IsLargest [] h = cc
    winner-IsLargest (x ∷ xs) {best} h =
        subst (λ z. IsAmong z (x ∷ xs) × All (λ y. is_less (z.0) (y.0) ≡ false) (x ∷ xs)) chosen
          (
            best_of-IsAmong x xs,
            (best_of-above (x.0) x xs (irreflexive (x.0)), best_of-IsLargest x xs),
          )
      where
        chosen : best_of is_less x xs ≡ best
        chosen = cc

handed_winner :
    (o : Option (Value × Fields)) {best : Fields}
    → handed_on o ≡ some best
    → (c : Value × Fields) × (o ≡ some c) × (best ≡ maximum_of c)
handed_winner none h = cc
handed_winner (some c) h = (c, refl, cc)

module _ (is_less : Value → Value → Bool) (irreflexive : (a : Value) → is_less a a ≡ false)
    (transitive : (a b c : Value)
      → is_less a b ≡ true
      → is_less b c ≡ true
      → is_less a c ≡ true) where
  -- With an order of the numbers that is irreflexive and transitive, the winning point is that of one of
  -- the runs, which is completed and has a TPS, and no completed run has a higher one.
  pub maximum_tps-IsLargest :
      (runs : List Fields) {best : Fields}
      → maximum_tps is_less runs ≡ some best
      → (n : Value) × (run : Fields) × (IsAmong run runs)
        × (IsCompletedRun run n)
        × (best ≡ maximum_of (n, run))
        × ((other : Fields) (m : Value)
            → IsAmong other runs
            → IsCompletedRun other m
            → is_less n m ≡ false)
  unfolding maximum_tps
  maximum_tps-IsLargest runs h =
      let ((n, run), won, handed) = handed_winner (winner is_less (candidates runs)) h in
      let (among, largest) =
        winner-IsLargest is_less irreflexive transitive (candidates runs) won in
      let (listed, completed) = candidates-AreOneOf runs (n, run) among in
      (
        n,
        run,
        listed,
        completed,
        handed,
        λ other m found v.
            All-at (λ x. is_less n (x.0) ≡ false) (candidates runs) (m, other) largest
              (completed-IsAmong runs other m found v),
      )
