-- ===== src/Loader/Scanning.antt =====
-- What a look for a job comes to (src/pg_perf_bench/initialization.py, `take`).
use pg_perf_bench.Prelude.{
  ℕ, zero, suc, ◌+◌, ◌%◌, ◌==◌, Bool, true, false, ◌≡◌, refl, sym, ap, Option, none, some, List,
  ◌∷◌, length, leb, if◌then◌else◌, inl, inr,
}
use mathlib.Core.Path.{subst}
use pg_perf_bench.Loader.Plan.{is_subset}
use pg_perf_bench.Loader.Schedule.{
  TaskState, looked, at_index, after_scan, Pool, Look, look, get_at, Taken, scan, take,
}
use pg_perf_bench.Loader.Sound.{jobs_of, IsSound, look-complete, look-job}
use pg_perf_bench.Loader.Orderly.{
  IsOrderly, replaced-IsOrderly, cons-known, contradicted, push-other, push-same,
}

-- What a scan comes to: the invariant, and for a job that the dependencies of its task are finished.
abbrev pub Outcome : List ℕ → Taken × Pool → Type 0
Outcome running (Taken.waiting, p) = IsOrderly running p
Outcome running (Taken.batch i s params, p) =
    IsOrderly (i ∷ running) p × (is_subset s.task.depends_on p.finished ≡ true)

pub looked-Outcome :
    (b i : ℕ) (running : List ℕ) (p : Pool) (s : TaskState) (l : Look) (rest : Pool → Taken × Pool)
    → ((q : Pool) → IsOrderly running q → Outcome running (rest q))
    → IsOrderly running p
    → get_at p.states i ≡ some s
    → look b p.finished s ≡ l
    → Outcome running (looked i p s l rest)
looked-Outcome b i running p s Look.skipped rest again v here h = again p v
looked-Outcome b i running p s (Look.complete s') rest again v here h =
    let (sound', completed, named) =
      look-complete b (jobs_of i running) p.finished s s' h (v.sound i s here) in
    again _ (
      replaced-IsOrderly running running p _ i s s' v here refl sound' (λ j q. refl)
        (λ q. completed) named
        (λ name found. elim (cons-known name s.task.name p.finished found) [
          | inl known ↦ inl known
          | inr first ↦ inr (first, completed)
        ]))
looked-Outcome b i running p s (Look.job s' params) rest again v here h =
    let (sound', fresh, unfinished, deps, same) =
      look-job b (jobs_of i running) p.finished s s' params h (v.sound i s here) in
    (
      replaced-IsOrderly running (i ∷ running) p _ i s s' v here refl
          (subst (λ n. IsSound n s') (sym (push-same i running)) sound') (push-other i running)
          (λ q. contradicted q unfinished) (ap (λ t. t.name) same) (λ name found. inl found),
      subst (λ t. is_subset t.depends_on p.finished ≡ true) (sym same) deps,
    )

pub scan-Outcome :
    (b left offset : ℕ) (running : List ℕ) (p : Pool)
    → IsOrderly running p
    → Outcome running (scan b left offset p)
unfolding scan
scan-Outcome b zero offset running p v = v
scan-Outcome b (suc left) offset running p v =
    found ((p.cursor + offset) % length p.states) (get_at p.states _) refl
      (λ q w. scan-Outcome b left (offset + 1) running q w)
  where
    found :
        (i : ℕ) (o : Option TaskState)
        → get_at p.states i ≡ o
        → ((q : Pool) → IsOrderly running q → Outcome running (scan b left (offset + 1) q))
        → Outcome running (at_index b i p o (scan b left (offset + 1)))
    found i none q again = v
    found i (some s) q again = looked-Outcome b i running p s _ _ again v q refl

abbrev pub TakeOutcome : List ℕ → Option Taken × Pool → Type 0
TakeOutcome running (none, p) = IsOrderly running p
TakeOutcome running (some t, p) = Outcome running (t, p)

pub outcome_if :
    (b : Bool) (running : List ℕ) (x y : Option Taken × Pool)
    → TakeOutcome running x
    → TakeOutcome running y
    → TakeOutcome running (if b then x else y)
outcome_if true running x y h k = h
outcome_if false running x y h k = k

pub after_scan-Outcome :
    (running : List ℕ) (p : Pool) (found : Taken × Pool) (again : Pool → Option Taken × Pool)
    → Outcome running found
    → ((q : Pool) → IsOrderly running q → TakeOutcome running (again q))
    → TakeOutcome running (after_scan p found again)
after_scan-Outcome running p (Taken.batch i s params, q) again h k = h
after_scan-Outcome running p (Taken.waiting, q) again h k =
    outcome_if (length q.finished == length p.finished) running (some Taken.waiting, q) (again q) h
      (k q h)

pub take-Outcome :
    (fuel b : ℕ) (running : List ℕ) (p : Pool)
    → IsOrderly running p
    → TakeOutcome running (take fuel b p)
unfolding take
take-Outcome zero b running p v = v
take-Outcome (suc fuel) b running p v =
    outcome_if (leb (length p.states) (length p.finished)) running (none, p) _ v
      (after_scan-Outcome running p (scan b (length p.states) 0 p) (take fuel b)
        (scan-Outcome b (length p.states) 0 running p v) (λ q w. take-Outcome fuel b running q w))
