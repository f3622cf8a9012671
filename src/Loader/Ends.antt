-- ===== src/Loader/Ends.antt =====
-- The search for a job ends (src/pg_perf_bench/initialization.py, `take`).
use pg_perf_bench.Prelude.{
  ℕ, zero, suc, ◌+◌, ◌==◌, ◌≤◌, ◌<◌, Bool, true, false, ◌≡◌, refl, sym, ap, ◌∙◌, String, Option,
  none, some, List, [], ◌∷◌, length, leb, elem, arith, if◌then◌else◌,
}
use mathlib.Core.Path.{subst}
use pg_perf_bench.Loader.Plan.{LoadTask}
use pg_perf_bench.Loader.Schedule.{
  TaskState, looked, at_index, after_scan, Pool, Look, look, last_key, set_at, get_at, add_name,
  commit, finish_batch, Taken, scan, take,
}
use pg_perf_bench.Loader.Sound.{jobs_of, is_used_up, IsSound, commit-IsSound}
use pg_perf_bench.Loader.Orderly.{some-injective, IsOrderly}
use pg_perf_bench.Loader.Scanning.{TakeOutcome, take-Outcome}
use pg_perf_bench.Loader.Workers.{
  Reaches, begin, took, waited, ended, committed, Removed-same, Reaches-IsOrderly, settled-Loaded,
}

length-set_at :
    (states : List TaskState) (i : ℕ) (s : TaskState) → length (set_at states i s) ≡ length states
length-set_at [] i s = refl
length-set_at (x ∷ xs) zero s = refl
length-set_at (x ∷ xs) (suc i) s = ap suc (length-set_at xs i s)

-- How many tasks are completed.
abbrev count_completed : List TaskState → ℕ
count_completed [] = 0
count_completed (s ∷ ss) = let n = count_completed ss in if s.completed then suc n else n

-- No more names are finished than tasks are completed.
abbrev IsCounted : Pool → Type 0
IsCounted p = length p.finished ≤ count_completed p.states

count_completed-set_at :
    (states : List TaskState) (i : ℕ) (s s' : TaskState)
    → get_at states i ≡ some s
    → s.completed ≡ false
    → count_completed (set_at states i s')
      ≡ (if s'.completed then suc (count_completed states) else count_completed states)
count_completed-set_at [] i s s' here h = cc
count_completed-set_at (x ∷ xs) zero s s' here h =
    rw (subst (λ t. t.completed ≡ false) (sym (some-injective here)) h) refl
count_completed-set_at (x ∷ xs) (suc i) s s' here h =
    moved x.completed s'.completed _ _ (count_completed-set_at xs i s s' here h)
  where
    moved :
        (a b : Bool) (m n : ℕ)
        → m ≡ (if b then suc n else n)
        → (if a then suc m else m)
          ≡ (if b then suc (if a then suc n else n) else (if a then suc n else n))
    moved a b m n q = ground arith

count_completed_below : (states : List TaskState) → count_completed states ≤ length states
count_completed_below [] = omega arith
count_completed_below (x ∷ xs) = below x.completed _ _ (count_completed_below xs)
  where
    below : (b : Bool) (m n : ℕ) → m ≤ n → (if b then suc m else m) ≤ suc n
    below b m n h = ground arith

all_counted :
    (states : List TaskState) (i : ℕ) (s : TaskState)
    → length states ≤ count_completed states
    → get_at states i ≡ some s
    → s.completed ≡ true
all_counted [] i s h here = cc
all_counted (x ∷ xs) zero s h here =
    subst (λ t. t.completed ≡ true) (some-injective here) (first x.completed refl)
  where
    first : (b : Bool) → x.completed ≡ b → b ≡ true
    first true q = refl
    first false q =
        let few = count_completed_below xs in
        let bad : ⊥ = omega (
          arith,
          few,
          subst
              (λ b. suc (length xs) ≤ (if b then suc (count_completed xs) else count_completed xs))
              q h,
        ) in
        elim bad [ ]
all_counted (x ∷ xs) (suc i) s h here = all_counted xs i s (rest x.completed h) here
  where
    rest :
        (b : Bool)
        → suc (length xs) ≤ (if b then suc (count_completed xs) else count_completed xs)
        → length xs ≤ count_completed xs
    rest b k = ground arith

-- As many tasks, at least as many finished names, and no more of them than completed tasks.
abbrev Grows : Pool → Pool → Type 0
Grows p q =
    (length q.states ≡ length p.states)
    × (length p.finished ≤ length q.finished)
    × (IsCounted p → IsCounted q)

look-unfinished :
    (b : ℕ) (finished : List String) (s s' : TaskState)
    → look b finished s ≡ Look.complete s'
    → (s.completed ≡ false) × (s'.completed ≡ true)
unfolding look
look-unfinished b finished s s' h = ground arith

look-job_open :
    (b : ℕ) (finished : List String) (s s' : TaskState) (params : Option (ℕ × ℕ))
    → look b finished s ≡ Look.job s' params
    → (s.completed ≡ false) × (s'.completed ≡ false)
unfolding look last_key
look-job_open b finished s s' params h = ground arith

looked-Grows :
    (b : ℕ) (p0 p : Pool) (i : ℕ) (s : TaskState) (l : Look) (rest : Pool → Taken × Pool)
    → get_at p.states i ≡ some s
    → look b p.finished s ≡ l
    → ((q : Pool) → Grows p0 q → Grows p0 (rest q).1)
    → Grows p0 p
    → Grows p0 (looked i p s l rest).1
looked-Grows b p0 p i s Look.skipped rest here q again h = again p h
looked-Grows b p0 p i s (Look.complete s') rest here q again (same, more, counted) =
    let (fresh, done) = look-unfinished b p.finished s s' q in
    let more_done : count_completed (set_at p.states i s') ≡ suc (count_completed p.states) =
      count_completed-set_at p.states i s s' here fresh ∙ (rw done refl) in
    again _ (
      length-set_at p.states i s' ∙ same,
      omega (arith, more),
      λ k. let c = counted k in omega (arith, c, more_done),
    )
looked-Grows b p0 p i s (Look.job s' params) rest here q again (same, more, counted) =
    let (fresh, open_yet) = look-job_open b p.finished s s' params q in
    let as_many : count_completed (set_at p.states i s') ≡ count_completed p.states =
      count_completed-set_at p.states i s s' here fresh ∙ (rw open_yet refl) in
    (length-set_at p.states i s' ∙ same, more, λ k. let c = counted k in omega (arith, c, as_many))

at_index-Grows :
    (b i : ℕ) (p0 p : Pool) (o : Option TaskState) (rest : Pool → Taken × Pool)
    → get_at p.states i ≡ o
    → ((q : Pool) → Grows p0 q → Grows p0 (rest q).1)
    → Grows p0 p
    → Grows p0 (at_index b i p o rest).1
unfolding at_index
at_index-Grows b i p0 p none rest here again h = h
at_index-Grows b i p0 p (some s) rest here again h =
    looked-Grows b p0 p i s (look b p.finished s) rest here refl again h

scan-Grows : (b left offset : ℕ) (p0 p : Pool) → Grows p0 p → Grows p0 (scan b left offset p).1
unfolding scan
scan-Grows b zero offset p0 p h = h
scan-Grows b (suc left) offset p0 p h =
    at_index-Grows b _ p0 p (get_at p.states _) (scan b left (offset + 1)) refl
      (λ q k. scan-Grows b left (offset + 1) p0 q k) h

IsCounted-if :
    (b : Bool) (x y : Option Taken × Pool)
    → IsCounted (x.1)
    → IsCounted (y.1)
    → IsCounted ((if b then x else y).1)
IsCounted-if true x y h k = h
IsCounted-if false x y h k = k

after_scan-IsCounted :
    (p : Pool) (found : Taken × Pool) (again : Pool → Option Taken × Pool)
    → IsCounted (found.1)
    → ((q : Pool) → IsCounted q → IsCounted ((again q).1))
    → IsCounted ((after_scan p found again).1)
after_scan-IsCounted p (Taken.batch i s params, q) again h k = h
after_scan-IsCounted p (Taken.waiting, q) again h k =
    IsCounted-if (length q.finished == length p.finished) (some Taken.waiting, q) (again q) h
      (k q h)

take-IsCounted : (fuel b : ℕ) (p : Pool) → IsCounted p → IsCounted ((take fuel b p).1)
unfolding take
take-IsCounted zero b p h = h
take-IsCounted (suc fuel) b p h =
    IsCounted-if (leb (length p.states) (length p.finished)) (none, p) _ h
      (after_scan-IsCounted p (scan b (length p.states) 0 p) (take fuel b)
        ((scan-Grows b (length p.states) 0 p p (refl, omega arith, λ k. k)).2 h)
        (take-IsCounted fuel b))

length-add_if :
    (b : Bool) (name : String) (names : List String)
    → length (if b then names else name ∷ names) ≤ suc (length names)
length-add_if true name names = omega arith
length-add_if false name names = omega arith

finished-IsCounted :
    (b : Bool) (name : String) (names : List String) (m n : ℕ)
    → length names ≤ n
    → m ≡ (if b then suc n else n)
    → length (if b then add_name name names else names) ≤ m
finished-IsCounted true name names m n h q =
    let few = length-add_if (elem name names) name names in omega (arith, h, q, few)
finished-IsCounted false name names m n h q = omega (arith, h, q)

-- However the workers' steps interleave, no more names are finished than tasks are completed.
Reaches-IsCounted :
    {b : ℕ} {tasks : List LoadTask} {running : List ℕ} {p : Pool}
    → Reaches b tasks running p
    → IsCounted p
unfolding finish_batch
Reaches-IsCounted begin = omega arith
Reaches-IsCounted {b = b} (took fuel i params r h) =
    subst (λ x. IsCounted (x.1)) h (take-IsCounted fuel b _ (Reaches-IsCounted r))
Reaches-IsCounted {b = b} (waited fuel r h) =
    subst (λ x. IsCounted (x.1)) h (take-IsCounted fuel b _ (Reaches-IsCounted r))
Reaches-IsCounted {b = b} (ended fuel r h) =
    subst (λ x. IsCounted (x.1)) h (take-IsCounted fuel b _ (Reaches-IsCounted r))
Reaches-IsCounted (committed {running' = running'} {p = p} {s = s} i affected r here removed) =
    let (_, open_yet, _) =
      commit-IsSound affected (jobs_of i running') s
        (subst (λ n. IsSound n s) (Removed-same removed) ((Reaches-IsOrderly r).sound i s here)) in
    rw (here, finish_batch)
      (finished-IsCounted (commit affected s).completed s.task.name p.finished _ _
        (Reaches-IsCounted r)
        (count_completed-set_at p.states i s (commit affected s) here open_yet))

-- A result that is the end has every task finished.
abbrev EndsDone : Option Taken × Pool → Type 0
EndsDone (none, p) = length p.states ≤ length p.finished
EndsDone (some t, p) = Unit

ends_if :
    (b : Bool) (x y : Option Taken × Pool)
    → (b ≡ true → EndsDone x)
    → (b ≡ false → EndsDone y)
    → EndsDone (if b then x else y)
ends_if true x y h k = h refl
ends_if false x y h k = k refl

after_scan-EndsDone :
    (p : Pool) (found : Taken × Pool) (again : Pool → Option Taken × Pool)
    → ((length found.1.finished == length p.finished) ≡ false → EndsDone (again found.1))
    → EndsDone (after_scan p found again)
after_scan-EndsDone p (Taken.batch i s params, q) again h = tt
after_scan-EndsDone p (Taken.waiting, q) again h =
    ends_if (length q.finished == length p.finished) (some Taken.waiting, q) (again q) (λ e. tt) h

fuel_left :
    (fuel n n' d d' : ℕ) → n < suc fuel + d → n' ≡ n → d ≤ d' → (d' == d) ≡ false → n' < fuel + d'
fuel_left fuel n n' d d' h same more changed = grind arith

take-EndsDone :
    (fuel b : ℕ) (p : Pool) → length p.states < fuel + length p.finished → EndsDone (take fuel b p)
unfolding take
take-EndsDone zero b p h = omega (arith, h)
take-EndsDone (suc fuel) b p h =
    ends_if (leb (length p.states) (length p.finished)) (none, p) _ (λ e. grind arith)
      (λ e. after_scan-EndsDone p (scan b (length p.states) 0 p) (take fuel b) (λ changed.
        let (same, more, _) = scan-Grows b (length p.states) 0 p p (refl, omega arith, λ k. k) in
        take-EndsDone fuel b (scan b (length p.states) 0 p).1
          (fuel_left fuel _ _ _ _ h same more changed)))

ended_all :
    (running : List ℕ) (p' : Pool)
    → IsOrderly running p'
    → IsCounted p'
    → length p'.states ≤ length p'.finished
    → (i : ℕ) (s : TaskState) → get_at p'.states i ≡ some s
    → (s.completed ≡ true) × (jobs_of i running ≡ 0) × (is_used_up s ≡ true)
ended_all running p' orderly counted ended' i s here =
    let done = all_counted p'.states i s (omega (arith, counted, ended')) here in
    let (idle, used) = settled-Loaded (jobs_of i running) s (orderly.sound i s here) done in
    (done, idle, used)

-- However the workers' steps have interleaved, if a search for a job, with more passes than there are
-- unfinished tasks, says that there is none, then every task is completed, has handed out all its
-- batches and has none of them running.
pub take-ends :
    (fuel batch_rows : ℕ) (tasks : List LoadTask) (running : List ℕ) (p p' : Pool)
    → Reaches batch_rows tasks running p
    → length p.states < fuel + length p.finished
    → take fuel batch_rows p ≡ (none, p')
    → (i : ℕ) (s : TaskState) → get_at p'.states i ≡ some s
    → (s.completed ≡ true) × (jobs_of i running ≡ 0) × (is_used_up s ≡ true)
take-ends fuel batch_rows tasks running p p' r h q =
    ended_all running p'
      (subst (TakeOutcome running) q (take-Outcome fuel batch_rows running p (Reaches-IsOrderly r)))
      (subst (λ x. IsCounted (x.1)) q (take-IsCounted fuel batch_rows p (Reaches-IsCounted r)))
      (subst EndsDone q (take-EndsDone fuel batch_rows p h))
