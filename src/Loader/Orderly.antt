-- ===== src/Loader/Orderly.antt =====
-- The states of all tasks while jobs run (src/pg_perf_bench/initialization.py, `run_tasks`).
use pg_perf_bench.Prelude.{
  ℕ, zero, suc, ◌==◌, Bool, true, false, ◌&&◌, ◌||◌, ◌≡◌, refl, sym, ap, ◌∙◌, String, some, List,
  [], ◌∷◌, elem, str_eq, str_eq_iff, arith, if◌then◌else◌, Bool-cases, inl, inr, ◌⊎◌,
}
use mathlib.Core.Path.{subst}
use pg_perf_bench.Loader.Schedule.{TaskState, Pool, set_at, get_at}
use pg_perf_bench.Loader.Sound.{jobs_of, IsSound}

pub some-injective : {s t : TaskState} → some s ≡ some t → s ≡ t
some-injective q = cc

pub index_eq : (i j : ℕ) → (j == i) ≡ true → j ≡ i
index_eq i j h = grind arith

pub index_refl : (i : ℕ) → (i == i) ≡ true
index_refl i = grind arith

pub set-same :
    (states : List TaskState) (i : ℕ) (s s' : TaskState)
    → get_at states i ≡ some s
    → get_at (set_at states i s') i ≡ some s'
set-same [] i s s' h = cc
set-same (x ∷ xs) zero s s' h = refl
set-same (x ∷ xs) (suc i) s s' h = set-same xs i s s' h

pub suc_eq : (i j : ℕ) → (suc j == suc i) ≡ false → (j == i) ≡ false
suc_eq i j h = grind arith

pub set-other :
    (states : List TaskState) (i j : ℕ) (s' : TaskState)
    → (j == i) ≡ false
    → get_at (set_at states i s') j ≡ get_at states j
set-other [] i j s' h = refl
set-other (x ∷ xs) zero zero s' h = let same = index_refl 0 in cc
set-other (x ∷ xs) zero (suc j) s' h = refl
set-other (x ∷ xs) (suc i) zero s' h = refl
set-other (x ∷ xs) (suc i) (suc j) s' h = set-other xs i j s' (suc_eq i j h)

-- A task of that name is completed.
abbrev pub HasCompleted : List TaskState → String → Type 0
HasCompleted states name =
    (i : ℕ) × (s : TaskState) × (get_at states i ≡ some s)
    × (s.completed ≡ true)
    × (s.task.name ≡ name)

pub record IsOrderly (running : List ℕ) (p : Pool) : Type 0 where
  pub sound : (i : ℕ) (s : TaskState) → get_at p.states i ≡ some s → IsSound (jobs_of i running) s
  pub done : (name : String) → elem name p.finished ≡ true → HasCompleted p.states name

-- The state at one index is replaced.
module _ (running running' : List ℕ) (p p' : Pool) (i : ℕ) (s s' : TaskState)
    (orderly : IsOrderly running p) (here : get_at p.states i ≡ some s)
    (stored : p'.states ≡ set_at p.states i s') (sound' : IsSound (jobs_of i running') s')
    (others : (j : ℕ) → (j == i) ≡ false → jobs_of j running' ≡ jobs_of j running)
    (keeps : s.completed ≡ true → s'.completed ≡ true) (same : s'.task.name ≡ s.task.name)
    (fresh : (name : String)
      → elem name p'.finished ≡ true
      → (elem name p.finished ≡ true) ⊎ ((s.task.name ≡ name) × (s'.completed ≡ true))) where
  here' : get_at p'.states i ≡ some s'
  here' = subst (λ states. get_at states i ≡ some s') (sym stored) (set-same p.states i s s' here)

  there' : (j : ℕ) → (j == i) ≡ false → get_at p'.states j ≡ get_at p.states j
  there' j h =
      subst (λ states. get_at states j ≡ get_at p.states j) (sym stored)
        (set-other p.states i j s' h)

  still : (name : String) → HasCompleted p.states name → HasCompleted p'.states name
  still name (j, t, at, completed, named) = elim (Bool-cases (j == i)) [
    | inl e ↦
        let t_is_s : t ≡ s =
          some-injective (sym at ∙ ap (get_at p.states) (index_eq i j e) ∙ here) in
        (
          i,
          s',
          here',
          keeps (subst (λ u. u.completed ≡ true) t_is_s completed),
          same ∙ subst (λ u. u.task.name ≡ name) t_is_s named,
        )
    | inr e ↦ (j, t, there' j e ∙ at, completed, named)
  ]

  pub replaced-IsOrderly : IsOrderly running' p'
  replaced-IsOrderly = record {
    sound = λ j t at. elim (Bool-cases (j == i)) [
      | inl e ↦
          let j_is_i = index_eq i j e in
          let t_is_s' : s' ≡ t =
            some-injective (sym here' ∙ ap (get_at p'.states) (sym j_is_i) ∙ at) in
          subst (λ k. IsSound (jobs_of k running') t) (sym j_is_i)
            (subst (IsSound (jobs_of i running')) t_is_s' sound')
      | inr e ↦
          subst (λ n. IsSound n t) (sym (others j e)) (orderly.sound j t (sym (there' j e) ∙ at))
    ];
    done = λ name h. elim (fresh name h) [
      | inl known ↦ still name (orderly.done name known)
      | inr (named, completed) ↦ (i, s', here', completed, same ∙ named)
    ];
  }

pub add_known :
    (b : Bool) (name n : String) → (b ≡ true → name ≡ n) → (b || elem name []) ≡ true → name ≡ n
add_known true name n f h = f refl
add_known false name n f h = cc

pub cons-known :
    (name first : String) (names : List String)
    → elem name (first ∷ names) ≡ true
    → (elem name names ≡ true) ⊎ (first ≡ name)
cons-known name first names h = elim (Bool-cases (str_eq name first)) [
  | inl e ↦ inr (sym ((str_eq_iff name first).0 e))
  | inr e ↦ inl (ap (λ b. b || elem name names) (sym e) ∙ h)
]

pub and_both : (a b : Bool) → (a && b) ≡ true → (a ≡ true) × (b ≡ true)
and_both true b h = (refl, h)
and_both false b h = cc

pub contradicted : {A : Type 0} {b : Bool} → b ≡ true → b ≡ false → A
contradicted h k = let bad : ⊥ = cc in elim bad [ ]

pub push-other :
    (i : ℕ) (running : List ℕ) (j : ℕ)
    → (j == i) ≡ false
    → jobs_of j (i ∷ running) ≡ jobs_of j running
push-other i running j h = ap (λ b. if b then suc (jobs_of j running) else jobs_of j running) h

pub push-same : (i : ℕ) (running : List ℕ) → jobs_of i (i ∷ running) ≡ suc (jobs_of i running)
push-same i running =
    ap (λ b. if b then suc (jobs_of i running) else jobs_of i running) (index_refl i)
