-- ===== src/Join/Tasks.antt =====
-- A task of the catalog stays in it (src/pg_perf_bench/join_catalog.py).
use Prim.Native.Char.{code}
use pg_perf_bench.Prelude.{
  ℕ, leb, ◌==◌, Bool, true, false, not, ◌&&◌, ◌||◌, ◌≡◌, refl, ap, String, some, List, [], ◌∷◌,
  ◌++◌, All, all, arith, contains, str_eq, str_eq_iff, inl, inr, ◌⊎◌, if◌then◌else◌,
}
use mathlib.Core.Path.{subst}
use pg_perf_bench.Effects.{Result, ok}
use pg_perf_bench.Fallible.{bind-ok, ok-injective}
use pg_perf_bench.Json.{Value, Items, get, to_list}
use pg_perf_bench.Workloads.Profile.{has_duplicates}
use pg_perf_bench.Join.Catalog.{
  is_kebab, without_suffix, canonical, id_if, normalize_join_task_id, TaskFlaw, task_flaw_if,
  task_id_flaws, is_dotted_text, listed_flaws, item_flaws, joined_flaws, validate_join_task,
  accept_task, load_join_task,
}

-- The two characters with which a path could leave its directory.
abbrev pub IsPlain : String → Type 0
IsPlain s = (contains s "/" ≡ false) × (contains s "." ≡ false)

plain_char :
    (small dash inside word next : Bool) (c : ℕ)
    → (leb b'0' c && leb c b'9' || leb b'a' c && leb c b'z') ≡ small
    → (c == b'-') ≡ dash
    → (if small then word else (dash && (inside && next))) ≡ true
    → ((c == b'/') ≡ false) × ((c == b'.') ≡ false) × ((word || next) ≡ true)
plain_char small dash inside word next c h k q = grind arith

apart : (a b : Bool) → a ≡ false → b ≡ false → ((a && true) || b) ≡ false
apart true b h k = h
apart false b h k = k

rest_is : (word next : Bool) → (word || next) ≡ true → (word ≡ true) ⊎ (next ≡ true)
rest_is true next h = inl refl
rest_is false next h = inr h

kebab-IsPlain : (inside : Bool) (s : String) → is_kebab inside s ≡ true → IsPlain s
kebab-IsPlain inside String.[] h = (refl, refl)
kebab-IsPlain inside (String.◌∷◌ c s) h =
    let (slash, dot, more) =
      plain_char _ _ inside (is_kebab true s) (is_kebab false s) (code c) refl refl h in
    let rest : IsPlain s = elim (rest_is (is_kebab true s) (is_kebab false s) more) [
      | inl word ↦ kebab-IsPlain true s word
      | inr next ↦ kebab-IsPlain false s next
    ] in
    (
      apart (code c == b'/') (contains s "/") slash rest.0,
      apart (code c == b'.') (contains s ".") dot rest.1,
    )

id_if-ok : (b : Bool) (s id : String) → id_if b s ≡ ok id → (b ≡ true) × (s ≡ id)
id_if-ok true s id h = (refl, ok-injective h)
id_if-ok false s id h = cc

normalize-IsPlain :
    (identifier id : String)
    → normalize_join_task_id identifier ≡ ok id
    → (is_kebab false id ≡ true) × IsPlain id
unfolding normalize_join_task_id
normalize-IsPlain identifier id h =
    let (kebab, same) = id_if-ok (is_kebab false (without_suffix (canonical identifier))) _ id h in
    let is_id = subst (λ s. is_kebab false s ≡ true) same kebab in
    (is_id, kebab-IsPlain false id is_id)

-- The task has that id, and paths to compare: at least one, each dotted, and none twice.
abbrev pub HasItems : Value → Type 0
HasItems (Value.array (Items.entry x xs)) =
    (all is_dotted_text (x ∷ to_list xs) ≡ true) × (has_duplicates (x ∷ to_list xs) ≡ false)
HasItems _ = ⊥

abbrev pub IsTask : String → Value → Type 0
IsTask id (Value.object task) = (get "id" task ≡ Value.text id) × HasItems (get "items" task)
IsTask id _ = ⊥

empty_parts : (xs ys : List TaskFlaw) → xs ++ ys ≡ [] → (xs ≡ []) × (ys ≡ [])
empty_parts [] ys h = (refl, h)
empty_parts (x ∷ xs) ys h = cc

no_parts : (parts : List (List TaskFlaw)) → joined_flaws parts ≡ [] → All (λ fs. fs ≡ []) parts
unfolding joined_flaws
no_parts [] h = tt
no_parts (fs ∷ rest) h =
    let (here, later) = empty_parts fs (joined_flaws rest) h in (here, no_parts rest later)

no_flaw : (b : Bool) (f : TaskFlaw) → task_flaw_if b f ≡ [] → b ≡ false
no_flaw true f h = cc
no_flaw false f h = refl

so : (b : Bool) → not b ≡ false → b ≡ true
so true h = refl
so false h = cc

id-ok :
    (expected : String) (v : Value) → task_id_flaws (some expected) v ≡ [] → v ≡ Value.text expected
id-ok expected (Value.text s) h = named (is_kebab false s) h
  where
    named :
        (b : Bool)
        → (if b
            then task_flaw_if (not (str_eq s expected)) TaskFlaw.other_id
            else TaskFlaw.bad_id ∷ [])
          ≡ []
        → Value.text s ≡ Value.text expected
    named true k = ap Value.text ((str_eq_iff s expected).0 (so _ (no_flaw _ _ k)))
    named false k = cc
id-ok expected Value.null h = cc
id-ok expected (Value.flag b) h = cc
id-ok expected (Value.integer i) h = cc
id-ok expected (Value.real x) h = cc
id-ok expected (Value.array items) h = cc
id-ok expected (Value.object fields) h = cc

listed-ok :
    (dotted repeated : Bool)
    → listed_flaws dotted repeated ≡ []
    → (dotted ≡ true) × (repeated ≡ false)
listed-ok true repeated h = (refl, no_flaw _ _ h)
listed-ok false repeated h = cc

items-ok : (v : Value) → item_flaws v ≡ [] → HasItems v
unfolding item_flaws
items-ok (Value.array (Items.entry x xs)) h = listed-ok _ _ h
items-ok (Value.array Items.empty) h = cc
items-ok _ h = cc

validate-ok : (id : String) (task : Value) → validate_join_task (some id) task ≡ [] → IsTask id task
unfolding validate_join_task
validate-ok id (Value.object task) h =
    let (_, (named, (_, (_, (_, (_, (items, _))))))) = no_parts _ h in
    (id-ok id (get "id" task) named, items-ok (get "items" task) items)
validate-ok id _ h = cc

accept-ok :
    (task : Value) (flaws : List TaskFlaw) {v : Value}
    → accept_task task flaws ≡ ok v
    → (flaws ≡ []) × (task ≡ v)
accept-ok task [] h = (refl, ok-injective h)
accept-ok task (f ∷ fs) h = cc

-- When a join task is loaded, then under an id that holds neither a slash nor a dot, so that its file
-- is in the catalog, and the task has that id and names at least one path to compare, each of
-- them dotted and none twice.
pub load_join_task-IsTask :
    (read : String → Result Value) (identifier : String) (task : Value)
    → load_join_task read identifier ≡ ok task
    → (id : String) × (normalize_join_task_id identifier ≡ ok id) × IsPlain id × IsTask id task
unfolding load_join_task
load_join_task-IsTask read identifier task h =
    let (id, normal, h1) = bind-ok _ _ h in
    let (v, _, h2) = bind-ok _ _ h1 in
    let (sound, same) = accept-ok v (validate_join_task (some id) v) h2 in
    (
      id,
      normal,
      (normalize-IsPlain identifier id normal).1,
      subst (IsTask id) same (validate-ok id v sound),
    )
