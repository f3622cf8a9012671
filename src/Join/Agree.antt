-- ===== src/Join/Agree.antt =====
-- What a comparison that returns has found (src/pg_perf_bench/join.py).
use pg_perf_bench.Prelude.{
  ℕ, ◌+◌, ◌==◌, Bool, true, false, not, ◌&&◌, ◌||◌, ◌≡◌, refl, String, Option, List, [], ◌∷◌,
  length, All, arith, str_eq, str_eq_iff, if◌then◌else◌,
}
use pg_perf_bench.Effects.{ok}
use pg_perf_bench.Fallible.{bind-ok, then-ok}
use pg_perf_bench.Json.{Value, Items}
use pg_perf_bench.Json.Equality.{value_eq, is_nan}
use pg_perf_bench.Join.Compare.{
  length_items, rows_equal, compare_data, mismatch, value_at_path, compare_items, Step,
  compared_steps, parse_json_in_order, compare_steps, compare_reports,
}

-- No entry of a list is NaN itself.
abbrev pub HaveNoNan : Items → Type 0
HaveNoNan Items.empty = Unit
HaveNoNan (Items.entry x xs) = (is_nan x ≡ false) × HaveNoNan xs

abbrev pub HasNoNan : Value → Type 0
HasNoNan (Value.array xs) = HaveNoNan xs
HasNoNan value = Unit

items_step :
    (a b v e r : Bool) (m n : ℕ)
    → a ≡ false
    → (if not (m == n) then false else r) ≡ e
    → (if not (m + 1 == n + 1) then false else (if not v then false else r)) ≡ ((a && b || v) && e)
items_step a b v e r m n free h = grind arith

items_below :
    (a v e r : Bool) (m n : ℕ)
    → ((if not (m == n) then false else r) ≡ true → e ≡ true)
    → (if not (m + 1 == n + 1) then false else (if not v then false else r)) ≡ true
    → ((a || v) && e) ≡ true
items_below a v e r m n h k = ground arith

-- What `compare_data` finds equal is equal for Python.
compared-items :
    (xs ys : Items)
    → compare_data (Value.array xs) (Value.array ys) ≡ true
    → value_eq (Value.array xs) (Value.array ys) ≡ true
unfolding compare_data value_eq rows_equal
compared-items Items.empty Items.empty h = refl
compared-items Items.empty (Items.entry y ys) h = grind arith
compared-items (Items.entry x xs) Items.empty h = grind arith
compared-items (Items.entry x xs) (Items.entry y ys) h =
    items_below (is_nan x && is_nan y) (value_eq x y) _ (rows_equal xs ys) (length_items xs)
      (length_items ys) (compared-items xs ys) h

compared-value_eq : (a b : Value) → compare_data a b ≡ true → value_eq a b ≡ true
unfolding compare_data value_eq
compared-value_eq (Value.array xs) (Value.array ys) h = compared-items xs ys h
compared-value_eq (Value.text s) (Value.text t) h = h
compared-value_eq a b h = h

items-compare :
    (xs ys : Items)
    → HasNoNan (Value.array xs)
    → compare_data (Value.array xs) (Value.array ys) ≡ value_eq (Value.array xs) (Value.array ys)
unfolding compare_data value_eq rows_equal
items-compare Items.empty Items.empty free = refl
items-compare Items.empty (Items.entry y ys) free = grind arith
items-compare (Items.entry x xs) Items.empty free = grind arith
items-compare (Items.entry x xs) (Items.entry y ys) (here, free) =
    items_step (is_nan x) (is_nan y) (value_eq x y) _ (rows_equal xs ys) (length_items xs)
      (length_items ys) here (items-compare xs ys free)

-- The comparison of two data objects is Python's `==` on them, unless the first is a list with NaN as an
-- entry.
pub compare_data-value_eq : (a b : Value) → HasNoNan a → compare_data a b ≡ value_eq a b
unfolding compare_data value_eq
compare_data-value_eq (Value.array xs) (Value.array ys) free = items-compare xs ys free
compare_data-value_eq (Value.text s) (Value.text t) free = refl
compare_data-value_eq a b free = refl

mismatch-ok : (b : Bool) → mismatch b ≡ ok tt → b ≡ false
unfolding mismatch
mismatch-ok true h = cc
mismatch-ok false h = refl

so : (b : Bool) → not b ≡ false → b ≡ true
so true h = refl
so false h = cc

-- Both reports have the path, with equal values.
abbrev pub HasSame : (reference comparison : Value) → String → Type 0
HasSame reference comparison path =
    (left right : Value) × (value_at_path reference path ≡ ok left)
    × (value_at_path comparison path ≡ ok right)
    × (value_eq left right ≡ true)

items-Same :
    (reference comparison : Value) (paths : List String)
    → compare_items reference comparison paths ≡ ok tt
    → All (HasSame reference comparison) paths
unfolding compare_items
items-Same reference comparison [] h = tt
items-Same reference comparison (path ∷ paths) h =
    let (left, found, h1) = bind-ok _ _ h in
    let (right, also, h2) = bind-ok _ _ h1 in
    let (same, rest) = then-ok _ _ h2 in
    (
      (left, right, found, also, compared-value_eq left right (so _ (mismatch-ok _ same))),
      items-Same reference comparison paths rest,
    )

-- The steps are of the same sections and reports, in the same order.
abbrev pub IsAligned : List Step → List Step → Type 0
IsAligned [] [] = Unit
IsAligned (s ∷ ss) (t ∷ ts) = (s.section ≡ t.section) × (s.report ≡ t.report) × IsAligned ss ts
IsAligned _ _ = ⊥

named_both : (a b : Bool) → (not a || not b) ≡ false → (a ≡ true) × (b ≡ true)
named_both true b h = (refl, so b h)
named_both false b h = cc

steps-IsAligned :
    (to_text : Value → String) (reference comparison : Value) (items : List String)
    (ss ts : List Step) (target : Option Value) {result : Option Value}
    → length ss ≡ length ts
    → compare_steps to_text reference comparison items ss ts target ≡ ok result
    → IsAligned ss ts
unfolding compare_steps
steps-IsAligned to_text reference comparison items [] [] target n h = tt
steps-IsAligned to_text reference comparison items [] (t ∷ ts) target n h =
    let bad : ⊥ = omega (arith, n) in elim bad [ ]
steps-IsAligned to_text reference comparison items (s ∷ ss) [] target n h =
    let bad : ⊥ = omega (arith, n) in elim bad [ ]
steps-IsAligned to_text reference comparison items (s ∷ ss) (t ∷ ts) target n h =
    let (same, h1) = then-ok _ _ h in
    let (next, _, h2) = bind-ok _ _ h1 in
    let (section, report) =
      named_both (str_eq s.section t.section) (str_eq s.report t.report) (mismatch-ok _ same) in
    (
      (str_eq_iff s.section t.section).0 section,
      (str_eq_iff s.report t.report).0 report,
      steps-IsAligned to_text reference comparison items ss ts next (omega (arith, n)) h2,
    )

length_eq : (m n : ℕ) → not (m == n) ≡ false → m ≡ n
length_eq m n h = grind arith

-- When a comparison returns, both reports have every required item, with values that are equal, and
-- their steps outside the separate sections are the same reports of the same sections in the same
-- order.
pub compare_reports-Agree :
    (to_text : Value → String) (reference comparison : Value) (items : List String)
    (target result : Option Value) (reference_label comparison_label : Value)
    → compare_reports to_text reference comparison items target reference_label comparison_label
      ≡ ok result
    → All (HasSame reference comparison) items
      × ((left right : List Step) × (parse_json_in_order reference ≡ ok left)
          × (parse_json_in_order comparison ≡ ok right)
          × IsAligned (compared_steps left) (compared_steps right))
unfolding compare_reports
compare_reports-Agree to_text reference comparison items target result _ _ h =
    let (left, first, h1) = bind-ok _ _ h in
    let (right, second, h2) = bind-ok _ _ h1 in
    let (counted, h3) = then-ok _ _ h2 in
    let (name, _, h4) = bind-ok _ _ h3 in
    let (other, _, h5) = bind-ok _ _ h4 in
    let (same, h6) = then-ok _ _ h5 in
    (
      items-Same reference comparison items same,
      (
        left,
        right,
        first,
        second,
        steps-IsAligned to_text name other items (compared_steps left) (compared_steps right) target
            (length_eq _ _ (mismatch-ok _ counted)) h6,
      ),
    )
