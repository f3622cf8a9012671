-- ===== src/Config/ReportName.antt =====
-- The name of a report stays in its directory (src/pg_perf_bench/config.py, `_report_name`).
use pg_perf_bench.Prelude.{
  ℕ, suc, ◌<◌, ◌==◌, Bool, true, false, not, ◌&&◌, ◌||◌, ◌≡◌, refl, ap, String, Option, none, some,
  List, [], ◌∷◌, All, arith, str_eq, str_eq_iff, elem, chars, contains, split, split_parts,
  split_with, named_parts, last_or, path_parts, path_name, strip, if◌then◌else◌,
}
use Prim.Native.Char.{Char, code}
use mathlib.Core.Path.{subst}
use pg_perf_bench.Effects.{ok}
use pg_perf_bench.Fallible.{then-ok, reject-ok, ok-injective}
use pg_perf_bench.Json.{Value}
use pg_perf_bench.Config.Checks.{Outside, to_text, checked_name, report_name}

abbrev Below : ℕ → List String → Type 0
Below n = All (λ part. chars part < n)

Below-suc : (n : ℕ) (parts : List String) → Below n parts → Below (suc n) parts
Below-suc n [] h = tt
Below-suc n (part ∷ parts) (short, h) = (omega (arith, short), Below-suc n parts h)

abbrev listed : String × List String → List String
listed parts = parts.0 ∷ parts.1

Below-with :
    (b : Bool) (c : Char) (parts : String × List String) (n : ℕ)
    → Below n (listed parts)
    → Below (suc n) (listed (split_with c b parts))
Below-with true c (part, parts) n h = (omega arith, Below-suc n (part ∷ parts) h)
Below-with false c (part, parts) n (short, h) = (omega (arith, short), Below-suc n parts h)

split-Below : (s : String) → Below (suc (chars s)) (split b'/' s)
split-Below String.[] = (omega arith, tt)
split-Below (String.◌∷◌ c s) =
    Below-with (code c == b'/') c (split_parts b'/' s) (suc (chars s)) (split-Below s)

-- Behind a slash every part is shorter than the text.
slash_step :
    (b : Bool) (c : Char) (parts : String × List String) (n : ℕ)
    → Below (suc n) (listed parts)
    → (b ≡ false → Below n (listed parts))
    → Below (suc n) (listed (split_with c b parts))
slash_step true c (part, parts) n short h = (omega arith, short)
slash_step false c parts n short h = Below-with false c parts n (h refl)

later : (a b : Bool) → ((a && true) || b) ≡ true → a ≡ false → b ≡ true
later true b h k = cc
later false b h k = h

slash-Below : (s : String) → contains s "/" ≡ true → Below (chars s) (split b'/' s)
slash-Below String.[] h = cc
slash-Below (String.◌∷◌ c s) h =
    slash_step (code c == b'/') c (split_parts b'/' s) (chars s) (split-Below s)
      (λ q. slash-Below s (later (code c == b'/') (contains s "/") h q))

named_if :
    (b : Bool) (n : ℕ) (part : String) (rest : List String)
    → chars part < n
    → Below n rest
    → Below n (if b then rest else part ∷ rest)
named_if true n part rest short h = h
named_if false n part rest short h = (short, h)

named_parts-Below : (n : ℕ) (parts : List String) → Below n parts → Below n (named_parts parts)
named_parts-Below n [] h = tt
named_parts-Below n (part ∷ parts) (short, h) =
    named_if (str_eq part "" || str_eq part ".") n part _ short (named_parts-Below n parts h)

last_or-lt :
    (n : ℕ) (s : String) (parts : List String)
    → chars s < n
    → Below n parts
    → chars (last_or s parts) < n
last_or-lt n s [] h k = h
last_or-lt n s (part ∷ parts) h (short, k) = last_or-lt n part parts short k

slash-lt : (s : String) → contains s "/" ≡ true → chars (path_name s) < chars s
slash-lt s h =
    last_or-lt (chars s) "" (path_parts s) (nonempty s h)
      (named_parts-Below (chars s) (split b'/' s) (slash-Below s h))
  where
    nonempty : (t : String) → contains t "/" ≡ true → 0 < chars t
    nonempty String.[] k = cc
    nonempty (String.◌∷◌ c t) k = omega arith

no_slash : (b : Bool) (s : String) → contains s "/" ≡ b → path_name s ≡ s → b ≡ false
no_slash false s h k = refl
no_slash true s h k =
    let shorter = slash-lt s h in
    let same = ap chars k in let bad : ⊥ = omega (arith, shorter, same) in elim bad [ ]

-- A name with no slash and no NUL that is neither empty nor one of the two dots.
abbrev pub IsFileName : Option String → Type 0
IsFileName none = Unit
IsFileName (some name) =
    (contains name "/" ≡ false)
    × (contains name "\0" ≡ false)
    × (elem name ("" ∷ "." ∷ ".." ∷ []) ≡ false)

three_false : (a b c : Bool) → (a || (not b || c)) ≡ false → (a ≡ false) × (b ≡ true) × (c ≡ false)
three_false false true false h = (refl, refl, refl)
three_false false true true h = cc
three_false false false c h = cc
three_false true b c h = cc

neither : (a b : Bool) → a ≡ false → b ≡ false → (a || b) ≡ false
neither true b h k = h
neither false b h k = k

checked_name-IsFileName :
    (name : String) (o : Option String) → checked_name name ≡ ok o → IsFileName o
unfolding checked_name
checked_name-IsFileName name o h =
    let (full, h1) = then-ok _ _ h in
    let (safe, last) = then-ok _ _ h1 in
    let (dots, same, nul) =
      three_false (elem name ("." ∷ ".." ∷ [])) (str_eq (path_name name) name) (contains name "\0")
        (reject-ok _ safe) in
    subst IsFileName (ok-injective last) (
      no_slash (contains name "/") name refl ((str_eq_iff (path_name name) name).0 same),
      nul,
      neither (str_eq name "") (elem name ("." ∷ ".." ∷ [])) (reject-ok _ full) dots,
    )

-- A report name that is accepted holds no slash and no NUL and is neither empty nor `.` nor `..`: it
-- names a file of the directory of reports.
pub report_name-IsFileName :
    (outside : Outside) (value : Value) (name : Option String)
    → report_name outside value ≡ ok name
    → IsFileName name
unfolding report_name
report_name-IsFileName outside Value.null name h = subst IsFileName (ok-injective h) tt
report_name-IsFileName outside value name h =
    checked_name-IsFileName (strip (to_text outside value)) name h
