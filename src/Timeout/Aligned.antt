-- ===== src/Timeout/Aligned.antt =====
-- The scripts of a workload command are where `script_arguments` says
-- (src/pg_perf_bench/workload_timeout.py).
use Prim.Native.Char.{Char, code}
use text.Mathlib.TextEquality.{Char-path}
use pg_perf_bench.Prelude.{
  ℕ, zero, suc, ◌+◌, ◌==◌, Bool, true, false, not, ◌&&◌, ◌≡◌, refl, ap, sym, ◌∙◌, String, Option,
  none, some, List, [], ◌∷◌, All, arith, chars, starts_with, joined, str_eq, elem, if◌then◌else◌,
}
use mathlib.Core.Path.{subst}
use pg_perf_bench.Effects.{Result, ok, err}
use pg_perf_bench.Fallible.{◌>>=◌, bind-ok, then-ok, reject-ok, ok-injective}
use pg_perf_bench.Config.Protocol.{drop_chars}
use pg_perf_bench.Timeout.Scripts.{
  Shell, Script, is_builtin, short_use, attached_use, file_use, split_last, at_last, Use, use_of,
  weighted_if, weighted_at, weighted, script_at, and_rest, continue_with, scan_scripts,
  some_scripts, arguments_of, script_arguments, put_at, retarget,
}

both : (a b : Bool) → (a && b) ≡ true → (a ≡ true) × (b ≡ true)
both true b h = (refl, h)
both false b h = cc

code_eq : (m n : ℕ) → (m == n) ≡ true → m ≡ n
code_eq m n h = grind arith

-- A prefix that is cut off and put back.
joined-drop_chars : (t p : String) → starts_with t p ≡ true → joined p (drop_chars (chars p) t) ≡ t
joined-drop_chars t String.[] h = refl
joined-drop_chars String.[] (String.◌∷◌ d p) h = cc
joined-drop_chars (String.◌∷◌ c t) (String.◌∷◌ d p) h =
    let (same, rest) = both (code c == code d) (starts_with t p) h in
    ap (λ e. String.◌∷◌ e (joined p (drop_chars (chars p) t)))
      (sym (Char-path c d (code_eq (code c) (code d) same)))
    ∙ ap (String.◌∷◌ c) (joined-drop_chars t p rest)

joined-nil : (s : String) → joined s "" ≡ s
joined-nil String.[] = refl
joined-nil (String.◌∷◌ c s) = ap (String.◌∷◌ c) (joined-nil s)

-- The parts around the last `@` make up the text.
abbrev Splits : String → Option (String × String) → Type 0
Splits s none = Unit
Splits s (some (front, back)) = joined front (joined "@" back) ≡ s

at_if :
    (b : Bool) (c : Char) (s : String)
    → (code c == b'@') ≡ b
    → Splits (String.◌∷◌ c s) (if b then some ("", s) else none)
at_if true c s h = ap (λ d. String.◌∷◌ d s) (sym (Char-path c "@" (code_eq (code c) b'@' h)))
at_if false c s h = tt

split_last-Splits :
    (c : Char) (o : Option (String × String)) (s : String)
    → Splits s o
    → Splits (String.◌∷◌ c s) (split_last c o s)
split_last-Splits c (some (front, back)) s h = ap (String.◌∷◌ c) h
split_last-Splits c none s h = at_if (code c == b'@') c s refl

at_last-Splits : (s : String) → Splits s (at_last s)
at_last-Splits String.[] = tt
at_last-Splits (String.◌∷◌ c s) = split_last-Splits c (at_last s) s (at_last-Splits s)

abbrev pub token_at : ℕ → List String → Option String
token_at i [] = none
token_at zero (t ∷ ts) = some t
token_at (suc i) (t ∷ ts) = token_at i ts

-- What an attached option is cut from.
abbrev IsCut : String → Use → Type 0
IsCut t (Use.attached option value) = joined option value ≡ t
IsCut t _ = Unit

use_if :
    (b : Bool) (t : String) (u v : Use)
    → (b ≡ true → IsCut t u)
    → IsCut t v
    → IsCut t (if b then u else v)
use_if true t u v h k = h refl
use_if false t u v h k = k

use_of-IsCut : (t : String) → IsCut t (use_of t)
unfolding use_of
use_of-IsCut t =
    use_if (is_builtin t) t Use.builtin (file_use t) (λ q. tt)
      (use_if (elem t ("-f" ∷ "--file" ∷ [])) t Use.separate (attached_use t) (λ q. tt)
        (use_if (starts_with t "--file=") t (Use.attached "--file=" (drop_chars 7 t)) (short_use t)
          (joined-drop_chars t "--file=")
          (use_if (starts_with t "-f" && not (str_eq t "-f")) t (Use.attached "-f" (drop_chars 2 t))
            Use.other
            (λ q. joined-drop_chars t "-f" (both (starts_with t "-f") (not (str_eq t "-f")) q).0)
            tt)))

module _ (shell : Shell) where
  weighted_if-joins :
      (b : Bool) (value front back : String)
      → joined front (joined "@" back) ≡ value
      → joined (weighted_if shell b value front back).0 (weighted_if shell b value front back).1
        ≡ value
  weighted_if-joins true value front back h = h
  weighted_if-joins false value front back h = joined-nil value

  weighted_at-joins :
      (value : String) (o : Option (String × String))
      → Splits value o
      → joined (weighted_at shell value o).0 (weighted_at shell value o).1 ≡ value
  weighted_at-joins value none h = joined-nil value
  weighted_at-joins value (some (front, back)) h =
      weighted_if-joins (shell.is_digits back) value front back h

  -- The script is a file, named by the token at its index among those that begin at `first`.
  abbrev IsIn : ℕ → List String → Script → Type 0
  IsIn first tokens s =
      (k : ℕ) × (path : String) × (s.index ≡ first + k)
      × (s.source ≡ shell.expanduser path)
      × (shell.is_file s.source ≡ true)
      × (token_at k tokens ≡ some (joined s.option (joined path s.weight)))

  so : (b : Bool) → not b ≡ false → b ≡ true
  so true h = refl
  so false h = cc

  script_at-IsIn :
      (index : ℕ) (option value token : String) (tokens : List String) (s : Script)
      → joined option value ≡ token
      → script_at shell index option value ≡ ok s
      → IsIn index (token ∷ tokens) s
  unfolding script_at
  script_at-IsIn index option value token tokens s h q =
      let (there, last) = then-ok _ _ q in
      subst (IsIn index (token ∷ tokens)) (ok-injective last) (
        0,
        (weighted shell value).0,
        omega arith,
        refl,
        so _ (reject-ok _ there),
        ap some (
            sym (
              ap (joined option) (weighted_at-joins value (at_last value) (at_last-Splits value))
              ∙ h)),
      )

  later-IsIn :
      (first : ℕ) (token : String) (tokens : List String) (ss : List Script)
      → All (IsIn (suc first) tokens) ss
      → All (IsIn first (token ∷ tokens)) ss
  later-IsIn first token tokens [] h = tt
  later-IsIn first token tokens (s ∷ ss) ((k, path, at, source, file, found), h) =
      ((suc k, path, omega (arith, at), source, file, found), later-IsIn first token tokens ss h)

  abbrev AllIn : ℕ → List String → Result (List Script) → Type 0
  AllIn first tokens (ok ss) = All (IsIn first tokens) ss
  AllIn first tokens (err e) = Unit

  later-AllIn :
      (first : ℕ) (token : String) (tokens : List String) (r : Result (List Script))
      → AllIn (suc first) tokens r
      → AllIn first (token ∷ tokens) r
  later-AllIn first token tokens (ok ss) h = later-IsIn first token tokens ss h
  later-AllIn first token tokens (err e) h = tt

  and_rest-AllIn :
      (first : ℕ) (tokens : List String) (script : Result Script) (rest : Result (List Script))
      → ((s : Script) → script ≡ ok s → IsIn first tokens s)
      → AllIn first tokens rest
      → AllIn first tokens (and_rest shell script rest)
  unfolding and_rest ◌>>=◌
  and_rest-AllIn first tokens (ok s) (ok ss) h k = (h s refl, k)
  and_rest-AllIn first tokens (ok s) (err e) h k = tt
  and_rest-AllIn first tokens (err e) rest h k = tt

  use-AllIn :
      (u : Use) (index : ℕ) (token : String) (tokens : List String)
      (pending free : Result (List Script))
      → IsCut token u
      → AllIn index (token ∷ tokens) pending
      → AllIn index (token ∷ tokens) free
      → AllIn index (token ∷ tokens) (continue_with shell u index pending free)
  use-AllIn Use.builtin index token tokens pending free cut h k = tt
  use-AllIn Use.separate index token tokens pending free cut h k = h
  use-AllIn Use.other index token tokens pending free cut h k = k
  use-AllIn (Use.attached option value) index token tokens pending free cut h k =
      and_rest-AllIn index (token ∷ tokens) (script_at shell index option value) free
        (λ s q. script_at-IsIn index option value token tokens s cut q) k

  scan-AllIn :
      (due : Bool) (index : ℕ) (tokens : List String)
      → AllIn index tokens (scan_scripts shell due index tokens)
  unfolding scan_scripts
  scan-AllIn true index [] = tt
  scan-AllIn false index [] = tt
  scan-AllIn true index (value ∷ tokens) =
      and_rest-AllIn index (value ∷ tokens) (script_at shell index "" value) _
        (λ s q. script_at-IsIn index "" value value tokens s refl q)
        (later-AllIn index value tokens _ (scan-AllIn false (suc index) tokens))
  scan-AllIn false index (token ∷ tokens) =
      use-AllIn (use_of token) index token tokens _ _ (use_of-IsCut token)
        (later-AllIn index token tokens _ (scan-AllIn true (suc index) tokens))
        (later-AllIn index token tokens _ (scan-AllIn false (suc index) tokens))

  -- The argument at the script's index is its option, its path and its weight.
  abbrev pub IsAligned : List String → Script → Type 0
  IsAligned args s =
      (path : String) × (s.source ≡ shell.expanduser path)
      × (shell.is_file s.source ≡ true)
      × (token_at s.index args ≡ some (joined s.option (joined path s.weight)))

  aligned :
      (program : String) (tokens : List String) (ss : List Script)
      → All (IsIn 1 tokens) ss
      → All (IsAligned (program ∷ tokens)) ss
  aligned program tokens [] h = tt
  aligned program tokens (s ∷ ss) ((k, path, at, source, file, found), h) =
      let here : s.index ≡ suc k = omega (arith, at) in
      (
        (path, source, file, ap (λ i. token_at i (program ∷ tokens)) here ∙ found),
        aligned program tokens ss h,
      )

  scanned :
      (program : String) (tokens : List String) (ss : List Script)
      {result : List String × List Script}
      → scan_scripts shell false 1 tokens ≡ ok ss
      → some_scripts shell (program ∷ tokens) ss ≡ ok result
      → All (IsAligned result.0) result.1
  scanned program tokens [] h q = cc
  scanned program tokens (s ∷ ss) h q =
      subst (λ r. All (IsAligned r.0) r.1) (ok-injective q)
        (aligned program tokens (s ∷ ss) (subst (AllIn 1 tokens) h (scan-AllIn false 1 tokens)))

  arguments_of-Aligned :
      (args : List String) (result : List String × List Script)
      → arguments_of shell args ≡ ok result
      → All (IsAligned result.0) result.1
  arguments_of-Aligned [] result h = cc
  arguments_of-Aligned (program ∷ tokens) result h =
      let (_, h1) = then-ok _ _ h in
      let (_, h2) = then-ok _ _ h1 in
      let (ss, found, last) = bind-ok _ _ h2 in scanned program tokens ss found last

  -- When the scripts of a command are found, then each is a file, and the argument at its index is
  -- made up of its option, its path and its weight, so that a replacement there names the bounded copy
  -- in its place.
  pub script_arguments-IsAligned :
      (command : String) (args : List String) (scripts : List Script)
      → script_arguments shell command ≡ ok (args, scripts)
      → All (IsAligned args) scripts
  unfolding script_arguments
  script_arguments-IsAligned command args scripts h =
      let (tokens, _, rest) = bind-ok _ _ h in arguments_of-Aligned tokens (args, scripts) rest

put-other :
    (i j : ℕ) (value : String) (args : List String)
    → (i == j) ≡ false
    → token_at j (put_at i value args) ≡ token_at j args
put-other i j value [] h = refl
put-other zero zero value (t ∷ ts) h = let same : (0 == 0) ≡ true = refl in cc
put-other zero (suc j) value (t ∷ ts) h = refl
put-other (suc i) zero value (t ∷ ts) h = refl
put-other (suc i) (suc j) value (t ∷ ts) h = put-other i j value ts (pred_eq i j h)
  where
    pred_eq : (m n : ℕ) → (suc m == suc n) ≡ false → (m == n) ≡ false
    pred_eq m n k = grind arith

-- The rewriting of a command leaves every argument that is no script as it is.
pub retarget-others :
    (target : ℕ → Script → String) (number j : ℕ) (scripts : List Script) (args : List String)
    → All (λ s. (s.index == j) ≡ false) scripts
    → token_at j (retarget target number scripts args) ≡ token_at j args
unfolding retarget
retarget-others target number j [] args h = refl
retarget-others target number j (s ∷ ss) args (other, h) =
    retarget-others target (suc number) j ss _ h ∙ put-other s.index j _ args other
