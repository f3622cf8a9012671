-- ===== src/Config/Nesting.antt =====
-- The nesting of shells in a workload command ends (src/pg_perf_bench/config.py, `_pgbench_protocols`).
use pg_perf_bench.Prelude.{
  ℕ, suc, zero, ◌+◌, ◌≤◌, ◌<◌, Bool, true, false, ◌||◌, String, Option, none, some, List, [], ◌∷◌,
  ◌≡◌, refl, All, arith, elem, chars, contains, if◌then◌else◌,
}
use pg_perf_bench.Effects.{Result, ok}
use pg_perf_bench.Fallible.{bind-agree, bind-running, is_stalled}
use pg_perf_bench.Config.Protocol.{
  is_separator, segments, all_segments, without_prefix, first_of, shell_script, requested,
  is_c_option, option_protocols, known_protocols, executable_protocols, named_protocol,
  script_protocols, command_protocols, line_protocols, protocols_within, pgbench_protocols,
}

-- The characters of the tokens.
abbrev pub total : List String → ℕ
total [] = 0
total (t ∷ ts) = chars t + total ts

first_of-le : (ts : List String) (s : String) → first_of ts ≡ some s → chars s ≤ total ts
first_of-le [] s h = cc
first_of-le (t ∷ ts) s h = omega (arith, some-chars h)
  where
    some-chars : {t s : String} → some t ≡ some s → chars t ≡ chars s
    some-chars q = cc

script_step :
    (b : Bool) (t s : String) (ts : List String)
    → (b ≡ true → 0 < chars t)
    → (shell_script ts ≡ some s → chars s < total ts)
    → (if b then first_of ts else shell_script ts) ≡ some s
    → chars s < total (t ∷ ts)
script_step true t s ts dash again h = omega (arith, dash refl, first_of-le ts s h)
script_step false t s ts dash again h = omega (arith, again h)

is_c_option-long : (t : String) → is_c_option t ≡ true → 0 < chars t
unfolding is_c_option
is_c_option-long String.[] h = cc
is_c_option-long (String.◌∷◌ c t) h = omega arith

shell_script-lt : (ts : List String) (s : String) → shell_script ts ≡ some s → chars s < total ts
shell_script-lt [] s h = cc
shell_script-lt (t ∷ ts) s h =
    script_step (is_c_option t) t s ts (is_c_option-long t) (shell_script-lt ts s) h

total_if :
    (b : Bool) (xs ys : List String) (n : ℕ)
    → total xs ≤ n
    → total ys ≤ n
    → total (if b then xs else ys) ≤ n
total_if true xs ys n h k = h
total_if false xs ys n h k = k

without_prefix-le : (ts : List String) → total (without_prefix ts) ≤ total ts
without_prefix-le [] = omega arith
without_prefix-le (t ∷ ts) =
    total_if _ (without_prefix ts) (t ∷ ts) _ (omega (arith, without_prefix-le ts)) (omega arith)

abbrev AreWithin : ℕ → List (List String) → Type 0
AreWithin bound = All (λ segment. total segment ≤ bound)

abbrev FitWithin : ℕ → ℕ → List String × List (List String) → Type 0
FitWithin here bound found = (total found.0 ≤ here) × AreWithin bound found.1

segments_if :
    (b : Bool) (t : String) (ts first : List String) (rest : List (List String)) (bound : ℕ)
    → total (t ∷ ts) ≤ bound
    → total first ≤ total ts
    → AreWithin bound rest
    → FitWithin (total (t ∷ ts)) bound (if b then ([], first ∷ rest) else (t ∷ first, rest))
segments_if true t ts first rest bound h k within = (omega arith, (omega (arith, h, k), within))
segments_if false t ts first rest bound h k within = (omega (arith, k), within)

-- The segments are no longer than the line.
segments-le :
    (ts : List String) (bound : ℕ) → total ts ≤ bound → FitWithin (total ts) bound (segments ts)
segments-le [] bound h = (omega arith, tt)
segments-le (t ∷ ts) bound h =
    let (k, within) = segments-le ts bound (omega (arith, h)) in
    segments_if (is_separator t) t ts _ _ bound h k within

all_segments-Within : (ts : List String) → AreWithin (total ts) (all_segments ts)
all_segments-Within ts = segments-le ts (total ts) (omega arith)

-- Two inner calls that agree on the scripts that are shorter than the bound.
module _ (inner inner' : String → Result (List String)) (bound : ℕ)
    (agree : (s : String) → chars s < bound → inner s ≡ inner' s) where
  script_agree :
      (script : Option String)
      → ((s : String) → script ≡ some s → chars s < bound)
      → script_protocols inner script ≡ script_protocols inner' script
  script_agree none h = refl
  script_agree (some s) h = agree s (h s refl)

  executable_agree :
      (is_shell is_pgbench : Bool) (ts : List String)
      → total ts ≤ bound
      → executable_protocols inner is_shell is_pgbench ts
        ≡ executable_protocols inner' is_shell is_pgbench ts
  executable_agree true is_pgbench ts h =
      script_agree (shell_script ts) (λ s q. omega (arith, h, shell_script-lt ts s q))
  executable_agree false true ts h = refl
  executable_agree false false ts h = refl

  command_agree :
      (ts : List String)
      → total ts ≤ bound
      → command_protocols inner ts ≡ command_protocols inner' ts
  unfolding command_protocols
  command_agree [] h = refl
  command_agree (t ∷ ts) h = executable_agree _ _ ts (omega (arith, h))

  line_agree :
      (lines : List (List String))
      → AreWithin bound lines
      → line_protocols inner lines ≡ line_protocols inner' lines
  unfolding line_protocols
  line_agree [] h = refl
  line_agree (tokens ∷ rest) (h, k) = rw (
    command_agree (without_prefix tokens) (omega (arith, h, without_prefix-le tokens)),
    line_agree rest k,
  )

named_running :
    (hidden known : Bool) (protocol : String)
    → is_stalled (named_protocol hidden known protocol) ≡ false
named_running true known protocol = refl
named_running false true protocol = refl
named_running false false protocol = refl

below_zero : {A : Type 0} {n : ℕ} → n < 0 → A
below_zero h = let bad : ⊥ = omega (arith, h) in elim bad [ ]

module _ (inner : String → Result (List String)) (bound : ℕ)
    (running : (s : String) → chars s < bound → is_stalled (inner s) ≡ false) where
  script_running :
      (script : Option String)
      → ((s : String) → script ≡ some s → chars s < bound)
      → is_stalled (script_protocols inner script) ≡ false
  script_running none h = refl
  script_running (some s) h = running s (h s refl)

  executable_running :
      (is_shell is_pgbench : Bool) (ts : List String)
      → total ts ≤ bound
      → is_stalled (executable_protocols inner is_shell is_pgbench ts) ≡ false
  unfolding option_protocols
  executable_running true is_pgbench ts h =
      script_running (shell_script ts) (λ s q. omega (arith, h, shell_script-lt ts s q))
  executable_running false true ts h =
      let protocol = requested "simple" ts in
      named_running (contains protocol "$" || contains protocol "`") (elem protocol known_protocols)
        protocol
  executable_running false false ts h = refl

  command_running :
      (ts : List String) → total ts ≤ bound → is_stalled (command_protocols inner ts) ≡ false
  unfolding command_protocols
  command_running [] h = refl
  command_running (t ∷ ts) h = executable_running _ _ ts (omega (arith, h))

  line_running :
      (lines : List (List String))
      → AreWithin bound lines
      → is_stalled (line_protocols inner lines) ≡ false
  unfolding line_protocols
  line_running [] h = refl
  line_running (tokens ∷ rest) (h, k) =
      bind-running (command_protocols inner (without_prefix tokens)) _
        (command_running (without_prefix tokens) (omega (arith, h, without_prefix-le tokens)))
        (λ found _. bind-running (line_protocols inner rest) _ (line_running rest k) (λ _ _. refl))

module _ (lex : String → Result (List String))
    (shrinks : (s : String) (tokens : List String) → lex s ≡ ok tokens → total tokens ≤ chars s)
    (lexes : (s : String) → is_stalled (lex s) ≡ false) where
  fuel-irrelevant :
      (n m : ℕ) (command : String)
      → chars command < n
      → chars command < m
      → protocols_within lex n command ≡ protocols_within lex m command
  unfolding protocols_within
  fuel-irrelevant zero m command h k = below_zero h
  fuel-irrelevant (suc n) zero command h k = below_zero k
  fuel-irrelevant (suc n) (suc m) command h k = bind-agree (lex command) _ _ (λ tokens q.
      line_agree (protocols_within lex n) (protocols_within lex m) (total tokens)
        (λ s less.
          let short = shrinks command tokens q in
          fuel-irrelevant n m s (omega (arith, less, short, h)) (omega (arith, less, short, k)))
        (all_segments tokens) (all_segments-Within tokens))

  fuel-running :
      (n : ℕ) (command : String)
      → chars command < n
      → is_stalled (protocols_within lex n command) ≡ false
  unfolding protocols_within
  fuel-running zero command h = below_zero h
  fuel-running (suc n) command h = bind-running (lex command) _ (lexes command) (λ tokens q.
      line_running (protocols_within lex n) (total tokens)
        (λ s less. fuel-running n s (omega (arith, less, shrinks command tokens q, h)))
        (all_segments tokens) (all_segments-Within tokens))

  -- With a lexer whose tokens are together no longer than the text and that does not stall, the search
  -- for the protocols in the nested shells of a command ends, and any fuel above the length of
  -- the command gives the same result.
  pub pgbench_protocols-Terminates :
      (fuel : ℕ) (command : String)
      → chars command < fuel
      → (protocols_within lex fuel command ≡ pgbench_protocols lex command)
        × (is_stalled (pgbench_protocols lex command) ≡ false)
  unfolding pgbench_protocols
  pgbench_protocols-Terminates fuel command h = (
    fuel-irrelevant fuel (suc (chars command)) command h (omega arith),
    fuel-running (suc (chars command)) command (omega arith),
  )
