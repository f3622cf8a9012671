-- ===== src/Tests/Timeouts.antt =====
-- A command with one weighted script.
use pg_perf_bench.Prelude.{ℕ, true, ◌≡◌, refl, String, some, List, [], ◌∷◌, All, split, str_eq}
use pg_perf_bench.Effects.{ok}
use pg_perf_bench.Fallible.{◌>>=◌, ◌>>◌, reject}
use pg_perf_bench.Timeout.Scripts.{
  Shell, Script, use_of, script_at, and_rest, scan_scripts, script_arguments, retarget,
}
use pg_perf_bench.Timeout.Aligned.{IsAligned, token_at, script_arguments-IsAligned, retarget-others}

abbrev shell : Shell
shell = record {
  split = λ s. ok (split b' ' s);
  is_digits = λ s. str_eq s "3";
  expanduser = λ s. s;
  is_file = λ s. true;
}

abbrev arguments : List String
arguments = "pgbench" ∷ "-T" ∷ "60" ∷ "--file=a.sql@3" ∷ "bench" ∷ []

abbrev scripts : List Script
scripts = record { index = 3; source = "a.sql"; option = "--file="; weight = "@3" } ∷ []

script_arguments-IsAligned_example : All (IsAligned shell arguments) scripts
unfolding script_arguments scan_scripts use_of script_at and_rest ◌>>=◌ ◌>>◌ reject
script_arguments-IsAligned_example =
    script_arguments-IsAligned shell "pgbench -T 60 --file=a.sql@3 bench" arguments scripts refl

abbrev target : ℕ → Script → String
target number s = "/tmp/0/a.sql"

retarget-others_example : token_at 4 (retarget target 0 scripts arguments) ≡ some "bench"
retarget-others_example = retarget-others target 0 4 scripts arguments (refl, tt)

rewrites_the_script :
    token_at 3 (retarget target 0 scripts arguments) ≡ some "--file=/tmp/0/a.sql@3"
unfolding retarget
rewrites_the_script = refl
