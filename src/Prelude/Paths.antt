-- ===== src/Prelude/Paths.antt =====
-- `pathlib.PurePosixPath` on texts: the parts of a path without its root, and its name.
use Prim.Native.String.{String}
use mathlib.Core.Bool.{Bool, ◌||◌}
use mathlib.Core.List.{List, [], ◌∷◌}
use pg_perf_bench.Prelude.Tests.{str_eq, if◌then◌else◌}
use pg_perf_bench.Prelude.Strings.{starts_with, split}

abbrev pub is_absolute : String → Bool
is_absolute s = starts_with s "/"

abbrev pub named_parts : List String → List String
named_parts [] = []
named_parts (s ∷ ss) =
    let rest = named_parts ss in if str_eq s "" || str_eq s "." then rest else s ∷ rest

-- The parts between the slashes, less the empty ones and the dots.
abbrev pub path_parts : String → List String
path_parts s = named_parts (split b'/' s)

abbrev pub last_or : String → List String → String
last_or s [] = s
last_or s (t ∷ ts) = last_or t ts

-- `Path(s).name`
abbrev pub path_name : String → String
path_name s = last_or "" (path_parts s)
