-- ===== src/Prelude/Text.antt =====
-- Texts as their code points, for the tests that look inside one.
use Prim.Native.Char.{code}
use Prim.Native.Nat.{ℕ, ◌+◌}
use Prim.Native.String.{String}
use mathlib.Core.Bool.{Bool, true, false, ◌&&◌}
use mathlib.Core.List.{List, [], ◌∷◌, map}
use pg_perf_bench.Prelude.Tests.{leb, ◌==◌, if◌then◌else◌}

abbrev pub codes : String → List ℕ
codes String.[] = []
codes (String.◌∷◌ c s) = code c ∷ codes s

abbrev pub codes_eq : List ℕ → List ℕ → Bool
codes_eq [] [] = true
codes_eq (a ∷ as') (b ∷ bs) = a == b && codes_eq as' bs
codes_eq _ _ = false

-- `str.lower` on an ASCII letter and on the KELVIN SIGN, the one other character that becomes one of
-- those. No further character becomes a part of the texts that it is compared with here, so leaving the
-- others as they are decides the same tests.
abbrev pub lower_code : ℕ → ℕ
lower_code c = if leb b'A' c && leb c b'Z' then c + 32 else if c == 8490 then b'k' else c

abbrev pub lower : String → List ℕ
lower s = map lower_code (codes s)

-- `s.lower() == t` and `s.lower() in ts`, for texts `t` in lower case.
abbrev pub lower_is : String → String → Bool
lower_is s t = codes_eq (lower s) (codes t)

abbrev pub lower_in : String → List String → Bool
lower_in s [] = false
lower_in s (t ∷ ts) = if lower_is s t then true else lower_in s ts
