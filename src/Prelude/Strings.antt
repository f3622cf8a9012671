-- ===== src/Prelude/Strings.antt =====
-- Python's operations on texts that look inside one: `startswith`, `in`, `replace`, `strip` and `split`
-- on one character.
use Prim.Native.Char.{Char, code}
use Prim.Native.Nat.{ℕ, zero, suc, ◌-◌}
use Prim.Native.String.{String}
use mathlib.Core.Bool.{Bool, true, false, ◌&&◌, ◌||◌}
use mathlib.Core.List.{List, [], ◌∷◌}
use pg_perf_bench.Prelude.Tests.{leb, ◌==◌, if◌then◌else◌}

abbrev pub chars : String → ℕ
chars String.[] = 0
chars (String.◌∷◌ c s) = suc (chars s)

abbrev pub joined : String → String → String
joined String.[] t = t
joined (String.◌∷◌ c s) t = String.◌∷◌ c (joined s t)

-- `s.startswith(t)`
abbrev pub starts_with : (s t : String) → Bool
starts_with s String.[] = true
starts_with String.[] (String.◌∷◌ d t) = false
starts_with (String.◌∷◌ c s) (String.◌∷◌ d t) = code c == code d && starts_with s t

-- `t in s`
abbrev pub contains : (s t : String) → Bool
contains String.[] t = starts_with String.[] t
contains (String.◌∷◌ c s) t = starts_with (String.◌∷◌ c s) t || contains s t

-- `s.endswith(t)`
abbrev pub ends_with : (s t : String) → Bool
ends_with String.[] t = starts_with String.[] t
ends_with (String.◌∷◌ c s) t =
    starts_with (String.◌∷◌ c s) t && chars (String.◌∷◌ c s) == chars t || ends_with s t

-- `s.replace(old, new)` for an `old` that is not empty, from its first match on; the first `skip`
-- characters belong to a match that is replaced already.
abbrev pub replace_from : (old new : String) (skip : ℕ) → String → String
replace_from old new skip String.[] = String.[]
replace_from old new (suc k) (String.◌∷◌ c s) = replace_from old new k s
replace_from old new zero (String.◌∷◌ c s) =
    if starts_with (String.◌∷◌ c s) old
    then joined new (replace_from old new (chars old - 1) s)
    else String.◌∷◌ c (replace_from old new 0 s)

abbrev pub replace : (old new s : String) → String
replace old new s = replace_from old new 0 s

-- `str.isspace` on a code point.
abbrev pub is_space : ℕ → Bool
is_space c =
    leb 9 c && leb c 13
    || leb 28 c && leb c 32
    || c == 133
    || c == 160
    || c == 5760
    || leb 8192 c && leb c 8202
    || c == 8232
    || c == 8233
    || c == 8239
    || c == 8287
    || c == 12288

-- `not s.strip()`
abbrev pub is_blank : String → Bool
is_blank String.[] = true
is_blank (String.◌∷◌ c s) = is_space (code c) && is_blank s

-- `s.strip()`
abbrev pub strip_left : String → String
strip_left String.[] = String.[]
strip_left (String.◌∷◌ c s) =
    let rest = strip_left s in if is_space (code c) then rest else String.◌∷◌ c s

abbrev pub strip_right : String → String
strip_right String.[] = String.[]
strip_right (String.◌∷◌ c s) =
    let rest = strip_right s in if is_blank (String.◌∷◌ c s) then String.[] else String.◌∷◌ c rest

abbrev pub strip : String → String
strip s = strip_left (strip_right s)

-- `s.split(at)` for one character: its first part and the others.
abbrev pub split_with : Char → Bool → String × List String → String × List String
split_with c true (part, parts) = (String.[], part ∷ parts)
split_with c false (part, parts) = (String.◌∷◌ c part, parts)

abbrev pub split_parts : ℕ → String → String × List String
split_parts at String.[] = (String.[], [])
split_parts at (String.◌∷◌ c s) = split_with c (code c == at) (split_parts at s)

abbrev pub split : ℕ → String → List String
split at s = let parts = split_parts at s in parts.0 ∷ parts.1
