-- ===== src/Database/Quoting.antt =====
-- A quoted identifier is read back as the name that was quoted (src/pg_perf_bench/db_operations/db.py,
-- `quote_ident`).
use pg_perf_bench.Prelude.{
  ℕ, ◌==◌, Bool, true, false, ◌≡◌, refl, ap, sym, ◌∙◌, Option, none, some, List, [], ◌∷◌, ◌++◌,
  arith, if◌then◌else◌,
}
use pg_perf_bench.Database.Names.{doubled, quote_ident}

abbrev push : ℕ → Option (List ℕ) → Option (List ℕ)
push c none = none
push c (some s) = some (c ∷ s)

-- How a server reads what follows the first quote: two quotes stand for one, and a single one is the
-- end. `pending` is whether a quote has just been read.
abbrev pub read_quoted : (pending : Bool) → List ℕ → Option (List ℕ)
read_quoted false [] = none
read_quoted true [] = some []
read_quoted false (c ∷ s) =
    let inside = push c (read_quoted false s) in
    let after = read_quoted true s in if c == b'"' then after else inside
read_quoted true (c ∷ s) =
    let inside = push b'"' (read_quoted false s) in if c == b'"' then inside else none

-- A whole quoted identifier.
abbrev pub read_ident : List ℕ → Option (List ℕ)
read_ident [] = none
read_ident (c ∷ s) = let inside = read_quoted false s in if c == b'"' then inside else none

read_if :
    (b : Bool) (c : ℕ) (x y : Option (List ℕ))
    → (c == b'"') ≡ b
    → (if c == b'"' then x else y) ≡ (if b then x else y)
read_if b c x y q = ap (λ e. if e then x else y) q

quote_eq : (c : ℕ) → (c == b'"') ≡ true → c ≡ b'"'
quote_eq c h = grind arith

read-step :
    (b : Bool) (c : ℕ) (s rest : List ℕ)
    → (c == b'"') ≡ b
    → read_quoted false rest ≡ some s
    → read_quoted false (if b then c ∷ c ∷ rest else c ∷ rest) ≡ some (c ∷ s)
read-step true c s rest q h =
    read_if true c _ _ q
    ∙ (read_if true c _ _ q ∙ (ap (push b'"') h ∙ ap (λ d. some (d ∷ s)) (sym (quote_eq c q))))
read-step false c s rest q h = read_if false c _ _ q ∙ ap (push c) h

append_if :
    (b : Bool) (c : ℕ) (rest tail : List ℕ)
    → (if b then c ∷ c ∷ rest else c ∷ rest) ++ tail
      ≡ (if b then c ∷ c ∷ (rest ++ tail) else c ∷ (rest ++ tail))
append_if true c rest tail = refl
append_if false c rest tail = refl

read-doubled : (s : List ℕ) → read_quoted false (doubled s ++ (b'"' ∷ [])) ≡ some s
unfolding doubled
read-doubled [] = refl
read-doubled (c ∷ s) =
    ap (read_quoted false) (append_if (c == b'"') c (doubled s) (b'"' ∷ []))
    ∙ read-step (c == b'"') c s (doubled s ++ (b'"' ∷ [])) refl (read-doubled s)

-- A server that reads two quotes inside a quoted identifier as one reads back the name that was quoted,
-- whatever characters it has.
pub read_ident-quote_ident : (name : List ℕ) → read_ident (quote_ident name) ≡ some name
unfolding quote_ident
read_ident-quote_ident name = read-doubled name
