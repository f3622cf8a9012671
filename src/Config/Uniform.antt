-- ===== src/Config/Uniform.antt =====
-- The protocol that the commands of a workload share (src/pg_perf_bench/config.py, `pgbench_protocol`).
use pg_perf_bench.Prelude.{
  Bool, true, false, not, ◌&&◌, String, List, [], ◌∷◌, ◌≡◌, refl, sym, ◌∙◌, inl, inr, ◌⊎◌, All, all,
  str_eq, str_eq_iff, contains, replace, if◌then◌else◌,
}
use mathlib.Core.Path.{subst}
use pg_perf_bench.Effects.{Exc, Result, ok, err}
use pg_perf_bench.Fallible.{bind-ok, reject-then, ok-injective}
use pg_perf_bench.Config.Protocol.{common, resolved, pgbench_protocols, pgbench_protocol}

and_both : (a b : Bool) → (a && b) ≡ true → (a ≡ true) × (b ≡ true)
and_both true b h = (refl, h)
and_both false b h = cc

-- A protocol that is `p`, or one that the text does not show.
abbrev pub IsKnownAs : String → String → Type 0
IsKnownAs p q = (q ≡ p) ⊎ (q ≡ "unknown")

all_same : (p : String) (qs : List String) → all (str_eq p) qs ≡ true → All (λ q. q ≡ p) qs
all_same p [] h = tt
all_same p (q ∷ qs) h =
    let (here, rest) = and_both (str_eq p q) _ h in
    (sym ((str_eq_iff p q).0 here), all_same p qs rest)

common-ok : (found : List String) (p : String) → common found ≡ ok p → All (λ q. q ≡ p) found
common-ok [] p h = tt
common-ok (q ∷ qs) p h = same (all (str_eq q) qs) (all_same q qs) h
  where
    same :
        (b : Bool)
        → (b ≡ true → All (λ r. r ≡ q) qs)
        → (if b then ok q else err Exc.configuration) ≡ ok p
        → All (λ r. r ≡ p) (q ∷ qs)
    same true h k =
        let is_p = ok-injective k in (is_p, subst (λ s. All (λ r. r ≡ s) qs) is_p (h refl))
    same false h k = cc

All-map :
    (P Q : String → Type 0) (qs : List String) → ((q : String) → P q → Q q) → All P qs → All Q qs
All-map P Q [] f h = tt
All-map P Q (q ∷ qs) f (hq, h) = (f q hq, All-map P Q qs f h)

-- The chosen protocol is the common one, unless that is unknown.
chosen-IsKnownAs :
    (b : Bool) (first selected : String) (found : List String)
    → (b ≡ true → first ≡ "unknown")
    → All (λ q. q ≡ first) found
    → All (IsKnownAs (if b then selected else first)) found
chosen-IsKnownAs true first selected found unknown h =
    All-map (λ q. q ≡ first) (IsKnownAs selected) found (λ q e. inr (e ∙ unknown refl)) h
chosen-IsKnownAs false first selected found unknown h =
    All-map (λ q. q ≡ first) (IsKnownAs first) found (λ q e. inl e) h

resolved-IsKnownAs :
    (command selected first : String) (found : List String)
    → All (λ q. q ≡ first) found
    → All (IsKnownAs (resolved command selected first)) found
unfolding resolved
resolved-IsKnownAs command selected first found h =
    chosen-IsKnownAs (str_eq first "unknown" && contains command "ARG_PGBENCH_PROTOCOL") first
      selected found
      (λ b.
        (str_eq_iff first "unknown").0
          (and_both (str_eq first "unknown") (contains command "ARG_PGBENCH_PROTOCOL") b).0)
      h

-- When a protocol is accepted, then the protocols of all the pgbench commands that are found in the
-- text, nested shells included, are that one or unknown, and under `--pgbench-prepared` it is `prepared`.
pub pgbench_protocol-IsUniform :
    (lex : String → Result (List String)) (command p : String) (prepared : Bool)
    → pgbench_protocol lex command prepared ≡ ok p
    → ((found : List String) × (pgbench_protocols lex
            (replace "ARG_PGBENCH_PROTOCOL" (if prepared then "prepared" else "simple") command)
          ≡ ok found)
        × All (IsKnownAs p) found)
      × ((prepared && not (str_eq p "prepared")) ≡ false)
unfolding pgbench_protocol
pgbench_protocol-IsUniform lex command p prepared h =
    let (found, listed, after_list) = bind-ok (pgbench_protocols lex _) _ h in
    let (first, shared, after_common) = bind-ok (common found) _ after_list in
    let selected = if prepared then "prepared" else "simple" in
    let (matches, last) =
      reject-then (prepared && not (str_eq (resolved command selected first) "prepared")) _
        after_common in
    let is_p = ok-injective last in
    (
      (
        found,
        listed,
        subst (λ q. All (IsKnownAs q) found) is_p
            (resolved-IsKnownAs command selected first found (common-ok found first shared)),
      ),
      subst (λ q. (prepared && not (str_eq q "prepared")) ≡ false) is_p matches,
    )
