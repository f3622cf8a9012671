-- ===== src/Contracts/Secrets.antt =====
-- What `redact_text` leaves of the secrets (src/pg_perf_bench/contracts.py).
use pg_perf_bench.Prelude.{
  Bool, true, false, ◌||◌, String, Option, none, some, List, [], ◌∷◌, ◌≡◌, refl, ap, inl, inr, sym,
  ◌∙◌, Bool-cases, All, str_eq, str_eq_iff, elem, ltb, chars, contains, replace, if◌then◌else◌,
}
use mathlib.Core.Path.{subst}
use pg_perf_bench.Contracts.Redaction.{
  mask, distinct, insert_longer, longest_first, replace_all, redact_text,
}
use pg_perf_bench.Contracts.Replacement.{absent_kept, replaced_gone}

-- A secret in which no asterisk stands; `none` and the empty text are no secrets.
abbrev pub IsStarless : Option String → Type 0
IsStarless none = Unit
IsStarless (some s) = contains s "*" ≡ false

-- The secret does not stand in the text.
abbrev pub IsHidden : String → Option String → Type 0
IsHidden text none = Unit
IsHidden text (some String.[]) = Unit
IsHidden text (some (String.◌∷◌ c s)) = contains text (String.◌∷◌ c s) ≡ false

absent_after :
    (ss : List String) (t v : String)
    → contains t "*" ≡ false
    → IsHidden v (some t)
    → IsHidden (replace_all ss v) (some t)
unfolding replace_all
absent_after [] t v free h = h
absent_after (s ∷ ss) String.[] v free h = tt
absent_after (s ∷ ss) (String.◌∷◌ c t) v free h =
    absent_after ss (String.◌∷◌ c t) (replace s mask v) free (absent_kept s c t 0 v free h)

gone_once : (t v : String) → contains t "*" ≡ false → IsHidden (replace t mask v) (some t)
gone_once String.[] v free = tt
gone_once (String.◌∷◌ c t) v free = replaced_gone c t 0 v free

every_gone :
    (ss : List String) (v : String)
    → All (λ s. contains s "*" ≡ false) ss
    → All (λ s. IsHidden (replace_all ss v) (some s)) ss
unfolding replace_all
every_gone [] v free = tt
every_gone (s ∷ ss) v (hs, free) = (
  absent_after ss s (replace s mask v) hs (gone_once s v hs),
  every_gone ss (replace s mask v) free,
)

-- The list that is replaced holds the secrets and no other text.
module _ (P : String → Type 0) where
  All-inserted : (s : String) (ts : List String) → P s → All P ts → All P (insert_longer s ts)
  All-inserted s [] h k = (h, tt)
  All-inserted s (t ∷ ts) h (ht, k) =
      elim (ltb (chars s) (chars t))
        as (λ b. All P (if b then t ∷ insert_longer s ts else s ∷ t ∷ ts)) [
          | true ↦ (ht, All-inserted s ts h k)
          | false ↦ (h, (ht, k))
        ]

  All-sorted : (ss : List String) → All P ss → All P (longest_first ss)
  All-sorted [] h = tt
  All-sorted (s ∷ ss) (hs, h) = All-inserted s (longest_first ss) hs (All-sorted ss h)

  split_if :
      (b : Bool) (s t : String) (rest ts : List String)
      → (All P rest → P s × All P ts)
      → All P (if b then t ∷ rest else s ∷ t ∷ ts)
      → P s × All P (t ∷ ts)
  split_if true s t rest ts again (ht, h) = let (hs, k) = again h in (hs, (ht, k))
  split_if false s t rest ts again h = h

  insertion-All : (s : String) (ts : List String) → All P (insert_longer s ts) → P s × All P ts
  insertion-All s [] h = h
  insertion-All s (t ∷ ts) h =
      split_if (ltb (chars s) (chars t)) s t (insert_longer s ts) ts (insertion-All s ts) h

  sorted-All : (ss : List String) → All P (longest_first ss) → All P ss
  sorted-All [] h = tt
  sorted-All (s ∷ ss) h =
      let (hs, k) = insertion-All s (longest_first ss) h in (hs, sorted-All ss k)

  found-All : (s : String) (ts : List String) → elem s ts ≡ true → All P ts → P s
  found-All s [] q h = absurd_of q
    where
      absurd_of : false ≡ true → P s
      absurd_of r = cc
  found-All s (t ∷ ts) q (ht, h) = elim (Bool-cases (str_eq s t)) [
    | inl e ↦ subst P (sym ((str_eq_iff s t).0 e)) ht
    | inr e ↦ found-All s ts (ap (λ b. b || elem s ts) (sym e) ∙ q) h
  ]

  abbrev Present : Option String → Type 0
  Present none = Unit
  Present (some String.[]) = Unit
  Present (some (String.◌∷◌ c s)) = P (String.◌∷◌ c s)

  Present-of : (s : String) → P s → Present (some s)
  Present-of String.[] h = tt
  Present-of (String.◌∷◌ c s) h = h

  Present-empty : (s : String) → s ≡ "" → Present (some s)
  Present-empty s q = subst (λ t. Present (some t)) (sym q) tt

  one_found :
      (b e : Bool) (s : String) (rest : List String)
      → (b ≡ true → s ≡ "")
      → (e ≡ true → All P rest → P s)
      → All P (if b then rest else (if e then rest else s ∷ rest))
      → Present (some s) × All P rest
  one_found true e s rest empty found h = (Present-empty s (empty refl), h)
  one_found false true s rest empty found h = (Present-of s (found refl h), h)
  one_found false false s rest empty found (hs, h) = (Present-of s hs, h)

  distinct-Present : (items : List (Option String)) → All P (distinct items) → All Present items
  distinct-Present [] h = tt
  distinct-Present (none ∷ items) h = (tt, distinct-Present items h)
  distinct-Present (some s ∷ items) h =
      let (hs, k) =
        one_found (str_eq s "") (elem s (distinct items)) s (distinct items) (str_eq_iff s "").0
          (found-All s (distinct items)) h in
      (hs, distinct-Present items k)

  kept_if :
      (b e : Bool) (s : String) (rest : List String)
      → P s
      → All P rest
      → All P (if b then rest else (if e then rest else s ∷ rest))
  kept_if true e s rest hs h = h
  kept_if false true s rest hs h = h
  kept_if false false s rest hs h = (hs, h)

abbrev IsStarlessText : String → Type 0
IsStarlessText s = contains s "*" ≡ false

distinct-IsStarless :
    (items : List (Option String)) → All IsStarless items → All IsStarlessText (distinct items)
distinct-IsStarless [] h = tt
distinct-IsStarless (none ∷ items) (_, h) = distinct-IsStarless items h
distinct-IsStarless (some s ∷ items) (hs, h) =
    kept_if IsStarlessText (str_eq s "") (elem s (distinct items)) s (distinct items) hs
      (distinct-IsStarless items h)

Present-IsHidden :
    (text : String) (items : List (Option String))
    → All (Present (λ s. IsHidden text (some s))) items
    → All (IsHidden text) items
Present-IsHidden text [] h = tt
Present-IsHidden text (none ∷ items) (_, h) = (tt, Present-IsHidden text items h)
Present-IsHidden text (some String.[] ∷ items) (_, h) = (tt, Present-IsHidden text items h)
Present-IsHidden text (some (String.◌∷◌ c s) ∷ items) (hs, h) = (hs, Present-IsHidden text items h)

-- If no secret holds an asterisk, then no secret that is not empty stands anywhere in the text that
-- `redact_text` returns, whatever the text, the number of the secrets and their order.
pub redact_text-IsHidden :
    (secrets : List (Option String)) (value : String)
    → All IsStarless secrets
    → All (IsHidden (redact_text value secrets)) secrets
unfolding redact_text
redact_text-IsHidden secrets value h =
    let free = All-sorted IsStarlessText (distinct secrets) (distinct-IsStarless secrets h) in
    let gone = every_gone (longest_first (distinct secrets)) value free in
    Present-IsHidden _ secrets (
      distinct-Present (λ s. IsHidden _ (some s)) secrets
        (sorted-All (λ s. IsHidden _ (some s)) (distinct secrets) gone))
