-- ===== src/Contracts/Mapping.antt =====
-- What `redact_mapping` leaves of the secrets (src/pg_perf_bench/contracts.py).
use pg_perf_bench.Prelude.{
  Bool, true, false, not, ◌||◌, String, Option, none, some, List, [], ◌∷◌, ◌≡◌, refl, All, ap, sym,
  str_eq, str_eq_iff, if◌then◌else◌,
}
use mathlib.Core.Path.{subst}
use pg_perf_bench.Json.{Value, Items, Fields}
use pg_perf_bench.Contracts.Redaction.{
  is_secret_field, redact_mapping, redact_value, redact_entries, redact_entry, hide, mask,
}
use pg_perf_bench.Contracts.Replacement.{mask_hides}
use pg_perf_bench.Contracts.Secrets.{IsStarless, IsHidden, redact_text-IsHidden}

-- No list of the value is an entry of a list.
abbrev mutual
  pub IsFlat : Value → Type 0
  IsFlat (Value.array items) = AreFlat items
  IsFlat (Value.object fields) = HasFlat fields
  IsFlat value = Unit

  pub AreFlat : Items → Type 0
  AreFlat Items.empty = Unit
  AreFlat (Items.entry entry rest) = IsFlatEntry entry × AreFlat rest

  pub IsFlatEntry : Value → Type 0
  IsFlatEntry (Value.array items) = ⊥
  IsFlatEntry (Value.object fields) = HasFlat fields
  IsFlatEntry value = Unit

  pub HasFlat : Fields → Type 0
  HasFlat Fields.end = Unit
  HasFlat (Fields.field key value rest) = IsFlat value × HasFlat rest

-- What a secret field may show: nothing, the empty text or the mask.
abbrev pub is_masked : Value → Bool
is_masked Value.null = true
is_masked (Value.text s) = str_eq s "" || str_eq s mask
is_masked _ = false

module _ (secrets : List (Option String)) where
  -- In no text that is a value or an entry stands a secret (the keys are left as they are), and every secret field of it is masked.
  abbrev mutual
    pub IsSafe : Value → Type 0
    IsSafe (Value.text s) = All (IsHidden s) secrets
    IsSafe (Value.array items) = AreSafe items
    IsSafe (Value.object fields) = HasSafe fields
    IsSafe value = Unit

    pub AreSafe : Items → Type 0
    AreSafe Items.empty = Unit
    AreSafe (Items.entry entry rest) = IsSafe entry × AreSafe rest

    pub HasSafe : Fields → Type 0
    HasSafe Fields.end = Unit
    HasSafe (Fields.field key value rest) =
        IsSafe value × (((not (is_secret_field key) || is_masked value) ≡ true) × HasSafe rest)

mask-IsHidden :
    (secrets : List (Option String)) → All IsStarless secrets → All (IsHidden mask) secrets
mask-IsHidden [] h = tt
mask-IsHidden (none ∷ rest) (_, h) = (tt, mask-IsHidden rest h)
mask-IsHidden (some String.[] ∷ rest) (_, h) = (tt, mask-IsHidden rest h)
mask-IsHidden (some (String.◌∷◌ c s) ∷ rest) (hs, h) = (mask_hides c s hs, mask-IsHidden rest h)

empty-IsHidden : (secrets : List (Option String)) → All (IsHidden "") secrets
empty-IsHidden [] = tt
empty-IsHidden (none ∷ rest) = (tt, empty-IsHidden rest)
empty-IsHidden (some String.[] ∷ rest) = (tt, empty-IsHidden rest)
empty-IsHidden (some (String.◌∷◌ c s) ∷ rest) = (refl, empty-IsHidden rest)

-- A value of a secret field, in the two cases of the test.
hide-is_masked : (item : Value) → is_masked (hide item) ≡ true
unfolding hide
hide-is_masked Value.null = refl
hide-is_masked (Value.flag b) = refl
hide-is_masked (Value.integer i) = refl
hide-is_masked (Value.real x) = refl
hide-is_masked (Value.array items) = refl
hide-is_masked (Value.object fields) = refl
hide-is_masked (Value.text s) = shown (str_eq s "") refl
  where
    shown :
        (b : Bool)
        → str_eq s "" ≡ b
        → is_masked (if b then Value.text s else Value.text mask) ≡ true
    shown true q = ap (λ b. b || str_eq s mask) q
    shown false q = refl

module _ (secrets : List (Option String)) (free : All IsStarless secrets) where
  hide-IsSafe : (item : Value) → IsSafe secrets (hide item)
  unfolding hide
  hide-IsSafe Value.null = tt
  hide-IsSafe (Value.flag b) = mask-IsHidden secrets free
  hide-IsSafe (Value.integer i) = mask-IsHidden secrets free
  hide-IsSafe (Value.real x) = mask-IsHidden secrets free
  hide-IsSafe (Value.array items) = mask-IsHidden secrets free
  hide-IsSafe (Value.object fields) = mask-IsHidden secrets free
  hide-IsSafe (Value.text s) = shown (str_eq s "") (str_eq_iff s "").0
    where
      shown :
          (b : Bool)
          → (b ≡ true → s ≡ "")
          → IsSafe secrets (if b then Value.text s else Value.text mask)
      shown true q = subst (λ t. All (IsHidden t) secrets) (sym (q refl)) (empty-IsHidden secrets)
      shown false q = mask-IsHidden secrets free

  chosen-IsSafe :
      (b : Bool) (item shown : Value)
      → IsSafe secrets shown
      → IsSafe secrets (if b then hide item else shown)
        × ((not b || is_masked (if b then hide item else shown)) ≡ true)
  chosen-IsSafe true item shown h = (hide-IsSafe item, hide-is_masked item)
  chosen-IsSafe false item shown h = (h, refl)

  mutual
    unfolding redact_mapping

    mapping-HasSafe :
        (fields : Fields) → HasFlat fields → HasSafe secrets (redact_mapping secrets fields)
    mapping-HasSafe Fields.end h = tt
    mapping-HasSafe (Fields.field key item rest) (hi, h) =
        let (a, b) = chosen-IsSafe (is_secret_field key) item _ (value-IsSafe item hi) in
        (a, (b, mapping-HasSafe rest h))

    value-IsSafe : (item : Value) → IsFlat item → IsSafe secrets (redact_value secrets item)
    value-IsSafe Value.null h = tt
    value-IsSafe (Value.flag b) h = tt
    value-IsSafe (Value.integer i) h = tt
    value-IsSafe (Value.real x) h = tt
    value-IsSafe (Value.text s) h = redact_text-IsHidden secrets s free
    value-IsSafe (Value.array items) h = entries-AreSafe items h
    value-IsSafe (Value.object fields) h = mapping-HasSafe fields h

    entries-AreSafe :
        (items : Items) → AreFlat items → AreSafe secrets (redact_entries secrets items)
    entries-AreSafe Items.empty h = tt
    entries-AreSafe (Items.entry entry rest) (he, h) =
        (entry-IsSafe entry he, entries-AreSafe rest h)

    entry-IsSafe : (entry : Value) → IsFlatEntry entry → IsSafe secrets (redact_entry secrets entry)
    entry-IsSafe Value.null h = tt
    entry-IsSafe (Value.flag b) h = tt
    entry-IsSafe (Value.integer i) h = tt
    entry-IsSafe (Value.real x) h = tt
    entry-IsSafe (Value.text s) h = redact_text-IsHidden secrets s free
    entry-IsSafe (Value.array items) h = elim h [ ]
    entry-IsSafe (Value.object fields) h = mapping-HasSafe fields h

-- If no secret holds an asterisk and no list of the mapping is an entry of a list, then in no text that is
-- a value or an entry in what `redact_mapping` returns stands a secret, and every field with a secret's name shows nothing,
-- the empty text or the mask, at every depth.
pub redact_mapping-IsSafe :
    (secrets : List (Option String)) (fields : Fields)
    → All IsStarless secrets
    → HasFlat fields
    → HasSafe secrets (redact_mapping secrets fields)
redact_mapping-IsSafe secrets fields free h = mapping-HasSafe secrets free fields h
