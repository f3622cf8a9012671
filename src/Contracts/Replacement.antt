-- ===== src/Contracts/Replacement.antt =====
-- A text after `str.replace` with asterisks: what is replaced is gone, and no text without an asterisk
-- appears that was not there.
use Prim.Native.Char.{Char}
use pg_perf_bench.Prelude.{
  ℕ, zero, suc, ◌-◌, Bool, true, false, ◌||◌, String, ◌≡◌, refl, sym, ◌∙◌, arith, chars, joined,
  starts_with, contains, replace_from, replace, if◌then◌else◌,
}
use pg_perf_bench.Contracts.Redaction.{mask}

or_left : (a b : Bool) → (a || b) ≡ false → a ≡ false
or_left true b h = h
or_left false b h = refl

or_right : (a b : Bool) → (a || b) ≡ false → b ≡ false
or_right true b h = cc
or_right false b h = h

neither : (a b : Bool) → a ≡ false → b ≡ false → (a || b) ≡ false
neither true b h k = h
neither false b h k = k

not_true : (b : Bool) → (b ≡ true → false ≡ true) → b ≡ false
not_true true f = sym (f refl)
not_true false f = refl

-- No text whose first character is no asterisk is found where a mask stands.
mask_apart :
    (c : Char) (t rest : String)
    → starts_with (String.◌∷◌ c t) "*" ≡ false
    → starts_with (joined "*" rest) (String.◌∷◌ c t) ≡ false
mask_apart c t rest free = grind arith

kept_step :
    (m : Bool) (c d : Char) (masked plain t s : String)
    → starts_with (String.◌∷◌ d t) "*" ≡ false
    → (starts_with plain t ≡ true → starts_with s t ≡ true)
    → starts_with (if m then joined mask masked else String.◌∷◌ c plain) (String.◌∷◌ d t) ≡ true
    → starts_with (String.◌∷◌ c s) (String.◌∷◌ d t) ≡ true
kept_step true c d masked plain t s free again h =
    let apart = mask_apart d t (joined "**" masked) free in cc
kept_step false c d masked plain t s free again h = grind arith

prefix_kept :
    (old t s : String)
    → contains t "*" ≡ false
    → starts_with (replace old mask s) t ≡ true
    → starts_with s t ≡ true
prefix_kept old String.[] s free h = refl
prefix_kept old (String.◌∷◌ d t) String.[] free h = h
prefix_kept old (String.◌∷◌ d t) (String.◌∷◌ c s) free h =
    kept_step (starts_with (String.◌∷◌ c s) old) c d _ _ t s (or_left _ _ free)
      (prefix_kept old t s (or_right _ _ free)) h

-- A text `d ∷ t` without asterisks that is not in `masked` is not in it behind a mask.
behind_mask :
    (d : Char) (t masked : String)
    → starts_with (String.◌∷◌ d t) "*" ≡ false
    → contains masked (String.◌∷◌ d t) ≡ false
    → contains (joined mask masked) (String.◌∷◌ d t) ≡ false
behind_mask d t masked free h = neither _ _ (mask_apart d t (joined "**" masked) free) (
    neither _ _ (mask_apart d t (joined "*" masked) free)
      (neither _ _ (mask_apart d t masked free) h))

absent_step :
    (m : Bool) (c d : Char) (masked plain t : String)
    → starts_with (String.◌∷◌ d t) "*" ≡ false
    → (m ≡ true → contains masked (String.◌∷◌ d t) ≡ false)
    → (m ≡ false → contains (String.◌∷◌ c plain) (String.◌∷◌ d t) ≡ false)
    → contains (if m then joined mask masked else String.◌∷◌ c plain) (String.◌∷◌ d t) ≡ false
absent_step true c d masked plain t free h k = behind_mask d t masked free (h refl)
absent_step false c d masked plain t free h k = k refl

-- Where nothing is replaced, the text is found in the result only where it was.
plain_step :
    (old : String) (c d : Char) (t s : String)
    → contains (String.◌∷◌ d t) "*" ≡ false
    → starts_with (String.◌∷◌ c s) (String.◌∷◌ d t) ≡ false
    → starts_with (String.◌∷◌ c (replace old mask s)) (String.◌∷◌ d t) ≡ false
plain_step old c d t s free h = not_true _ (λ found.
    sym h
    ∙ kept_step false c d "" (replace old mask s) t s (or_left _ _ free)
        (prefix_kept old t s (or_right _ _ free)) found)

-- A text that is nowhere is nowhere after a replacement.
pub absent_kept :
    (old : String) (d : Char) (t : String) (skip : ℕ) (s : String)
    → contains (String.◌∷◌ d t) "*" ≡ false
    → contains s (String.◌∷◌ d t) ≡ false
    → contains (replace_from old mask skip s) (String.◌∷◌ d t) ≡ false
absent_kept old d t skip String.[] free h = refl
absent_kept old d t (suc k) (String.◌∷◌ c s) free h = absent_kept old d t k s free (or_right _ _ h)
absent_kept old d t zero (String.◌∷◌ c s) free h =
    absent_step (starts_with (String.◌∷◌ c s) old) c d _ _ t (or_left _ _ free)
      (λ _. absent_kept old d t (chars old - 1) s free (or_right _ _ h))
      (λ _.
        neither _ _ (plain_step old c d t s free (or_left _ _ h))
          (absent_kept old d t 0 s free (or_right _ _ h)))

-- What is replaced is gone.
pub replaced_gone :
    (d : Char) (t : String) (skip : ℕ) (s : String)
    → contains (String.◌∷◌ d t) "*" ≡ false
    → contains (replace_from (String.◌∷◌ d t) mask skip s) (String.◌∷◌ d t) ≡ false
replaced_gone d t skip String.[] free = refl
replaced_gone d t (suc k) (String.◌∷◌ c s) free = replaced_gone d t k s free
replaced_gone d t zero (String.◌∷◌ c s) free =
    absent_step (starts_with (String.◌∷◌ c s) (String.◌∷◌ d t)) c d _ _ t (or_left _ _ free)
      (λ _. replaced_gone d t (chars (String.◌∷◌ d t) - 1) s free)
      (λ m. neither _ _ (plain_step (String.◌∷◌ d t) c d t s free m) (replaced_gone d t 0 s free))

-- No text without asterisks stands in the mask.
pub mask_hides :
    (d : Char) (t : String)
    → contains (String.◌∷◌ d t) "*" ≡ false
    → contains mask (String.◌∷◌ d t) ≡ false
mask_hides d t free = behind_mask d t "" (or_left _ _ free) refl
