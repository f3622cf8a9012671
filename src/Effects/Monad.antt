-- ===== src/Effects/Monad.antt =====
-- State and exceptions over the events, with Python's `try` statements.
use pg_perf_bench.Prelude.{Bool, true, false, Option, none, some, List, ◌∷◌, if◌then◌else◌}
use pg_perf_bench.Effects.Calls.{Exc, is_ordinary, Value, Call, Reply, returns, raises, Event, Env}

pub data Result {ℓ} (A : Type ℓ) : Type ℓ where
  ok : A → Result A
  err : Exc → Result A

-- The events so far and the attributes of the one object that the operations share.
pub record World (S : Type 0) : Type 0 where
  pub trace : List Event
  pub self : S

abbrev pub M : Type 0 → Type 0 → Type 0
M S A = World S → Result A × World S

abbrev pub result_of : Reply → Result Value
result_of (returns v) = ok v
result_of (raises e) = err e

-- The outcome after a cleanup: its own exception replaces what came before.
abbrev pub settle : {A : Type 0} → Result A → Result (Unit {0}) → Result A
settle r (ok _) = r
settle r (err e) = err e

module _ {S : Type 0} where
  unfoldable pub pure : {A : Type 0} → A → M S A
  pure a w = (ok a, w)

  unfoldable pub raise : {A : Type 0} → Exc → M S A
  raise e w = (err e, w)

  -- The rest of a block, after what came before it returned or raised.
  abbrev pub continue : {A B : Type 0} → Result A → World S → (A → M S B) → Result B × World S
  continue (ok a) w f = f a w
  continue (err e) w f = (err e, w)

  infixl 5 ◌>>=◌ ◌>>◌
  unfoldable pub ◌>>=◌ : {A B : Type 0} → M S A → (A → M S B) → M S B
  ◌>>=◌ m f w = let (r, w') = m w in continue r w' f

  unfoldable pub ◌>>◌ : {A B : Type 0} → M S A → M S B → M S B
  unfolding ◌>>=◌
  m >> k = m >>= λ _. k

  unfoldable pub gets : {A : Type 0} → (S → A) → M S A
  gets f w = (ok (f w.self), w)

  unfoldable pub modify : (S → S) → M S (Unit {0})
  modify f w = (ok tt, record w { self = f w.self })

  -- `if b: raise e`
  unfoldable pub raise_if : Bool → Exc → M S (Unit {0})
  raise_if b e w = (if b then err e else ok tt, w)

  -- The value, or an exception where there is none.
  unfoldable pub or_raise : {A : Type 0} → Option A → Exc → M S A
  unfolding pure raise
  or_raise none e = raise e
  or_raise (some a) e = pure a

  -- `if b: m`
  unfoldable pub when : Bool → M S (Unit {0}) → M S (Unit {0})
  when true m = m
  when false m = pure tt

  -- `try: m finally: f`
  unfoldable pub try_finally : {A : Type 0} → M S A → M S (Unit {0}) → M S A
  try_finally m f w = let (r, w') = m w in let (s, w'') = f w' in (settle r s, w'')

  abbrev pub clean_up : {A : Type 0} → Result A → World S → M S (Unit {0}) → Result A × World S
  clean_up (ok a) w f = (ok a, w)
  clean_up (err e) w f = let (s, w') = f w in (settle (err e) s, w')

  -- `try: m except BaseException: f; raise`
  unfoldable pub on_error : {A : Type 0} → M S A → M S (Unit {0}) → M S A
  on_error m f w = let (r, w') = m w in clean_up r w' f

  abbrev pub catch : {A : Type 0} → Result A → World S → (Exc → M S A) → Result A × World S
  catch (ok a) w f = (ok a, w)
  catch (err e) w f = if is_ordinary e then f e w else (err e, w)

  -- `try: m except Exception as e: handler e`
  unfoldable pub except : {A : Type 0} → M S A → (Exc → M S A) → M S A
  except m handler w = let (r, w') = m w in catch r w' handler

  -- A call leaves its event whether it returns or raises. To unfold it is to unfold the combinators.
  unfoldable pub call : Env → Call → M S Value
  unfolding pure raise gets modify raise_if or_raise when ◌>>=◌ ◌>>◌ try_finally on_error except
  call env c w =
      let r = env w.trace c in
      (result_of r, record w { trace = record { call = c; reply = r } ∷ w.trace })
