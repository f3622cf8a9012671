-- ===== src/Effects/Rules.antt =====
-- Reasoning about the monad. A protocol is a family `Holds k` of facts about the world, one for each
-- degree `k` of what is known, with a least degree that every other implies. `Steps P k m k'` says
-- that `m`, begun where `k` is known, ends with `k'` known if it returns, and with the least degree
-- known if it raises.
use pg_perf_bench.Prelude.{
  ◌≡◌, refl, Bool, true, false, Option, none, some, List, ◌∷◌, Bool-cases, inl, inr, if◌then◌else◌,
}
use pg_perf_bench.Effects.Calls.{Exc, is_ordinary, Call, Reply, returns, raises, Event, Env}
use pg_perf_bench.Effects.Monad.{
  Result, ok, err, World, M, pure, raise, gets, modify, raise_if, or_raise, when, ◌>>=◌, ◌>>◌,
  continue, result_of, call, settle, try_finally, clean_up, on_error, catch, except,
}

pub record Protocol (S : Type 0) : Type 1 where
  pub Degree : Type 0
  pub Holds : Degree → World S → Type 0
  pub least : Degree
  pub weaken : (k : Degree) (w : World S) → Holds k w → Holds least w

module _ {S : Type 0} (P : Protocol S) where
  abbrev pub After : {A : Type 0} → P.Degree → Result A → World S → Type 0
  After k (ok _) w = P.Holds k w
  After k (err _) w = P.Holds P.least w

  pub record Steps {A : Type 0} (k : P.Degree) (m : M S A) (k' : P.Degree) : Type 0 where
    pub at : (w : World S) → P.Holds k w → After k' (m w).0 (m w).1

  After-raise_if :
      (k : P.Degree) (b : Bool) (e : Exc) (w : World S)
      → P.Holds k w
      → After k (raise_if b e w).0 (raise_if b e w).1
  unfolding raise_if
  After-raise_if k true e w h = P.weaken k w h
  After-raise_if k false e w h = h

  After-settle_err :
      (A : Type 0) (k : P.Degree) (x : Exc) (s : Result (Unit {0})) (w : World S)
      → After P.least s w
      → After k (settle {A = A} (err x) s) w
  After-settle_err A k x (ok _) w h = h
  After-settle_err A k x (err e) w h = h

  module _ {A : Type 0} (k : P.Degree) where
    After-always : (r : Result A) (w : World S) → P.Holds k w → After k r w
    After-always (ok a) w h = h
    After-always (err e) w h = P.weaken k w h

    After-least : (r : Result A) (w : World S) → After k r w → After P.least r w
    After-least (ok a) w h = P.weaken k w h
    After-least (err e) w h = h

    pub After-continue :
        {B : Type 0} (k' : P.Degree) (f : A → M S B) (r : Result A) (w : World S)
        → After k r w
        → ((a : A) → Steps k (f a) k')
        → After k' (continue r w f).0 (continue r w f).1
    After-continue k' f (ok a) w h s = (s a).at w h
    After-continue k' f (err e) w h s = h

    After-settle_ok :
        (a : A) (s : Result (Unit {0})) (w : World S) → After k s w → After k (settle (ok a) s) w
    After-settle_ok a (ok _) w h = h
    After-settle_ok a (err e) w h = h

    After-try_finally :
        (f : M S (Unit {0})) (r : Result A) (w : World S)
        → After k r w
        → Steps k f k
        → Steps P.least f P.least
        → After k (settle r (f w).0) (f w).1
    After-try_finally f (ok a) w h s t = After-settle_ok a (f w).0 (f w).1 (s.at w h)
    After-try_finally f (err e) w h s t = After-settle_err A k e (f w).0 (f w).1 (t.at w h)

    After-clean_up :
        (f : M S (Unit {0})) (r : Result A) (w : World S)
        → After k r w
        → Steps P.least f P.least
        → After k (clean_up r w f).0 (clean_up r w f).1
    After-clean_up f (ok a) w h t = h
    After-clean_up f (err e) w h t = After-settle_err A k e (f w).0 (f w).1 (t.at w h)

    After-catch :
        (handler : Exc → M S A) (r : Result A) (w : World S)
        → After k r w
        → ((e : Exc) → Steps P.least (handler e) k)
        → After k (catch r w handler).0 (catch r w handler).1
    After-catch handler (ok a) w h t = h
    After-catch handler (err e) w h t = elim (Bool-cases (is_ordinary e)) [
      | inl ordinary ↦ rw ordinary ((t e).at w h)
      | inr other ↦ rw other h
    ]

module _ {S : Type 0} {P : Protocol S} where
  pub Steps-pure : {A : Type 0} {k : P.Degree} (a : A) → Steps P k (pure a) k
  unfolding pure
  Steps-pure a = record { at = λ w h. h }

  pub Steps-raise : {A : Type 0} {k k' : P.Degree} (e : Exc) → Steps P k (raise {A = A} e) k'
  unfolding raise
  Steps-raise {k} e = record { at = λ w h. P.weaken k w h }

  pub Steps-gets : {A : Type 0} {k : P.Degree} (f : S → A) → Steps P k (gets f) k
  unfolding gets
  Steps-gets f = record { at = λ w h. h }

  pub Steps-raise_if : {k : P.Degree} (b : Bool) (e : Exc) → Steps P k (raise_if b e) k
  unfolding raise_if
  Steps-raise_if {k} b e = record { at = After-raise_if P k b e }

  -- What holds however the step ends.
  pub Steps-always :
      {A : Type 0} {k k' : P.Degree} {m : M S A}
      → ((w : World S) → P.Holds k w → P.Holds k' (m w).1)
      → Steps P k m k'
  Steps-always {k'} {m} s = record { at = λ w h. After-always P k' (m w).0 (m w).1 (s w h) }

  pub Steps-or_raise :
      {A : Type 0} {k : P.Degree} (o : Option A) (e : Exc) → Steps P k (or_raise o e) k
  unfolding or_raise
  Steps-or_raise none e = Steps-raise e
  Steps-or_raise (some a) e = Steps-pure a

  module _ {A B : Type 0} {k k' k'' : P.Degree} where
    -- `x ← m; f x`
    infixr 6 ◌▸◌
    pub ◌▸◌ :
        {m : M S A} {f : A → M S B}
        → Steps P k m k'
        → ((a : A) → Steps P k' (f a) k'')
        → Steps P k (m >>= f) k''
    unfolding ◌>>=◌
    ◌▸◌ {m} {f} s t = record { at = λ w h. After-continue P k' k'' f (m w).0 (m w).1 (s.at w h) t }

    -- `m; f`
    infixr 6 ◌⨟◌
    pub ◌⨟◌ : {m : M S A} {f : M S B} → Steps P k m k' → Steps P k' f k'' → Steps P k (m >> f) k''
    unfolding ◌>>◌
    s ⨟ t = s ▸ λ _. t

  module _ {A : Type 0} {k k' : P.Degree} where
    -- Less known in the end, or more at the start.
    pub Steps-forget : {m : M S A} → Steps P k m k' → Steps P k m P.least
    Steps-forget {m} s = record { at = λ w h. After-least P k' (m w).0 (m w).1 (s.at w h) }

    pub Steps-from : {m : M S A} → Steps P P.least m k' → Steps P k m k'
    Steps-from s = record { at = λ w h. s.at w (P.weaken k w h) }

    pub Steps-try_finally :
        {m : M S A} {f : M S (Unit {0})}
        → Steps P k m k'
        → Steps P k' f k'
        → Steps P P.least f P.least
        → Steps P k (try_finally m f) k'
    unfolding try_finally
    Steps-try_finally {m} {f} s t u = record {
      at = λ w h. After-try_finally P k' f (m w).0 (m w).1 (s.at w h) t u;
    }

    pub Steps-on_error :
        {m : M S A} {f : M S (Unit {0})}
        → Steps P k m k'
        → Steps P P.least f P.least
        → Steps P k (on_error m f) k'
    unfolding on_error
    Steps-on_error {m} {f} s t = record {
      at = λ w h. After-clean_up P k' f (m w).0 (m w).1 (s.at w h) t;
    }

    pub Steps-except :
        {m : M S A} {handler : Exc → M S A}
        → Steps P k m k'
        → ((e : Exc) → Steps P P.least (handler e) k')
        → Steps P k (except m handler) k'
    unfolding except
    Steps-except {m} {handler} s t = record {
      at = λ w h. After-catch P k' handler (m w).0 (m w).1 (s.at w h) t;
    }

  -- What follows a refusal may use that its test has failed.
  pub Steps-unless :
      {A : Type 0} {k k' : P.Degree} (b : Bool) (e : Exc) {m : M S A}
      → (b ≡ false → Steps P k m k')
      → Steps P k (raise_if b e >> m) k'
  unfolding raise_if ◌>>◌
  Steps-unless {k} true e s = record { at = λ w h. P.weaken k w h }
  Steps-unless false e s = record { at = (s refl).at }

  -- A branch: both sides, or `if b: m`.
  pub Steps-if :
      {A : Type 0} {k k' : P.Degree} (b : Bool) {m n : M S A}
      → Steps P k m k'
      → Steps P k n k'
      → Steps P k (if b then m else n) k'
  Steps-if true s t = s
  Steps-if false s t = t

  pub Steps-when :
      {k : P.Degree} (b : Bool) {m : M S (Unit {0})} → Steps P k m k → Steps P k (when b m) k
  unfolding when pure
  Steps-when true s = s
  Steps-when false s = Steps-pure tt

-- A protocol about the events alone: an invariant of them, and what is known at each degree.
module _ {S D : Type 0} (I : List Event → Type 0) (Known : D → List Event → Type 0) (least : D)
    (known_least : (t : List Event) → Known least t) where
  abbrev pub on_trace : Protocol S
  on_trace = record {
    Degree = D;
    Holds = λ k w. I w.trace × Known k w.trace;
    least = least;
    weaken = λ k w h. (h.0, known_least w.trace);
  }

  -- The attributes of the object do not matter to it.
  pub Steps-modify : {k : D} (f : S → S) → Steps on_trace k (modify f) k
  unfolding modify
  Steps-modify f = record { at = λ w h. h }

  -- A call is a step if each event that it can leave is.
  pub Steps-call :
      {k k' : D} (env : Env) (c : Call)
      → ((t : List Event) (r : Reply)
          → I t
          → Known k t
          → I (record { call = c; reply = r } ∷ t) × Known k' (record { call = c; reply = r } ∷ t))
      → Steps on_trace k (call env c) k'
  unfolding call
  Steps-call {k'} env c s = record {
    at = λ w h. After-reply _ (env w.trace c) (s w.trace (env w.trace c) h.0 h.1);
  }
    where
      After-reply :
          (w : World S) (r : Reply) → on_trace.Holds k' w → After on_trace k' (result_of r) w
      After-reply w (returns v) h = h
      After-reply w (raises e) h = (h.0, known_least w.trace)

  -- The invariant outlasts a step, however it ends.
  pub Steps-invariant :
      {A : Type 0} {k k' : D} {m : M S A}
      → Steps on_trace k m k'
      → (w : World S) → I w.trace
      → Known k w.trace
      → I (m w).1.trace
  Steps-invariant {k'} {m} s w i h = go (m w).0 (m w).1 (s.at w (i, h))
    where
      go : {A : Type 0} (r : Result A) (w' : World S) → After on_trace k' r w' → I w'.trace
      go (ok a) w' h' = h'.0
      go (err e) w' h' = h'.0

-- A fact about the world that is the same at every degree: it is kept by a step, however it ends.
module _ {S : Type 0} (Fact : World S → Type 0) where
  abbrev pub keeping : Protocol S
  keeping = record { Degree = Unit {0}; Holds = λ _ w. Fact w; least = tt; weaken = λ _ w h. h }

  Kept : {A : Type 0} (r : Result A) (w : World S) → After keeping tt r w → Fact w
  Kept (ok a) w h = h
  Kept (err e) w h = h

  pub Steps-kept :
      {A : Type 0} {m : M S A} → Steps keeping tt m tt → (w : World S) → Fact w → Fact (m w).1
  Steps-kept {m} s w h = Kept (m w).0 (m w).1 (s.at w h)
