-- ===== src/Fallible.antt =====
-- Code that returns or raises, with no effects of its own: a chain of steps is a `do` block.
use pg_perf_bench.Prelude.{Bool, true, false, ◌≡◌, refl}
use pg_perf_bench.Effects.{Exc, Result, ok, err}

infixl 5 ◌>>=◌ ◌>>◌
unfoldable pub ◌>>=◌ : {A B : Type 0} → Result A → (A → Result B) → Result B
ok a >>= f = f a
err e >>= f = err e

unfoldable pub ◌>>◌ : {B : Type 0} → Result (Unit {0}) → Result B → Result B
unfolding ◌>>=◌
m >> k = m >>= λ _. k

-- `if b: raise ConfigurationError(…)`
unfoldable pub reject : Bool → Result (Unit {0})
reject true = err Exc.configuration
reject false = ok tt

-- A chain that returns: its first step has returned, and the rest on what that gave.
pub bind-ok :
    {A B : Type 0} (step : Result A) (rest : A → Result B) {result : B}
    → (step >>= rest) ≡ ok result
    → (value : A) × (step ≡ ok value) × (rest value ≡ ok result)
unfolding ◌>>=◌
bind-ok (ok value) rest h = (value, refl, h)
bind-ok (err e) rest h = cc

pub then-ok :
    {B : Type 0} (m : Result (Unit {0})) (k : Result B) {b : B}
    → (m >> k) ≡ ok b
    → (m ≡ ok tt) × (k ≡ ok b)
unfolding ◌>>◌
then-ok (ok tt) k h = (refl, h)
then-ok (err e) k h = cc

pub reject-ok : (b : Bool) → reject b ≡ ok tt → b ≡ false
unfolding reject
reject-ok true h = cc
reject-ok false h = refl

pub reject-then :
    {B : Type 0} (b : Bool) (k : Result B) {v : B}
    → (reject b >> k) ≡ ok v
    → (b ≡ false) × (k ≡ ok v)
unfolding ◌>>◌ reject
reject-then true k h = cc
reject-then false k h = (refl, h)

pub ok-injective : {A : Type 0} {a b : A} → ok a ≡ ok b → a ≡ b
ok-injective q = cc

-- Two chains whose rests agree on what the first step returns.
pub bind-agree :
    {A B : Type 0} (m : Result A) (f g : A → Result B)
    → ((a : A) → m ≡ ok a → f a ≡ g a)
    → (m >>= f) ≡ (m >>= g)
unfolding ◌>>=◌
bind-agree (ok a) f g h = h a refl
bind-agree (err e) f g h = refl

-- The fuel of the model has run out.
abbrev pub is_stalled {ℓ} : {A : Type ℓ} → Result A → Bool
is_stalled (err Exc.stalled) = true
is_stalled _ = false

pub bind-running :
    {A B : Type 0} (m : Result A) (f : A → Result B)
    → is_stalled m ≡ false
    → ((a : A) → m ≡ ok a → is_stalled (f a) ≡ false)
    → is_stalled (m >>= f) ≡ false
unfolding ◌>>=◌
bind-running (ok a) f h k = k a refl
bind-running (err Exc.stalled) f h k = h
bind-running (err Exc.configuration) f h k = refl
bind-running (err Exc.collection) f h k = refl
bind-running (err Exc.permission) f h k = refl
bind-running (err Exc.interface) f h k = refl
bind-running (err Exc.connection) f h k = refl
bind-running (err Exc.runtime) f h k = refl
bind-running (err Exc.authorization) f h k = refl
bind-running (err Exc.privilege) f h k = refl
bind-running (err Exc.external) f h k = refl
bind-running (err Exc.cancelled) f h k = refl
