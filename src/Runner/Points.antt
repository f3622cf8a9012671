-- ===== src/Runner/Points.antt =====
-- The points of a run are its iterations, in their order (src/pg_perf_bench/benchmark.py).
use pg_perf_bench.Prelude.{
  ℕ, ◌+◌, ◌≤◌, ◌<◌, Bool, ◌&&◌, ◌||◌, ◌≡◌, refl, ap, ◌∙◌, String, Option, none, some, List, [], ◌∷◌,
  ◌++◌, length, length-append, str_eq, Bool-cases, inl, inr, arith,
}
use pg_perf_bench.Effects.{
  Exc, Identity, Call, Result, ok, err, World, Env, M, call, continue, modify, ◌>>=◌, ◌>>◌, pure,
}
use pg_perf_bench.Effects.Rules.{
  Protocol, After, Steps, Steps-pure, Steps-gets, Steps-always, Steps-when, ◌▸◌, ◌⨟◌,
}
use pg_perf_bench.Settings.{Settings}
use pg_perf_bench.Policy.{each_iteration}
use pg_perf_bench.Runner.State.{Iteration, Point, Parts, RunConf, Run, lift, outside, value_at}
use pg_perf_bench.Runner.Loop.{
  open_preflight, iterate, finish, after_close, after_failed_close, run_iteration,
}

abbrev pub iteration_of : RunConf → ℕ → Iteration
iteration_of c index = record { index = index; value = value_at c.values index }

module _ (parts : Parts) (c : RunConf) where
  abbrev pub Points : Type 0
  Points = List (Point parts.Evidence parts.Validation)

  abbrev pub State : Type 0
  State = Run parts.Evidence parts.Validation

  -- The points are those of the iterations from `index` on, each with its load value.
  abbrev pub IsNumbered : ℕ → Points → Type 0
  IsNumbered index [] = Unit {0}
  IsNumbered index (p ∷ ps) = (p.at ≡ iteration_of c index) × IsNumbered (index + 1) ps

  IsNumbered-append :
      (index : ℕ) (ps : Points) (p : Point parts.Evidence parts.Validation)
      → IsNumbered index ps
      → p.at ≡ iteration_of c (index + length ps)
      → IsNumbered index (ps ++ p ∷ [])
  IsNumbered-append index [] p h q = (q ∙ ap (iteration_of c) (omega arith), tt)
  IsNumbered-append index (x ∷ ps) p (hx, h) q =
      (hx, IsNumbered-append (index + 1) ps p h (q ∙ ap (iteration_of c) (omega arith)))

  abbrev pub total : ℕ
  total = length c.commands

  abbrev pub Counted : Option ℕ → Points → Type 0
  Counted none ps = IsNumbered 1 ps × (length ps ≤ total)
  Counted (some n) ps = IsNumbered 1 ps × (length ps ≡ n) × (n ≤ total)

  pub Counted-none : (k : Option ℕ) (ps : Points) → Counted k ps → Counted none ps
  Counted-none none ps h = h
  Counted-none (some n) ps (h, q, bound) = (h, grind arith)

  -- Either exactly `n` points are recorded, or some number within the matrix.
  abbrev pub counting : Protocol State
  counting = record {
    Degree = Option ℕ;
    Holds = λ k w. Counted k w.self.results;
    least = none;
    weaken = λ k w h. Counted-none k w.self.results h;
  }

  pub Counted-add :
      (n : ℕ) (p : Point parts.Evidence parts.Validation) (ps : Points)
      → n < total
      → p.at ≡ iteration_of c (n + 1)
      → Counted (some n) ps
      → Counted (some (n + 1)) (ps ++ p ∷ [])
  Counted-add n p ps room q (h, count, bound) = (
    IsNumbered-append 1 ps p h (q ∙ ap (iteration_of c) (omega (arith, count))),
    omega (arith, count, length-append ps (p ∷ [])),
    omega (arith, room),
  )

-- What a computation returns, if it returns.
module _ {A : Type 0} (Q : A → Type 0) where
  abbrev pub OnOk : Result A → Type 0
  OnOk (ok a) = Q a
  OnOk (err e) = Unit {0}

  module _ {S : Type 0} where
    abbrev pub Returns : M S A → Type 0
    Returns m = (w : World S) → OnOk (m w).0

    Returns-continue :
        {B : Type 0} (r : Result B) (w : World S) (f : B → M S A)
        → ((b : B) → Returns (f b))
        → OnOk (continue r w f).0
    Returns-continue (ok b) w f h = h b w
    Returns-continue (err e) w f h = tt

    Returns-bind :
        {B : Type 0} (m : M S B) (f : B → M S A) → ((b : B) → Returns (f b)) → Returns (m >>= f)
    unfolding ◌>>=◌
    Returns-bind m f h w = Returns-continue (m w).0 (m w).1 f h

    Returns-then : {B : Type 0} (m : M S B) (f : M S A) → Returns f → Returns (m >> f)
    unfolding ◌>>◌
    Returns-then m f h = Returns-bind m (λ _. f) (λ _. h)

module _ (env : Env) (digest : Identity → String) (parts : Parts) (c : RunConf) where
  abbrev pub P : Protocol (State parts c)
  P = counting parts c

  abbrev pub W : Type 0
  W = World (State parts c)

  pub asks : {k : Option ℕ} (q : Call) → Steps P k (call env q) k
  unfolding call
  asks q = Steps-always (λ w h. h)

  pub lift-counts : {A : Type 0} {k : Option ℕ} (m : M Settings A) → Steps P k (lift m) k
  unfolding lift
  lift-counts m = Steps-always (λ w h. h)

  pub outside-counts : {A : Type 0} {k : Option ℕ} (m : M (Unit {0}) A) → Steps P k (outside m) k
  unfolding outside
  outside-counts m = Steps-always (λ w h. h)

  -- A change of the other attributes.
  pub sets :
      {k : Option ℕ} (f : State parts c → State parts c)
      → ((s : State parts c) → (f s).results ≡ s.results)
      → Steps P k (modify f) k
  unfolding modify
  sets {k} f same = Steps-always (λ w h. rw (same w.self) h)

  open_preflight-counts :
      {k : Option ℕ} (plan : Option (List String)) (initialize : Bool)
      → Steps P k (open_preflight env digest parts c plan initialize) k
  unfolding open_preflight
  open_preflight-counts plan initialize = Steps-gets _ ▸ λ retained.
      sets _ (λ s. refl) ⨟ Steps-when _ (sets _ (λ s. refl) ⨟ lift-counts _ ⨟ sets _ (λ s. refl))

  iterate-counts :
      {k : Option ℕ} (plan : Option (List String)) (at : Iteration) (command : String)
      (initialize : Bool)
      → Steps P k (iterate env digest parts c plan at command initialize) k
  unfolding iterate
  iterate-counts plan at command initialize =
      open_preflight-counts plan initialize ⨟ lift-counts _ ⨟ Steps-gets _ ▸ λ replicas.
      lift-counts _ ⨟ Steps-when _ (sets _ (λ s. refl)) ⨟ lift-counts _ ⨟ lift-counts _ ▸ λ checked.
      lift-counts _ ▸ λ evidence. Steps-pure _

  iterate-at :
      (plan : Option (List String)) (at : Iteration) (command : String) (initialize : Bool)
      → Returns (λ p. p.at ≡ at) (iterate env digest parts c plan at command initialize)
  unfolding iterate pure
  iterate-at plan at command initialize = Returns-then _ _ _ (
      Returns-then _ _ _ (
        Returns-bind _ _ _ (λ replicas. Returns-then _ _ _ (
          Returns-then _ _ _ (
            Returns-then _ _ _
              (Returns-bind _ _ _ (λ checked. Returns-bind _ _ _ (λ evidence w. refl))))))))

  -- What an iteration leaves: its point is still to be recorded, unless it raises.
  abbrev pub Finished : ℕ → Result (Point parts.Evidence parts.Validation) → W → Type 0
  Finished n (ok p) w = (p.at ≡ iteration_of c (n + 1)) × Counted parts c (some n) w.self.results
  Finished n (err e) w = Counted parts c none w.self.results

  module _ (n : ℕ) (room : n < total parts c) where
    abbrev pub now : Iteration
    now = iteration_of c (n + 1)

    after_close-counts :
        (p : Point parts.Evidence parts.Validation) (r : Result (Unit {0})) (w : W)
        → p.at ≡ now
        → Counted parts c (some n) w.self.results
        → let (r', w') = after_close env digest parts c now p r w in Finished n r' w'
    unfolding after_close call
    after_close-counts p (ok _) w q h = (q, h)
    after_close-counts p (err x) w q h =
        Counted-none parts c (some (n + 1)) _ (Counted-add parts c n p _ room q h)

    after_failed_close-counts :
        (e : Exc) (r : Result (Unit {0})) (w : W)
        → Counted parts c none w.self.results
        → let (r', w') = after_failed_close env digest parts c now e r w in Finished n r' w'
    unfolding after_failed_close call
    after_failed_close-counts e (ok _) w h = h
    after_failed_close-counts e (err x) w h = h

    finish-counts :
        (last : Bool) (r : Result (Point parts.Evidence parts.Validation)) (w : W)
        → OnOk (λ p. p.at ≡ now) r
        → After P (some n) r w
        → let (r', w') = finish env digest parts c now last r w in Finished n r' w'
    unfolding finish lift
    finish-counts last (ok p) w q h =
        elim (Bool-cases (w.self.opened && (str_eq c.init_policy each_iteration || last))) [
          | inl closing ↦ rw closing (after_close-counts p _ _ q h)
          | inr other ↦ rw other (q, h)
        ]
    finish-counts last (err e) w q h = elim (Bool-cases w.self.opened) [
      | inl held ↦ rw held (after_failed_close-counts e _ _ h)
      | inr free ↦ rw free h
    ]

    pub run_iteration-counts :
        (plan : Option (List String)) (command : String) (initialize last : Bool) (w : W)
        → Counted parts c (some n) w.self.results
        → let (r, w') = run_iteration env digest parts c plan now command initialize last w in
          Finished n r w'
    unfolding run_iteration
    run_iteration-counts plan command initialize last w h =
        finish-counts last _ _ (iterate-at plan now command initialize w)
          ((iterate-counts {k = some n} plan now command initialize).at w h)
