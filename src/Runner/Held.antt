-- ===== src/Runner/Held.antt =====
-- A run holds a controller open only while an iteration uses it or retains it, and in the end it holds
-- none (src/pg_perf_bench/benchmark.py).
use pg_perf_bench.Prelude.{
  ℕ, Bool, true, false, not, ◌||◌, ◌≡◌, ◌≢◌, refl, String, Option, none, some, List, ◌∷◌, str_eq,
  Bool-cases, inl, inr,
}
use pg_perf_bench.Effects.{
  Call, Exc, Reply, Identity, Result, ok, err, World, Env, M, call, continue, modify, when, pure,
  ◌>>=◌, ◌>>◌,
}
use pg_perf_bench.Effects.Rules.{
  Protocol, After, After-continue, Steps, Steps-pure, Steps-gets, Steps-always, Steps-when,
  Steps-raise_if, Steps-forget, ◌▸◌, ◌⨟◌, keeping,
}
use pg_perf_bench.Settings.{Settings, create, close, assert_held}
use pg_perf_bench.Guard.{Knowledge, unknown, held, absent, is_opening}
use pg_perf_bench.Guard.Watch.{assert_held-Steps}
use pg_perf_bench.Guard.Tasks.{check_schema_reset-Steps}
use pg_perf_bench.Guard.Reset.{detect-Steps, reset_db_environment-Steps}
use pg_perf_bench.Guard.Fsync.{open_settings-Steps}
use pg_perf_bench.Release.{is_open, is_locked, IsReleased, IsTidy}
use pg_perf_bench.Release.Connection.{
  tidy_protocol, tidy_watch, Held, event-keeps, quiet, released-IsTidy,
}
use pg_perf_bench.Release.Controller.{ends-IsTidy, open_settings-IsReleased, close-IsReleased}
use pg_perf_bench.Policy.{each_iteration}
use pg_perf_bench.Runner.State.{Iteration, Request, Point, Parts, RunConf, Run, lift}
use pg_perf_bench.Runner.Loop.{
  open_preflight, send_config, prepare_dataset, validation, iterate, finish, after_close,
  after_failed_close, run_iteration, after_checkpoint, write_checkpoint, after_retained_close,
}

module _ (parts : Parts) (policy : String) where
  abbrev pub State : Type 0
  State = Run parts.Evidence parts.Validation

  -- The controller of a run.
  abbrev pub view : World State → World Settings
  view w = record { trace = w.trace; self = w.self.settings }

  -- Between iterations, a controller that is not retained is released.
  abbrev pub IsIdle : World State → Type 0
  IsIdle w = (w.self.retained ≡ false → IsReleased (view w)) × IsTidy (view w)

  data Stage : Type 0 where
    owned opened kept : Stage

  -- What an iteration knows of its controller: it has it open, or it is released; it has it open; and
  -- then it is retained, unless the policy is to initialize each iteration.
  abbrev AtStage : Stage → World State → Type 0
  AtStage owned w = (w.self.opened ≡ false → IsReleased (view w)) × IsTidy (view w)
  AtStage opened w = (w.self.opened ≡ true) × IsTidy (view w)
  AtStage kept w =
      (w.self.opened ≡ true)
      × (str_eq policy each_iteration ≡ false → w.self.retained ≡ true)
      × IsTidy (view w)

  AtStage-owned : (k : Stage) (w : World State) → AtStage k w → AtStage owned w
  AtStage-owned owned w h = h
  AtStage-owned opened w (o, tidy) = (λ q. cc, tidy)
  AtStage-owned kept w (o, r, tidy) = (λ q. cc, tidy)

  abbrev staged : Protocol State
  staged = record { Degree = Stage; Holds = AtStage; least = owned; weaken = AtStage-owned }

  -- What is known after an iteration: `last` says that no other follows.
  abbrev pub IsDone : {A : Type 0} → Bool → Result A → World State → Type 0
  IsDone last (ok _) w = (last ≡ true → IsReleased (view w)) × IsIdle w
  IsDone last (err _) w = IsReleased (view w)

-- What a run relies on of the parts that it takes: a measurement and a check of a dataset leave the
-- control connection to the attributes that account for it, and the check of the client sessions leaves
-- it alone.
pub record LeavesControl (parts : Parts) : Type 0 where
  pub measures : (q : Request) → Steps tidy_protocol unknown (parts.measure q) unknown
  pub validates : Steps tidy_protocol unknown parts.validate_dataset unknown
  pub checks :
      (w : World (Unit {0}))
      → (is_open (parts.check_session w).1.trace ≡ is_open w.trace)
        × (is_locked (parts.check_session w).1.trace ≡ is_locked w.trace)

module _ (env : Env) (digest : Identity → String) (parts : Parts) (c : RunConf)
    (leaves : LeavesControl parts) where
  abbrev P : Protocol (State parts c.init_policy)
  P = staged parts c.init_policy

  abbrev pub W : Type 0
  W = World (State parts c.init_policy)

  -- An operation on the settings does not change who has them open.
  lift-IsTidy :
      {A : Type 0} {m : M Settings A}
      → Steps tidy_protocol unknown m unknown
      → (w : W) → IsTidy (view parts c.init_policy w)
      → IsTidy (view parts c.init_policy (lift m w).1)
  unfolding lift
  lift-IsTidy s w h = ends-IsTidy s (view parts c.init_policy w) h

  lift-opened :
      {A : Type 0} {m : M Settings A}
      → Steps tidy_protocol unknown m unknown
      → Steps P opened (lift m) opened
  unfolding lift
  lift-opened s = Steps-always (λ w (o, tidy). (o, lift-IsTidy s w tidy))

  lift-kept :
      {A : Type 0} {m : M Settings A}
      → Steps tidy_protocol unknown m unknown
      → Steps P kept (lift m) kept
  unfolding lift
  lift-kept s = Steps-always (λ w (o, r, tidy). (o, r, lift-IsTidy s w tidy))

  opening_ends :
      (r : Result (Unit {0})) (w : W)
      → (r ≢ ok tt → IsReleased (view parts c.init_policy w))
      → IsTidy (view parts c.init_policy w)
      → let (r', w') = continue r w (λ _. modify (λ s. record s { opened = true })) in
        After P opened r' w'
  unfolding modify
  opening_ends (ok _) w h tidy = (refl, tidy)
  opening_ends (err e) w h tidy = (λ q. h (λ p. cc), tidy)

  raised : {Q : Type 0} (r : Result (Unit {0})) → ((e : Exc) → r ≡ err e → Q) → r ≢ ok tt → Q
  raised (ok _) h n = absurd (n refl)
  raised (err e) h n = h e refl

  open_preflight-opened :
      (plan : Option (List String)) (initialize : Bool) (w : W)
      → IsIdle parts c.init_policy w
      → let (r, w') = open_preflight env digest parts c plan initialize w in After P opened r w'
  unfolding open_preflight call lift create
  open_preflight-opened plan initialize w (idle, tidy) = elim (Bool-cases w.self.retained) [
    | inl kept' ↦ rw kept' (refl, tidy)
    | inr free ↦
        let (shut, unlocked, _, _, _) = idle free in
        rw free (
          opening_ends _ _
            (raised _ (λ e q.
              open_settings-IsReleased env digest
                (not initialize || (elim plan [ none ↦ true | some _ ↦ false ])) _
                (shut, unlocked, refl, refl, refl) q))
            (ends-IsTidy {k = absent} {k' = held}
              (open_settings-Steps none env (tidy_watch env none) digest
                (not initialize || (elim plan [ none ↦ true | some _ ↦ false ])))
              _ (shut, unlocked, refl, refl, refl)))
  ]

  retain :
      Steps P opened
        (when
          (not (str_eq c.init_policy each_iteration))
          (modify (λ (s : State parts c.init_policy). record s { retained = true })))
        kept
  unfolding when modify pure
  retain = record { at = λ w h. go (str_eq c.init_policy each_iteration) refl w h }
    where
      go :
          (b : Bool)
          → str_eq c.init_policy each_iteration ≡ b
          → (w : W) → AtStage parts c.init_policy opened w
          → let (r, w') =
              when
                (not b)
                (modify (λ (s : State parts c.init_policy). record s { retained = true }))
                w in
            After P kept r w'
      go true q w (o, tidy) = (o, (λ other. cc), tidy)
      go false q w (o, tidy) = (o, (λ other. refl), tidy)

  asserts : Steps tidy_protocol unknown (assert_held env) unknown
  asserts = Steps-forget (assert_held-Steps none env (tidy_watch env none))

  sends : (index : ℕ) → Steps tidy_protocol unknown (send_config env digest parts c index) unknown
  unfolding send_config
  sends index = Steps-when _ (
      detect-Steps none env (tidy_watch env none) ▸ λ found.
      Steps-when _ (Steps-raise_if _ _ ⨟ Steps-raise_if _ _)
      ⨟ asserts
      ⨟ quiet env _ refl
      ⨟ Steps-pure tt)

  prepares :
      (plan : Option (List String)) (index : ℕ)
      → Steps tidy_protocol unknown (prepare_dataset env digest parts c plan index) unknown
  unfolding prepare_dataset
  prepares plan index =
      Steps-when _ (check_schema_reset-Steps env c.conf (tidy_watch env (some c.conf.database)) _ _)
      ⨟ sends index
      ⨟ reset_db_environment-Steps env digest _ (tidy_watch env (some c.conf.database))

  validates : (b : Bool) → Steps tidy_protocol unknown (validation env digest parts c b) unknown
  unfolding validation
  validates false = Steps-pure none
  validates true = leaves.validates ▸ λ v. Steps-pure (some v)

  iterate-kept :
      (plan : Option (List String)) (at : Iteration) (command : String) (initialize : Bool) (w : W)
      → IsIdle parts c.init_policy w
      → let (r, w') = iterate env digest parts c plan at command initialize w in After P kept r w'
  unfolding iterate ◌>>◌ ◌>>=◌
  iterate-kept plan at command initialize w idle =
      After-continue P opened kept _ _ _ (open_preflight-opened plan initialize w idle) (λ _.
        lift-opened asserts ⨟ Steps-gets _ ▸ λ replicas.
        lift-opened (Steps-when initialize (prepares plan at.index))
        ⨟ retain
        ⨟ lift-kept asserts
        ⨟ lift-kept (validates _)
        ▸ λ checked. lift-kept (leaves.measures _) ▸ λ evidence. Steps-pure _)

  abbrev pub Done : {A : Type 0} → Bool → Result A × W → Type 0
  Done last (r, w) = IsDone parts c.init_policy last r w

  after_close-IsDone :
      (at : Iteration) (p : Point parts.Evidence parts.Validation) (last : Bool)
      (r : Result (Unit {0})) (w : W)
      → IsReleased (view parts c.init_policy w)
      → Done last (after_close env digest parts c at p r w)
  unfolding after_close call
  after_close-IsDone at p last (ok _) w h =
      (λ _. h, (λ _. h, released-IsTidy (view parts c.init_policy w) h))
  after_close-IsDone at p last (err x) w h = h

  after_failed_close-IsDone :
      (at : Iteration) (e : Exc) (last : Bool) (r : Result (Unit {0})) (w : W)
      → IsReleased (view parts c.init_policy w)
      → Done last (after_failed_close env digest parts c at e r w)
  unfolding after_failed_close call
  after_failed_close-IsDone at e last (ok _) w h = h
  after_failed_close-IsDone at e last (err x) w h = h

  lift_close-IsReleased :
      (w : W)
      → IsTidy (view parts c.init_policy w)
      → IsReleased (view parts c.init_policy (lift (close env digest) w).1)
  unfolding lift
  lift_close-IsReleased w h = close-IsReleased env digest (view parts c.init_policy w) h

  neither : (a b : Bool) → (a || b) ≡ false → (a ≡ false) × (b ≡ false)
  neither false false q = (refl, refl)
  neither false true q = cc
  neither true b q = cc

  finish-IsDone :
      (at : Iteration) (last : Bool) (r : Result (Point parts.Evidence parts.Validation)) (w : W)
      → After P kept r w
      → Done last (finish env digest parts c at last r w)
  unfolding finish
  finish-IsDone at last (ok p) w (open', retained, tidy) =
      elim (Bool-cases (str_eq c.init_policy each_iteration || last)) [
        | inl closing ↦
            rw (open', closing)
              (after_close-IsDone at p last _ _
                (lift_close-IsReleased (record w { self = record w.self { opened = true } }) tidy))
        | inr open_still ↦
            rw (open', open_still)
              (let (each, more) = neither _ _ open_still in
                let still = retained each in (λ final. cc, (λ free. cc, tidy)))
      ]
  finish-IsDone at last (err e) w (shut_released, tidy) = elim (Bool-cases w.self.opened) [
    | inl open' ↦ rw open' (after_failed_close-IsDone at e last _ _ (lift_close-IsReleased _ tidy))
    | inr shut ↦ rw shut (shut_released shut)
  ]

  pub run_iteration-IsDone :
      (plan : Option (List String)) (at : Iteration) (command : String) (initialize last : Bool)
      (w : W)
      → IsIdle parts c.init_policy w
      → Done last (run_iteration env digest parts c plan at command initialize last w)
  unfolding run_iteration
  run_iteration-IsDone plan at command initialize last w idle =
      finish-IsDone at last _ _ (iterate-kept plan at command initialize w idle)

  -- A call outside the control connection does not change what the controller holds.
  pub passing :
      (k : Knowledge) (q : Call) (r : Reply) (w : W)
      → is_opening q ≡ false
      → Held k (view parts c.init_policy w)
      → Held k
          (view parts c.init_policy (record w { trace = record { call = q; reply = r } ∷ w.trace }))
  passing k q r w quiet' h =
      event-keeps k w.self.settings.db w.self.settings.session w.self.settings.entered
        w.self.settings.lock_acquired q r w.trace quiet' h

  module _ (Fact : W → Type 0)
      (passes : (q : Call) (r : Reply) (w : W)
        → is_opening q ≡ false
        → Fact w
        → Fact (record w { trace = record { call = q; reply = r } ∷ w.trace })) where
    asks : (q : Call) → is_opening q ≡ false → Steps (keeping Fact) tt (call env q) tt
    unfolding call
    asks q quiet' = Steps-always (λ w h. passes q (env w.trace q) w quiet' h)

    pub write_checkpoint-keeps :
        (status : String) → Steps (keeping Fact) tt (write_checkpoint env digest parts c status) tt
    unfolding write_checkpoint
    write_checkpoint-keeps status =
        Steps-when _
          (Steps-gets _ ▸ λ results. asks _ refl ⨟ asks _ refl ⨟ asks _ refl ⨟ Steps-pure tt)

  after_retained_close-IsDone :
      (at : Iteration) (e : Exc) (last : Bool) (r : Result (Unit {0})) (w : W)
      → IsReleased (view parts c.init_policy w)
      → Done last (after_retained_close env digest parts c at e r w)
  unfolding after_retained_close
  after_retained_close-IsDone at e last (ok _) w h = h
  after_retained_close-IsDone at e last (err x) w h = h

  pub after_checkpoint-IsDone :
      (at : Iteration) (last : Bool) (r : Result (Unit {0})) (w : W)
      → (last ≡ true → IsReleased (view parts c.init_policy w))
      → IsIdle parts c.init_policy w
      → Done last (after_checkpoint env digest parts c at r w)
  unfolding after_checkpoint
  after_checkpoint-IsDone at last (ok _) w final idle = (final, idle)
  after_checkpoint-IsDone at last (err e) w final idle = elim (Bool-cases w.self.retained) [
    | inl still ↦ rw still (
        after_retained_close-IsDone at e last _ _
          (lift_close-IsReleased (record w { self = record w.self { retained = true } }) (idle.1)))
    | inr free ↦ rw free (idle.0 free)
  ]
