-- ===== src/Guard/Lock.antt =====
-- The operations on the lock and its connection, seen by the guard.
use pg_perf_bench.Prelude.{not, true, false, ◌≡◌, refl, arith, String, List, [], ◌∷◌, Option}
use pg_perf_bench.Effects.{
  Exc, Call, M, World, Result, ok, err, Statement, Env, ◌>>=◌, modify, raise_if, call,
}
use pg_perf_bench.Effects.Rules.{
  Steps, After, Steps-pure, Steps-gets, Steps-raise_if, ◌▸◌, ◌⨟◌, Steps-try_finally, Steps-on_error,
  Steps-if, Steps-when, Steps-modify,
}
use pg_perf_bench.Settings.{
  Settings, is_true, restore_options, leave_session, apply_option, enter_session,
}
use pg_perf_bench.Settings.{
  control, acquire_lock, connect_control, unlock, drop_session, disconnect_control,
}
use pg_perf_bench.Guard.{
  is_destructive, is_confined, Knowledge, unknown, held, absent, guard_protocol, neutral, protected,
  stops, loses, Known, Guarded,
}
use pg_perf_bench.Guard.Watch.{Watch}

abbrev pub changes :
    (own : Option String) {k : Knowledge} (f : Settings → Settings)
    → Steps (guard_protocol own) k (modify f) k
changes own f = Steps-modify (Guarded own) Known unknown (λ t. tt) f

module _ (own : Option String) (env : Env) where
  restore_options-Steps :
      {k : Knowledge} (saved : List (String × String))
      → Steps (guard_protocol own) k (restore_options env saved) k
  unfolding restore_options
  restore_options-Steps [] = Steps-pure tt
  restore_options-Steps ((name, value) ∷ rest) =
      neutral own env _ refl refl refl ⨟ restore_options-Steps rest

  leave_session-Steps : Steps (guard_protocol own) unknown (leave_session env) unknown
  unfolding leave_session
  leave_session-Steps =
      Steps-try_finally
        (neutral own env _ refl refl refl ▸ λ closed.
          Steps-gets _ ▸ λ saved. Steps-when _ (restore_options-Steps saved))
        (loses own env _ refl refl ⨟ Steps-pure tt) (loses own env _ refl refl ⨟ Steps-pure tt)

  apply_option-Steps :
      {k : Knowledge} (name value : String)
      → Steps (guard_protocol own) k (apply_option env name value) k
  unfolding apply_option
  apply_option-Steps name value = neutral own env _ refl refl refl ▸ λ before.
      changes own _
      ⨟ neutral own env _ refl refl refl
      ⨟ neutral own env _ refl refl refl
      ▸ λ actual. Steps-raise_if _ _

  opens :
      (c : Call)
      → is_destructive c ≡ false
      → is_confined own c ≡ true
      → Steps (guard_protocol own) absent (call env c) unknown
  opens c harmless confined = record { at = (loses own env c harmless confined).at }

  enter_session-Steps : Steps (guard_protocol own) absent (enter_session env) unknown
  unfolding enter_session
  enter_session-Steps = Steps-gets _ ▸ λ o. Steps-gets _ ▸ λ database.
      opens _ refl refl
      ⨟ changes own _
      ⨟ Steps-on_error (Steps-when _ (apply_option-Steps _ _)) leave_session-Steps

  pub connect_control-Steps : Steps (guard_protocol own) absent (connect_control env) unknown
  unfolding connect_control
  connect_control-Steps = changes own _ ⨟ enter_session-Steps ⨟ changes own _

  unlock-Steps : Steps (guard_protocol own) unknown (unlock env) unknown
  unfolding unlock
  unlock-Steps = Steps-gets _ ▸ λ s.
      Steps-if _
        (neutral own env _ refl refl refl ▸ λ closed.
          Steps-when _ (loses own env _ refl refl ⨟ Steps-pure tt))
        (Steps-pure tt)

  drop_session-Steps : Steps (guard_protocol own) unknown (drop_session env) unknown
  unfolding drop_session
  drop_session-Steps = changes own _ ⨟ Steps-gets _ ▸ λ s.
      Steps-try_finally (Steps-when _ (Steps-when _ leave_session-Steps)) (changes own _)
        (changes own _)

  pub disconnect_control-Steps : Steps (guard_protocol own) unknown (disconnect_control env) unknown
  unfolding disconnect_control
  disconnect_control-Steps = Steps-try_finally unlock-Steps drop_session-Steps drop_session-Steps

  pub leaves :
      {A : Type 0} {m : M Settings A}
      → Steps (guard_protocol own) unknown m unknown
      → Steps (guard_protocol own) unknown m absent
  leaves s = record { at = λ w h. after _ _ (s.at w h) }
    where
      after :
          {A : Type 0} (r : Result A) (w : World Settings)
          → After (guard_protocol own) unknown r w
          → After (guard_protocol own) absent r w
      after (ok a) w h = h
      after (err e) w h = h

  -- The server says that this session holds the lock.
  pub held_here-Steps :
      {k : Knowledge}
      → Steps
          (guard_protocol own)
          k
          (control env Statement.held_here >>= λ v. raise_if (not (is_true v)) Exc.configuration)
          held
  unfolding call
  held_here-Steps {k} = record { at = λ w h. ground arith }

  -- `_acquire_lock` returns only with the lock taken and no other holder seen.
  pub acquire_lock-Steps : {k : Knowledge} → Steps (guard_protocol own) k (acquire_lock env) held
  unfolding acquire_lock call
  acquire_lock-Steps {k} = record { at = λ w h. ground arith }

  abbrev pub guard_watch : Watch own env
  guard_watch = record {
    Holds = λ k w. Guarded own w.trace × Known k w.trace;
    weaken = λ k w h. (h.0, tt);
    neutral = λ c harmless kept _ confined. neutral own env c harmless kept confined;
    protected = λ c kept _ confined. protected own env c kept confined;
    stops = λ c _ confined. stops own env c confined;
    changes = λ f _. changes own f;
    confirms = held_here-Steps;
    acquires = acquire_lock-Steps;
    connects = connect_control-Steps;
    disconnects = leaves disconnect_control-Steps;
  }
