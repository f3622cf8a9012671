-- ===== src/Release/Connection.antt =====
-- `_connect`, `_acquire_lock` and `_disconnect`, and the protocol of what they leave open or held.
use pg_perf_bench.Prelude.{
  Bool, true, false, not, ◌&&◌, ◌||◌, ◌≡◌, ap, ◌∙◌, refl, String, Option, List, [], ◌∷◌, arith,
}
use mathlib.Core.Path.{subst, sym}
use pg_perf_bench.Effects.{
  Call, Exc, Event, Reply, returns, raises, Result, ok, err, Env, World, M, continue, clean_up,
  Value, result_of, pure, gets, call, modify, ◌>>=◌, ◌>>◌, try_finally, on_error, when,
}
use pg_perf_bench.Effects.Rules.{
  Protocol, After, Steps, Steps-pure, Steps-gets, Steps-raise_if, Steps-always, Steps-forget,
  Steps-kept, Steps-try_finally, Steps-on_error, Steps-when, keeping, ◌▸◌, ◌⨟◌,
}
use pg_perf_bench.Settings.{
  Settings, restore_options, leave_session, apply_option, enter_session, acquire_lock,
  connect_control, unlock, drop_session, disconnect_control,
}
use pg_perf_bench.Guard.{Knowledge, unknown, held, absent, is_opening, is_try_lock}
use pg_perf_bench.Guard.Watch.{Watch, holds_of, following}
use pg_perf_bench.Release.{is_open, is_locked, TidyOf, HoldsOf, IsReleased, IsTidy}

HoldsOf-tidy :
    (k : Knowledge) (db session entered locked : Bool) (w : World Settings)
    → HoldsOf k (db, session, entered, locked) w.trace
    → TidyOf (db, session, entered, locked) w.trace
HoldsOf-tidy unknown db session entered locked w h = h
HoldsOf-tidy held db session entered locked w h = h
HoldsOf-tidy absent db session entered locked w (o, l, d, e, a) = (ground arith, ground arith)

-- Any call but those that open the connection or take the lock.
pub event-keeps :
    (k : Knowledge) (db session entered locked : Bool) (c : Call) (r : Reply) (t : List Event)
    → is_opening c ≡ false
    → HoldsOf k (db, session, entered, locked) t
    → HoldsOf k (db, session, entered, locked) (record { call = c; reply = r } ∷ t)
event-keeps unknown db session entered locked c r t quiet (o, l) = (ground arith, ground arith)
event-keeps held db session entered locked c r t quiet (o, l) = (ground arith, ground arith)
event-keeps absent db session entered locked c r t quiet (o, l, d, e, a) =
    (ground arith, ground arith, d, e, a)

pub released-IsTidy : (w : World Settings) → IsReleased w → IsTidy w
released-IsTidy w h =
    HoldsOf-tidy absent w.self.db w.self.session w.self.entered w.self.lock_acquired w h

abbrev pub Held : Knowledge → World Settings → Type 0
Held k w = HoldsOf k (holds_of w.self) w.trace

pub weakened : (k : Knowledge) (w : World Settings) → Held k w → Held unknown w
weakened k w h = HoldsOf-tidy k w.self.db w.self.session w.self.entered w.self.lock_acquired w h

abbrev pub tidy_protocol : Protocol Settings
tidy_protocol = following Held weakened

module _ (env : Env) where
  passes :
      (k : Knowledge) (c : Call) (w : World Settings)
      → is_opening c ≡ false
      → Held k w
      → Held k (call env c w).1
  unfolding call
  passes k c w q h =
      event-keeps k w.self.db w.self.session w.self.entered w.self.lock_acquired c (env w.trace c)
        w.trace q h

  pub quiet :
      {k : Knowledge} (c : Call) → is_opening c ≡ false → Steps tidy_protocol k (call env c) k
  quiet {k} c q = Steps-always (λ w h. passes k c w q h)

  pub as_held :
      {A : Type 0} {k : Knowledge} {m : M Settings A}
      → Steps tidy_protocol unknown m unknown
      → Steps tidy_protocol k m held
  as_held {k} {m} s = record { at = λ w h. go (m w).0 (m w).1 (s.at w (weakened k w h)) }
    where
      go :
          {A : Type 0} (r : Result A) (w : World Settings)
          → After tidy_protocol unknown r w
          → After tidy_protocol held r w
      go (ok a) w h = h
      go (err e) w h = h

  pub as_unknown :
      {A : Type 0} {k : Knowledge} {m : M Settings A}
      → Steps tidy_protocol k m k
      → Steps tidy_protocol k m unknown
  as_unknown s = Steps-forget s

  pub changes :
      {k : Knowledge} (f : Settings → Settings)
      → ((s : Settings) → holds_of (f s) ≡ holds_of s)
      → Steps tidy_protocol k (modify f) k
  unfolding modify
  changes {k} f same = Steps-always (λ w h. subst (λ x. HoldsOf k x w.trace) (sym (same w.self)) h)

  pub acquires : {k : Knowledge} → Steps tidy_protocol k (acquire_lock env) held
  unfolding acquire_lock call
  acquires {k} = as_held (record { at = λ w h. ground arith })

  -- No lock is held, and the attributes are these.
  abbrev Unlocked : (Bool × Bool × Bool × Bool) → Protocol Settings
  Unlocked h = keeping (λ w. (is_locked w.trace ≡ false) × (holds_of w.self ≡ h))

  module _ (h : Bool × Bool × Bool × Bool) where
    asks : (c : Call) → is_try_lock c ≡ false → Steps (Unlocked h) tt (call env c) tt
    unfolding call
    asks c q = Steps-always (λ w (l, same). (ground arith, same))

    saves :
        (f : Settings → List (String × String))
        → Steps (Unlocked h) tt (modify (λ s. record s { saved = f s })) tt
    unfolding modify
    saves f = Steps-always (λ w k. k)

    restore_options-keeps :
        (saved : List (String × String)) → Steps (Unlocked h) tt (restore_options env saved) tt
    unfolding restore_options
    restore_options-keeps [] = Steps-pure tt
    restore_options-keeps ((name, value) ∷ rest) = asks _ refl ⨟ restore_options-keeps rest

    leave_session-keeps : Steps (Unlocked h) tt (leave_session env) tt
    unfolding leave_session
    leave_session-keeps =
        Steps-try_finally
          (asks _ refl ▸ λ closed.
            Steps-gets _ ▸ λ saved. Steps-when _ (restore_options-keeps saved))
          (asks _ refl ⨟ Steps-pure tt) (asks _ refl ⨟ Steps-pure tt)

    enter_session-keeps : Steps (Unlocked h) tt (enter_session env) tt
    unfolding enter_session apply_option
    enter_session-keeps = Steps-gets _ ▸ λ o. Steps-gets _ ▸ λ database.
        asks _ refl
        ⨟ saves _
        ⨟ Steps-on_error
            (Steps-when _ (
              asks _ refl ▸ λ before.
              saves _ ⨟ asks _ refl ⨟ asks _ refl ▸ λ actual. Steps-raise_if _ _))
            leave_session-keeps

  closed_then :
      (r : Result Value) (w : World Settings)
      → is_open w.trace ≡ false
      → is_open (continue r w (λ _ x. (ok tt, x))).1.trace ≡ false
  closed_then (ok v) w h = h
  closed_then (err e) w h = h

  finally_closes :
      (m : M Settings (Unit {0})) (w : World Settings)
      → is_open (try_finally m (call env Call.control_close >> pure tt) w).1.trace ≡ false
  unfolding try_finally ◌>>◌ ◌>>=◌ pure call
  finally_closes m w =
      closed_then (result_of (env (m w).1.trace Call.control_close))
        (record {
          trace =
              record { call = Call.control_close; reply = env (m w).1.trace Call.control_close }
              ∷ (m w).1.trace;
          self = (m w).1.self;
        })
        refl

  leave_session-closes : (w : World Settings) → is_open (leave_session env w).1.trace ≡ false
  unfolding leave_session
  leave_session-closes w = finally_closes _ w

  leaving :
      (session entered : Bool) (w : World Settings)
      → is_locked w.trace ≡ false
      → (not (is_open w.trace) || session && entered) ≡ true
      → let x = (when session (when entered (leave_session env)) w).1 in
        (is_open x.trace ≡ false)
        × (is_locked x.trace ≡ false)
        × (x.self.lock_acquired ≡ w.self.lock_acquired)
  unfolding when pure
  leaving true true w l o =
      let (unlocked, same) =
        Steps-kept (λ x. (is_locked x.trace ≡ false) × (holds_of x.self ≡ holds_of w.self))
          (leave_session-keeps (holds_of w.self)) w (l, refl) in
      (leave_session-closes w, unlocked, ap (λ h. h.3) same)
  leaving true false w l o = (ground arith, l, refl)
  leaving false entered w l o = (ground arith, l, refl)

  drop_session-IsReleased :
      (w : World Settings)
      → is_locked w.trace ≡ false
      → (not (is_open w.trace) || w.self.session && w.self.entered) ≡ true
      → IsReleased (drop_session env w).1
  unfolding drop_session call
  drop_session-IsReleased w l o =
      let (shut, unlocked, same) =
        leaving w.self.session w.self.entered
          (record w { self = record w.self { lock_acquired = false } }) l o in
      (shut, unlocked, refl, refl, same)

  unlock-releases :
      (w : World Settings)
      → IsTidy w
      → let x = (unlock env w).1 in
        (is_locked x.trace ≡ false)
        × ((not (is_open x.trace) || x.self.session && x.self.entered) ≡ true)
  unfolding unlock call
  unlock-releases w (o, l) = ground arith

  -- After `_disconnect`, however it ends.
  pub disconnect_control-IsReleased :
      (w : World Settings) → IsTidy w → IsReleased (disconnect_control env w).1
  unfolding disconnect_control try_finally
  disconnect_control-IsReleased w h =
      let (l, o) = unlock-releases w h in drop_session-IsReleased (unlock env w).1 l o

  pub disconnects : Steps tidy_protocol unknown (disconnect_control env) absent
  disconnects = Steps-always (λ w h. disconnect_control-IsReleased w h)

  left_closed :
      (r : Result (Unit {0})) (w : World Settings) {e : Exc}
      → (clean_up r w (leave_session env)).0 ≡ err e
      → is_open (clean_up r w (leave_session env)).1.trace ≡ false
  left_closed (ok _) w h = cc
  left_closed (err x) w h = leave_session-closes w

  -- An entry that fails closes what it has opened.
  entering :
      (database : String) (f : Settings → Settings) (m : M Settings (Unit {0})) (w : World Settings)
      {e : Exc}
      → is_open w.trace ≡ false
      → ((call env (Call.control_connect database) >> (modify f >> on_error m (leave_session env)))
          w).0
        ≡ err e
      → is_open
          ((call env (Call.control_connect database)
              >> (modify f >> on_error m (leave_session env)))
            w).1.trace
        ≡ false
  unfolding on_error ◌>>◌ ◌>>=◌ modify call
  entering database f m w {e} o h = answered (env w.trace (Call.control_connect database)) h
    where
      after : Reply → World Settings
      after r = record {
        trace = record { call = Call.control_connect database; reply = r } ∷ w.trace;
        self = w.self;
      }

      answered :
          (r : Reply)
          → (continue (result_of r) (after r) (λ _. modify f >> on_error m (leave_session env))).0
            ≡ err e
          → is_open
              (continue
                (result_of r)
                (after r)
                (λ _. modify f >> on_error m (leave_session env))).1.trace
            ≡ false
      answered (returns v) h' = left_closed _ _ h'
      answered (raises x) h' = o

  enter_session-closes :
      (w : World Settings) {e : Exc}
      → is_open w.trace ≡ false
      → (enter_session env w).0 ≡ err e
      → is_open (enter_session env w).1.trace ≡ false
  unfolding enter_session ◌>>=◌ gets
  enter_session-closes w o h = entering w.self.control_database _ _ w o h

  connected :
      (r : Result (Unit {0})) (w : World Settings)
      → ((e : Exc) → r ≡ err e → IsReleased w)
      → (is_locked w.trace ≡ false) × (w.self.session ≡ true)
      → let (r', w') = continue r w (λ _. modify (λ s. record s { db = true; entered = true })) in
        IsTidy w' × ((e : Exc) → r' ≡ err e → IsReleased w')
  unfolding modify
  connected (ok _) w failed (l, s) = ((ground arith, ground arith), λ e q. cc)
  connected (err x) w failed (l, s) =
      let h = failed x refl in (HoldsOf-tidy absent _ _ _ _ w h, λ e q. h)

  -- `_connect`, when nothing is open: a failure leaves nothing open.
  pub connect_control-IsTidy :
      (w : World Settings)
      → IsReleased w
      → let (r, w') = connect_control env w in IsTidy w' × ((e : Exc) → r ≡ err e → IsReleased w')
  unfolding connect_control ◌>>◌ ◌>>=◌ modify
  connect_control-IsTidy w (o, l, d, e, a) =
      let start : World Settings = record w {
        self = record w.self { session = true; entered = false };
      } in
      let (unlocked, same) =
        Steps-kept (λ x. (is_locked x.trace ≡ false) × (holds_of x.self ≡ holds_of start.self))
          (enter_session-keeps (holds_of start.self)) start (l, refl) in
      connected _ _
        (λ x q. (
          enter_session-closes start o q,
          unlocked,
          ap (λ h. h.0) same ∙ d,
          ap (λ h. h.2) same,
          ap (λ h. h.3) same ∙ a,
        ))
        (unlocked, ap (λ h. h.1) same)

  pub connects : Steps tidy_protocol absent (connect_control env) unknown
  connects = Steps-always (λ w h. (connect_control-IsTidy w h).0)

  abbrev pub tidy_watch : (own : Option String) → Watch own env
  tidy_watch own = record {
    Holds = Held;
    weaken = weakened;
    neutral = λ c harmless kept closed confined. quiet c closed;
    protected = λ c kept closed confined. quiet c closed;
    stops = λ c closed confined. as_unknown (quiet c closed);
    changes = λ f same. changes f same;
    confirms = as_held (quiet _ refl ▸ λ v. Steps-raise_if _ _);
    acquires = acquires;
    connects = connects;
    disconnects = disconnects;
  }
