-- ===== src/Guard/Watch.antt =====
-- What follows the control connection and its lock: a protocol, with the rules by which it passes the
-- calls. The guard is one, and so is the release of the connection (Settings.Tidy).
use pg_perf_bench.Prelude.{not, refl, Bool, true, false, ◌≡◌, String, List, Option}
use pg_perf_bench.Effects.{
  Call, Exc, Identity, Statement, Env, Value, World, ◌>>=◌, modify, raise_if, call,
}
use pg_perf_bench.Effects.Rules.{
  Protocol, Steps, Steps-pure, Steps-raise, Steps-gets, Steps-raise_if, Steps-or_raise, ◌▸◌, ◌⨟◌,
  Steps-if,
}
use pg_perf_bench.Settings.{
  Settings, is_true, control, acquire_lock, is_usable, assert_held, connect_control,
  disconnect_control, sync_host, identify_host, identified, identify,
}
use pg_perf_bench.Guard.{
  Knowledge, unknown, held, absent, is_destructive, is_loss, is_opening, is_confined,
}

-- The attributes that say what the object holds.
abbrev pub holds_of : Settings → Bool × Bool × Bool × Bool
holds_of s = (s.db, s.session, s.entered, s.lock_acquired)

abbrev pub following :
    (Holds : Knowledge → World Settings → Type 0)
    → ((k : Knowledge) (w : World Settings) → Holds k w → Holds unknown w)
    → Protocol Settings
following Holds weaken = record {
  Degree = Knowledge;
  Holds = Holds;
  least = unknown;
  weaken = weaken;
}

pub record Watch (own : Option String) (env : Env) : Type 1 where
  pub Holds : Knowledge → World Settings → Type 0
  pub weaken : (k : Knowledge) (w : World Settings) → Holds k w → Holds unknown w
  pub neutral :
      {k : Knowledge} (c : Call)
      → is_destructive c ≡ false
      → is_loss c ≡ false
      → is_opening c ≡ false
      → is_confined own c ≡ true
      → Steps (following Holds weaken) k (call env c) k
  pub protected :
      (c : Call)
      → is_loss c ≡ false
      → is_opening c ≡ false
      → is_confined own c ≡ true
      → Steps (following Holds weaken) held (call env c) held
  pub stops :
      (c : Call)
      → is_opening c ≡ false
      → is_confined own c ≡ true
      → Steps (following Holds weaken) held (call env c) unknown
  pub changes :
      {k : Knowledge} (f : Settings → Settings)
      → ((s : Settings) → holds_of (f s) ≡ holds_of s)
      → Steps (following Holds weaken) k (modify f) k
  pub confirms :
      {k : Knowledge}
      → Steps
          (following Holds weaken)
          k
          (control env Statement.held_here >>= λ v. raise_if (not (is_true v)) Exc.configuration)
          held
  pub acquires : {k : Knowledge} → Steps (following Holds weaken) k (acquire_lock env) held
  pub connects : Steps (following Holds weaken) absent (connect_control env) unknown
  pub disconnects : Steps (following Holds weaken) unknown (disconnect_control env) absent

abbrev pub watched : {own : Option String} {env : Env} → Watch own env → Protocol Settings
watched W = following W.Holds W.weaken

module _ (own : Option String) (env : Env) (W : Watch own env) where
  abbrev P : Protocol Settings
  P = watched W

  pub sync_host-Steps : {k : Knowledge} → Steps (P) k (sync_host env) k
  unfolding sync_host
  sync_host-Steps =
      Steps-gets _ ▸ λ s. Steps-raise_if _ _ ⨟ W.neutral _ refl refl refl refl ⨟ Steps-pure tt

  identify_host-Steps :
      {k : Knowledge} (i : Identity) (pid : List String) → Steps (P) k (identify_host env i pid) k
  unfolding identify_host
  identify_host-Steps i pid = W.neutral _ refl refl refl refl ▸ λ lines. Steps-or_raise _ _

  identified-Steps :
      {k : Knowledge} (s : Settings) (row : Value) → Steps (P) k (identified env s row) k
  unfolding identified
  identified-Steps s (Value.identity_row i pid) =
      Steps-if _ (identify_host-Steps i pid) (Steps-pure i)
  identified-Steps s _ = Steps-raise _

  pub identify-Steps : {k : Knowledge} → Steps (P) k (identify env) k
  unfolding identify
  identify-Steps =
      Steps-gets _ ▸ λ s. W.neutral _ refl refl refl refl ▸ λ row. identified-Steps s row

  is_usable-Steps : {k : Knowledge} → Steps (P) k (is_usable env) k
  unfolding is_usable
  is_usable-Steps = Steps-gets _ ▸ λ s.
      Steps-if _ (W.neutral _ refl refl refl refl ▸ λ closed. Steps-pure _) (Steps-pure _)

  -- `assert_held` returns only where the server has just confirmed the lock.
  pub assert_held-Steps : {k : Knowledge} → Steps (P) k (assert_held env) held
  unfolding assert_held
  assert_held-Steps = is_usable-Steps ▸ λ usable. Steps-raise_if _ _ ⨟ W.confirms
