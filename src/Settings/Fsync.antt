-- ===== src/Settings/Fsync.antt =====
-- The temporary `fsync` setting: `_save`, `_reload`, `disable`, `restore`
-- (src/pg_perf_bench/initialization_settings.py). `_reload` polls with fuel: a round sleeps 100 ms
-- and the deadline is at most 30 s away, so 302 rounds are enough.
use pg_perf_bench.Prelude.{
  ℕ, zero, suc, ◌+◌, min, ltb, Bool, true, false, not, String, Option, none, some, [], ◌∷◌, str_eq,
  lower_in, if◌then◌else◌,
}
use pg_perf_bench.Effects.{
  Exc, Journal, Value, text, Call, Statement, Env, M, pure, raise, gets, modify, raise_if, or_raise,
  when, ◌>>=◌, ◌>>◌, call,
}
use pg_perf_bench.Settings.Session.{Settings, is_true, is_text, text_of}
use pg_perf_bench.Settings.Identity.{same_member}
use pg_perf_bench.Settings.Lock.{
  control, acquire_lock, connect_control, disconnect_control, sync_host, identify,
}

abbrev pub number_of : Value → ℕ
number_of (Value.number n) = n
number_of _ = 0

abbrev pub text_or_none : Value → Option String
text_or_none (text s) = some s
text_or_none _ = none

unfoldable pub reload_rounds : ℕ
reload_rounds = 302

unfoldable pub is_boolean_text : String → Bool
is_boolean_text value =
    lower_in value ("on" ∷ "off" ∷ "true" ∷ "false" ∷ "1" ∷ "0" ∷ "yes" ∷ "no" ∷ [])

module _ (env : Env) where
  -- `_save`: the journal is on the disk, and its directory entry too, before it returns.
  unfoldable pub save : String → Journal → M Settings (Unit {0})
  save path state = do
    call env Call.make_directory
    call env (Call.journal_create path state)
    call env (Call.journal_fsync path)
    call env Call.fsync_directory
    pure tt

  unfoldable pub await_fsync : ℕ → ℕ → String → M Settings (Unit {0})
  await_fsync zero deadline expected = raise Exc.stalled
  await_fsync (suc rounds) deadline expected =
      let again = await_fsync rounds deadline expected in
      do
        now ← call env Call.monotonic
        if ltb (number_of now) deadline
            then (do
              shown ← control env Statement.show_fsync
              if is_text shown expected then pure tt else (call env (Call.sleep 100) >> again))
            else raise Exc.runtime

  -- `_reload`
  unfoldable pub reload : String → M Settings (Unit {0})
  reload expected = do
    control env Statement.reload_conf
    o ← gets (λ s. s.options)
    now ← call env Call.monotonic
    await_fsync reload_rounds (number_of now + min o.timeout 30000) expected

  -- `disable`. `open` has read the identity and set the path wherever `fsync` is off. Without them the
  -- source fails at the path, in `_save`, and the model does before it.
  unfoldable pub disable : M Settings (Unit {0})
  unfolding save reload
  disable = do
    s ← gets (λ s. s)
    if str_eq s.options.fsync "keep" then pure tt else (do
      shown ← control env Statement.show_fsync
      auto ← control env Statement.auto_value
      i ← or_raise s.identity Exc.external
      let journal : Journal = record {
        identity = i;
        fsync = text_of shown;
        auto_value = text_or_none auto;
      }
      modify (λ s'. record s' { original = some journal })
      path ← or_raise s.state_path Exc.external
      save path journal
      modify (λ s'. record s' { changed = true })
      control env (Statement.set_fsync "off")
      reload "off")

  -- The reconnection in `restore`.
  unfoldable pub reconnect_if : Bool → M Settings (Unit {0})
  reconnect_if closed =
      when closed (do disconnect_control env; connect_control env; acquire_lock env)

  -- The primary must be the one whose setting was changed; `or` reads the identity only of a primary.
  unfoldable pub confirm_primary : M Settings (Unit {0})
  confirm_primary = do
    standby ← control env Statement.in_recovery
    raise_if (is_true standby) Exc.runtime
    now ← identify env
    s ← gets (λ s. s)
    before ← or_raise s.identity Exc.external
    raise_if (not (same_member now before)) Exc.runtime

  unfoldable pub put_back : Option String → M Settings (Unit {0})
  unfolding is_boolean_text
  put_back none = control env Statement.reset_fsync >> pure tt
  put_back (some value) = do
    raise_if (not (is_boolean_text value)) Exc.configuration
    control env (Statement.set_fsync value)
    pure tt

  unfoldable pub restore_changed : M Settings (Unit {0})
  unfolding reconnect_if confirm_primary put_back reload
  restore_changed = do
    s ← gets (λ s. s)
    raise_if (not s.db) Exc.external
    closed ← call env Call.control_is_closed
    reconnect_if (is_true closed)
    confirm_primary
    journal ← or_raise s.original Exc.external
    put_back journal.auto_value
    reload journal.fsync
    control env Statement.checkpoint
    sync_host env
    path ← or_raise s.state_path Exc.external
    call env (Call.journal_unlink path)
    modify (λ s'. record s' { changed = false })

  -- `restore`
  unfoldable pub restore : M Settings (Unit {0})
  unfolding restore_changed
  restore = do s ← gets (λ s. s); when s.changed restore_changed
