-- ===== src/Settings/Durable.antt =====
-- A crash after `disable` finds the journal (src/pg_perf_bench/initialization_settings.py).
use pg_perf_bench.Prelude.{
  ℕ, zero, suc, Bool, true, false, ◌||◌, ◌&&◌, ◌≡◌, refl, String, List, [], ◌∷◌, str_eq,
  if◌then◌else◌,
}
use pg_perf_bench.Effects.{
  Journal, Value, Call, Statement, Reply, returns, raises, Event, Env, World, call, result_of,
  modify,
}
use pg_perf_bench.Effects.Rules.{
  Protocol, After, Steps, Steps-pure, Steps-raise, Steps-forget, Steps-gets, Steps-or_raise,
  Steps-if, ◌▸◌, ◌⨟◌, on_trace, Steps-modify, Steps-invariant,
}
use pg_perf_bench.Settings.Session.{Settings}
use pg_perf_bench.Settings.Fsync.{save, await_fsync, reload, disable}

abbrev pub succeeds : Reply → Bool
succeeds (returns v) = true
succeeds (raises e) = false

-- The call turns `fsync` off.
abbrev pub turns_off : Call → Bool
turns_off (Call.control (Statement.set_fsync value)) = str_eq value "off"
turns_off _ = false

abbrev pub creates : Call → Bool
creates (Call.journal_create path state) = true
creates _ = false

abbrev pub syncs_file : Call → Bool
syncs_file (Call.journal_fsync path) = true
syncs_file _ = false

abbrev pub syncs_directory : Call → Bool
syncs_directory Call.fsync_directory = true
syncs_directory _ = false

abbrev pub removes : Call → Bool
removes (Call.journal_unlink path) = true
removes _ = false

-- A journal has been created; it has been flushed since; its directory entry has been flushed since
-- that. Each is lost when a journal is removed.
abbrev pub is_created : List Event → Bool
is_created [] = false
is_created (e ∷ t) =
    if removes e.call then false else creates e.call && succeeds e.reply || is_created t

abbrev pub is_flushed : List Event → Bool
is_flushed [] = false
is_flushed (e ∷ t) =
    if removes e.call
    then false
    else syncs_file e.call && (succeeds e.reply && is_created t) || is_flushed t

abbrev pub is_durable : List Event → Bool
is_durable [] = false
is_durable (e ∷ t) =
    if removes e.call
    then false
    else syncs_directory e.call && (succeeds e.reply && is_flushed t) || is_durable t

-- Whenever `fsync` was turned off, a journal was on the disk.
abbrev pub IsJournaled : List Event → Type 0
IsJournaled [] = Unit {0}
IsJournaled (e ∷ t) = (turns_off e.call ≡ true → is_durable t ≡ true) × IsJournaled t

data Stage : Type 0 where
  nowhere created flushed durable : Stage

abbrev Known : Stage → List Event → Type 0
Known nowhere t = Unit {0}
Known created t = is_created t ≡ true
Known flushed t = is_flushed t ≡ true
Known durable t = is_durable t ≡ true

abbrev journaled : Protocol Settings
journaled = on_trace IsJournaled Known nowhere (λ t. tt)

module _ (env : Env) where
  -- A call that, if it returns, leads from one stage to another.
  answers :
      {k k' : Stage} (c : Call)
      → ((t : List Event) → Known k t → turns_off c ≡ true → is_durable t ≡ true)
      → ((t : List Event) (v : Value)
          → Known k t
          → Known k' (record { call = c; reply = returns v } ∷ t))
      → Steps journaled k (call env c) k'
  unfolding call
  answers {k} {k'} c allowed next = record { at = λ w h. go (env w.trace c) w h }
    where
      go :
          (r : Reply) (w : World Settings)
          → IsJournaled w.trace × Known k w.trace
          → After journaled k'
              (result_of r)
              (record w { trace = record { call = c; reply = r } ∷ w.trace })
      go (returns v) w (j, known) = ((allowed w.trace known, j), next w.trace v known)
      go (raises e) w (j, known) = ((allowed w.trace known, j), tt)

  idle : (c : Call) → turns_off c ≡ false → Steps journaled nowhere (call env c) nowhere
  idle c harmless = answers c (λ t h q. cc) (λ t v h. tt)

  settles :
      (c : Call)
      → removes c ≡ false
      → syncs_directory c ≡ false
      → Steps journaled durable (call env c) durable
  settles c kept other = answers c (λ t h q. h) (λ t v h. rw (kept, other) h)

  save-durable :
      (path : String) (state : Journal) → Steps journaled nowhere (save env path state) durable
  unfolding save
  save-durable path state =
      idle _ refl
      ⨟ answers {k' = created} _ (λ t h q. cc) (λ t v h. refl)
      ⨟ answers {k' = flushed} _ (λ t h q. cc) (λ t v h. rw h refl)
      ⨟ answers {k' = durable} _ (λ t h q. cc) (λ t v h. rw h refl)
      ⨟ Steps-pure tt

  await_fsync-durable :
      (rounds deadline : ℕ) (expected : String)
      → Steps journaled durable (await_fsync env rounds deadline expected) durable
  unfolding await_fsync
  await_fsync-durable zero deadline expected = Steps-raise _
  await_fsync-durable (suc rounds) deadline expected = settles _ refl refl ▸ λ now.
      Steps-if _
        (settles _ refl refl ▸ λ shown.
          Steps-if _ (Steps-pure tt)
            (settles _ refl refl ⨟ await_fsync-durable rounds deadline expected))
        (Steps-raise _)

  reload-durable : (expected : String) → Steps journaled durable (reload env expected) durable
  unfolding reload
  reload-durable expected = settles _ refl refl ⨟ Steps-gets _ ▸ λ o.
      settles _ refl refl ▸ λ now. await_fsync-durable _ _ expected

  disable-durable : Steps journaled nowhere (disable env) nowhere
  unfolding disable
  disable-durable = Steps-gets _ ▸ λ s. Steps-if _ (Steps-pure tt) (
      idle _ refl ▸ λ shown. idle _ refl ▸ λ auto. Steps-or_raise _ _ ▸ λ i.
      changes _ ⨟ Steps-or_raise _ _ ▸ λ path.
      save-durable path _ ⨟ changes _ ⨟ settles _ refl refl ⨟ Steps-forget (reload-durable _))
    where
      changes : {k : Stage} (f : Settings → Settings) → Steps journaled k (modify f) k
      changes f = Steps-modify IsJournaled Known nowhere (λ t. tt) f

  -- Whatever the file system and the server answer, and however `disable` ends, `fsync` has been
  -- turned off only with a recovery journal on the disk: created, flushed, and its directory flushed
  -- after that, each call having returned, and not removed since.
  pub disable-IsJournaled :
      (w : World Settings) → IsJournaled w.trace → IsJournaled (disable env w).1.trace
  disable-IsJournaled w j =
      Steps-invariant IsJournaled Known nowhere (λ t. tt) disable-durable w j tt
