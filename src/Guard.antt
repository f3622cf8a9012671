-- ===== src/Guard.antt =====
-- What the server lock protects, read off the events. A destructive call is allowed only while the
-- lock is known to be held: since the last moment at which it may have been lost, the server has
-- confirmed it, or it has been taken with no other holder in sight. What is dropped, emptied of its
-- sessions or created is the benchmark's own database, and never a protected one.
pub mod Watch
pub mod Lock
pub mod Fsync
pub mod Tasks
pub mod Open
pub mod Reset
use pg_perf_bench.Prelude.{
  Bool, true, false, not, ◌&&◌, ◌||◌, String, Option, none, some, List, [], ◌∷◌, ◌≡◌, str_eq,
  if◌then◌else◌, arith,
}
use pg_perf_bench.Effects.{Call, Command, Statement, Reply, returns, raises, Event, Env, call}
use pg_perf_bench.Effects.Rules.{Protocol, Steps, on_trace, Steps-call}
use pg_perf_bench.Settings.{Settings, is_true}
use pg_perf_bench.Database.Names.{is_protected, is_resettable}

-- Statements and commands that end sessions, remove or create databases, change the server's
-- settings or stop it.
abbrev pub is_destructive : Call → Bool
is_destructive (Call.terminate_backends _) = true
is_destructive (Call.drop_database _) = true
is_destructive (Call.create_database _ _) = true
is_destructive (Call.control (Statement.drop_schemas _)) = true
is_destructive (Call.control (Statement.set_fsync _)) = true
is_destructive (Call.control Statement.reset_fsync) = true
is_destructive (Call.host_command (Command.pg_ctl action)) = str_eq action "stop"
is_destructive Call.container_stop = true
is_destructive (Call.patroni_command action) = str_eq action "restart"
is_destructive _ = false

-- Calls after which the lock may be gone: it is released, its connection is opened anew or closed,
-- or the server stops.
abbrev pub is_loss : Call → Bool
is_loss (Call.control Statement.advisory_unlock) = true
is_loss (Call.control_connect _) = true
is_loss Call.control_close = true
is_loss (Call.host_command (Command.pg_ctl action)) = str_eq action "stop"
is_loss Call.container_stop = true
is_loss (Call.patroni_command action) = str_eq action "restart"
is_loss _ = false

-- Calls that open the control connection or take the lock.
abbrev pub is_connect : Call → Bool
is_connect (Call.control_connect _) = true
is_connect _ = false

abbrev pub is_try_lock : Call → Bool
is_try_lock (Call.control Statement.try_advisory_lock) = true
is_try_lock _ = false

abbrev pub is_opening : Call → Bool
is_opening c = is_connect c || is_try_lock c

abbrev pub answers_true : Reply → Bool
answers_true (returns v) = is_true v
answers_true (raises _) = false

abbrev pub answers_false : Reply → Bool
answers_false (returns v) = not (is_true v)
answers_false (raises _) = false

-- The last event is the successful `pg_try_advisory_lock`.
abbrev pub takes_lock : Call → Reply → Bool
takes_lock (Call.control Statement.try_advisory_lock) r = answers_true r
takes_lock _ r = false

abbrev pub just_taken : List Event → Bool
just_taken [] = false
just_taken (e ∷ t) = takes_lock e.call e.reply

-- The event shows that this session holds the lock: the server says so, or no other session held it
-- right after this one had taken it.
abbrev pub is_confirmation : Call → Reply → List Event → Bool
is_confirmation (Call.control Statement.held_here) r t = answers_true r
is_confirmation (Call.control Statement.foreign_lock) r t = answers_false r && just_taken t
is_confirmation _ r t = false

abbrev pub confirmed : List Event → Bool
confirmed [] = false
confirmed (e ∷ t) =
    let before = confirmed t in
    if is_confirmation e.call e.reply t then true else if is_loss e.call then false else before

-- The call leaves other databases alone, the protected ones above all, and system schemas too. With
-- no database of its own, a run may reset nothing and stop nothing.
abbrev pub is_own : Option String → String → Bool
is_own none d = false
is_own (some own) d = str_eq d own && not (is_protected d)

abbrev pub may_drop : Option String → List String → Bool
may_drop none schemas = false
may_drop (some own) schemas = not (is_protected own) && is_resettable schemas

abbrev pub may_stop : Option String → Bool
may_stop none = false
may_stop (some own) = true

abbrev pub is_confined : Option String → Call → Bool
is_confined own (Call.terminate_backends d) = is_own own d
is_confined own (Call.drop_database d) = is_own own d
is_confined own (Call.create_database d _) = is_own own d
is_confined own (Call.control (Statement.drop_schemas schemas)) = may_drop own schemas
is_confined own (Call.host_command (Command.pg_ctl action)) =
    if str_eq action "stop" then may_stop own else true
is_confined own Call.container_stop = may_stop own
is_confined own (Call.patroni_command action) =
    if str_eq action "restart" then may_stop own else true
is_confined own _ = true

abbrev pub IsAllowed : Option String → Call → List Event → Type 0
IsAllowed own c t = (is_destructive c ≡ true → confirmed t ≡ true) × (is_confined own c ≡ true)

-- Every destructive call was made with the lock confirmed, and was confined.
abbrev pub Guarded : Option String → List Event → Type 0
Guarded own [] = Unit
Guarded own (e ∷ t) = IsAllowed own e.call t × Guarded own t

-- What is known of the lock: nothing, that it is held, or that there is no control connection.
pub data Knowledge : Type 0 where
  unknown held absent : Knowledge

abbrev pub Known : Knowledge → List Event → Type 0
Known unknown t = Unit
Known absent t = Unit
Known held t = confirmed t ≡ true

abbrev pub guard_protocol : Option String → Protocol Settings
guard_protocol own = on_trace (Guarded own) Known unknown (λ t. tt)

module _ (own : Option String) (env : Env) where
  -- A call that neither needs the lock nor endangers it.
  pub neutral :
      {k : Knowledge} (c : Call)
      → is_destructive c ≡ false
      → is_loss c ≡ false
      → is_confined own c ≡ true
      → Steps (guard_protocol own) k (call env c) k
  neutral {k} c harmless kept confined = Steps-call _ _ _ _ env c (keep k)
    where
      keep :
          (k : Knowledge) (t : List Event) (r : Reply)
          → Guarded own t
          → Known k t
          → Guarded own (record { call = c; reply = r } ∷ t)
            × Known k (record { call = c; reply = r } ∷ t)
      keep unknown t r g h = (((λ d. ground arith, confined), g), tt)
      keep absent t r g h = (((λ d. ground arith, confined), g), tt)
      keep held t r g h = (((λ d. h, confined), g), ground arith)

  -- A destructive call that leaves the lock in place.
  pub protected :
      (c : Call)
      → is_loss c ≡ false
      → is_confined own c ≡ true
      → Steps (guard_protocol own) held (call env c) held
  protected c kept confined = Steps-call _ _ _ _ env c keep
    where
      keep :
          (t : List Event) (r : Reply)
          → Guarded own t
          → Known held t
          → Guarded own (record { call = c; reply = r } ∷ t)
            × Known held (record { call = c; reply = r } ∷ t)
      keep t r g h = (((λ d. h, confined), g), ground arith)

  -- A call after which the lock is not known to be held.
  pub loses :
      (c : Call)
      → is_destructive c ≡ false
      → is_confined own c ≡ true
      → Steps (guard_protocol own) unknown (call env c) unknown
  loses c harmless confined =
      Steps-call _ _ _ _ env c (λ t r g h. (((λ d. ground arith, confined), g), tt))

  -- The same for a destructive one.
  pub stops :
      (c : Call) → is_confined own c ≡ true → Steps (guard_protocol own) held (call env c) unknown
  stops c confined = Steps-call _ _ _ _ env c (λ t r g h. (((λ d. h, confined), g), tt))
