-- ===== src/Release.antt =====
-- What a run holds on the server, read off the events: the control connection and the server lock
-- (src/pg_perf_bench/initialization_settings.py). A lock counts as released once the server was asked to
-- release it, or once its connection was found closed; that its connection is closed later is not enough,
-- since a pooler may keep the session.
pub mod Connection
pub mod Controller
use pg_perf_bench.Prelude.{Bool, true, false, not, ◌&&◌, ◌||◌, ◌≡◌, List, [], ◌∷◌, if◌then◌else◌}
use pg_perf_bench.Effects.{Call, Statement, Reply, returns, raises, Event, World}
use pg_perf_bench.Settings.{Settings}
use pg_perf_bench.Guard.{
  answers_true, answers_false, is_connect, is_try_lock, Knowledge, unknown, held, absent,
}
use pg_perf_bench.Guard.Watch.{holds_of}

abbrev pub is_return : Reply → Bool
is_return (returns _) = true
is_return (raises _) = false

abbrev pub is_close : Call → Bool
is_close Call.control_close = true
is_close _ = false

abbrev pub is_unlock : Call → Bool
is_unlock (Call.control Statement.advisory_unlock) = true
is_unlock _ = false

abbrev pub is_check : Call → Bool
is_check Call.control_is_closed = true
is_check _ = false

-- A control connection was opened, and nobody has attempted to close it since.
abbrev pub is_open : List Event → Bool
is_open [] = false
is_open (e ∷ t) =
    let before = is_open t in
    if is_connect e.call && is_return e.reply
    then true
    else if is_close e.call
    then false
    else before

-- The lock was taken on an open connection, and since then no release of it was attempted, nor was its
-- connection found closed.
abbrev pub is_locked : List Event → Bool
is_locked [] = false
is_locked (e ∷ t) =
    let before = is_locked t in
    if is_try_lock e.call && answers_true e.reply && is_open t
    then true
    else if is_unlock e.call || is_check e.call && not (answers_false e.reply)
    then false
    else before

-- No connection is open, no lock is held, and the attributes say so.
abbrev pub ReleasedOf : (Bool × Bool × Bool × Bool) → List Event → Type 0
ReleasedOf (db, session, entered, lock_acquired) t =
    (is_open t ≡ false)
    × (is_locked t ≡ false)
    × (db ≡ false)
    × (entered ≡ false)
    × (lock_acquired ≡ false)

abbrev pub IsReleased : World Settings → Type 0
IsReleased w = ReleasedOf (holds_of w.self) w.trace

-- The attributes account for what is open and held.
abbrev pub TidyOf : (Bool × Bool × Bool × Bool) → List Event → Type 0
TidyOf (db, session, entered, lock_acquired) t =
    ((not (is_open t) || db && session && entered) ≡ true)
    × ((not (is_locked t) || db && lock_acquired) ≡ true)

abbrev pub IsTidy : World Settings → Type 0
IsTidy w = TidyOf (holds_of w.self) w.trace

abbrev pub HoldsOf : Knowledge → (Bool × Bool × Bool × Bool) → List Event → Type 0
HoldsOf unknown h t = TidyOf h t
HoldsOf held h t = TidyOf h t
HoldsOf absent h t = ReleasedOf h t
