-- ===== src/Settings/Session.antt =====
-- The attributes of the object, and `loader_connection` (src/pg_perf_bench/initialization.py),
-- which opens its connection and restores the session options when it closes it.
use pg_perf_bench.Prelude.{
  Bool, true, false, not, String, Option, none, List, [], ◌∷◌, ◌++◌, ℕ, zero, suc, str_eq,
}
use pg_perf_bench.Effects.{
  Exc, Identity, Journal, Value, nothing, truth, text, Call, Env, M, pure, gets, modify, raise_if,
  when, ◌>>=◌, ◌>>◌, try_finally, on_error, call,
}

-- `LoadOptions`; the timeout in milliseconds.
pub record LoadOptions : Type 0 where
  pub workers : ℕ
  pub batch_rows : ℕ
  pub table_mode : String
  pub fsync : String
  pub synchronous_commit : String
  pub timeout : ℕ

pub data ConnectionType : Type 0 where
  ssh docker local managed : ConnectionType

abbrev pub is_managed : ConnectionType → Bool
is_managed ConnectionType.managed = true
is_managed _ = false

-- `db` and `session` say whether the attributes hold a connection and its context, and `entered` whether
-- the context has been entered: to leave one whose entry has failed does nothing. `has_connection` is
-- `self.connection is not None`, the transport to the host. `saved` is the `original` of
-- `loader_connection`.
pub record Settings : Type 0 where
  pub options : LoadOptions
  pub connection_type : ConnectionType
  pub has_connection : Bool
  pub control_database : String
  pub db : Bool
  pub session : Bool
  pub entered : Bool
  pub saved : List (String × String)
  pub lock_acquired : Bool
  pub state_path : Option String
  pub identity : Option Identity
  pub original : Option Journal
  pub changed : Bool
  pub replicas : List (List String)
  pub recover_only : Bool

-- `InitializationSettings(…)`
unfoldable pub create : LoadOptions → ConnectionType → Bool → String → Settings
create o kind connected database = record {
  options = o;
  connection_type = kind;
  has_connection = connected;
  control_database = database;
  db = false;
  session = false;
  entered = false;
  saved = [];
  lock_acquired = false;
  state_path = none;
  identity = none;
  original = none;
  changed = false;
  replicas = [];
  recover_only = false;
}

-- Python's truth of a value, and the text of one.
abbrev pub is_true : Value → Bool
is_true (truth b) = b
is_true (Value.number zero) = false
is_true (Value.number (suc n)) = true
is_true (Value.text s) = not (str_eq s "")
is_true (Value.texts []) = false
is_true (Value.texts (_ ∷ _)) = true
is_true (Value.journals []) = false
is_true (Value.replica_rows []) = false
is_true nothing = false
is_true _ = true

abbrev pub is_text : Value → String → Bool
is_text (text s) t = str_eq s t
is_text _ t = false

abbrev pub text_of : Value → String
text_of (text s) = s
text_of _ = ""

module _ (env : Env) where
  -- `cleanup`: put every saved option back, and close.
  unfoldable pub restore_options : List (String × String) → M Settings (Unit {0})
  restore_options [] = pure tt
  restore_options ((name, value) ∷ rest) =
      call env (Call.set_config name value) >> restore_options rest

  unfoldable pub leave_session : M Settings (Unit {0})
  unfolding restore_options
  leave_session =
      try_finally
        (do
          closed ← call env Call.control_is_closed
          saved ← gets (λ s. s.saved)
          when (not (is_true closed)) (restore_options saved))
        (call env Call.control_close >> pure tt)

  -- One session option: remember it, set it, and check that a pooler has applied it.
  unfoldable pub apply_option : String → String → M Settings (Unit {0})
  apply_option name value = do
    before ← call env (Call.current_setting name)
    modify (λ s. record s { saved = s.saved ++ (name, text_of before) ∷ [] })
    call env (Call.set_config name value)
    actual ← call env (Call.current_setting name)
    raise_if (not (is_text actual value)) Exc.configuration

  -- `loader_connection(…).__aenter__()` with no `search_path`.
  unfoldable pub enter_session : M Settings (Unit {0})
  unfolding apply_option leave_session
  enter_session = do
    o ← gets (λ s. s.options)
    database ← gets (λ s. s.control_database)
    call env (Call.control_connect database)
    modify (λ s. record s { saved = [] })
    on_error
        (when (not (str_eq o.synchronous_commit "keep"))
          (apply_option "synchronous_commit" o.synchronous_commit))
        leave_session
