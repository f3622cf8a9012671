-- ===== src/Loader/Durable.antt =====
-- The tables after a load (src/pg_perf_bench/initialization.py).
use pg_perf_bench.Prelude.{
  Bool, true, false, ◌≡◌, inl, inr, refl, ap, ◌∙◌, str_eq_iff, String, List, [], ◌∷◌, ◌||◌, str_eq,
  elem, Bool-cases, if◌then◌else◌,
}
use pg_perf_bench.Effects.{Result, ok, err, World, M, when, continue, ◌>>=◌, ◌>>◌}
use pg_perf_bench.Effects.Rules.{
  Protocol, After, Steps, Steps-pure, Steps-gets, Steps-always, Steps-if, Steps-when, ◌▸◌, ◌⨟◌,
}
use pg_perf_bench.Loader.Prepare.{
  Sql, Server, Phases, Log, execute, fetch, set_mode, log_tables, vacuum_tables, create_schema,
  load_tables, complete_schema, prepare_database,
}

-- Whether the last `ALTER TABLE` that the load has sent for a table is `SET LOGGED`. A table for which
-- there is none yet may have been created either way.
abbrev pub after_sql : String → Sql → Bool → Bool
after_sql t (Sql.set_unlogged u) before = if str_eq t u then false else before
after_sql t (Sql.set_logged u) before = if str_eq t u then true else before
after_sql t _ before = before

abbrev pub is_logged : String → Log → Bool
is_logged t [] = false
is_logged t (sql ∷ log) = after_sql t sql (is_logged t log)

data Stage : Type 0 where
  unknown : Stage
  only : List String → Stage

-- Of the tables of the plan, only these may be unlogged.
abbrev AtStage : List String → Stage → Log → Type 0
AtStage tables unknown log = Unit {0}
AtStage tables (only ts) log =
    (t : String) → elem t tables ≡ true → (is_logged t log || elem t ts) ≡ true

abbrev staged : List String → Protocol Log
staged tables = record {
  Degree = Stage;
  Holds = λ k w. AtStage tables k w.self;
  least = unknown;
  weaken = λ k w h. tt;
}

settles : (a b c : Bool) → (a || (b || c)) ≡ true → ((if b then true else a) || c) ≡ true
settles a true c h = refl
settles a false c h = h

loosens :
    (a b c : Bool)
    → (a || c) ≡ true
    → (b ≡ true → c ≡ true)
    → ((if b then false else a) || c) ≡ true
loosens a true c h next = next refl
loosens a false c h next = h

or_right : (a : Bool) {b : Bool} → b ≡ true → (a || b) ≡ true
or_right true h = refl
or_right false h = h

same_text :
    (t u : String) (ts : List String) → elem u ts ≡ true → str_eq t u ≡ true → elem t ts ≡ true
same_text t u ts h q = ap (λ x. elem x ts) ((str_eq_iff t u).0 q) ∙ h

module _ (tables : List String) (server : Server) where
  abbrev P : Protocol Log
  P = staged tables

  executes :
      (sql : Sql) (ts us : List String)
      → ((log : Log) → AtStage tables (only ts) log → AtStage tables (only us) (sql ∷ log))
      → Steps P (only ts) (execute server sql) (only us)
  unfolding execute
  executes sql ts us next = Steps-always (λ w h. next w.self h)

  neutral :
      (sql : Sql) (ts : List String)
      → ((t : String) (b : Bool) → after_sql t sql b ≡ b)
      → Steps P (only ts) (execute server sql) (only ts)
  neutral sql ts same =
      executes sql ts ts (λ log h t found. rw (same t (is_logged t log)) (h t found))

  fetches :
      {A : Type 0} (sql : Sql) (rows : Log → A) (ts : List String)
      → ((t : String) (b : Bool) → after_sql t sql b ≡ b)
      → Steps P (only ts) (fetch server sql rows) (only ts)
  unfolding fetch
  fetches sql rows ts same = Steps-gets _ ▸ λ found. neutral sql ts same ⨟ Steps-pure found

  logs :
      (u : String) (ts : List String)
      → Steps P (only (u ∷ ts)) (execute server (Sql.set_logged u)) (only ts)
  logs u ts =
      executes _ _ _
        (λ log h t found. settles (is_logged t log) (str_eq t u) (elem t ts) (h t found))

  -- A table that is logged is one table less, but what is left may be any list.
  unlogs :
      (u : String) (ts : List String)
      → elem u ts ≡ true
      → Steps P (only ts) (execute server (Sql.set_unlogged u)) (only ts)
  unlogs u ts within = executes _ _ _ (λ log h t found.
      loosens (is_logged t log) (str_eq t u) (elem t ts) (h t found) (same_text t u ts within))

  relogs :
      (u : String) (ts : List String)
      → Steps P (only ts) (execute server (Sql.set_logged u)) (only ts)
  relogs u ts =
      executes _ _ _
        (λ log h t found. settled (is_logged t log) (str_eq t u) (elem t ts) (h t found))
    where
      settled : (a b c : Bool) → (a || c) ≡ true → ((if b then true else a) || c) ≡ true
      settled a true c h = refl
      settled a false c h = h

  module _ (p : Phases) where
    abbrev IsWithin : List String → Type 0
    IsWithin ts = (u : String) → elem u ts ≡ true → elem u tables ≡ true

    set_mode-unlogs :
        (ts : List String)
        → IsWithin ts
        → Steps P (only tables) (set_mode server p ts) (only tables)
    unfolding set_mode
    set_mode-unlogs [] within = Steps-pure tt
    set_mode-unlogs (t ∷ ts) within =
        Steps-if _ (unlogs t tables (within t (rw ((str_eq_iff t t).1 refl) refl)))
          (relogs t tables)
        ⨟ set_mode-unlogs ts (λ u h. within u (or_right (str_eq u t) h))

    log_tables-logs : (ts : List String) → Steps P (only ts) (log_tables server p ts) (only [])
    unfolding log_tables
    log_tables-logs [] = Steps-pure tt
    log_tables-logs (t ∷ ts) = logs t ts ⨟ log_tables-logs ts

    vacuum_tables-neutral :
        (ts us : List String) → Steps P (only us) (vacuum_tables server p ts) (only us)
    unfolding vacuum_tables
    vacuum_tables-neutral [] us = Steps-pure tt
    vacuum_tables-neutral (t ∷ ts) us = neutral _ us (λ _ b. refl) ⨟ vacuum_tables-neutral ts us

    complete_schema-neutral : Steps P (only []) (complete_schema server p) (only [])
    unfolding complete_schema
    complete_schema-neutral =
        neutral _ [] (λ _ b. refl)
        ⨟ neutral _ [] (λ _ b. refl)
        ⨟ Steps-when _ (neutral _ [] (λ _ b. refl))
        ⨟ fetches _ _ [] (λ _ b. refl)
        ▸ λ stored. vacuum_tables-neutral stored [] ⨟ fetches _ _ [] (λ _ b. refl) ▸ λ relations.
            Steps-when _ (neutral _ [] (λ _ b. refl))

    set_mode-logs :
        (ts : List String)
        → str_eq p.table_mode "unlogged" ≡ false
        → Steps P (only ts) (set_mode server p ts) (only [])
    unfolding set_mode
    set_mode-logs [] q = Steps-pure tt
    set_mode-logs (t ∷ ts) q = sets _ q ⨟ set_mode-logs ts q
      where
        sets :
            (b : Bool)
            → b ≡ false
            → Steps P
                (only (t ∷ ts))
                (if b
                  then execute server (Sql.set_unlogged t)
                  else execute server (Sql.set_logged t))
                (only ts)
        sets true h = cc
        sets false h = logs t ts

    load_tables-logs : Steps P (only tables) (load_tables server p tables) (only [])
    unfolding load_tables when
    load_tables-logs = elim (Bool-cases (str_eq p.table_mode "unlogged")) [
      | inl unlogged ↦
          set_mode-unlogs tables (λ u h. h)
          ⨟ Steps-when _ (neutral _ tables (λ _ b. refl))
          ⨟ neutral _ tables (λ _ b. refl)
          ⨟ Steps-when _ (neutral _ tables (λ _ b. refl))
          ⨟ both _ _ unlogged (log_tables-logs tables)
      | inr logged ↦
          set_mode-logs tables logged
          ⨟ Steps-when _ (neutral _ [] (λ _ b. refl))
          ⨟ neutral _ [] (λ _ b. refl)
          ⨟ Steps-when _ (neutral _ [] (λ _ b. refl))
          ⨟ skips _ _ logged
    ]
      where
        both :
            (b : Bool) (m : M Log (Unit {0}))
            → b ≡ true
            → Steps P (only tables) m (only [])
            → Steps P (only tables) (when b m) (only [])
        both true m h steps = steps
        both false m h steps = cc

        skips :
            (b : Bool) (m : M Log (Unit {0})) → b ≡ false → Steps P (only []) (when b m) (only [])
        skips true m h = cc
        skips false m h = Steps-pure tt

    returns_logged :
        (r : Result (Unit {0})) (w : World Log)
        → After P (only []) r w
        → r ≡ ok tt
        → (t : String) → elem t tables ≡ true
        → is_logged t w.self ≡ true
    returns_logged (ok _) w h q t found = logged_only _ (h t found)
      where
        logged_only : (b : Bool) → (b || false) ≡ true → b ≡ true
        logged_only true k = refl
        logged_only false k = k
    returns_logged (err e) w h q t found = cc

    loaded :
        (w : World Log)
        → ((load_tables server p tables >> complete_schema server p) w).0 ≡ ok tt
        → (t : String) → elem t tables ≡ true
        → is_logged t ((load_tables server p tables >> complete_schema server p) w).1.self ≡ true
    loaded w returned =
        returns_logged _ _
          ((load_tables-logs ⨟ complete_schema-neutral).at w (λ t found. or_right _ found)) returned

module _ (server : Server) (p : Phases) where
  after_schema :
      (r : Result (List String)) (w : World Log) (tables : List String)
      → r ≡ ok tables
      → (continue r w (λ ts. load_tables server p ts >> complete_schema server p)).0 ≡ ok tt
      → (t : String) → elem t tables ≡ true
      → is_logged t
          (continue r w (λ ts. load_tables server p ts >> complete_schema server p)).1.self
        ≡ true
  after_schema (ok ts) w tables q returned t found =
      loaded ts server p w returned t (ap (elem t) (listed q) ∙ found)
    where
      listed : ok ts ≡ ok tables → ts ≡ tables
      listed h = cc
  after_schema (err e) w tables q returned t found = cc

  -- If a load returns, then for each table that it has found after the schema, the last `ALTER TABLE`
  -- that it has sent is SET LOGGED, in either mode, and whether the schema has created it logged or
  -- unlogged.
  pub prepare_database-IsLogged :
      (w : World Log) (tables : List String)
      → (create_schema server p w).0 ≡ ok tables
      → (prepare_database server p w).0 ≡ ok tt
      → (t : String) → elem t tables ≡ true
      → is_logged t (prepare_database server p w).1.self ≡ true
  unfolding prepare_database ◌>>=◌
  prepare_database-IsLogged w tables listed returned =
      after_schema (create_schema server p w).0 (create_schema server p w).1 tables listed returned
