-- ===== src/Clients/Latest.antt =====
-- The clients that are selected (src/pg_perf_bench/client_tools.py).
use pg_perf_bench.Prelude.{
  Bool, true, false, ◌||◌, ◌≡◌, refl, Option, none, some, String, List, [], ◌∷◌, All, arith,
  if◌then◌else◌,
}
use mathlib.Core.Path.{subst}
use pg_perf_bench.Effects.{Exc, Result, ok, err}
use pg_perf_bench.Dataset.{winner}
use pg_perf_bench.Dataset.Best.{winner-IsLargest}
use pg_perf_bench.Clients.Tools.{
  ClientTool, is_older, Outside, sorts_before, keyed, newest, not_older, after_inspection,
  select_from, select_installed, installed_client_tools, select_latest_client_tool,
}

older_trans :
    (a b c : ClientTool) → is_older a b ≡ false → is_older b c ≡ false → is_older a c ≡ false
older_trans a b c h k = grind arith

or_left : (a b : Bool) → (a || b) ≡ false → a ≡ false
or_left true b h = cc
or_left false b h = refl

some-injective : {a b : ClientTool} → some a ≡ some b → a ≡ b
some-injective q = cc

ok-injective : {a b : ClientTool} → ok a ≡ ok b → a ≡ b
ok-injective q = cc

picked :
    (b : Bool) (u t : ClientTool)
    → (if b then err Exc.configuration else ok u) ≡ ok t
    → (b ≡ false) × (u ≡ t)
picked true u t h = cc
picked false u t h = (refl, cc)

module _ (outside : Outside) where
  not_before : (a b : ClientTool) → sorts_before outside a b ≡ false → is_older a b ≡ false
  unfolding sorts_before
  not_before a b h = or_left _ _ h

  module _ (irreflexive : (p : String) → outside.path_less p p ≡ false)
      (transitive : (p q r : String)
        → outside.path_less p q ≡ true
        → outside.path_less q r ≡ true
        → outside.path_less p r ≡ true) where
    before-irreflexive : (a : ClientTool) → sorts_before outside a a ≡ false
    unfolding sorts_before
    before-irreflexive a = let p = irreflexive a.path in grind arith

    before-transitive :
        (a b c : ClientTool)
        → sorts_before outside a b ≡ true
        → sorts_before outside b c ≡ true
        → sorts_before outside a c ≡ true
    unfolding sorts_before
    before-transitive a b c h k = let p = transitive a.path b.path c.path in grind arith

    All-keyed :
        (t : ClientTool) (tools : List ClientTool)
        → All (λ y. sorts_before outside t (y.0) ≡ false) (keyed outside tools)
        → All (λ x. is_older t x ≡ false) tools
    All-keyed t [] h = tt
    All-keyed t (x ∷ xs) (hx, h) = (not_before t x hx, All-keyed t xs h)

    newest-IsLatest :
        (tools : List ClientTool) {t : ClientTool}
        → newest outside tools ≡ some t
        → All (λ x. is_older t x ≡ false) tools
    unfolding newest
    newest-IsLatest tools h = chosen (winner (sorts_before outside) (keyed outside tools)) refl h
      where
        chosen :
            {t : ClientTool} (o : Option (ClientTool × Unit {0}))
            → winner (sorts_before outside) (keyed outside tools) ≡ o
            → (elim o [ none ↦ none | some best ↦ some (best.0) ]) ≡ some t
            → All (λ x. is_older t x ≡ false) tools
        chosen none q k = cc
        chosen (some best) q k =
            subst (λ t. All (λ x. is_older t x ≡ false) tools) (some-injective k)
              (All-keyed (best.0) tools (
                (winner-IsLargest (sorts_before outside) before-irreflexive before-transitive
                  (keyed outside tools) q).1))

    raise-All :
        (latest t : ClientTool) (tools : List ClientTool)
        → is_older t latest ≡ false
        → All (λ x. is_older latest x ≡ false) tools
        → All (λ x. is_older t x ≡ false) tools
    raise-All latest t [] q h = tt
    raise-All latest t (x ∷ xs) q (hx, h) = (older_trans t latest x q hx, raise-All latest t xs q h)

    not_older-ok :
        (latest selected t : ClientTool)
        → not_older outside latest selected ≡ ok t
        → is_older t latest ≡ false
    unfolding not_older
    not_older-ok latest selected t h =
        let (same, q) = picked (is_older selected latest) selected t h in
        subst (λ u. is_older u latest ≡ false) q same

    select_from-IsLatest :
        (name : String) (requested : Option String) (tools : List ClientTool)
        (o : Option ClientTool) (t : ClientTool)
        → newest outside tools ≡ o
        → select_from outside name requested o ≡ ok t
        → All (λ x. is_older t x ≡ false) tools
    unfolding select_from
    select_from-IsLatest name requested tools none t q h = cc
    select_from-IsLatest name none tools (some latest) t q h =
        subst (λ u. All (λ x. is_older u x ≡ false) tools) (ok-injective h)
          (newest-IsLatest tools q)
    select_from-IsLatest name (some path) tools (some latest) t q h =
        inspected_at (outside.inspect_client_tool name path) h
      where
        inspected_at :
            (r : Result ClientTool)
            → after_inspection outside latest r ≡ ok t
            → All (λ x. is_older t x ≡ false) tools
        inspected_at (ok selected) k =
            raise-All latest t tools (not_older-ok latest selected t k) (newest-IsLatest tools q)
        inspected_at (err e) k = cc

    installed-IsLatest :
        (name : String) (requested : Option String) (t : ClientTool)
        (installed : Result (List ClientTool))
        → select_installed outside name requested installed ≡ ok t
        → (tools : List ClientTool) × (installed ≡ ok tools) × All (λ x. is_older t x ≡ false) tools
    installed-IsLatest name requested t (ok tools) h =
        (tools, refl, select_from-IsLatest name requested tools _ t refl h)
    installed-IsLatest name requested t (err e) h = cc

    -- With an order of paths that is irreflexive and transitive, when a client is selected, be it
    -- requested or found, the installed ones could be listed, and it is not older than any of them.
    pub select_latest_client_tool-IsLatest :
        (name : String) (requested : Option String) (t : ClientTool)
        → select_latest_client_tool outside name requested ≡ ok t
        → (tools : List ClientTool) × (installed_client_tools outside name ≡ ok tools)
          × All (λ x. is_older t x ≡ false) tools
    unfolding select_latest_client_tool
    select_latest_client_tool-IsLatest name requested t h =
        installed-IsLatest name requested t (installed_client_tools outside name) h
