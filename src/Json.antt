-- ===== src/Json.antt =====
-- The values of Python that the program reads from JSON documents and from parsed arguments, and its
-- tests on them: `dict.get`, `bool(…)`, `isinstance` and `==`.
pub mod Equality
use pg_perf_bench.Prelude.{
  ℕ, ◌==◌, ◌*◌, suc, ℤ, Float, Bool, true, false, not, ◌&&◌, ◌||◌, String, Option, none, some, List,
  [], ◌∷◌, str_eq, if◌then◌else◌,
}

mutual
  pub data Value : Type 0 where
    null : Value
    flag : Bool → Value
    integer : ℤ → Value
    real : Float → Value
    text : String → Value
    array : Items → Value
    object : Fields → Value

  pub data Items : Type 0 where
    entry : Value → Items → Items
    empty : Items

  -- A `dict`, in the order of its keys.
  pub data Fields : Type 0 where
    end : Fields
    field : String → Value → Fields → Fields

-- `values[name]`, `none` where the key is missing.
unfoldable pub find : String → Fields → Option Value
find name Fields.end = none
find name (Fields.field key value rest) =
    let later = find name rest in if str_eq name key then some value else later

-- `values.get(name, default)`
unfoldable pub get_or : Value → String → Fields → Value
unfolding find
get_or default name values = elim (find name values) [ none ↦ default | some value ↦ value ]

-- `values.get(name)`
abbrev pub get : String → Fields → Value
get = get_or Value.null

-- `name in values`
unfoldable pub has : String → Fields → Bool
unfolding find
has name values = elim (find name values) [ none ↦ false | some value ↦ true ]

-- `bool(value)`
abbrev pub is_truthy : Value → Bool
is_truthy Value.null = false
is_truthy (Value.flag b) = b
is_truthy (Value.integer (ℤ.pos n)) = not (n == 0)
is_truthy (Value.integer (ℤ.negsuc n)) = true
is_truthy (Value.real (Float.finite s n d)) = not (n == 0)
is_truthy (Value.real _) = true
is_truthy (Value.text s) = not (str_eq s "")
is_truthy (Value.array Items.empty) = false
is_truthy (Value.array (Items.entry x xs)) = true
is_truthy (Value.object Fields.end) = false
is_truthy (Value.object (Fields.field k v fs)) = true

-- `value is None`
abbrev pub is_null : Value → Bool
is_null Value.null = true
is_null _ = false

-- `value == s` for a text `s`.
abbrev pub is_text : String → Value → Bool
is_text s (Value.text t) = str_eq s t
is_text s _ = false

-- `a or b`
abbrev pub or_else : Value → Value → Value
or_else a b = if is_truthy a then a else b

abbrev pub to_list : Items → List Value
to_list Items.empty = []
to_list (Items.entry x xs) = x ∷ to_list xs

abbrev pub from_list : List Value → Items
from_list [] = Items.empty
from_list (x ∷ xs) = Items.entry x (from_list xs)

abbrev pub append : Items → Items → Items
append Items.empty ys = ys
append (Items.entry x xs) ys = Items.entry x (append xs ys)

-- `values[name] = value`: in place where the key is there, at the end where it is not.
unfoldable pub put : String → Value → Fields → Fields
put name value Fields.end = Fields.field name value Fields.end
put name value (Fields.field key old rest) =
    let later = put name value rest in
    if str_eq name key then Fields.field key value rest else Fields.field key old later
