-- ===== src/Json/Equality.antt =====
-- Python's `==` on JSON values: numbers by value whatever their type, a `dict` whatever its order. The
-- entries of a list or a `dict` are also equal where they are one object, and every NaN of the documents
-- that `json` reads is one object.
use pg_perf_bench.Prelude.{
  ℕ, ◌==◌, ◌*◌, suc, ℤ, Float, Bool, true, false, not, ◌&&◌, ◌||◌, Option, none, some, str_eq,
}
use pg_perf_bench.Json.{Value, Items, Fields, has, get_or, get}

-- A Boolean is an integer.
abbrev pub number_of : Value → Option Float
number_of (Value.flag true) = some (Float.finite false 1 0)
number_of (Value.flag false) = some (Float.finite false 0 0)
number_of (Value.integer (ℤ.pos n)) = some (Float.finite false n 0)
number_of (Value.integer (ℤ.negsuc n)) = some (Float.finite true (suc n) 0)
number_of (Value.real x) = some x
number_of _ = none

abbrev same_sign : Bool → Bool → Bool
same_sign true b = b
same_sign false b = not b

abbrev pub float_eq : Float → Float → Bool
float_eq (Float.infinite s) (Float.infinite t) = same_sign s t
float_eq (Float.finite s n d) (Float.finite t m e) =
    n == 0 && m == 0 || same_sign s t && n * suc e == m * suc d
float_eq _ _ = false

abbrev number_eq : Float → Option Float → Bool
number_eq x none = false
number_eq x (some y) = float_eq x y

abbrev pub is_nan : Value → Bool
is_nan (Value.real Float.nan) = true
is_nan _ = false

abbrev pub count_fields : Fields → ℕ
count_fields Fields.end = 0
count_fields (Fields.field k v rest) = suc (count_fields rest)

unfoldable mutual
  unfolding has get_or

  pub value_eq : Value → Value → Bool
  value_eq Value.null Value.null = true
  value_eq (Value.text s) (Value.text t) = str_eq s t
  value_eq (Value.array xs) (Value.array ys) = items_eq xs ys
  value_eq (Value.object fs) (Value.object gs) =
      count_fields fs == count_fields gs && fields_eq fs gs
  value_eq (Value.flag true) y = number_eq (Float.finite false 1 0) (number_of y)
  value_eq (Value.flag false) y = number_eq (Float.finite false 0 0) (number_of y)
  value_eq (Value.integer (ℤ.pos n)) y = number_eq (Float.finite false n 0) (number_of y)
  value_eq (Value.integer (ℤ.negsuc n)) y = number_eq (Float.finite true (suc n) 0) (number_of y)
  value_eq (Value.real x) y = number_eq x (number_of y)
  value_eq _ _ = false

  pub items_eq : Items → Items → Bool
  items_eq Items.empty Items.empty = true
  items_eq (Items.entry x xs) (Items.entry y ys) =
      (is_nan x && is_nan y || value_eq x y) && items_eq xs ys
  items_eq _ _ = false

  -- Every field of the first is in the second, with an equal value.
  pub fields_eq : Fields → Fields → Bool
  fields_eq Fields.end gs = true
  fields_eq (Fields.field k v rest) gs =
      let here = is_nan v && is_nan (get k gs) || value_eq v (get k gs) in
      let others = fields_eq rest gs in has k gs && here && others

-- Equal, or one object: what `in` and a `set` ask of their members.
unfoldable pub entry_eq : Value → Value → Bool
unfolding value_eq
entry_eq x y = is_nan x && is_nan y || value_eq x y
