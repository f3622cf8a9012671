-- ===== src/Contracts/Redaction.antt =====
-- `is_secret_field`, `redact_text` and `redact_mapping` (src/pg_perf_bench/contracts.py). A value is a
-- JSON value, so that a mapping is a `dict` with texts for keys.
use pg_perf_bench.Prelude.{
  ℕ, ltb, Bool, ◌||◌, String, Option, none, some, List, [], ◌∷◌, str_eq, elem, chars, replace,
  strip, if◌then◌else◌, lower_in, lower, codes, codes_eq,
}
use pg_perf_bench.Json.{Value, Items, Fields}

abbrev pub secret_fields : List String
secret_fields =
    "password" ∷ "pg_password" ∷ "workload_password" ∷ "admin_password" ∷ "ssh_key_passphrase"
    ∷ "dsn" ∷ []

-- A list of code points ends with another.
abbrev pub ends_with_codes : (suffix : List ℕ) → List ℕ → Bool
ends_with_codes suffix [] = codes_eq suffix []
ends_with_codes suffix (c ∷ s) = codes_eq suffix (c ∷ s) || ends_with_codes suffix s

unfoldable pub is_secret_field : String → Bool
is_secret_field name =
    let normalized = strip name in
    lower_in normalized secret_fields || ends_with_codes (codes "_password") (lower normalized)

-- `{item for item in secrets if item}`
abbrev pub distinct : List (Option String) → List String
distinct [] = []
distinct (none ∷ items) = distinct items
distinct (some s ∷ items) =
    let rest = distinct items in
    if str_eq s "" then rest else (if elem s rest then rest else s ∷ rest)

-- `sorted(…, key=len, reverse=True)`
abbrev pub insert_longer : String → List String → List String
insert_longer s [] = s ∷ []
insert_longer s (t ∷ ts) =
    let rest = insert_longer s ts in if ltb (chars s) (chars t) then t ∷ rest else s ∷ t ∷ ts

abbrev pub longest_first : List String → List String
longest_first [] = []
longest_first (s ∷ ss) = insert_longer s (longest_first ss)

abbrev pub mask : String
mask = "***"

-- The loop of `redact_text`.
unfoldable pub replace_all : List String → String → String
replace_all [] s = s
replace_all (secret ∷ rest) s = replace_all rest (replace secret mask s)

unfoldable pub redact_text : String → List (Option String) → String
unfolding replace_all
redact_text value secrets = replace_all (longest_first (distinct secrets)) value

-- `'***' if item not in (None, '') else item`
unfoldable pub hide : Value → Value
hide Value.null = Value.null
hide (Value.text s) = if str_eq s "" then Value.text s else Value.text mask
hide _ = Value.text mask

module _ (secrets : List (Option String)) where
  unfoldable mutual
    unfolding redact_text is_secret_field hide

    pub redact_mapping : Fields → Fields
    redact_mapping Fields.end = Fields.end
    redact_mapping (Fields.field key item rest) =
        let shown = redact_value item in
        let others = redact_mapping rest in
        Fields.field key (if is_secret_field key then hide item else shown) others

    -- The branches on an item whose key is not secret.
    pub redact_value : Value → Value
    redact_value (Value.object fields) = Value.object (redact_mapping fields)
    redact_value (Value.array items) = Value.array (redact_entries items)
    redact_value (Value.text s) = Value.text (redact_text s secrets)
    redact_value item = item

    pub redact_entries : Items → Items
    redact_entries Items.empty = Items.empty
    redact_entries (Items.entry entry rest) =
        let others = redact_entries rest in Items.entry (redact_entry entry) others

    -- An entry of a list: a mapping, a text, or anything else as it is.
    pub redact_entry : Value → Value
    redact_entry (Value.object fields) = Value.object (redact_mapping fields)
    redact_entry (Value.text s) = Value.text (redact_text s secrets)
    redact_entry entry = entry
