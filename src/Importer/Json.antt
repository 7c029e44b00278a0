-- ===== src/Importer/Json.antt =====
-- The values that `json.loads` returns, with Python's `bool(x)` and `x.get(key)` on them.
use where_to_tls.Base.{
  zero, suc, String, Bool, true, false, not, Option, none, some, ℤ, pos, negsuc, if◌then◌else◌,
  ◌==◌, string_eq,
}

-- `real m e` is the float of m * 10^e.
mutual
  pub data Json : Type 0 where
    null : Json
    truth : Bool → Json
    int : ℤ → Json
    real : ℤ → ℤ → Json
    text : String → Json
    array : Items → Json
    object : Fields → Json

  pub data Items : Type 0 where
    no_item : Items
    item_and : Json → Items → Items

  pub data Fields : Type 0 where
    no_field : Fields
    field_and : String → Json → Fields → Fields

-- `object.get(key)`; the last one of equal keys counts.
unfoldable pub get : String → Fields → Option Json
unfolding string_eq
get key no_field = none
get key (field_and name value fields) =
    let later = get key fields in
    elim later [ some found ↦ some found | none ↦ if key == name then some value else none ]

-- `object.get(key, default)`
unfoldable pub get_or_json : String → Json → Fields → Json
get_or_json key default fields = elim (get key fields) [ some value ↦ value | none ↦ default ]

is_zero : ℤ → Bool
is_zero (pos zero) = true
is_zero (pos (suc n)) = false
is_zero (negsuc n) = false

-- `bool(x)`
unfoldable pub truthy : Json → Bool
unfolding is_zero string_eq
truthy null = false
truthy (truth b) = b
truthy (int n) = not (is_zero n)
truthy (real m e) = not (is_zero m)
truthy (text s) = not (s == "")
truthy (array no_item) = false
truthy (array (item_and x xs)) = true
truthy (object no_field) = false
truthy (object (field_and k x xs)) = true

-- `x == s` with a text s
unfoldable pub is_text : String → Json → Bool
unfolding string_eq
is_text s (text t) = t == s
is_text s _ = false
